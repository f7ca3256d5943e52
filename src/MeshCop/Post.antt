-- ===== src/MeshCop/Post.antt =====
-- main/meshcop.c: the requests that `coap_post` builds, read back by main/meshcop_codec.h.
use cores3_epskc_commissione.Base.{
  ℕ, zero, suc, ◌+◌, ◌*◌, ◌/◌, ◌%◌, ◌<◌, ◌≤◌, ◌≡◌, refl, ◌∙◌, true, false, Option, none, some, List,
  [], ◌∷◌, append_assoc, length, All, arith, lt→ltb,
}
use cores3_epskc_commissione.Base.Checked.{ok}
use cores3_epskc_commissione.MeshCop.Codec.{coap_payload, walk_options, coap_is_success}
use cores3_epskc_commissione.MeshCop.Format.{
  nibble_of, ext_bytes, CoapOption, Encodable, encode_option, encode_options, Message, encode,
}
use cores3_epskc_commissione.MeshCop.Message.{
  coap_payload-skip, length-encode_options, coap_payload-encode,
}
use cores3_epskc_commissione.MeshCop.Payload.{walk_options-encode_option}
use cores3_epskc_commissione.MeshCop.Client.{coap_post}

-- POST /c/<uri>, confirmable, with no token.
abbrev pub request : ℕ → List ℕ → Message
request mid uri = record {
  kind = 0;
  code = 2;
  id_hi = mid / 256;
  id_lo = mid % 256;
  token = [];
  options = record { delta = 11; value = b'c' ∷ [] } ∷ record { delta = 0; value = uri } ∷ [];
}

coap_post-encode :
    (mid : ℕ) (uri : List ℕ) (b : ℕ) (bs : List ℕ)
    → length uri < 13
    → coap_post mid uri (b ∷ bs) ≡ encode (request mid uri) (b ∷ bs)
unfolding coap_post encode encode_options encode_option nibble_of ext_bytes
coap_post-encode mid uri b bs h = rw (lt→ltb (length uri) 13 h, small (length uri) h, append_assoc)
  where
    small : (n : ℕ) → n < 13 → n % 256 ≡ 0 * 16 + n
    small n h = omega arith

is_request :
    (mid : ℕ) (uri payload : List ℕ) → coap_is_success (some (coap_post mid uri payload)) ≡ ok false
unfolding coap_is_success coap_post
is_request mid uri payload = ground arith

-- The request for an empty payload ends behind its options.
coap_post-options :
    (mid : ℕ) (uri : List ℕ)
    → length uri < 13
    → coap_post mid uri []
      ≡ 0x40 ∷ 0x02 ∷ (mid / 256) ∷ (mid % 256) ∷ encode_options (request mid uri).options
unfolding coap_post encode_options encode_option nibble_of ext_bytes
coap_post-options mid uri h = rw (lt→ltb (length uri) 13 h, small (length uri) h)
  where
    small : (n : ℕ) → n < 13 → n % 256 ≡ 0 * 16 + n
    small n h = omega arith

walk_options-end :
    (fuel : ℕ) (os : List CoapOption)
    → All Encodable os
    → length os ≤ fuel
    → walk_options fuel (encode_options os) ≡ ok none
unfolding encode_options
walk_options-end fuel [] h l = unfold walk_options in refl
walk_options-end zero (o ∷ os) h l = absurd (omega arith)
walk_options-end (suc fuel) (o ∷ os) h l =
    walk_options-encode_option fuel o (encode_options os) h.0
    ∙ walk_options-end fuel os h.1 (omega arith)

no_payload :
    (mid : ℕ) (uri : List ℕ)
    → length uri < 13
    → coap_payload (some (coap_post mid uri [])) true ≡ ok none
no_payload mid uri h =
    rw
      (
        coap_post-options mid uri h,
        coap_payload-skip 0x40 0x02 (mid / 256) (mid % 256)
            (encode_options (request mid uri).options) refl refl (omega arith),
      )
      (walk_options-end _ (request mid uri).options (omega arith, (omega arith, tt))
        (length-encode_options (request mid uri).options))

abbrev pub given : List ℕ → Option (List ℕ)
given [] = none
given (b ∷ bs) = some (b ∷ bs)

-- What `coap_post` builds for a URI of at most twelve bytes, `meshcop_coap_payload` reads back: the
-- same payload, or none where the payload was empty; and as a request it is no success response.
pub coap_post-coap_payload :
    (mid : ℕ) (uri payload : List ℕ)
    → length uri < 13
    → (coap_payload (some (coap_post mid uri payload)) true ≡ ok (given payload))
      × (coap_is_success (some (coap_post mid uri payload)) ≡ ok false)
coap_post-coap_payload mid uri [] h = (no_payload mid uri h, is_request mid uri [])
coap_post-coap_payload mid uri (b ∷ bs) h = (
  rw (coap_post-encode mid uri b bs h) (
      coap_payload-encode (request mid uri) (b ∷ bs)
        (record { kind_fits = omega arith; token_fits = omega arith; options_fit = omega arith })),
  is_request mid uri (b ∷ bs),
)
