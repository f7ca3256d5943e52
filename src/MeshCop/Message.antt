-- ===== src/MeshCop/Message.antt =====
-- main/meshcop_codec.h: `meshcop_coap_payload` and the encoder of messages.
use cores3_epskc_commissione.Base.{
  ℕ, suc, ◌+◌, ◌*◌, ◌/◌, ◌%◌, ◌<◌, ◌≤◌, ◌≡◌, refl, subst, ◌↔◌, inl, inr, true, false, Option, none,
  some, List, [], ◌∷◌, ◌++◌, ltb, ◌==◌, length, Bytes, take, drop, take-append-drop, length-append,
  arith, Bool-cases, le→ltb, ltb→le, lt→ltb, ltb→lt, ==_iff,
}
use cores3_epskc_commissione.Base.Checked.{
  Checked, ok, advance-le, drop-append, Bytes-drop, length-take_le,
}
use cores3_epskc_commissione.MeshCop.Codec.{low_nibble, walk_options, coap_payload}
use cores3_epskc_commissione.MeshCop.Format.{
  CoapOption, encode_option, encode_options, Message, IsMessage, encode,
}
use cores3_epskc_commissione.MeshCop.Payload.{
  Walked, nothing, found, walk_options-Walked, walk_options-encode,
}

-- What the reader says of a buffer.
pub data Parsed (buf : List ℕ) : Checked (Option (List ℕ)) → Type 0 where
  rejected : Parsed buf (ok none)
  message :
      (m : Message) (payload : List ℕ)
      → IsMessage m
      → buf ≡ encode m payload
      → Parsed buf (ok (some payload))

module _ (b0 b1 b2 b3 : ℕ) (rest : List ℕ) where
  abbrev pub buffer : List ℕ
  buffer = b0 ∷ b1 ∷ b2 ∷ b3 ∷ rest

  four_bytes : ltb (length buffer) 4 ≡ false
  four_bytes = le→ltb _ 4 (omega arith)

  pub coap_payload-skip :
      (b0 / 64 == 1) ≡ true
      → ltb 8 (low_nibble b0) ≡ false
      → low_nibble b0 ≤ length rest
      → coap_payload (some buffer) true
        ≡ walk_options (length (drop (low_nibble b0) rest)) (drop (low_nibble b0) rest)
  unfolding coap_payload
  coap_payload-skip e f l =
      let four : 4 + low_nibble b0 ≡ suc (suc (suc (suc (low_nibble b0)))) = omega arith in
      rw (
        four_bytes,
        e,
        f,
        le→ltb (length buffer) (4 + low_nibble b0) (omega arith),
        four,
        advance-le (low_nibble b0) rest l,
      )

  first : b0 < 256 → (b0 / 64 == 1) ≡ true → 64 + b0 / 16 % 4 * 16 + low_nibble b0 ≡ b0
  first h e = let one : b0 / 64 ≡ 1 = (==_iff _ _).0 e in omega arith

  coap_payload-version : (b0 / 64 == 1) ≡ false → coap_payload (some buffer) true ≡ ok none
  unfolding coap_payload
  coap_payload-version e = rw (four_bytes, e)

  coap_payload-token :
      (b0 / 64 == 1) ≡ true
      → ltb 8 (low_nibble b0) ≡ true
      → coap_payload (some buffer) true ≡ ok none
  unfolding coap_payload
  coap_payload-token e f = rw (four_bytes, e, f)

  coap_payload-truncated :
      (b0 / 64 == 1) ≡ true
      → ltb 8 (low_nibble b0) ≡ false
      → ltb (length rest) (low_nibble b0) ≡ true
      → coap_payload (some buffer) true ≡ ok none
  unfolding coap_payload
  coap_payload-truncated e f l =
      rw
        (four_bytes, e, f, lt→ltb (length buffer) (4 + low_nibble b0) (omega (arith, ltb→lt _ _ l)))

  header :
      Bytes buffer
      → (b0 / 64 == 1) ≡ true
      → ltb 8 (low_nibble b0) ≡ false
      → low_nibble b0 ≤ length rest
      → (r : Checked (Option (List ℕ))) → Walked (drop (low_nibble b0) rest) r
      → Parsed buffer r
  unfolding encode
  header h e f l _ nothing = rejected
  header h e f l _ (found os payload es x) =
      message
        (record {
          kind = b0 / 16 % 4;
          code = b1;
          id_hi = b2;
          id_lo = b3;
          token = take (low_nibble b0) rest;
          options = os;
        })
        payload
        (record {
          kind_fits = omega arith;
          token_fits = rw (length-take_le _ rest l) (ltb→le _ _ f);
          options_fit = es;
        })
        (rw
          (
            length-take_le (low_nibble b0) rest l,
            ← x,
            take-append-drop (low_nibble b0) rest,
            first h.0 e,
          )
          refl)

pub coap_payload-Parsed : (buf : List ℕ) → Bytes buf → Parsed buf (coap_payload (some buf) true)
coap_payload-Parsed [] h = unfold coap_payload in rejected
coap_payload-Parsed (b0 ∷ []) h = unfold coap_payload in rejected
coap_payload-Parsed (b0 ∷ b1 ∷ []) h = unfold coap_payload in rejected
coap_payload-Parsed (b0 ∷ b1 ∷ b2 ∷ []) h = unfold coap_payload in rejected
coap_payload-Parsed (b0 ∷ b1 ∷ b2 ∷ b3 ∷ rest) h = elim (Bool-cases (b0 / 64 == 1)) [
  | inr e ↦ rw (coap_payload-version b0 b1 b2 b3 rest e) rejected
  | inl e ↦ elim (Bool-cases (ltb 8 (low_nibble b0))) [
    | inl f ↦ rw (coap_payload-token b0 b1 b2 b3 rest e f) rejected
    | inr f ↦ elim (Bool-cases (ltb (length rest) (low_nibble b0))) [
      | inl l ↦ rw (coap_payload-truncated b0 b1 b2 b3 rest e f l) rejected
      | inr l ↦ rw (coap_payload-skip b0 b1 b2 b3 rest e f (ltb→le _ _ l)) (
          header b0 b1 b2 b3 rest h e f (ltb→le _ _ l) _
            (walk_options-Walked _ _ (Bytes-drop (low_nibble b0) rest h.1.1.1.1) (omega arith)))
    ]
  ]
]

pub length-encode_options : (os : List CoapOption) → length os ≤ length (encode_options os)
unfolding encode_options encode_option
length-encode_options [] = omega arith
length-encode_options (o ∷ os) =
    omega (arith, length-append (encode_option o) (encode_options os), length-encode_options os)

pub coap_payload-encode :
    (m : Message) (payload : List ℕ)
    → IsMessage m
    → coap_payload (some (encode m payload)) true ≡ ok (some payload)
unfolding encode
coap_payload-encode m payload h =
    let t : ℕ = length m.token in
    let tail : List ℕ = encode_options m.options ++ (0xff ∷ payload) in
    let b0 : ℕ = 64 + m.kind * 16 + t in
    let n : low_nibble b0 ≡ t = omega (arith, h.token_fits) in
    let after : drop (low_nibble b0) (m.token ++ tail) ≡ tail = rw n (drop-append m.token tail) in
    rw
      (
        coap_payload-skip b0 m.code m.id_hi m.id_lo (m.token ++ tail)
            (ground (arith, h.kind_fits, h.token_fits)) (ground (arith, n, h.token_fits))
            (omega (arith, n, length-append m.token tail)),
        after,
      )
      (walk_options-encode (length tail) m.options payload h.options_fit (
        omega (
          arith,
          length-append (encode_options m.options) (0xff ∷ payload),
          length-encode_options m.options,
        )))

Parsed-none :
    {buf : List ℕ} {r : Checked (Option (List ℕ))}
    → Parsed buf r
    → (o : Option (List ℕ)) × (r ≡ ok o)
Parsed-none rejected = (none, refl)
Parsed-none (message m p h e) = (some p, refl)

same : {p q : List ℕ} → ◌≡◌ {A = Checked (Option (List ℕ))} (ok (some p)) (ok (some q)) → p ≡ q
same e = cc

Parsed-some :
    {buf : List ℕ} {r : Checked (Option (List ℕ))} {p : List ℕ}
    → Parsed buf r
    → r ≡ ok (some p)
    → (m : Message) × IsMessage m × (buf ≡ encode m p)
Parsed-some rejected e = cc
Parsed-some {buf} (message m p h e) e2 = (m, h, subst (λ q. buf ≡ encode m q) (same e2) e)

-- On every buffer of bytes `meshcop_coap_payload` returns: no read, and no advance of the index,
-- goes past the buffer's end, and the loop ends.
pub coap_payload_total :
    (buf : List ℕ) → Bytes buf → (r : Option (List ℕ)) × (coap_payload (some buf) true ≡ ok r)
coap_payload_total buf h = Parsed-none (coap_payload-Parsed buf h)

-- For every buffer of bytes, `meshcop_coap_payload` returns a pointer to the bytes `payload`
-- exactly when the buffer is a version 1 message with that payload: the header, the token and the options,
-- each fitting its field and encoded as in RFC 7252, the marker 0xFF, and the payload. The payload may be
-- empty: RFC 7252 calls a marker with nothing behind it a format error, but the code takes it.
pub coap_payload_iff :
    (buf payload : List ℕ)
    → Bytes buf
    → (coap_payload (some buf) true ≡ ok (some payload))
      ↔ ((m : Message) × IsMessage m × (buf ≡ encode m payload))
coap_payload_iff buf payload h = (
  λ e. Parsed-some (coap_payload-Parsed buf h) e,
  λ (m, w, e). rw e (coap_payload-encode m payload w),
)
