-- ===== src/MeshCop/Format.antt =====
-- The wire format that main/meshcop_codec.h reads, written as an encoder: messages with a
-- payload marker, and MeshCoP TLVs. Header, token and options are those of RFC 7252.
use cores3_epskc_commissione.Base.{
  ℕ, ◌+◌, ◌-◌, ◌*◌, ◌/◌, ◌%◌, ◌<◌, ◌≤◌, List, [], ◌∷◌, ◌++◌, Bool, ltb, if◌then◌else◌, length, All,
}

-- The nibble that stands for a number, and the extension bytes that it announces.
unfoldable pub nibble_of : ℕ → ℕ
nibble_of n = if ltb n 13 then n else if ltb n 269 then 13 else 14

unfoldable pub ext_bytes : ℕ → List ℕ
ext_bytes n =
    if ltb n 13
    then []
    else if ltb n 269
    then (n - 13) ∷ []
    else ((n - 269) / 256) ∷ ((n - 269) % 256) ∷ []

-- An option: the step of its number, and its value.
pub record CoapOption : Type 0 where
  pub delta : ℕ
  pub value : List ℕ

-- The largest number that a nibble with two extension bytes stands for is 65804.
pub record Encodable (o : CoapOption) : Type 0 where
  pub delta_fits : o.delta < 65805
  pub value_fits : length o.value < 65805

unfoldable pub encode_option : CoapOption → List ℕ
encode_option o =
    (nibble_of o.delta * 16 + nibble_of (length o.value))
    ∷ (ext_bytes o.delta ++ (ext_bytes (length o.value) ++ o.value))

unfoldable pub encode_options : List CoapOption → List ℕ
encode_options [] = []
encode_options (o ∷ os) = encode_option o ++ encode_options os

pub record Message : Type 0 where
  pub kind : ℕ
  pub code : ℕ
  pub id_hi : ℕ
  pub id_lo : ℕ
  pub token : List ℕ
  pub options : List CoapOption

pub record IsMessage (m : Message) : Type 0 where
  pub kind_fits : m.kind < 4
  pub token_fits : length m.token ≤ 8
  pub options_fit : All Encodable m.options

-- A message with the marker and a payload. RFC 7252 leaves the marker out where the payload is empty; this
-- encoding does not, as the code does not tell that message from others with a marker.
unfoldable pub encode : Message → List ℕ → List ℕ
encode m payload =
    (64 + m.kind * 16 + length m.token)
    ∷ m.code
    ∷ m.id_hi
    ∷ m.id_lo
    ∷ (m.token ++ (encode_options m.options ++ (0xff ∷ payload)))

-- A MeshCoP TLV, its length in one byte or in the three-byte form.
pub record Tlv : Type 0 where
  pub kind : ℕ
  pub extended : Bool
  pub value : List ℕ

abbrev pub TlvFits : Tlv → Type 0
TlvFits t = length t.value < (if t.extended then 65536 else 255)

unfoldable pub encode_tlv : Tlv → List ℕ
encode_tlv t =
    t.kind
    ∷ (if t.extended
        then 0xff ∷ (length t.value / 256) ∷ (length t.value % 256) ∷ t.value
        else length t.value ∷ t.value)

unfoldable pub encode_tlvs : List Tlv → List ℕ
encode_tlvs [] = []
encode_tlvs (t ∷ ts) = encode_tlv t ++ encode_tlvs ts
