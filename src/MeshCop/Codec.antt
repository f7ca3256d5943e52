-- ===== src/MeshCop/Codec.antt =====
-- main/meshcop_codec.h: the CoAP and MeshCoP readers. A buffer with its length is the list of its
-- bytes, NULL is `none`, and a pointer into it is the list of the bytes that follow.
use cores3_epskc_commissione.Base.{
  ℕ, zero, suc, ◌+◌, ◌*◌, ◌/◌, ◌%◌, Bool, true, false, not, ◌&&◌, ◌||◌, Option, none, some, List,
  [], ◌∷◌, ltb, leb, ◌==◌, if◌then◌else◌, length,
}
use cores3_epskc_commissione.Base.Checked.{Checked, ok, stuck, ◌>>=◌, byte_at, advance}

-- `x >> 6`, `x >> 5`, `x >> 4` and `x & 0x0f` of a byte, and `(hi << 8) | lo` of two bytes.
abbrev pub low_nibble : ℕ → ℕ
low_nibble b = b % 16

abbrev pub word16 : ℕ → ℕ → ℕ
word16 hi lo = hi * 256 + lo

unfoldable pub coap_is_empty_ack : Option (List ℕ) → Checked Bool
coap_is_empty_ack none = ok false
coap_is_empty_ack (some buf) =
    if length buf == 4
    then (do b0 ← byte_at 0 buf; b1 ← byte_at 1 buf; ok ((b0 == 0x60) && (b1 == 0)))
    else ok false

unfoldable pub coap_is_success : Option (List ℕ) → Checked Bool
coap_is_success none = ok false
coap_is_success (some buf) = if ltb (length buf) 4 then ok false else do
  b0 ← byte_at 0 buf
  b1 ← byte_at 1 buf
  if not (b0 / 64 == 1)
      then ok false
      else ok (leb (low_nibble b0) 8 && leb (4 + low_nibble b0) (length buf) && (b1 / 32 == 2))

-- `delta == 13 ? 1 : delta == 14 ? 2 : 0`
abbrev pub ext_size : ℕ → ℕ
ext_size n = if n == 13 then 1 else if n == 14 then 2 else 0

-- The option's length, its extension bytes at the pointer.
unfoldable pub option_length : ℕ → List ℕ → Checked ℕ
option_length n rest =
    if n == 13
    then (do b ← byte_at 0 rest; ok (b + 13))
    else if n == 14
    then (do hi ← byte_at 0 rest; lo ← byte_at 1 rest; ok (word16 hi lo + 269))
    else ok n

-- One round of the loop over the options, behind the option's first byte with its two nibbles:
-- the pointer behind the option, or `none` for `return NULL`.
unfoldable pub skip_fields : ℕ → ℕ → List ℕ → Checked (Option (List ℕ))
skip_fields delta len rest =
    if (delta == 15) || (len == 15)
    then ok none
    else if ltb (length rest) (ext_size delta + ext_size len)
    then ok none
    else do
      behind_delta ← advance (ext_size delta) rest
      option_len ← option_length len behind_delta
      value ← advance (ext_size len) behind_delta
      if ltb (length value) option_len
          then ok none
          else do after ← advance option_len value; ok (some after)

unfoldable pub skip_option : List ℕ → Checked (Option (List ℕ))
skip_option from = do
  head ← byte_at 0 from
  rest ← advance 1 from
  skip_fields (low_nibble (head / 16)) (low_nibble head) rest

-- The loop and the test of the payload marker that follows it. The list's end is `i >= len`.
unfoldable pub walk_options : ℕ → List ℕ → Checked (Option (List ℕ))
walk_options fuel [] = ok none
walk_options zero (b ∷ bs) = stuck
walk_options (suc fuel) (b ∷ bs) = elim (b == 0xff) [
  | true ↦ ok (some bs)
  | false ↦ skip_option (b ∷ bs) >>= λ next. elim next [
    | none ↦ ok none
    | some after ↦ walk_options fuel after
  ]
]

-- The flag says whether `out_len` is not NULL; `*out_len` is the length of the result.
unfoldable pub coap_payload : Option (List ℕ) → Bool → Checked (Option (List ℕ))
coap_payload none out_len = ok none
coap_payload (some buf) out_len = if not out_len || ltb (length buf) 4 then ok none else do
  b0 ← byte_at 0 buf
  if not (b0 / 64 == 1) || ltb 8 (low_nibble b0)
      then ok none
      else if ltb (length buf) (4 + low_nibble b0)
      then ok none
      else do options ← advance (4 + low_nibble b0) buf; walk_options (length options) options

-- `tlv_len` behind a TLV's first length byte: `none` for `return false`.
unfoldable pub tlv_length : ℕ → List ℕ → Checked (Option (ℕ × List ℕ))
tlv_length len rest =
    if len == 255
    then (if ltb (length rest) 2 then ok none else do
      hi ← byte_at 0 rest
      lo ← byte_at 1 rest
      value ← advance 2 rest
      ok (some (word16 hi lo, value)))
    else ok (some (len, rest))

abbrev pub state_tlv : ℕ
state_tlv = 16

abbrev pub state_accept : ℕ
state_accept = 1

-- One TLV from its type byte: the answer, or the pointer behind it.
pub data TlvStep : Type 0 where
  answer : Bool → TlvStep
  further : List ℕ → TlvStep

-- Behind the length: the test that the value is inside the payload, and the State TLV.
unfoldable pub petition_value : ℕ → ℕ → List ℕ → Checked TlvStep
petition_value kind tlv_len value =
    if ltb (length value) tlv_len
    then ok (answer false)
    else if kind == state_tlv
    then if tlv_len == 1
      then (do v ← byte_at 0 value; ok (answer (v == state_accept)))
      else ok (answer false)
    else do after ← advance tlv_len value; ok (further after)

unfoldable pub petition_step : ℕ → ℕ → List ℕ → Checked TlvStep
petition_step kind len rest = do
  sized ← tlv_length len rest
  elim sized [
    | none ↦ ok (answer false)
    | some (tlv_len, value) ↦ petition_value kind tlv_len value
  ]

unfoldable pub petition_loop : ℕ → List ℕ → Checked Bool
petition_loop fuel [] = ok false
petition_loop fuel (kind ∷ []) = ok false
petition_loop zero (kind ∷ len ∷ rest) = stuck
petition_loop (suc fuel) (kind ∷ len ∷ rest) = petition_step kind len rest >>= λ s. elim s [
  | answer b ↦ ok b
  | further after ↦ petition_loop fuel after
]

unfoldable pub petition_was_accepted : Option (List ℕ) → Checked Bool
petition_was_accepted buf = coap_payload buf true >>= λ p. elim p [
  | none ↦ ok false
  | some payload ↦ petition_loop (length payload) payload
]
