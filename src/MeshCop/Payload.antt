-- ===== src/MeshCop/Payload.antt =====
-- main/meshcop_codec.h: how `meshcop_coap_payload` may end on a buffer.
use cores3_epskc_commissione.Base.{
  ℕ, zero, suc, ◌+◌, ◌*◌, ◌/◌, ◌<◌, ◌≤◌, ◌≡◌, refl, ap, subst, inl, inr, true, false, Option, none,
  some, List, [], ◌∷◌, ◌++◌, append_assoc, ◌==◌, length, All, Bytes, IsByte, length-append, arith,
  Bool-cases, ==_iff, All-append_right,
}
use cores3_epskc_commissione.Base.Checked.{Checked, ok}
use cores3_epskc_commissione.MeshCop.Codec.{low_nibble, skip_fields, skip_option, walk_options}
use cores3_epskc_commissione.MeshCop.Format.{
  nibble_of, ext_bytes, CoapOption, Encodable, encode_option, encode_options,
}
use cores3_epskc_commissione.MeshCop.Options.{
  Passed, nibble_of_lt, skip_fields-cases, skip_fields-encode,
}

-- The head of an encoded option is not the payload marker and has the two nibbles.
head_nibbles :
    (a b : ℕ)
    → a < 15
    → b < 15
    → (low_nibble ((a * 16 + b) / 16) ≡ a)
      × (low_nibble (a * 16 + b) ≡ b)
      × (((a * 16 + b) == 0xff) ≡ false)
head_nibbles a b h k = (omega arith, omega arith, ground arith)

-- One round of the loop, by what stands at the pointer.
module _ (fuel b : ℕ) (bs : List ℕ) where
  walk_options-marker : (b == 0xff) ≡ true → walk_options (suc fuel) (b ∷ bs) ≡ ok (some bs)
  unfolding walk_options
  walk_options-marker e = rw (e, walk_options)

  walk_options-null :
      (b == 0xff) ≡ false
      → skip_fields (low_nibble (b / 16)) (low_nibble b) bs ≡ ok none
      → walk_options (suc fuel) (b ∷ bs) ≡ ok none
  unfolding walk_options skip_option
  walk_options-null e s = rw (e, s, walk_options)

  walk_options-next :
      {after : List ℕ}
      → (b == 0xff) ≡ false
      → skip_fields (low_nibble (b / 16)) (low_nibble b) bs ≡ ok (some after)
      → walk_options (suc fuel) (b ∷ bs) ≡ walk_options fuel after
  unfolding walk_options skip_option
  walk_options-next e s = rw (e, s, walk_options)

encode_option_split :
    (o : CoapOption) (rest : List ℕ)
    → encode_option o ++ rest
      ≡ (nibble_of o.delta * 16 + nibble_of (length o.value))
        ∷ (ext_bytes o.delta ++ (ext_bytes (length o.value) ++ (o.value ++ rest)))
unfolding encode_option
encode_option_split o rest = simp append_assoc

pub walk_options-encode_option :
    (fuel : ℕ) (o : CoapOption) (rest : List ℕ)
    → Encodable o
    → walk_options (suc fuel) (encode_option o ++ rest) ≡ walk_options fuel rest
walk_options-encode_option fuel o rest h =
    let (a, b, c) =
      head_nibbles (nibble_of o.delta) (nibble_of (length o.value)) (nibble_of_lt _)
        (nibble_of_lt _) in
    rw encode_option_split (
      walk_options-next fuel _ _ c
        (rw (a, b) (skip_fields-encode o.delta o.value rest h.delta_fits h.value_fits)))

pub walk_options-encode :
    (fuel : ℕ) (os : List CoapOption) (payload : List ℕ)
    → All Encodable os
    → length os < fuel
    → walk_options fuel (encode_options os ++ (0xff ∷ payload)) ≡ ok (some payload)
unfolding encode_options
walk_options-encode zero os payload h l = absurd (omega arith)
walk_options-encode (suc fuel) [] payload h l = unfold walk_options in refl
walk_options-encode (suc fuel) (o ∷ os) payload h l =
    rw (append_assoc, walk_options-encode_option fuel o _ h.0)
      (walk_options-encode fuel os payload h.1 (omega arith))

-- What the loop finds: no payload, or options and the marker in front of the payload.
pub data Walked (from : List ℕ) : Checked (Option (List ℕ)) → Type 0 where
  nothing : Walked from (ok none)
  found :
      (os : List CoapOption) (payload : List ℕ)
      → All Encodable os
      → from ≡ encode_options os ++ (0xff ∷ payload)
      → Walked from (ok (some payload))

split_head : (b : ℕ) → b < 256 → b ≡ low_nibble (b / 16) * 16 + low_nibble b
split_head b h = omega arith

length-Passed : (d l : ℕ) (rest after : List ℕ) → Passed d l rest after → length after ≤ length rest
length-Passed d l rest after p = omega (
  arith,
  ap length p.split,
  length-append (ext_bytes p.option.delta)
      (ext_bytes (length p.option.value) ++ (p.option.value ++ after)),
  length-append (ext_bytes (length p.option.value)) (p.option.value ++ after),
  length-append p.option.value after,
)

Bytes-Passed : (d l : ℕ) (rest after : List ℕ) → Passed d l rest after → Bytes rest → Bytes after
Bytes-Passed d l rest after p h = All-append_right IsByte p.option.value after (
    All-append_right IsByte (ext_bytes (length p.option.value)) _
      (All-append_right IsByte (ext_bytes p.option.delta) _ (subst Bytes p.split h)))

Walked-next :
    (b : ℕ) (rest after : List ℕ)
    → b < 256
    → Passed (low_nibble (b / 16)) (low_nibble b) rest after
    → (r : Checked (Option (List ℕ))) → Walked after r
    → Walked (b ∷ rest) r
unfolding encode_options
Walked-next b rest after h p _ nothing = nothing
Walked-next b rest after h p _ (found os payload es e) =
    found (p.option ∷ os) payload (p.encodable, es)
      (rw
        (
          append_assoc,
          encode_option_split,
          p.delta_nibble,
          p.value_nibble,
          ← split_head b h,
          ← e,
          ← p.split,
        )
        refl)

pub walk_options-Walked :
    (fuel : ℕ) (from : List ℕ)
    → Bytes from
    → length from ≤ fuel
    → Walked from (walk_options fuel from)
walk_options-Walked fuel [] h l = unfold walk_options in nothing
walk_options-Walked zero (b ∷ bs) h l = absurd (omega arith)
walk_options-Walked (suc fuel) (b ∷ bs) h l = elim (Bool-cases (b == 0xff)) [
  | inl e ↦
      rw (walk_options-marker fuel b bs e)
        (found [] bs tt (unfold encode_options in ap (λ c. c ∷ bs) ((==_iff b 0xff).0 e)))
  | inr e ↦
      elim (skip_fields-cases (low_nibble (b / 16)) (low_nibble b) bs (omega arith) (omega arith)
        h.1) [
          | inl s ↦ rw (walk_options-null fuel b bs e s) nothing
          | inr (after, s, p) ↦ rw (walk_options-next fuel b bs e s) (
              Walked-next b bs after h.0 p _ (
                walk_options-Walked fuel after (Bytes-Passed _ _ bs after p h.1)
                  (omega (arith, length-Passed _ _ bs after p))))
        ]
]
