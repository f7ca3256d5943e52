-- ===== src/Rest/Json.antt =====
-- main/otbr_rest_wire.h: `otbr_rest_quote_json_string` and the escaped value.
use cores3_epskc_commissione.Base.{
  ℕ, ◌+◌, ◌-◌, ◌<◌, ◌≤◌, ◌≡◌, ap, inl, inr, true, none, some, List, [], ◌∷◌, ◌++◌, ltb, leb,
  if◌then◌else◌, length, length-append, arith, Bool-cases, le→ltb, ltb→le,
}
use cores3_epskc_commissione.Rest.Wire.{quote, escape_byte, quote_loop, quote_json_string}

-- The whole value escaped.
abbrev pub escape : List ℕ → List ℕ
escape [] = []
escape (c ∷ s) = escape_byte c ++ escape s

quote_loop-fits :
    (s : List ℕ) (room : ℕ)
    → length (escape s) ≤ room
    → quote_loop s room ≡ some (escape s, room - length (escape s))
unfolding quote_loop
quote_loop-fits [] room h = ap (λ r. some ([], r)) (omega arith)
quote_loop-fits (c ∷ s) room h =
    let n : length (escape_byte c ++ escape s) ≡ length (escape_byte c) + length (escape s) =
      length-append (escape_byte c) (escape s) in
    rw
      (
        le→ltb room (length (escape_byte c)) (omega arith),
        quote_loop-fits s (room - length (escape_byte c)) (omega arith),
      )
      (ap (λ r. some (escape_byte c ++ escape s, r)) (omega arith))

quote_loop-overflow : (s : List ℕ) (room : ℕ) → room < length (escape s) → quote_loop s room ≡ none
unfolding quote_loop
quote_loop-overflow [] room h = absurd (omega arith)
quote_loop-overflow (c ∷ s) room h = elim (Bool-cases (ltb room (length (escape_byte c)))) [
  | inl e ↦ rw e
  | inr e ↦ rw (
    e,
    quote_loop-overflow s (room - length (escape_byte c))
        (omega (arith, ltb→le _ _ e, length-append (escape_byte c) (escape s))),
  )
]

-- `otbr_rest_quote_json_string` fails exactly when the quoted and escaped value and its NUL do not
-- fit in the buffer; else the buffer holds the quoted and escaped value.
pub quote_json_string-escape :
    (value : List ℕ) (size : ℕ)
    → quote_json_string (some value) true size ≡ (
        if leb (length (escape value) + 3) size
        then some (quote ∷ (escape value ++ (quote ∷ [])))
        else none)
unfolding quote_json_string
quote_json_string-escape value size = elim (Bool-cases (ltb size (length (escape value) + 2))) [
  | inl e ↦ ground (arith, quote_loop-overflow value (size - 2))
  | inr e ↦ ground (arith, quote_loop-fits value (size - 2))
]
