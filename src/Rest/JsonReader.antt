-- ===== src/Rest/JsonReader.antt =====
-- A reader of JSON string literals (RFC 8259, with the `\u` escapes below 256), for the writer of
-- main/otbr_rest_wire.h.
use cores3_epskc_commissione.Base.{
  ℕ, zero, suc, ◌+◌, ◌-◌, ◌*◌, ◌/◌, ◌%◌, ◌<◌, ◌≤◌, ◌≡◌, refl, sym, ◌∙◌, inl, inr, true, ◌||◌, ◌&&◌,
  Option, none, some, List, [], ◌∷◌, ◌++◌, append_assoc, ltb, leb, ◌==◌, if◌then◌else◌, length,
  Bytes, IsByte, length-append, arith, Bool-cases,
}
use cores3_epskc_commissione.Rest.Wire.{quote, backslash, hex_digit, escape_byte, quote_json_string}
use cores3_epskc_commissione.Rest.Json.{escape, quote_json_string-escape}

unfoldable pub hex_value : ℕ → Option ℕ
hex_value c =
    if leb 48 c && leb c 57
    then some (c - 48)
    else if leb 97 c && leb c 102
    then some (c - 87)
    else none

abbrev join_nibbles : Option ℕ → Option ℕ → List ℕ → Option (ℕ × List ℕ)
join_nibbles (some x) (some y) s = some (x * 16 + y, s)
join_nibbles (some x) none s = none
join_nibbles none _ s = none

-- Behind `\u`: four digits, of which the first two are zero.
abbrev unicode : List ℕ → Option (ℕ × List ℕ)
unicode (a ∷ b ∷ h ∷ l ∷ s) =
    if (a == 48) && (b == 48) then join_nibbles (hex_value h) (hex_value l) s else none
unicode _ = none

abbrev unescape : List ℕ → Option (ℕ × List ℕ)
unescape [] = none
unescape (x ∷ s) =
    if (x == quote) || (x == backslash) then some (x, s) else if x == b'u' then unicode s else none

-- The first character of a literal's body, with what follows it.
first_char : List ℕ → Option (ℕ × List ℕ)
first_char [] = none
first_char (c ∷ s) =
    if c == backslash then unescape s else if ltb c 32 || (c == quote) then none else some (c, s)

abbrev consed : ℕ → Option (List ℕ) → Option (List ℕ)
consed c none = none
consed c (some s) = some (c ∷ s)

-- The characters up to the closing quote, with which the literal must end.
read_body : ℕ → List ℕ → Option (List ℕ)
read_body zero s = none
read_body (suc fuel) s = elim (first_char s) [
  | some (c, rest) ↦ consed c (read_body fuel rest)
  | none ↦ elim s [ c ∷ [] ↦ if c == quote then some [] else none | _ ↦ none ]
]

unfoldable pub read_json_string : List ℕ → Option (List ℕ)
unfolding read_body first_char
read_json_string [] = none
read_json_string (c ∷ s) = if c == quote then read_body (length s) s else none

hex_value-hex_digit : (n : ℕ) → n < 16 → hex_value (hex_digit n) ≡ some n
unfolding hex_value hex_digit
hex_value-hex_digit n h = ground arith

first_char-escape :
    (c : ℕ) (rest : List ℕ) → IsByte c → first_char (escape_byte c ++ rest) ≡ some (c, rest)
unfolding first_char escape_byte
first_char-escape c rest h =
    ground (arith, hex_value-hex_digit (c / 16), hex_value-hex_digit (c % 16))

read_body-escape :
    (fuel : ℕ) (s : List ℕ)
    → Bytes s
    → length s < fuel
    → read_body fuel (escape s ++ (quote ∷ [])) ≡ some s
unfolding read_body
read_body-escape zero s h l = absurd (omega arith)
read_body-escape (suc fuel) [] h l = unfold first_char in refl
read_body-escape (suc fuel) (c ∷ s) h l =
    rw (
      append_assoc,
      read_body,
      first_char-escape c _ h.0,
      read_body-escape fuel s h.1 (omega arith),
    )

length-escape_byte : (c : ℕ) → 1 ≤ length (escape_byte c)
unfolding escape_byte
length-escape_byte c = ground arith

length-escape : (s : List ℕ) → length s ≤ length (escape s)
length-escape [] = omega arith
length-escape (c ∷ s) =
    omega (arith, length-append (escape_byte c) (escape s), length-escape s, length-escape_byte c)

read_json_string-escape :
    (value : List ℕ)
    → Bytes value
    → read_json_string (quote ∷ (escape value ++ (quote ∷ []))) ≡ some value
unfolding read_json_string
read_json_string-escape value h =
    read_body-escape _ value h
      (omega (arith, length-append (escape value) (quote ∷ []), length-escape value))

-- What `otbr_rest_quote_json_string` writes, a JSON reader reads back as the value.
pub read_json_string-quote :
    (value out : List ℕ) (size : ℕ)
    → Bytes value
    → quote_json_string (some value) true size ≡ some out
    → read_json_string out ≡ some value
read_json_string-quote value out size h e =
    elim (Bool-cases (leb (length (escape value) + 3) size)) [
      | inl f ↦
          let e' : some (quote ∷ (escape value ++ (quote ∷ []))) ≡ some out =
            rw f at (sym (quote_json_string-escape value size) ∙ e) in
          rw (← written e') (read_json_string-escape value h)
      | inr f ↦ absurd (nothing (rw f at (sym (quote_json_string-escape value size) ∙ e)))
    ]
  where
    written : {x : List ℕ} → some x ≡ some out → x ≡ out
    written e' = cc

    nothing : none ≡ some out → ⊥
    nothing e' = cc
