-- ===== src/Rest/Options.antt =====
-- main/otbr_rest_wire.h: the reader of the ephemeral key's options, a JSON object with at most a
-- lifetime and a port. A C string is the list of its bytes up to the NUL.
use cores3_epskc_commissione.Base.{
  ℕ, zero, suc, ◌+◌, ◌-◌, ◌*◌, ◌^◌, Bool, true, false, not, ◌&&◌, Option, none, some, List, [], ◌∷◌,
  ltb, leb, ◌==◌, if◌then◌else◌, length, drop, ℤ, pos, negsuc,
}
use cores3_epskc_commissione.Base.Checked.{Checked, ok, stuck}
use cores3_epskc_commissione.Rest.Wire.{quote, skip_spaces, find_byte}

abbrev pub is_digit : ℕ → Bool
is_digit c = leb 48 c && leb c 57

-- The digits at the front, and what is behind them.
unfoldable pub span_digits : List ℕ → List ℕ × List ℕ
span_digits [] = ([], [])
span_digits (c ∷ s) =
    let (digits, rest) = span_digits s in if is_digit c then (c ∷ digits, rest) else ([], c ∷ s)

-- The value that `strtol` gives digits.
abbrev pub digits_value : List ℕ → ℕ → ℕ
digits_value [] n = n
digits_value (c ∷ s) n = digits_value s (n * 10 + (c - 48))

-- `LONG_MAX` of the ESP32's 32-bit `long`.
abbrev pub long_max : ℕ
long_max = 2 ^ 31 - 1

-- `-n`
abbrev pub negate : ℕ → ℤ
negate zero = pos 0
negate (suc n) = negsuc n

-- `strtol` on an optional sign and digits; `none` is `ERANGE`.
unfoldable pub to_long : Bool → List ℕ → Option ℤ
to_long negative digits =
    let n = digits_value digits 0 in
    if negative
    then (if ltb (long_max + 1) n then none else some (negate n))
    else if ltb long_max n
    then none
    else some (pos n)

-- The digits of a number: a single 0, or some that do not start with 0.
unfoldable pub good_digits : List ℕ → Bool
good_digits [] = false
good_digits (c ∷ s) = if c == 48 then length s == 0 else true

unfoldable pub parse_unsigned : Bool → List ℕ → Option (ℤ × List ℕ)
unfolding good_digits to_long
parse_unsigned negative p =
    let (digits, rest) = span_digits p in
    if not (good_digits digits)
    then none
    else elim (to_long negative digits) [ none ↦ none | some value ↦ some (value, rest) ]

-- The number at the front, with what is behind it.
unfoldable pub parse_number : List ℕ → Option (ℤ × List ℕ)
unfolding parse_unsigned
parse_number [] = none
parse_number (c ∷ s) = if c == 45 then parse_unsigned true s else parse_unsigned false (c ∷ s)

-- The first byte of a string, with what is behind it.
unfoldable pub expect : ℕ → List ℕ → Option (List ℕ)
expect b [] = none
expect b (c ∷ s) = if c == b then some s else none

-- `"key" : number`, with what is behind it.
unfoldable pub parse_member : List ℕ → Option (List ℕ × (ℤ × List ℕ))
parse_member p = elim (expect quote p) [
  | none ↦ none
  | some key_on ↦ elim (find_byte quote key_on) [
    | none ↦ none
    | some (key, behind) ↦ elim (expect 58 (skip_spaces behind)) [
      | none ↦ none
      | some value_on ↦ elim (parse_number (skip_spaces value_on)) [
        | none ↦ none
        | some (value, rest) ↦ some (key, (value, rest))
      ]
    ]
  ]
]

-- `*lifetime` and `*port` as far as they were seen.
pub record Seen : Type 0 where
  pub lifetime : Option ℤ
  pub port : Option ℤ

abbrev pub key_lifetime : List ℕ
key_lifetime = b'l' ∷ b'i' ∷ b'f' ∷ b'e' ∷ b't' ∷ b'i' ∷ b'm' ∷ b'e' ∷ []

abbrev pub key_port : List ℕ
key_port = b'p' ∷ b'o' ∷ b'r' ∷ b't' ∷ []

-- `key_len == n && strncmp(key, word, key_len) == 0`
unfoldable pub same_key : List ℕ → List ℕ → Bool
same_key [] [] = true
same_key [] (w ∷ ws) = false
same_key (c ∷ s) [] = false
same_key (c ∷ s) (w ∷ ws) = (c == w) && same_key s ws

abbrev pub is_none : Option ℤ → Bool
is_none none = true
is_none (some v) = false

-- The key's assignment, `none` for an unknown or a repeated key.
unfoldable pub take_key : List ℕ → ℤ → Seen → Option Seen
take_key key value seen =
    if same_key key key_lifetime && is_none seen.lifetime
    then some (record seen { lifetime = some value })
    else if same_key key key_port && is_none seen.port
    then some (record seen { port = some value })
    else none

-- Behind the closing brace.
unfoldable pub close_options : List ℕ → Seen → Option Seen
close_options rest seen = elim (skip_spaces rest) [ [] ↦ some seen | _ ∷ _ ↦ none ]

-- What is at the front behind spaces: the byte and what is behind it.
abbrev pub front : List ℕ → Option (ℕ × List ℕ)
front [] = none
front (c ∷ s) = some (c, s)

pub data After : Type 0 where
  stop : After
  closed : List ℕ → After
  again : List ℕ → After

-- Behind a member: a comma that no closing brace follows, or the closing brace.
unfoldable pub after_member : List ℕ → After
after_member rest = elim (front (skip_spaces rest)) [
  | none ↦ stop
  | some (c, s) ↦
      if c == 44
      then elim (front (skip_spaces s)) [
        | none ↦ again s
        | some (d, t) ↦ if d == 125 then stop else again s
      ]
      else if c == 125
      then closed s
      else stop
]

-- A member with its assignment, and what is behind it.
unfoldable pub one_member : List ℕ → Seen → Option (Seen × List ℕ)
one_member p seen = elim (parse_member p) [
  | none ↦ none
  | some (key, (value, rest)) ↦ elim (take_key key value seen) [
    | none ↦ none
    | some seen' ↦ some (seen', rest)
  ]
]

abbrev pub closes : List ℕ → Bool
closes [] = false
closes (c ∷ s) = c == 125

-- The loop on fuel: `stuck` when the fuel ends, else `none` for `return false`.
unfoldable pub options_loop : ℕ → List ℕ → Seen → Checked (Option Seen)
options_loop zero p seen = stuck
options_loop (suc n) p seen =
    if closes (skip_spaces p)
    then ok (close_options (drop 1 (skip_spaces p)) seen)
    else elim (one_member (skip_spaces p) seen) [
      | none ↦ ok none
      | some (seen', rest) ↦ elim (after_member rest) [
        | stop ↦ ok none
        | closed s ↦ ok (close_options s seen')
        | again s ↦ options_loop n s seen'
      ]
    ]

abbrev pub unseen : Seen
unseen = record { lifetime = none; port = none }

-- The body behind its spaces.
unfoldable pub open_options : List ℕ → Checked (Option Seen)
open_options [] = ok (some unseen)
open_options (c ∷ p) = if c == 123 then options_loop (length p + 1) p unseen else ok none

-- `otbr_rest_parse_epskc_options`
unfoldable pub parse_epskc_options : List ℕ → Checked (Option Seen)
parse_epskc_options body = open_options (skip_spaces body)
