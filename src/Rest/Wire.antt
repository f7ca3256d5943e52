-- ===== src/Rest/Wire.antt =====
-- main/otbr_rest_wire.h: the body terminator, the JSON string writer, and the readers of a dataset
-- body and of a toggle. A C string is the list of its bytes up to the NUL, which it does not hold.
use cores3_epskc_commissione.Base.{
  ℕ, zero, suc, ◌+◌, ◌-◌, ◌/◌, ◌%◌, Bool, true, false, not, ◌&&◌, ◌||◌, Option, none, some, List,
  [], ◌∷◌, ◌++◌, ltb, leb, ◌==◌, if◌then◌else◌, length, set,
}

abbrev pub quote : ℕ
quote = b'"'

abbrev pub backslash : ℕ
backslash = 92

-- `isspace` in the C locale: tab, line feed, vertical tab, form feed, carriage return, space.
unfoldable pub is_space : ℕ → Bool
is_space c = (c == 32) || (leb 9 c && leb c 13)

unfoldable pub skip_spaces : List ℕ → List ℕ
skip_spaces [] = []
skip_spaces (c ∷ s) = if is_space c then skip_spaces s else c ∷ s

-- `memchr(buf, c, length) != NULL` over the first `n` bytes.
unfoldable pub has_byte : ℕ → ℕ → List ℕ → Bool
has_byte c zero s = false
has_byte c (suc n) [] = false
has_byte c (suc n) (x ∷ s) = (x == c) || has_byte c n s

-- `otbr_rest_terminate_body`: `buf` is the memory behind the pointer, NULL is `none`.
unfoldable pub terminate_body : Option (List ℕ) → ℕ → ℕ → Option (List ℕ)
unfolding has_byte
terminate_body none length capacity = none
terminate_body (some buf) length capacity =
    if leb capacity length || has_byte 0 length buf then none else some (set buf length 0)

-- `"0123456789abcdef"[n]`
unfoldable pub hex_digit : ℕ → ℕ
hex_digit n = if ltb n 10 then 48 + n else 87 + n

-- What one byte of the value becomes.
unfoldable pub escape_byte : ℕ → List ℕ
unfolding hex_digit
escape_byte c =
    if (c == quote) || (c == backslash)
    then backslash ∷ c ∷ []
    else if ltb c 32
    then backslash ∷ b'u' ∷ 48 ∷ 48 ∷ hex_digit (c / 16) ∷ hex_digit (c % 16) ∷ []
    else c ∷ []

-- The loop: `room` is `end - out`. `none` is `return false`, else the bytes written and the room
-- that is left.
unfoldable pub quote_loop : List ℕ → ℕ → Option (List ℕ × ℕ)
unfolding escape_byte
quote_loop [] room = some ([], room)
quote_loop (c ∷ s) room =
    if ltb room (length (escape_byte c))
    then none
    else elim (quote_loop s (room - length (escape_byte c))) [
      | none ↦ none
      | some (written, left) ↦ some (escape_byte c ++ written, left)
    ]

-- `otbr_rest_quote_json_string` on a value and a buffer, NULL being `none` and `false`, of `size`
-- bytes: what stands in the buffer before its NUL.
unfoldable pub quote_json_string : Option (List ℕ) → Bool → ℕ → Option (List ℕ)
unfolding quote_loop
quote_json_string none buf size = none
quote_json_string (some value) buf size =
    if not buf || ltb size 3 then none else elim (quote_loop value (size - 2)) [
      | none ↦ none
      | some (written, left) ↦ if left == 0 then none else some (quote ∷ (written ++ (quote ∷ [])))
    ]

-- `strchr(s, c)`: the bytes before the first `c`, and those behind it.
unfoldable pub find_byte : ℕ → List ℕ → Option (List ℕ × List ℕ)
find_byte c [] = none
find_byte c (x ∷ s) =
    let rest = find_byte c s in
    if x == c
    then some ([], s)
    else elim rest [ none ↦ none | some (before, behind) ↦ some (x ∷ before, behind) ]

-- `otbr_rest_parse_dataset_hex_body`. The escape that matters is one before the closing quote.
unfoldable pub parse_dataset_quoted : List ℕ → Option (List ℕ)
parse_dataset_quoted payload = elim (find_byte quote payload) [
  | none ↦ none
  | some (before, tail) ↦ elim (skip_spaces tail) [
    | _ ∷ _ ↦ none
    | [] ↦ elim (find_byte backslash before) [ some _ ↦ none | none ↦ some before ]
  ]
]

unfoldable pub parse_dataset_from : List ℕ → Option (List ℕ)
parse_dataset_from [] = some []
parse_dataset_from (c ∷ s) = if not (c == quote) then some (c ∷ s) else parse_dataset_quoted s

unfoldable pub parse_dataset_hex_body : List ℕ → Option (List ℕ)
parse_dataset_hex_body body = parse_dataset_from (skip_spaces body)

-- `strncmp(p, word, strlen(word)) == 0`, with the pointer behind the word.
unfoldable pub strip_word : List ℕ → List ℕ → Option (List ℕ)
strip_word [] s = some s
strip_word (w ∷ ws) [] = none
strip_word (w ∷ ws) (c ∷ s) = if w == c then strip_word ws s else none

abbrev pub word_enable : List ℕ
word_enable = b'e' ∷ b'n' ∷ b'a' ∷ b'b' ∷ b'l' ∷ b'e' ∷ []

abbrev pub word_disable : List ℕ
word_disable = b'd' ∷ b'i' ∷ b's' ∷ b'a' ∷ b'b' ∷ b'l' ∷ b'e' ∷ []

-- The word with `*on`; what the function leaves in `*on` where it returns false is not read.
unfoldable pub parse_word : List ℕ → Option (Bool × List ℕ)
parse_word p = elim (strip_word word_enable p) [
  | some rest ↦ some (true, rest)
  | none ↦ elim (strip_word word_disable p) [ some rest ↦ some (false, rest) | none ↦ none ]
]

unfoldable pub close_toggle : Bool → List ℕ → Option (List ℕ)
close_toggle false rest = some rest
close_toggle true [] = none
close_toggle true (c ∷ rest) = if c == quote then some rest else none

abbrev pub ends : Bool → List ℕ → Option Bool
ends on [] = some on
ends on (_ ∷ _) = none

unfoldable pub parse_toggle_from : Bool → List ℕ → Option Bool
parse_toggle_from quoted p = elim (parse_word p) [
  | none ↦ none
  | some (on, rest) ↦ elim (close_toggle quoted rest) [
    | none ↦ none
    | some behind ↦ ends on (skip_spaces behind)
  ]
]

unfoldable pub parse_toggle_at : List ℕ → Option Bool
parse_toggle_at [] = parse_toggle_from false []
parse_toggle_at (c ∷ s) =
    if c == quote then parse_toggle_from true s else parse_toggle_from false (c ∷ s)

-- `otbr_rest_parse_toggle`: `some` of `*on` for true.
unfoldable pub parse_toggle : List ℕ → Option Bool
parse_toggle body = parse_toggle_at (skip_spaces body)
