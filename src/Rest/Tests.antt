-- ===== src/Rest/Tests.antt =====
-- main/otbr_rest_wire.h: runs of the JSON string writer and of the readers.
use cores3_epskc_commissione.Base.{ℕ, ◌≡◌, refl, some, List, [], ◌∷◌, arith}
use cores3_epskc_commissione.Base.Checked.{Returns}
use cores3_epskc_commissione.Rest.Wire.{quote_json_string, quote_loop, escape_byte, hex_digit}
use cores3_epskc_commissione.Rest.JsonReader.{read_json_string, read_json_string-quote}
use cores3_epskc_commissione.Rest.Options.{parse_epskc_options}
use cores3_epskc_commissione.Rest.Lifetime.{parse_epskc_options_total}

-- A quote, a line feed and a letter.
abbrev value : List ℕ
value = b'"' ∷ 10 ∷ b'a' ∷ []

abbrev quoted : List ℕ
quoted = b'"' ∷ 92 ∷ b'"' ∷ 92 ∷ b'u' ∷ b'0' ∷ b'0' ∷ b'0' ∷ b'a' ∷ b'a' ∷ b'"' ∷ []

read_json_string-quote_example : read_json_string quoted ≡ some value
unfolding quote_json_string quote_loop escape_byte hex_digit
read_json_string-quote_example = read_json_string-quote value quoted 12 (ground arith) refl

-- {"port":1}
abbrev options : List ℕ
options = b'{' ∷ b'"' ∷ b'p' ∷ b'o' ∷ b'r' ∷ b't' ∷ b'"' ∷ b':' ∷ b'1' ∷ b'}' ∷ []

parse_epskc_options_total_example : Returns (parse_epskc_options options)
parse_epskc_options_total_example = parse_epskc_options_total options
