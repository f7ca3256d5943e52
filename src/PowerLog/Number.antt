-- ===== src/PowerLog/Number.antt =====
-- main/power_log.c: `power_log_parse_uint` and decimal numbers.
use cores3_epskc_commissione.Base.{
  ℕ, ◌+◌, ◌-◌, ◌*◌, ◌≤◌, ◌<◌, ◌≡◌, ◌↔◌, inl, inr, some, List, [], ◌∷◌, ltb, length, arith, All,
  Bool-cases,
}
use cores3_epskc_commissione.PowerLog.Samples.{parse_loop, parse_uint}

abbrev pub IsDigit : ℕ → Type 0
IsDigit c = (48 ≤ c) × (c ≤ 57)

-- The value of the digits behind an `n`.
abbrev pub value_from : List ℕ → ℕ → ℕ
value_from [] n = n
value_from (c ∷ s) n = value_from s (n * 10 + (c - 48))

le-value_from : (s : List ℕ) (n : ℕ) → n ≤ value_from s n
le-value_from [] n = omega arith
le-value_from (c ∷ s) n = omega (arith, le-value_from s (n * 10 + (c - 48)))

parse_loop_iff :
    (s : List ℕ) (maximum n v : ℕ)
    → n ≤ maximum
    → (parse_loop s maximum n ≡ some v)
      ↔ (All IsDigit s × (value_from s n ≤ maximum) × (value_from s n ≡ v))
unfolding parse_loop
parse_loop_iff [] maximum n v l = ground arith
parse_loop_iff (c ∷ s) maximum n v l = elim (Bool-cases (ltb maximum (n * 10 + (c - 48)))) [
  | inl e ↦ ground (arith, le-value_from s (n * 10 + (c - 48)))
  | inr e ↦ ground (arith, parse_loop_iff s maximum (n * 10 + (c - 48)) v (ground arith))
]

-- `power_log_parse_uint` gives `v` exactly if the string is not empty, consists of decimal digits, and
-- denotes `v`, which is at most the maximum.
pub parse_uint_iff :
    (s : List ℕ) (maximum v : ℕ)
    → (parse_uint (some s) maximum ≡ some v)
      ↔ ((0 < length s) × All IsDigit s × (value_from s 0 ≤ maximum) × (value_from s 0 ≡ v))
unfolding parse_uint
parse_uint_iff s maximum v = ground (arith, parse_loop_iff s maximum 0 v (omega arith))
