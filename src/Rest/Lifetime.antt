-- ===== src/Rest/Lifetime.antt =====
-- main/otbr_rest_wire.h: the fuel of the reader of the ephemeral key's options.
use cores3_epskc_commissione.Base.{
  ℕ, zero, suc, ◌+◌, ◌≤◌, ◌<◌, ◌≡◌, ◌≢◌, refl, Bool, true, false, some, List, [], ◌∷◌, length, ℤ,
  arith, Option-cases, inl, inr,
}
use cores3_epskc_commissione.Base.Checked.{Checked, ok, oob, stuck, Returns}
use cores3_epskc_commissione.Rest.Wire.{quote, skip_spaces, find_byte}
use cores3_epskc_commissione.Rest.Options.{
  span_digits, parse_unsigned, parse_number, expect, parse_member, Seen, front, again, after_member,
  one_member, options_loop, unseen, parse_epskc_options, open_options,
}

skip_spaces-le : (s : List ℕ) → length (skip_spaces s) ≤ length s
unfolding skip_spaces
skip_spaces-le [] = omega arith
skip_spaces-le (c ∷ s) = ground (arith, skip_spaces-le s)

span_digits-le : (s : List ℕ) → length (span_digits s).1 ≤ length s
unfolding span_digits
span_digits-le [] = omega arith
span_digits-le (c ∷ s) = ground (arith, span_digits-le s)

parse_unsigned-le :
    (b : Bool) (p : List ℕ) (r : ℤ × List ℕ) → parse_unsigned b p ≡ some r → length r.1 ≤ length p
unfolding parse_unsigned
parse_unsigned-le b p r e = ground (arith, span_digits-le p)

parse_number-le : (p : List ℕ) (r : ℤ × List ℕ) → parse_number p ≡ some r → length r.1 ≤ length p
unfolding parse_number
parse_number-le [] r e = ground arith
parse_number-le (c ∷ s) r e =
    ground (arith, parse_unsigned-le true s r, parse_unsigned-le false (c ∷ s) r)

find_byte-le :
    (b : ℕ) (s : List ℕ) (r : List ℕ × List ℕ) → find_byte b s ≡ some r → length r.1 ≤ length s
unfolding find_byte
find_byte-le b [] r e = ground arith
find_byte-le b (c ∷ s) r e = grind (arith, find_byte-le b s)

expect-lt : (b : ℕ) (s r : List ℕ) → expect b s ≡ some r → length r < length s
unfolding expect
expect-lt b [] r e = ground arith
expect-lt b (c ∷ s) r e = ground arith

front-lt : (s t : List ℕ) (c : ℕ) → front (skip_spaces s) ≡ some (c, t) → length t < length s
front-lt s t c e = go (skip_spaces s) e (skip_spaces-le s)
  where
    go : (u : List ℕ) → front u ≡ some (c, t) → length u ≤ length s → length t < length s
    go [] f l = ground arith
    go (d ∷ u) f l = ground arith

after_member-le : (rest s : List ℕ) → after_member rest ≡ again s → length s ≤ length rest
unfolding after_member
after_member-le rest s e = grind (arith, front-lt rest)

parse_member-lt :
    (p : List ℕ) (r : List ℕ × (ℤ × List ℕ)) → parse_member p ≡ some r → length r.1.1 < length p
unfolding parse_member
parse_member-lt p r e = elim (Option-cases (expect quote p)) [
  | inl n ↦ ground arith
  | inr (a, f) ↦ elim (Option-cases (find_byte quote a)) [
    | inl n ↦ ground arith
    | inr ((key, b), g) ↦ elim (Option-cases (expect 58 (skip_spaces b))) [
      | inl n ↦ ground arith
      | inr (c, h) ↦ grind (
        arith,
        expect-lt quote p a f,
        find_byte-le quote a (key, b) g,
        skip_spaces-le b,
        expect-lt 58 (skip_spaces b) c h,
        skip_spaces-le c,
        parse_number-le (skip_spaces c),
      )
    ]
  ]
]

one_member-lt :
    (p : List ℕ) (seen : Seen) (r : Seen × List ℕ)
    → one_member p seen ≡ some r
    → length r.1 < length p
unfolding one_member
one_member-lt p seen r e = grind (arith, parse_member-lt p)

options_loop-ends :
    (n : ℕ) (p : List ℕ) (seen : Seen)
    → length p < n
    → (options_loop n p seen ≢ stuck) × (options_loop n p seen ≢ oob)
unfolding options_loop
options_loop-ends zero p seen l = ground arith
options_loop-ends (suc n) p seen l = elim (Option-cases (one_member (skip_spaces p) seen)) [
  | inl none_left ↦ ground arith
  | inr ((seen', rest), e) ↦ grind (
    arith,
    one_member-lt (skip_spaces p) seen (seen', rest) e,
    skip_spaces-le p,
    after_member-le rest,
    options_loop-ends n,
  )
]

Returns-ends : {A : Type 0} (m : Checked A) → m ≢ stuck → m ≢ oob → Returns m
Returns-ends (ok a) s o = (a, refl)
Returns-ends oob s o = absurd (o refl)
Returns-ends stuck s o = absurd (s refl)

-- Whatever the body, reading the options ends within as many members as the body has bytes: the
-- reader never runs out of fuel.
pub parse_epskc_options_total : (body : List ℕ) → Returns (parse_epskc_options body)
unfolding parse_epskc_options open_options
parse_epskc_options_total body = Returns-ends (parse_epskc_options body) (ends body).0 (ends body).1
  where
    ends : (b : List ℕ) → (parse_epskc_options b ≢ stuck) × (parse_epskc_options b ≢ oob)
    ends b = go (skip_spaces b)
      where
        go : (u : List ℕ) → (open_options u ≢ stuck) × (open_options u ≢ oob)
        go [] = ground arith
        go (c ∷ p) = ground (arith, options_loop-ends (length p + 1) p unseen (omega arith))
