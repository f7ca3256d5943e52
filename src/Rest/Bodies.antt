-- ===== src/Rest/Bodies.antt =====
-- main/otbr_rest_wire.h: the toggle bodies.
use cores3_epskc_commissione.Base.{
  ℕ, ◌≡◌, refl, sym, ap, subst, ◌∙◌, ◌↔◌, inl, inr, Bool, true, false, Option, none, some, List, [],
  ◌∷◌, ◌++◌, ◌==◌, if◌then◌else◌, All, arith, Bool-cases, ==_iff,
}
use cores3_epskc_commissione.Rest.Wire.{
  quote, is_space, skip_spaces, strip_word, word_enable, word_disable, parse_word, close_toggle,
  ends, parse_toggle_from, parse_toggle_at, parse_toggle,
}

abbrev pub Spaces : List ℕ → Type 0
Spaces = All (λ c. is_space c ≡ true)

-- The spaces that `skip_spaces` passes.
abbrev leading : List ℕ → List ℕ
leading [] = []
leading (c ∷ s) = if is_space c then c ∷ leading s else []

leading-Spaces : (s : List ℕ) → Spaces (leading s)
leading-Spaces [] = tt
leading-Spaces (c ∷ s) = elim (Bool-cases (is_space c)) [
  | inl e ↦ rw e (e, leading-Spaces s)
  | inr e ↦ rw e tt
]

pub leading-append-skip_spaces : (s : List ℕ) → leading s ++ skip_spaces s ≡ s
unfolding skip_spaces
leading-append-skip_spaces [] = refl
leading-append-skip_spaces (c ∷ s) = ground (arith, leading-append-skip_spaces s)

pub skip_spaces-Spaces :
    (ws rest : List ℕ) → Spaces ws → skip_spaces (ws ++ rest) ≡ skip_spaces rest
unfolding skip_spaces
skip_spaces-Spaces [] rest h = refl
skip_spaces-Spaces (c ∷ ws) rest h = rw h.0 (skip_spaces-Spaces ws rest h.1)

skip_spaces-nil : (ws : List ℕ) → Spaces ws → skip_spaces ws ≡ []
unfolding skip_spaces
skip_spaces-nil [] h = refl
skip_spaces-nil (c ∷ ws) h = rw h.0 (skip_spaces-nil ws h.1)

skip_spaces_nil-Spaces : (s : List ℕ) → skip_spaces s ≡ [] → Spaces s
unfolding skip_spaces
skip_spaces_nil-Spaces [] e = tt
skip_spaces_nil-Spaces (c ∷ s) e = elim (Bool-cases (is_space c)) [
  | inl f ↦ (f, skip_spaces_nil-Spaces s (rw f at e))
  | inr f ↦ absurd (cons_ne (rw f at e))
]
  where
    cons_ne : c ∷ s ≡ [] → ⊥
    cons_ne e = cc

strip_word-append : (w rest : List ℕ) → strip_word w (w ++ rest) ≡ some rest
unfolding strip_word
strip_word-append [] rest = refl
strip_word-append (c ∷ w) rest = rw ((==_iff c c).1 refl) (strip_word-append w rest)

strip_word-some : (w s rest : List ℕ) → strip_word w s ≡ some rest → s ≡ w ++ rest
unfolding strip_word
strip_word-some [] s rest e = ground arith
strip_word-some (c ∷ w) [] rest e = cc
strip_word-some (c ∷ w) (x ∷ s) rest e = ground (arith, strip_word-some w s rest)

abbrev pub word : Bool → List ℕ
word true = word_enable
word false = word_disable

abbrev pub quotes : Bool → List ℕ
quotes true = quote ∷ []
quotes false = []

parse_word-word : (on : Bool) (rest : List ℕ) → parse_word (word on ++ rest) ≡ some (on, rest)
unfolding parse_word strip_word
parse_word-word true rest = refl
parse_word-word false rest = refl

parse_word-some :
    (p rest : List ℕ) (on : Bool) → parse_word p ≡ some (on, rest) → p ≡ word on ++ rest
unfolding parse_word
parse_word-some p rest true e =
    ground (arith, strip_word-some word_enable p rest, strip_word-some word_disable p rest)
parse_word-some p rest false e =
    ground (arith, strip_word-some word_enable p rest, strip_word-some word_disable p rest)

close_toggle-some :
    (q : Bool) (rest behind : List ℕ)
    → close_toggle q rest ≡ some behind
    → rest ≡ quotes q ++ behind
unfolding close_toggle
close_toggle-some false rest behind e = cc
close_toggle-some true [] behind e = cc
close_toggle-some true (c ∷ rest) behind e = ground arith

ends-some : (on b : Bool) (s : List ℕ) → ends on s ≡ some b → (s ≡ []) × (on ≡ b)
ends-some on b [] e = (refl, cc)
ends-some on b (c ∷ s) e = cc

-- A body of a toggle: spaces, the word, which may be quoted, and spaces.
abbrev pub toggle_body : List ℕ → Bool → Bool → List ℕ → List ℕ
toggle_body before quoted on behind =
    before ++ (quotes quoted ++ (word on ++ (quotes quoted ++ behind)))

parse_toggle_from-word :
    (q on : Bool) (behind : List ℕ)
    → Spaces behind
    → parse_toggle_from q (word on ++ (quotes q ++ behind)) ≡ some on
unfolding parse_toggle_from close_toggle
parse_toggle_from-word true on behind h =
    rw (parse_word-word on (quote ∷ behind), parse_toggle_from, skip_spaces-nil behind h)
parse_toggle_from-word false on behind h =
    rw (parse_word-word on behind, parse_toggle_from, skip_spaces-nil behind h)

abbrev Tail : Bool → Bool → List ℕ → Type 0
Tail q on p = (behind : List ℕ) × Spaces behind × (p ≡ word on ++ (quotes q ++ behind))

rest_behind :
    (q b : Bool) (p rest behind : List ℕ) (on : Bool)
    → parse_word p ≡ some (b, rest)
    → close_toggle q rest ≡ some behind
    → ends b (skip_spaces behind) ≡ some on
    → Tail q on p
rest_behind q b p rest behind on e f g =
    let (nil, same) = ends-some b on _ g in
    (
      behind,
      skip_spaces_nil-Spaces behind nil,
      subst (λ x. p ≡ word x ++ (quotes q ++ behind)) same
          (parse_word-some p rest b e ∙ ap (λ r. word b ++ r) (close_toggle-some q rest behind f)),
    )

parse_toggle_from-some :
    (q : Bool) (p : List ℕ) (on : Bool) → parse_toggle_from q p ≡ some on → Tail q on p
parse_toggle_from-some q p on e = word_found (parse_word p) refl
  where
    closed :
        (b : Bool) (rest : List ℕ)
        → parse_word p ≡ some (b, rest)
        → (o : Option (List ℕ)) → close_toggle q rest ≡ o
        → Tail q on p
    closed b rest f none g = absurd (unfold parse_toggle_from in ground arith)
    closed b rest f (some behind) g =
        rest_behind q b p rest behind on f g (unfold parse_toggle_from in ground arith)

    word_found : (o : Option (Bool × List ℕ)) → parse_word p ≡ o → Tail q on p
    word_found none f = absurd (unfold parse_toggle_from in ground arith)
    word_found (some (b, rest)) f = closed b rest f _ refl

parse_toggle-word :
    (before behind : List ℕ) (q on : Bool)
    → Spaces before
    → Spaces behind
    → parse_toggle (toggle_body before q on behind) ≡ some on
unfolding parse_toggle
parse_toggle-word before behind q on h k = rw (skip_spaces-Spaces before _ h) (by_quotes q on)
  where
    by_quotes :
        (q on : Bool)
        → parse_toggle_at (skip_spaces (quotes q ++ (word on ++ (quotes q ++ behind)))) ≡ some on
    by_quotes true on =
        unfold skip_spaces is_space parse_toggle_at in parse_toggle_from-word true on behind k
    by_quotes false true =
        unfold skip_spaces is_space parse_toggle_at in parse_toggle_from-word false true behind k
    by_quotes false false =
        unfold skip_spaces is_space parse_toggle_at in parse_toggle_from-word false false behind k

abbrev pub IsToggle : Bool → List ℕ → Type 0
IsToggle on body =
    (before : List ℕ) × (quoted : Bool) × (behind : List ℕ) × Spaces before
    × Spaces behind
    × (body ≡ toggle_body before quoted on behind)

parse_toggle_at-some :
    (p : List ℕ) (on : Bool)
    → parse_toggle_at p ≡ some on
    → (q : Bool) × (behind : List ℕ) × Spaces behind
      × (p ≡ quotes q ++ (word on ++ (quotes q ++ behind)))
unfolding parse_toggle_at
parse_toggle_at-some [] on e =
    let (behind, h, f) = parse_toggle_from-some false [] on e in (false, behind, h, f)
parse_toggle_at-some (c ∷ s) on e = elim (Bool-cases (c == quote)) [
  | inl f ↦
      let (behind, h, g) = parse_toggle_from-some true s on (rw f at e) in
      (true, behind, h, rw ((==_iff c quote).0 f, g))
  | inr f ↦
      let (behind, h, g) = parse_toggle_from-some false (c ∷ s) on (rw f at e) in
      (false, behind, h, g)
]

parse_toggle-some : (body : List ℕ) (on : Bool) → parse_toggle body ≡ some on → IsToggle on body
unfolding parse_toggle
parse_toggle-some body on e =
    let (q, behind, h, f) = parse_toggle_at-some (skip_spaces body) on e in
    (
      leading body,
      q,
      behind,
      leading-Spaces body,
      h,
      sym (leading-append-skip_spaces body) ∙ ap (λ s. leading body ++ s) f,
    )

-- `otbr_rest_parse_toggle` returns true with `*on` exactly when the body is `enable` for true or
-- `disable` for false, plain or in quotes, with any white space in front and behind.
pub parse_toggle_iff :
    (body : List ℕ) (on : Bool) → (parse_toggle body ≡ some on) ↔ IsToggle on body
parse_toggle_iff body on = (
  parse_toggle-some body on,
  λ (before, quoted, behind, h, k, e). rw e (parse_toggle-word before behind quoted on h k),
)
