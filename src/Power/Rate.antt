-- ===== src/Power/Rate.antt =====
-- main/power.c: the samples in the discharge history, and the rate over them.
use cores3_epskc_commissione.Base.{
  ℕ, zero, suc, ◌+◌, ◌-◌, ◌*◌, ◌%◌, ◌≤◌, ◌<◌, ◌≡◌, refl, sym, ap, ◌⊎◌, inl, inr, Bool, not, ◌||◌,
  Option, none, some, List, [], ◌∷◌, ltb, ◌==◌, if◌then◌else◌, arith, Bool-cases,
}
use cores3_epskc_commissione.Power.History.{
  hist_n, Entry, History, newest, oldest, cleared, push, note_sample, Rate, discharge_rate,
}

-- One sample after another in a continuous discharge: a minute to a minute and a half later, and not
-- above it.
abbrev pub Next : Entry → Entry → Type 0
Next a b = (a.0 + 60000000 ≤ b.0) × (b.0 ≤ a.0 + 90000000) × (b.1 ≤ a.1)

-- The entry `i` places behind the oldest.
abbrev pub at : History → ℕ → Entry
at h i = h.hist ((oldest h + i) % hist_n)

pub record IsHistory (h : History) : Type 0 where
  pub count : h.n ≤ hist_n
  pub head : h.head < hist_n
  pub shape : (h.n ≡ hist_n) ⊎ (h.head ≡ h.n)
  pub first : 0 < h.n → (at h 0).1 ≤ 100
  pub steps : (i : ℕ) → suc i < h.n → Next (at h i) (at h (suc i))

pub cleared-IsHistory : (h : History) → IsHistory (cleared h)
cleared-IsHistory h = record {
  count = omega arith;
  head = omega arith;
  shape = ground arith;
  first = λ p. ground arith;
  steps = λ i p. ground arith;
}

pub newest-at : (h : History) → IsHistory h → 0 < h.n → at h (h.n - 1) ≡ h.hist (newest h)
newest-at h r p = ap h.hist e
  where
    e : (oldest h + (h.n - 1)) % hist_n ≡ newest h
    e = ground arith

module _ (h : History) (percent now : ℕ) (r : IsHistory h) where
  push-oldest : h.n < hist_n → oldest (push h percent now) ≡ 0
  unfolding push
  push-oldest l = ground arith

  pub push-at_old :
      (i : ℕ)
      → suc i < (push h percent now).n
      → at (push h percent now) i ≡ (if h.n == hist_n then at h (suc i) else at h i)
  unfolding push
  push-at_old i l = ground arith

  pub push-at_new : at (push h percent now) ((push h percent now).n - 1) ≡ (now, percent)
  unfolding push
  push-at_new = ground arith

pub push-IsHistory :
    (h : History) (percent now : ℕ)
    → IsHistory h
    → percent ≤ 100
    → (h.n ≡ 0) ⊎ Next (h.hist (newest h)) (now, percent)
    → IsHistory (push h percent now)
push-IsHistory h percent now r q next = record {
  count = unfold push in ground arith;
  head = unfold push in omega arith;
  shape = unfold push in ground arith;
  first = λ p. first;
  steps = steps;
}
  where
    grown :
        ((h.n < hist_n) × ((push h percent now).n ≡ suc h.n))
        ⊎ ((h.n ≡ hist_n) × ((push h percent now).n ≡ hist_n))
    grown = unfold push in ground arith

    first : (at (push h percent now) 0).1 ≤ 100
    first =
        let g = grown in
        elim (Bool-cases (h.n == 0)) [
          | inl z ↦
              let last : (push h percent now).n - 1 ≡ 0 = ground arith in
              rw (sym last, push-at_new h percent now r) q
          | inr z ↦
              let old = push-at_old h percent now r 0 (ground arith) in
              elim (Bool-cases (h.n == hist_n)) [
                | inl f ↦
                    rw (old, f) (omega (arith, r.steps 0 (ground arith), r.first (ground arith)))
                | inr f ↦ rw (old, f) (r.first (ground arith))
              ]
        ]

    steps :
        (i : ℕ)
        → suc i < (push h percent now).n
        → Next (at (push h percent now) i) (at (push h percent now) (suc i))
    steps i l =
        let g = grown in
        elim (Bool-cases (ltb (suc (suc i)) (push h percent now).n)) [
          | inl m ↦
              let old = push-at_old h percent now r i (ground arith) in
              let old' = push-at_old h percent now r (suc i) (ground arith) in
              elim (Bool-cases (h.n == hist_n)) [
                | inl f ↦ rw (old, old', f) (r.steps (suc i) (ground arith))
                | inr f ↦ rw (old, old', f) (r.steps i (ground arith))
              ]
          | inr m ↦
              let end : suc i ≡ (push h percent now).n - 1 = ground arith in
              let old = push-at_old h percent now r i l in
              let new = newest-at h r (ground arith) in
              elim (Bool-cases (h.n == hist_n)) [
                | inl f ↦
                    let back : suc i ≡ h.n - 1 = ground arith in
                    rw (old, f, end, push-at_new h percent now r, sym end, back, new) (ground arith)
                | inr f ↦
                    let back : i ≡ h.n - 1 = ground arith in
                    rw (old, f, end, push-at_new h percent now r, back, new) (ground arith)
              ]
        ]

-- A sample: the percentage, if there is one, whether it was on battery, and the time.
abbrev pub Sample : Type 0
Sample = Option ℕ × (Bool × ℕ)

-- The history after the samples of a list, each a percentage, whether it was on battery, and a time.
abbrev pub note_all : History → List (Option ℕ × (Bool × ℕ)) → History
note_all h [] = h
note_all h ((percent, (on_battery, now)) ∷ ss) = note_all (note_sample h percent on_battery now) ss

abbrev pub broken : History → ℕ → ℕ → Bool
broken h percent now =
    let last = h.hist (newest h) in
    ltb 90000000 (now - last.0) || ltb last.1 percent || ltb now last.0

pub note_sample-IsHistory :
    (h : History) (percent : Option ℕ) (on_battery : Bool) (now : ℕ)
    → IsHistory h
    → IsHistory (note_sample h percent on_battery now)
unfolding note_sample
note_sample-IsHistory h none on_battery now r = cleared-IsHistory h
note_sample-IsHistory h (some percent) on_battery now r =
    elim (Bool-cases (not on_battery || ltb 100 percent)) [
      | inl e ↦ rw e (cleared-IsHistory h)
      | inr e ↦ elim (Bool-cases (h.n == 0)) [
        | inl f ↦ rw (e, f) (push-IsHistory h percent now r (ground arith) (inl (ground arith)))
        | inr f ↦ elim (Bool-cases (broken h percent now)) [
          | inl g ↦
              rw (e, f, g)
                (push-IsHistory (cleared h) percent now (cleared-IsHistory h) (ground arith)
                  (inl refl))
          | inr g ↦ elim (Bool-cases (ltb (now - (h.hist (newest h)).0) 60000000)) [
            | inl j ↦ rw (e, f, g, j) r
            | inr j ↦
                rw (e, f, g, j) (push-IsHistory h percent now r (ground arith) (inr (ground arith)))
          ]
        ]
      ]
    ]

pub note_all-IsHistory :
    (h : History) (ss : List (Option ℕ × (Bool × ℕ))) → IsHistory h → IsHistory (note_all h ss)
note_all-IsHistory h [] r = r
note_all-IsHistory h ((percent, (on_battery, now)) ∷ ss) r =
    note_all-IsHistory (note_sample h percent on_battery now) ss
      (note_sample-IsHistory h percent on_battery now r)

abbrev Span : History → ℕ → Type 0
Span h k =
    ((at h 0).0 + k * 60000000 ≤ (at h k).0)
    × ((at h k).0 ≤ (at h 0).0 + k * 90000000)
    × ((at h k).1 ≤ (at h 0).1)

span : (h : History) (k : ℕ) → IsHistory h → k < h.n → Span h k
span h zero r l = ground arith
span h (suc k) r l = omega (arith, r.steps k l, span h k r (omega arith))

pub bounds :
    (h : History) (now : ℕ) (rate : Rate)
    → IsHistory h
    → discharge_rate h now ≡ some rate
    → (600000000 ≤ rate.elapsed)
      × (rate.elapsed ≤ 990000000)
      × (2 ≤ rate.drop)
      × (rate.drop + rate.remaining ≤ 100)
unfolding discharge_rate
bounds h now rate r e = elim (Bool-cases (ltb h.n 2)) [
  | inl f ↦ ground arith
  | inr f ↦
      let new = newest-at h r (ground arith) in
      let old : at h 0 ≡ h.hist (oldest h) = ap h.hist (ground arith) in
      let over = span h (h.n - 1) r (ground arith) in
      let top = r.first (ground arith) in let n = r.count in ground arith
]

-- From a cleared history on, whatever samples came, a rate that is given is one over ten minutes
-- to sixteen and a half, in which the battery lost at least 2 percent; what it lost and what
-- remains are 100 percent at most.
pub discharge_rate-bounds :
    (h : History) (ss : List (Option ℕ × (Bool × ℕ))) (now : ℕ) (rate : Rate)
    → discharge_rate (note_all (cleared h) ss) now ≡ some rate
    → (600000000 ≤ rate.elapsed)
      × (rate.elapsed ≤ 990000000)
      × (2 ≤ rate.drop)
      × (rate.drop + rate.remaining ≤ 100)
discharge_rate-bounds h ss now rate e =
    bounds (note_all (cleared h) ss) now rate
      (note_all-IsHistory (cleared h) ss (cleared-IsHistory h)) e
