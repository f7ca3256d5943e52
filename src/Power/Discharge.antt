-- ===== src/Power/Discharge.antt =====
-- main/power.c: the samples that a discharge rate is measured on.
use cores3_epskc_commissione.Base.{
  ℕ, suc, ◌+◌, ◌-◌, ◌≤◌, ◌<◌, ◌≡◌, refl, sym, ap, ◌∙◌, subst, inl, inr, Bool, true, false, not,
  ◌||◌, none, some, List, [], ◌∷◌, ltb, ◌==◌, if◌then◌else◌, arith, Bool-cases,
}
use cores3_epskc_commissione.Power.History.{
  hist_n, Entry, History, newest, oldest, cleared, push, note_sample, Rate, discharge_rate,
}
use cores3_epskc_commissione.Power.Rate.{
  at, IsHistory, Sample, note_all, broken, cleared-IsHistory, newest-at, push-at_old, push-at_new,
  note_sample-IsHistory, note_all-IsHistory, bounds,
}

-- The samples of the discharge that goes on at the end of a list: those behind the last one that was not
-- on battery or had no percentage up to 100. The latest comes first.
abbrev pub discharge : List Entry → List Sample → List Entry
discharge since [] = since
discharge since ((none, (on_battery, now)) ∷ ss) = discharge [] ss
discharge since ((some percent, (on_battery, now)) ∷ ss) =
    discharge (if not on_battery || ltb 100 percent then [] else (now, percent) ∷ since) ss

pub data IsIn (e : Entry) : List Entry → Type 0 where
  here : {x : Entry} {xs : List Entry} → e ≡ x → IsIn e (x ∷ xs)
  there : {x : Entry} {xs : List Entry} → IsIn e xs → IsIn e (x ∷ xs)

-- Every entry of the history is one of these samples.
record Recorded (h : History) (es : List Entry) : Type 0 where
  within : (i : ℕ) → i < h.n → IsIn (at h i) es

cleared-Recorded : (h : History) (es : List Entry) → Recorded (cleared h) es
cleared-Recorded h es = record { within = λ i l. absurd (omega arith) }

push-Recorded :
    (h : History) (percent now : ℕ) (es : List Entry)
    → IsHistory h
    → Recorded h es
    → Recorded (push h percent now) ((now, percent) ∷ es)
push-Recorded h percent now es r a = record { within = within }
  where
    kept :
        (i : ℕ)
        → i < (push h percent now).n
        → ltb (suc i) (push h percent now).n ≡ true
        → IsIn (at (push h percent now) i) es
    kept i l m =
        let old = push-at_old h percent now r i (ground arith) in
        elim (Bool-cases (h.n == hist_n)) [
          | inl f ↦
              subst (λ (e : Entry). IsIn e es) (sym (old ∙ rw f refl))
                (a.within (suc i) (unfold push in ground arith))
          | inr f ↦
              subst (λ (e : Entry). IsIn e es) (sym (old ∙ rw f refl))
                (a.within i (unfold push in ground arith))
        ]

    within :
        (i : ℕ)
        → i < (push h percent now).n
        → IsIn (at (push h percent now) i) ((now, percent) ∷ es)
    within i l = elim (Bool-cases (ltb (suc i) (push h percent now).n)) [
      | inl m ↦ there (kept i l m)
      | inr m ↦
          let last : i ≡ (push h percent now).n - 1 = ground arith in
          here (ap (at (push h percent now)) last ∙ push-at_new h percent now r)
    ]

note_sample-Recorded :
    (h : History) (percent now : ℕ) (es : List Entry)
    → IsHistory h
    → Recorded h es
    → (not true || ltb 100 percent) ≡ false
    → Recorded (note_sample h (some percent) true now) ((now, percent) ∷ es)
unfolding note_sample
note_sample-Recorded h percent now es r a e = elim (Bool-cases (h.n == 0)) [
  | inl f ↦ rw (e, f) (push-Recorded h percent now es r a)
  | inr f ↦ elim (Bool-cases (broken h percent now)) [
    | inl g ↦
        rw (e, f, g)
          (push-Recorded (cleared h) percent now es (cleared-IsHistory h) (cleared-Recorded h es))
    | inr g ↦ elim (Bool-cases (ltb (now - (h.hist (newest h)).0) 60000000)) [
      | inl j ↦ rw (e, f, g, j) (record { within = λ i l. there (a.within i l) })
      | inr j ↦ rw (e, f, g, j) (push-Recorded h percent now es r a)
    ]
  ]
]

note_sample-Recorded_if :
    (h : History) (percent : ℕ) (on_battery : Bool) (now : ℕ) (es : List Entry)
    → IsHistory h
    → Recorded h es
    → Recorded
        (note_sample h (some percent) on_battery now)
        (if not on_battery || ltb 100 percent then [] else (now, percent) ∷ es)
note_sample-Recorded_if h percent on_battery now es r a =
    elim (Bool-cases (not on_battery || ltb 100 percent)) [
      | inl e ↦ unfold note_sample in rw e (cleared-Recorded h [])
      | inr e ↦
          let on : on_battery ≡ true = ground arith in
          rw (on, (rw on at e)) (note_sample-Recorded h percent now es r a (rw on at e))
    ]

note_all-Recorded :
    (h : History) (ss : List Sample) (es : List Entry)
    → IsHistory h
    → Recorded h es
    → Recorded (note_all h ss) (discharge es ss)
note_all-Recorded h [] es r a = a
note_all-Recorded h ((none, (on_battery, now)) ∷ ss) es r a =
    note_all-Recorded (note_sample h none on_battery now) ss []
      (note_sample-IsHistory h none on_battery now r) (unfold note_sample in cleared-Recorded h [])
note_all-Recorded h ((some percent, (on_battery, now)) ∷ ss) es r a =
    note_all-Recorded (note_sample h (some percent) on_battery now) ss
      (if not on_battery || ltb 100 percent then [] else (now, percent) ∷ es)
      (note_sample-IsHistory h (some percent) on_battery now r)
      (note_sample-Recorded_if h percent on_battery now es r a)

measured :
    (h : History) (now : ℕ) (rate : Rate)
    → IsHistory h
    → discharge_rate h now ≡ some rate
    → (rate.elapsed ≡ (at h (h.n - 1)).0 - (at h 0).0)
      × (rate.drop ≡ (at h 0).1 - (at h (h.n - 1)).1)
      × (rate.remaining ≡ (at h (h.n - 1)).1)
      × (2 ≤ h.n)
unfolding discharge_rate
measured h now rate r e = elim (Bool-cases (ltb h.n 2)) [
  | inl f ↦ ground arith
  | inr f ↦
      let new = newest-at h r (ground arith) in
      let old : at h 0 ≡ h.hist (oldest h) = ap h.hist (ground arith) in
      rw (new, old) (ground arith)
]

-- From a cleared history on, whatever samples came, a rate that is given compares two samples of the
-- discharge that goes on, behind every sample that was not on battery or had no percentage up to 100:
-- it gives the time between them, what the battery lost and what it has at the later one. They lie ten
-- to sixteen and a half minutes apart, the loss is at least 2 percent, and the loss and what remains are
-- 100 percent at most.
pub discharge_rate-discharge :
    (h : History) (ss : List Sample) (now : ℕ) (rate : Rate)
    → discharge_rate (note_all (cleared h) ss) now ≡ some rate
    → ((first : Entry) × ((last : Entry) × IsIn first (discharge [] ss)
          × IsIn last (discharge [] ss)
          × (rate.elapsed ≡ last.0 - first.0)
          × (rate.drop ≡ first.1 - last.1)
          × (rate.remaining ≡ last.1)))
      × (600000000 ≤ rate.elapsed)
      × (rate.elapsed ≤ 990000000)
      × (2 ≤ rate.drop)
      × (rate.drop + rate.remaining ≤ 100)
discharge_rate-discharge h ss now rate e =
    let g = note_all (cleared h) ss in
    let r = note_all-IsHistory (cleared h) ss (cleared-IsHistory h) in
    let a = note_all-Recorded (cleared h) ss [] (cleared-IsHistory h) (cleared-Recorded h []) in
    let (elapsed, drop, remaining, two) = measured g now rate r e in
    let (low, high, lost, all) = bounds g now rate r e in
    (
      (
        at g 0,
        (
          at g (g.n - 1),
          a.within 0 (omega arith),
          a.within (g.n - 1) (omega arith),
          elapsed,
          drop,
          remaining,
        ),
      ),
      low,
      high,
      lost,
      all,
    )
