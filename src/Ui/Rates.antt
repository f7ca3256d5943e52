-- ===== src/Ui/Rates.antt =====
-- main/ui.c: the history of the activity card through any number of polls.
use cores3_epskc_commissione.Base.{
  ℕ, ◌+◌, ◌≤◌, ◌<◌, ◌^◌, ◌≡◌, refl, inl, inr, Bool, true, false, List, [], ◌∷◌, ◌++◌, ltb, ◌==◌,
  if◌then◌else◌, length, drop, All, arith, Bool-cases, ltb→le,
}
use cores3_epskc_commissione.Ui.Activity.{since, sample_count, Sample, went_back, make_room, expire}

-- Samples in the order of their times, with counters that do not go back, up to a last one.
abbrev pub Ascending : List Sample → Type 0
Ascending [] = Unit
Ascending (s ∷ []) = Unit
Ascending (s ∷ t ∷ ss) = (s.at_ms ≤ t.at_ms) × (s.tx ≤ t.tx) × (s.rx ≤ t.rx) × Ascending (t ∷ ss)

-- No sample is later than the last one taken, and none more than a minute older.
abbrev pub Past : ℕ → List Sample → Type 0
Past now = All (λ s. s.at_ms ≤ now)

abbrev pub Minute : ℕ → List Sample → Type 0
Minute now = All (λ s. now ≤ s.at_ms + 60000)

abbrev pub snoc : List Sample → Sample → List Sample
snoc ss s = ss ++ (s ∷ [])

pub snoc-Ascending :
    (ss : List Sample) (s : Sample)
    → Ascending ss
    → Past s.at_ms ss
    → went_back s.tx s.rx ss ≡ false
    → Ascending (snoc ss s)
unfolding went_back
snoc-Ascending [] s a r e = tt
snoc-Ascending (t ∷ []) s a r e = ground arith
snoc-Ascending (t ∷ u ∷ ss) s (at_le, tx_le, rx_le, a) (r, rs) e =
    (at_le, tx_le, rx_le, snoc-Ascending (u ∷ ss) s a rs e)

drop-Ascending : (ss : List Sample) → Ascending ss → Ascending (drop 1 ss)
drop-Ascending [] a = tt
drop-Ascending (s ∷ []) a = tt
drop-Ascending (s ∷ t ∷ ss) (at_le, tx_le, rx_le, a) = a

drop-Past : (now : ℕ) (ss : List Sample) → Past now ss → Past now (drop 1 ss)
drop-Past now [] a = tt
drop-Past now (s ∷ ss) (p, ps) = ps

went_back-drop :
    (tx rx : ℕ) (ss : List Sample)
    → went_back tx rx ss ≡ false
    → went_back tx rx (drop 1 ss) ≡ false
unfolding went_back
went_back-drop tx rx [] e = refl
went_back-drop tx rx (s ∷ []) e = refl
went_back-drop tx rx (s ∷ t ∷ ss) e = e

-- What holds of the samples before the next is taken.
abbrev pub Ready : Sample → List Sample → Type 0
Ready s ss = Ascending ss × Past s.at_ms ss × (went_back s.tx s.rx ss ≡ false) × (length ss ≤ 30)

pub make_room-Ready :
    (s : Sample) (ss : List Sample)
    → Ascending ss
    → Past s.at_ms ss
    → went_back s.tx s.rx ss ≡ false
    → length ss ≤ 31
    → Ready s (make_room ss)
unfolding make_room
make_room-Ready s ss a p e l = elim (Bool-cases (length ss == sample_count)) [
  | inl f ↦
      rw f
        (drop-Ascending ss a, drop-Past s.at_ms ss p, went_back-drop s.tx s.rx ss e, shorter ss f)
  | inr f ↦ rw f (a, p, e, ground arith)
]
  where
    shorter : (xs : List Sample) → (length xs == sample_count) ≡ true → length (drop 1 xs) ≤ 30
    shorter [] g = omega arith
    shorter (x ∷ xs) g = ground arith

-- Of samples in order, those after the first are as late.
later :
    (s : Sample) (ss : List Sample) (low : ℕ)
    → low ≤ s.at_ms + 60000
    → Ascending (s ∷ ss)
    → Minute low ss
later s [] low h a = tt
later s (t ∷ ss) low h (at_le, tx_le, rx_le, a) = (omega arith, later t ss low (omega arith) a)

-- The last of them was taken now.
abbrev pub Newest : ℕ → List Sample → Type 0
Newest now [] = Unit
Newest now (s ∷ []) = s.at_ms ≡ now
Newest now (s ∷ t ∷ ss) = Newest now (t ∷ ss)

pub snoc-Newest : (ss : List Sample) (s : Sample) → Newest s.at_ms (snoc ss s)
snoc-Newest [] s = refl
snoc-Newest (t ∷ []) s = refl
snoc-Newest (t ∷ u ∷ ss) s = snoc-Newest (u ∷ ss) s

-- The history after a sample at `now`.
pub record IsHistory (now : ℕ) (ss : List Sample) : Type 0 where
  pub ascending : Ascending ss
  pub past : Past now ss
  pub minute : Minute now ss
  pub bounded : length ss ≤ 31

pub expire-IsHistory :
    (now : ℕ) (ss : List Sample)
    → now < 2 ^ 64
    → Ascending ss
    → Past now ss
    → Newest now ss
    → length ss ≤ 31
    → IsHistory now (expire now ss)
unfolding expire
expire-IsHistory now [] b a p n l = record {
  ascending = tt;
  past = tt;
  minute = tt;
  bounded = omega arith;
}
expire-IsHistory now (s ∷ []) b a p n l = record {
  ascending = tt;
  past = p;
  minute = (omega arith, tt);
  bounded = l;
}
expire-IsHistory now (s ∷ t ∷ ss) b (at_le, tx_le, rx_le, a) (p, ps) n l =
    by_age (ltb 60000 (since now s.at_ms)) refl
      (expire-IsHistory now (t ∷ ss) b a ps n (omega arith))
  where
    by_age :
        (old : Bool)
        → ltb 60000 (since now s.at_ms) ≡ old
        → IsHistory now (expire now (t ∷ ss))
        → IsHistory now (if old then expire now (t ∷ ss) else s ∷ t ∷ ss)
    by_age true e rest = rest
    by_age false e rest =
        let recent : now ≤ s.at_ms + 60000 = omega (arith, ltb→le 60000 (since now s.at_ms) e) in
        record {
          ascending = (at_le, tx_le, rx_le, a);
          past = (p, ps);
          minute = (recent, later s (t ∷ ss) now recent (at_le, tx_le, rx_le, a));
          bounded = l;
        }
