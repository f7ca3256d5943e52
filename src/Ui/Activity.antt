-- ===== src/Ui/Activity.antt =====
-- main/ui.c: the samples of the Thread activity card.
use cores3_epskc_commissione.Base.{
  ℕ, zero, suc, ◌+◌, ◌-◌, ◌/◌, ◌%◌, ◌^◌, Bool, true, false, not, ◌&&◌, ◌||◌, Option, none, some,
  List, [], ◌∷◌, ◌++◌, ltb, leb, ◌==◌, if◌then◌else◌, length, drop,
}

abbrev pub sample_count : ℕ
sample_count = 31

-- `activity_sample_t`
pub record Sample : Type 0 where
  pub at_ms : ℕ
  pub tx : ℕ
  pub rx : ℕ

-- `s_activity_samples` up to its count, oldest first, `s_activity_last_sample_ms`, `s_activity_valid`
-- and `s_activity.attached`.
pub record State : Type 0 where
  pub samples : List Sample
  pub last_sample_ms : ℕ
  pub valid : Bool
  pub attached : Bool

-- `activity_history_reset`
unfoldable pub activity_history_reset : State → State
activity_history_reset s = record s { samples = []; last_sample_ms = 0 }

-- Whether a counter is below that of the newest sample.
unfoldable pub went_back : ℕ → ℕ → List Sample → Bool
went_back tx rx [] = false
went_back tx rx (s ∷ []) = ltb tx s.tx || ltb rx s.rx
went_back tx rx (s ∷ t ∷ ss) = went_back tx rx (t ∷ ss)

-- The oldest sample dropped where the array is full.
unfoldable pub make_room : List Sample → List Sample
make_room ss = if length ss == sample_count then drop 1 ss else ss

-- The time since, in `uint64_t`.
abbrev pub since : ℕ → ℕ → ℕ
since now at_ms = (now + 2 ^ 64 - at_ms) % 2 ^ 64

-- The loop over the samples more than a minute old; the last one stays.
unfoldable pub expire : ℕ → List Sample → List Sample
expire now [] = []
expire now (s ∷ []) = s ∷ []
expire now (s ∷ t ∷ ss) =
    let rest = expire now (t ∷ ss) in if ltb 60000 (since now s.at_ms) then rest else s ∷ t ∷ ss

-- What `thread_activity_get` gives.
pub record Next : Type 0 where
  pub attached : Bool
  pub tx : ℕ
  pub rx : ℕ

-- The sample taken, once one is due.
unfoldable pub add_sample : Next → ℕ → List Sample → List Sample
unfolding went_back make_room expire
add_sample next now ss =
    let kept = if went_back next.tx next.rx ss then [] else ss in
    expire now (make_room kept ++ (record { at_ms = now; tx = next.tx; rx = next.rx } ∷ []))

-- The attachment followed: a change of it starts the history anew.
unfoldable pub follow : Next → State → State
unfolding activity_history_reset
follow next s =
    let changed = s.valid && not (if s.attached then next.attached else not next.attached) in
    record (if changed then activity_history_reset s else s) {
      valid = true;
      attached = next.attached;
    }

-- A sample taken 1.5 seconds after the last at the earliest.
unfoldable pub sample_due : Next → ℕ → State → State
unfolding add_sample
sample_due next now s =
    if not (s.last_sample_ms == 0) && ltb (since now s.last_sample_ms) 1500
    then s
    else record s { samples = add_sample next now s.samples; last_sample_ms = now }

-- `sample_thread_activity` at a time
unfoldable pub sample_thread_activity : Option Next → ℕ → State → Bool × State
unfolding follow sample_due
sample_thread_activity none now s = (false, record s { valid = false })
sample_thread_activity (some next) now s = (true, sample_due next now (follow next s))

-- `counter_delta`
unfoldable pub counter_delta : ℕ → ℕ → ℕ
counter_delta newer older = if leb older newer then newer - older else 0

-- `digits_from_payload`: the digits found, up to nine, and whether there are nine.
unfoldable pub digits_loop : List ℕ → ℕ → List ℕ
digits_loop [] left = []
digits_loop (c ∷ payload) zero = []
digits_loop (c ∷ payload) (suc left) =
    let is_digit = leb 48 c && leb c 57 in
    let rest = digits_loop payload (if is_digit then left else suc left) in
    if is_digit then c ∷ rest else rest

unfoldable pub digits_from_payload : List ℕ → List ℕ × Bool
unfolding digits_loop
digits_from_payload payload = let digits = digits_loop payload 9 in (digits, length digits == 9)

-- The texts of `format_duration` and `format_count`: a number and a tenth, and a unit.
pub data DisplayUnit : Type 0 where
  days hours minutes seconds more_than_9m millions thousands ones : DisplayUnit

unfoldable pub format_duration : ℕ → ℕ × DisplayUnit
format_duration s =
    if leb 86400 s
    then (s / 86400, days)
    else if leb 3600 s
    then (s / 3600, hours)
    else if leb 60 s
    then (s / 60, minutes)
    else (s, seconds)

unfoldable pub format_count : ℕ → ℕ × (Option ℕ × DisplayUnit)
format_count v =
    if leb 10000000 v
    then (9, (none, more_than_9m))
    else if leb 1000000 v
    then (v / 1000000, (some (v % 1000000 / 100000), millions))
    else if leb 10000 v
    then (v / 1000, (none, thousands))
    else if leb 1000 v
    then (v / 1000, (some (v % 1000 / 100), thousands))
    else (v, (none, ones))
