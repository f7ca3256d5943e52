-- ===== src/Ui/History.antt =====
-- main/ui.c: sample_thread_activity over any number of polls.
use cores3_epskc_commissione.Base.{
  ℕ, ◌≤◌, ◌<◌, ◌^◌, ◌≡◌, refl, Bool, true, false, not, ◌&&◌, Option, none, some, List, [], ◌∷◌, ltb,
  ◌==◌, if◌then◌else◌, length, length-append, All-append, arith,
}
use cores3_epskc_commissione.Ui.Activity.{
  since, Sample, State, activity_history_reset, went_back, make_room, expire, Next, add_sample,
  follow, sample_due, sample_thread_activity,
}
use cores3_epskc_commissione.Ui.Rates.{
  Ascending, Past, snoc, snoc-Ascending, Ready, make_room-Ready, snoc-Newest, IsHistory,
  expire-IsHistory,
}

Ready-IsHistory :
    (s : Sample) (ss : List Sample)
    → s.at_ms < 2 ^ 64
    → Ready s ss
    → IsHistory s.at_ms (expire s.at_ms (snoc ss s))
Ready-IsHistory s ss b (a, p, e, l) =
    let sum = length-append ss (s ∷ []) in
    expire-IsHistory s.at_ms (snoc ss s) b (snoc-Ascending ss s a p e)
      (All-append (λ t. t.at_ms ≤ s.at_ms) ss (s ∷ []) p (omega arith, tt)) (snoc-Newest ss s)
      (omega (arith, sum))

add_sample-IsHistory :
    (next : Next) (now : ℕ) (ss : List Sample)
    → now < 2 ^ 64
    → Ascending ss
    → Past now ss
    → length ss ≤ 31
    → IsHistory now (add_sample next now ss)
unfolding add_sample
add_sample-IsHistory next now ss b a p l = kept (went_back next.tx next.rx ss) refl
  where
    taken : Sample
    taken = record { at_ms = now; tx = next.tx; rx = next.rx }

    kept :
        (back : Bool)
        → went_back next.tx next.rx ss ≡ back
        → IsHistory now (expire now (snoc (make_room (if back then [] else ss)) taken))
    kept true e =
        Ready-IsHistory taken (make_room []) b
          (make_room-Ready taken [] tt tt went_back_nil (omega arith))
      where
        went_back_nil : went_back next.tx next.rx [] ≡ false
        went_back_nil = unfold went_back in refl
    kept false e = Ready-IsHistory taken (make_room ss) b (make_room-Ready taken ss a p e l)

Past-mono : (now was : ℕ) (ss : List Sample) → was ≤ now → Past was ss → Past now ss
Past-mono now was [] h p = tt
Past-mono now was (s ∷ ss) h (p, ps) = (omega arith, Past-mono now was ss h ps)

-- The history of a state is that of the last sample taken.
abbrev pub IsState : State → Type 0
IsState s = IsHistory s.last_sample_ms s.samples

follow-IsState :
    (next : Next) (now : ℕ) (s : State)
    → s.last_sample_ms ≤ now
    → IsState s
    → IsState (follow next s) × ((follow next s).last_sample_ms ≤ now)
unfolding follow activity_history_reset
follow-IsState next now s h i =
    by_change (s.valid && not (if s.attached then next.attached else not next.attached))
  where
    by_change :
        (c : Bool)
        → IsHistory
            (if c then activity_history_reset s else s).last_sample_ms
            (if c then activity_history_reset s else s).samples
          × ((if c then activity_history_reset s else s).last_sample_ms ≤ now)
    by_change true =
        (record { ascending = tt; past = tt; minute = tt; bounded = omega arith }, omega arith)
    by_change false = (i, h)

sample_due-IsState :
    (next : Next) (now : ℕ) (s : State)
    → s.last_sample_ms ≤ now
    → now < 2 ^ 64
    → IsState s
    → IsState (sample_due next now s) × ((sample_due next now s).last_sample_ms ≤ now)
unfolding sample_due
sample_due-IsState next now s h b i =
    by_time (not (s.last_sample_ms == 0) && ltb (since now s.last_sample_ms) 1500)
  where
    sampled : State
    sampled = record s { samples = add_sample next now s.samples; last_sample_ms = now }

    by_time :
        (c : Bool)
        → IsState (if c then s else sampled) × ((if c then s else sampled).last_sample_ms ≤ now)
    by_time true = (i, h)
    by_time false = (
      add_sample-IsHistory next now s.samples b i.ascending
          (Past-mono now s.last_sample_ms s.samples h i.past) i.bounded,
      omega arith,
    )

poll-IsState :
    (o : Option Next) (now : ℕ) (s : State)
    → s.last_sample_ms ≤ now
    → now < 2 ^ 64
    → IsState s
    → IsState (sample_thread_activity o now s).1
      × ((sample_thread_activity o now s).1.last_sample_ms ≤ now)
unfolding sample_thread_activity
poll-IsState none now s h b i = (i, h)
poll-IsState (some next) now s h b i =
    let (i', h') = follow-IsState next now s h i in
    sample_due-IsState next now (follow next s) h' b i'

-- The polls of `sample_thread_activity`, with what the stack gives and the time.
abbrev pub polls : List (Option Next × ℕ) → State → State
polls [] s = s
polls ((o, now) ∷ calls) s = polls calls (sample_thread_activity o now s).1

-- Times that do not go back, from the last on.
abbrev pub Forward : ℕ → List (Option Next × ℕ) → Type 0
Forward from [] = Unit
Forward from ((o, now) ∷ calls) = (from ≤ now) × (now < 2 ^ 64) × Forward now calls

Forward-le :
    (low from : ℕ) (calls : List (Option Next × ℕ))
    → low ≤ from
    → Forward from calls
    → Forward low calls
Forward-le low from [] h f = tt
Forward-le low from ((o, now) ∷ calls) h (g, b, rest) = (omega arith, b, rest)

-- Through any number of polls at times that do not go back, whatever the stack gives, the history keeps
-- 31 samples at most, in the order of their times and with counters that never fall, none later than the
-- last one taken and none more than a minute older.
pub polls-IsState :
    (calls : List (Option Next × ℕ)) (s : State)
    → Forward s.last_sample_ms calls
    → IsState s
    → IsState (polls calls s)
polls-IsState [] s f i = i
polls-IsState ((o, now) ∷ calls) s (f, b, rest) i =
    let (i', h) = poll-IsState o now s f b i in
    polls-IsState calls (sample_thread_activity o now s).1
      (Forward-le (sample_thread_activity o now s).1.last_sample_ms now calls h rest) i'
