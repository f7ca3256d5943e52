-- ===== src/Ui/Tests.antt =====
-- main/ui.c: a run of the activity card.
use cores3_epskc_commissione.Base.{ℕ, true, false, Option, none, some, List, [], ◌∷◌, arith, refl}
use cores3_epskc_commissione.Ui.Worker.{
  Calls, free, take_lock, drain, send_call, takes, drains, sends, here, next,
}
use cores3_epskc_commissione.Ui.Handover.{IsCalls, Reach-IsCalls}
use cores3_epskc_commissione.Ui.Activity.{State, Next}
use cores3_epskc_commissione.Ui.History.{IsState, polls, polls-IsState}

abbrev attached : Next
attached = record { attached = true; tx = 10; rx = 20 }

abbrev fresh : State
fresh = record { samples = []; last_sample_ms = 0; valid = false; attached = false }

abbrev polled : List (Option Next × ℕ)
polled = (some attached, 1000) ∷ (some attached, 3000) ∷ (none, 4000) ∷ (some attached, 90000) ∷ []

polls-IsState_example : IsState (polls polled fresh)
polls-IsState_example =
    polls-IsState polled fresh
      (
        omega arith,
        omega arith,
        (omega arith, omega arith, (omega arith, omega arith, (omega arith, omega arith, tt))),
      )
      (record { ascending = tt; past = tt; minute = tt; bounded = omega arith })

abbrev idle : Calls
idle = record { phase = free; queued = 0; working = false; done = false; ran = 0; returned = [] }

abbrev refused_call : Calls
refused_call = send_call false (drain (take_lock idle))

Reach-IsCalls_example : IsCalls refused_call
Reach-IsCalls_example =
    Reach-IsCalls idle refused_call
      (next (next (next here (takes idle refl)) (drains (take_lock idle) refl))
        (sends (drain (take_lock idle)) false refl))
      (record { current = (refl, refl, refl); honest = tt })
