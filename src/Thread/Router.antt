-- ===== src/Thread/Router.antt =====
-- main/thread.c: the callers that may start the border router, as steps in any order.
use cores3_epskc_commissione.Base.{
  ℕ, suc, ◌+◌, ◌≤◌, ◌≡◌, Bool, false, ◌&&◌, List, [], ◌∷◌, ◌++◌, if◌then◌else◌, arith,
}
use cores3_epskc_commissione.Thread.Start.{
  State, claim, finish, Answers, run_claimed, start_border_router, Promotion, apply_preference,
  set_prefer,
}

-- The state with the number of starts that are under way, and the number of those that have ended with
-- `esp_openthread_border_router_init` done.
pub record World : Type 0 where
  pub state : State
  pub under_way : ℕ
  pub initialised : ℕ

-- Whether a start gets through `esp_openthread_border_router_init`, on a usable stack and with these
-- answers.
abbrev pub comes_up : Bool → Answers → Bool
comes_up usable a = usable && a.name_set && a.initialised

-- A call of `thread_start_border_router` from any task, the claim of a worker that runs the start
-- itself, and the end of a start that is under way.
pub data Step : World → World → Type 0 where
  spawn :
      (w : World) (usable created : Bool)
      → Step w (record {
        state = (start_border_router usable created w.state).1.1;
        under_way =
            (if (start_border_router usable created w.state).1.0 then 1 else 0) + w.under_way;
        initialised = w.initialised;
      })
  claims :
      (w : World)
      → Step w (record {
        state = (claim w.state).1;
        under_way = (if (claim w.state).0 then 1 else 0) + w.under_way;
        initialised = w.initialised;
      })
  ends :
      (w : World) (n : ℕ) (usable : Bool) (a : Answers)
      → w.under_way ≡ suc n
      → Step w (record {
        state = run_claimed usable a w.state;
        under_way = n;
        initialised = (if comes_up usable a then 1 else 0) + w.initialised;
      })

pub data Reach (w : World) : World → Type 0 where
  here : Reach w w
  next : {u v : World} → Reach w u → Step u v → Reach w v

-- One start at most is under way, exactly while the flag says so; the router was initialised once where
-- the other flag says that it is up and never otherwise; and no start is under way once it is up.
pub record IsWorld (w : World) : Type 0 where
  pub counted : w.under_way ≡ (if w.state.starting then 1 else 0)
  pub exclusive : w.state.started && w.state.starting ≡ false
  pub once : w.initialised ≡ (if w.state.started then 1 else 0)

spawn-IsWorld :
    (w : World) (usable created : Bool)
    → IsWorld w
    → IsWorld (record {
      state = (start_border_router usable created w.state).1.1;
      under_way = (if (start_border_router usable created w.state).1.0 then 1 else 0) + w.under_way;
      initialised = w.initialised;
    })
unfolding start_border_router claim finish
spawn-IsWorld w usable created i = ground arith

claims-IsWorld :
    (w : World)
    → IsWorld w
    → IsWorld (record {
      state = (claim w.state).1;
      under_way = (if (claim w.state).0 then 1 else 0) + w.under_way;
      initialised = w.initialised;
    })
unfolding claim
claims-IsWorld w i = ground arith

ends-IsWorld :
    (w : World) (n : ℕ) (usable : Bool) (a : Answers)
    → w.under_way ≡ suc n
    → IsWorld w
    → IsWorld (record {
      state = run_claimed usable a w.state;
      under_way = n;
      initialised = (if comes_up usable a then 1 else 0) + w.initialised;
    })
unfolding run_claimed finish
ends-IsWorld w n usable a e i = ground arith

Step-IsWorld : {w v : World} → Step w v → IsWorld w → IsWorld v
Step-IsWorld (spawn w usable created) i = spawn-IsWorld w usable created i
Step-IsWorld (claims w) i = claims-IsWorld w i
Step-IsWorld (ends w n usable a e) i = ends-IsWorld w n usable a e i

-- From a state with no start under way and none recorded, in any order of the callers and of the ends
-- of their starts, at most one start is under way at any time, exactly while `s_br_starting` is set;
-- at most one ever gets the border router initialised, exactly if `s_br_started` is set; and none is
-- under way from then on.
pub Reach-IsWorld : (w v : World) → Reach w v → IsWorld w → IsWorld v
Reach-IsWorld w v here i = i
Reach-IsWorld w v (next r s) i = Step-IsWorld s (Reach-IsWorld w _ r i)

-- A call of `thread_apply_router_preference` or of `thread_set_prefer_router` at a time.
pub data Call : Type 0 where
  apply : (is_child : Bool) (now : ℕ) → Call
  set : (on is_child : Bool) (now : ℕ) → Call

-- What the calls show: the router role asked for at a time, and the wait put back by a call that turns
-- the preference on.
pub data Shown : Type 0 where
  asked : (now : ℕ) → Shown
  waived : Shown

abbrev shown_if : Bool → ℕ → List Shown
shown_if b now = if b then asked now ∷ [] else []

abbrev pub shown : Bool → List Call → Promotion → List Shown
shown ready [] p = []
shown ready (apply is_child now ∷ calls) p =
    let (done, p') = apply_preference ready is_child now p in
    shown_if done now ++ shown ready calls p'
shown ready (set on is_child now ∷ calls) p =
    let (done, p') = set_prefer ready is_child on now p in
    (if ready && on then waived ∷ shown_if done now else []) ++ shown ready calls p'

-- Each time is thirty seconds after the one before it, the first one after `from`, and the first after a
-- waiver after zero, the boot.
abbrev pub Spaced : ℕ → List Shown → Type 0
Spaced from [] = Unit
Spaced from (asked t ∷ ts) = (from + 30000000 ≤ t) × Spaced t ts
Spaced from (waived ∷ ts) = Spaced 0 ts
