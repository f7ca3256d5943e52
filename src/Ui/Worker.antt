-- ===== src/Ui/Worker.antt =====
-- main/ui.c: ui_run_on_worker and the worker's JOB_CALL, as steps of the caller and of the worker.
use cores3_epskc_commissione.Base.{ℕ, suc, ◌+◌, ◌≡◌, Bool, true, false, List, ◌∷◌, if◌then◌else◌}

-- Where the task stands that holds `s_call_lock`.
pub data Phase : Type 0 where
  free locked drained waiting : Phase

-- The caller, the calls in `s_jobs`, whether the worker runs one, `s_call_done`, how often the function
-- of the current call has run, and what the calls before it returned, with how often theirs had.
pub record Calls : Type 0 where
  pub phase : Phase
  pub queued : ℕ
  pub working : Bool
  pub done : Bool
  pub ran : ℕ
  pub returned : List (Bool × ℕ)

-- `xSemaphoreTake(s_call_lock)` by a caller that gets it.
abbrev pub take_lock : Calls → Calls
take_lock c = record c { phase = locked; ran = 0 }

-- `xSemaphoreTake(s_call_done, 0)`
abbrev pub drain : Calls → Calls
drain c = record c { phase = drained; done = false }

-- `xQueueSend`, and the return when the queue stays full.
abbrev pub send_call : Bool → Calls → Calls
send_call sent c =
    if sent
    then record c { phase = waiting; queued = 1 + c.queued }
    else record c { phase = free; returned = (false, c.ran) ∷ c.returned }

-- `xSemaphoreTake(s_call_done)`, after the deadline or before, and the return.
abbrev pub complete : Calls → Calls
complete c = record c { phase = free; done = false; returned = (true, c.ran) ∷ c.returned }

-- The worker receives a call, and later its function returns and `s_call_done` is given.
abbrev pub receive_call : ℕ → Calls → Calls
receive_call left c = record c { queued = left; working = true }

abbrev pub finish_call : Calls → Calls
finish_call c = record c { working = false; done = true; ran = 1 + c.ran }

-- The caller and the worker in any order. A call that is refused before it has the lock changes nothing.
pub data Step : Calls → Calls → Type 0 where
  takes : (c : Calls) → c.phase ≡ free → Step c (take_lock c)
  drains : (c : Calls) → c.phase ≡ locked → Step c (drain c)
  sends : (c : Calls) (sent : Bool) → c.phase ≡ drained → Step c (send_call sent c)
  completes : (c : Calls) → c.phase ≡ waiting → c.done ≡ true → Step c (complete c)
  receives :
      (c : Calls) (left : ℕ)
      → c.queued ≡ suc left
      → c.working ≡ false
      → Step c (receive_call left c)
  finishes : (c : Calls) → c.working ≡ true → Step c (finish_call c)

pub data Reach (c : Calls) : Calls → Type 0 where
  here : Reach c c
  next : {d e : Calls} → Reach c d → Step d e → Reach c e
