-- ===== src/Ui/Handover.antt =====
-- main/ui.c: what a caller of ui_run_on_worker can rely on when it returns.
use cores3_epskc_commissione.Base.{
  ℕ, suc, ◌+◌, ◌≡◌, refl, subst, Bool, true, false, if◌then◌else◌, All, arith,
}
use cores3_epskc_commissione.Ui.Worker.{
  Phase, free, locked, drained, waiting, Calls, send_call, receive_call, finish_call, Step, takes,
  drains, sends, completes, receives, finishes, Reach, here, next,
}

-- Nothing of a call is left with the worker.
abbrev Quiet : Calls → Type 0
Quiet c = (c.queued ≡ 0) × (c.working ≡ false) × (c.done ≡ false)

-- The call is in the queue, in the worker's hands or done, and in one of these only; it has run once
-- exactly when it is done.
abbrev Handed : Calls → Type 0
Handed c =
    (c.queued + (if c.working then 1 else 0) + (if c.done then 1 else 0) ≡ 1)
    × (c.ran ≡ (if c.done then 1 else 0))

abbrev pub Current : Phase → Calls → Type 0
Current free c = Quiet c
Current locked c = Quiet c × (c.ran ≡ 0)
Current drained c = Quiet c × (c.ran ≡ 0)
Current waiting c = Handed c

-- A call that returned true ran once, and one that returned false not at all.
abbrev pub Honest : Bool × ℕ → Type 0
Honest (good, ran) = ran ≡ (if good then 1 else 0)

pub record IsCalls (c : Calls) : Type 0 where
  pub current : Current c.phase c
  pub honest : All Honest c.returned

in_phase : (p : Phase) (c : Calls) → c.phase ≡ p → IsCalls c → Current p c
in_phase p c e i = subst (λ (q : Phase). Current q c) e i.current

receive-Current :
    (p : Phase) (c : Calls) (left : ℕ)
    → c.queued ≡ suc left
    → c.working ≡ false
    → Current p c
    → Current p (receive_call left c)
receive-Current free c left e f i = ground arith
receive-Current locked c left e f i = ground arith
receive-Current drained c left e f i = ground arith
receive-Current waiting c left e f i = ground arith

finish-Current :
    (p : Phase) (c : Calls) → c.working ≡ true → Current p c → Current p (finish_call c)
finish-Current free c e i = ground arith
finish-Current locked c e i = ground arith
finish-Current drained c e i = ground arith
finish-Current waiting c e i = ground arith

send-IsCalls :
    (c : Calls) (sent : Bool)
    → Current drained c
    → All Honest c.returned
    → IsCalls (send_call sent c)
send-IsCalls c true (q, r) h = record { current = ground arith; honest = h }
send-IsCalls c false (q, r) h = record { current = q; honest = (r, h) }

Step-IsCalls : {c d : Calls} → Step c d → IsCalls c → IsCalls d
Step-IsCalls (takes c e) i = record { current = (in_phase free c e i, refl); honest = i.honest }
Step-IsCalls (drains c e) i =
    let ((q, w, d), r) = in_phase locked c e i in
    record { current = ((q, w, refl), r); honest = i.honest }
Step-IsCalls (sends c sent e) i = send-IsCalls c sent (in_phase drained c e i) i.honest
Step-IsCalls (completes c e f) i =
    let (one, once) = in_phase waiting c e i in
    record { current = ground arith; honest = (ground arith, i.honest) }
Step-IsCalls (receives c left e f) i = record {
  current = receive-Current c.phase c left e f i.current;
  honest = i.honest;
}
Step-IsCalls (finishes c e) i = record {
  current = finish-Current c.phase c e i.current;
  honest = i.honest;
}

-- Through any steps of callers and of the worker: a call that returned true had run its function exactly
-- once, one that returned false never, and when the lock is free nothing of a call is left in the queue,
-- with the worker or in the semaphore, so that no argument is used after its caller has returned and no
-- completion leaks into the next call.
pub Reach-IsCalls : (c d : Calls) → Reach c d → IsCalls c → IsCalls d
Reach-IsCalls c d here i = i
Reach-IsCalls c d (next r s) i = Step-IsCalls s (Reach-IsCalls c _ r i)
