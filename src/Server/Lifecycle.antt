-- ===== src/Server/Lifecycle.antt =====
-- main/otbr_rest.c: the state of the server and its control task through any calls.
use cores3_epskc_commissione.Base.{
  ℕ, ◌≤◌, ◌≡◌, refl, inl, inr, Bool, true, false, not, ◌&&◌, ◌||◌, Option, none, some, List, [],
  ◌∷◌, ◌==◌, if◌then◌else◌, length, length-append, subst, arith, Bool-cases,
}
use cores3_epskc_commissione.Server.Routes.{Answer}
use cores3_epskc_commissione.Server.Control.{
  Feature, epskc, logs, Message, running_to, epskc_to, logs_to, State, Start, queue_routes,
  shut_down, rest_stop, rest_start, handle, control_round, send, request_control, has_queue,
  control_init, spawn_control, control_start, do_work, server_work, receive, Step, asks, inits,
  starts, rounds, works, Reach, here, next,
}

-- Four messages at most wait.
abbrev pub Bounded : Option (List Message) → Type 0
Bounded none = Unit
Bounded (some ms) = length ms ≤ 4

-- Without a server no feature is registered and no work is queued; the control queue is within its
-- four messages, and it is there when the control task is.
pub record IsControl (s : State) : Type 0 where
  pub down :
      s.server || (not s.epskc_registered && not s.logs_registered && (length s.work == 0)) ≡ true
  pub bounded : Bounded s.queue
  pub queued : not s.task || has_queue s.queue ≡ true

send-Bounded : (m : Message) (q : Option (List Message)) → Bounded q → Bounded (send m q).1
unfolding send
send-Bounded m none h = tt
send-Bounded m (some ms) h = let sum = length-append ms (m ∷ []) in ground (arith, sum)

has_queue-send : (m : Message) (q : Option (List Message)) → has_queue (send m q).1 ≡ has_queue q
unfolding send
has_queue-send m none = refl
has_queue-send m (some ms) = ground arith

IsControl-if :
    (b : Bool) (x y : Bool × State)
    → (b ≡ true → IsControl x.1)
    → (b ≡ false → IsControl y.1)
    → IsControl (if b then x else y).1
IsControl-if true x y f g = f refl
IsControl-if false x y f g = g refl

request_control-IsControl :
    (m : Message) (s : State) → IsControl s → IsControl (request_control m s).1
unfolding request_control
request_control-IsControl m s i =
    IsControl-if s.start_failed _ _ (λ e. i)
      (λ e. record {
        down = i.down;
        bounded = send-Bounded m s.queue i.bounded;
        queued = rw (has_queue-send m s.queue) (i.queued);
      })

control_init-IsControl :
    (created : Bool) (s : State) → IsControl s → IsControl (control_init created s).1
unfolding control_init
control_init-IsControl created s i = ground arith

spawn_control-IsControl :
    (spawned : Bool) (s : State)
    → IsControl s
    → has_queue s.queue ≡ true
    → IsControl (spawn_control spawned s).1
unfolding spawn_control
spawn_control-IsControl true s i q = record { down = i.down; bounded = i.bounded; queued = q }
spawn_control-IsControl false s i q = record {
  down = i.down;
  bounded = omega arith;
  queued = ground arith;
}

has_queue-control_init :
    (created : Bool) (s : State)
    → (control_init created s).0 ≡ true
    → has_queue (control_init created s).1.queue ≡ true
unfolding control_init
has_queue-control_init created s e = ground arith

control_start-IsControl :
    (created spawned : Bool) (s : State)
    → IsControl s
    → IsControl (control_start created spawned s).1
unfolding control_start
control_start-IsControl created spawned s i =
    let ready = control_init-IsControl created s i in
    IsControl-if s.task _ _ (λ e. i)
      (λ e.
        IsControl-if (control_init created s).0 _ _
          (λ f.
            spawn_control-IsControl spawned (control_init created s).1 ready
              (has_queue-control_init created s f))
          (λ f. ready))

queue_routes-IsControl :
    (taken : Bool) (f : Feature) (on : Bool) (s : State)
    → IsControl s
    → IsControl (queue_routes taken f on s)
unfolding queue_routes
queue_routes-IsControl taken f on s i = elim (Bool-cases (s.server && taken)) [
  | inl e ↦ rw e (record { down = ground arith; bounded = i.bounded; queued = i.queued })
  | inr e ↦ rw e i
]

rest_start-IsControl :
    (a : Start) (taken : Bool) (s : State) → IsControl s → IsControl (rest_start a taken s).1
unfolding rest_start shut_down
rest_start-IsControl a taken s i =
    let up : IsControl (record s { server = true }) = record {
      down = refl;
      bounded = i.bounded;
      queued = i.queued;
    } in
    IsControl-if s.server _ _ (λ e. i)
      (λ e.
        IsControl-if (not a.started) _ _
          (λ f. record {
            down =
                subst
                  (λ (b : Bool).
                    (b || (not s.epskc_registered && not s.logs_registered && (length s.work == 0)))
                    ≡ true)
                  e i.down;
            bounded = i.bounded;
            queued = i.queued;
          })
          (λ f.
            IsControl-if (not a.all_registered) _ _
              (λ g. record { down = refl; bounded = i.bounded; queued = i.queued })
              (λ g.
                queue_routes-IsControl taken logs a.rest_logs _
                  (queue_routes-IsControl taken epskc a.rest_epskc _ up))))

rest_stop-IsControl : (s : State) → IsControl s → IsControl (rest_stop s)
unfolding rest_stop shut_down
rest_stop-IsControl s i = stops s.server
  where
    stops : (b : Bool) → IsControl (if b then shut_down s else s)
    stops true = record { down = refl; bounded = i.bounded; queued = i.queued }
    stops false = i

do_work-IsControl :
    (answer : ℕ → Answer) (work : List (Feature × Bool)) (s : State)
    → s.work ≡ work
    → IsControl s
    → IsControl (do_work answer work s)
unfolding do_work
do_work-IsControl answer [] s e i = i
do_work-IsControl answer ((epskc, on) ∷ work) s e i =
    let many : (length s.work == 0) ≡ false = rw e (ground arith) in
    record { down = ground arith; bounded = i.bounded; queued = i.queued }
do_work-IsControl answer ((logs, on) ∷ work) s e i =
    let many : (length s.work == 0) ≡ false = rw e (ground arith) in
    record { down = ground arith; bounded = i.bounded; queued = i.queued }

handle-IsControl :
    (a : Start) (usable taken : Bool) (m : Message) (s : State)
    → IsControl s
    → IsControl (handle a usable taken m s)
unfolding handle
handle-IsControl a usable taken (running_to true) s i = rest_start-IsControl a taken s i
handle-IsControl a usable taken (running_to false) s i = rest_stop-IsControl s i
handle-IsControl a true taken (epskc_to on) s i =
    queue_routes-IsControl taken epskc on (record s { feature = on })
      (record { down = i.down; bounded = i.bounded; queued = i.queued })
handle-IsControl a false taken (epskc_to on) s i = queue_routes-IsControl taken epskc on s i
handle-IsControl a usable taken (logs_to on) s i = queue_routes-IsControl taken logs on s i

receive-IsControl :
    (a : Start) (usable taken : Bool) (q : Option (List Message)) (s : State)
    → s.queue ≡ q
    → IsControl s
    → IsControl (receive a usable taken q s)
unfolding receive
receive-IsControl a usable taken none s e i = i
receive-IsControl a usable taken (some []) s e i = i
receive-IsControl a usable taken (some (m ∷ ms)) s e i =
    let room : Bounded (some (m ∷ ms)) = subst Bounded e i.bounded in
    handle-IsControl a usable taken m (record s { queue = some ms })
      (record { down = i.down; bounded = omega (arith, room); queued = ground arith })

Step-IsControl : {s t : State} → Step s t → IsControl s → IsControl t
unfolding control_round server_work
Step-IsControl (asks m s) i = request_control-IsControl m s i
Step-IsControl (inits created s) i = control_init-IsControl created s i
Step-IsControl (starts created spawned s) i = control_start-IsControl created spawned s i
Step-IsControl (rounds a usable taken s) i = receive-IsControl a usable taken s.queue s refl i
Step-IsControl (works answer s) i = do_work-IsControl answer s.work s refl i

-- Through requests from any task, starts and stops, the control task's rounds and the server's own
-- work, in any order and whatever fails: without a server no feature's routes are registered and no
-- work is queued, at most four control messages wait, and a control task has its queue.
pub Reach-IsControl : (s t : State) → Reach s t → IsControl s → IsControl t
Reach-IsControl s t here i = i
Reach-IsControl s t (next r step) i = Step-IsControl step (Reach-IsControl s _ r i)
