-- ===== src/Server/Control.antt =====
-- main/otbr_rest.c: the server's start and stop, and the task that runs them.
use cores3_epskc_commissione.Base.{
  ℕ, Bool, true, false, not, ◌&&◌, Option, none, some, List, [], ◌∷◌, ◌++◌, ltb, if◌then◌else◌,
  length,
}
use cores3_epskc_commissione.Server.Routes.{Answer, apply_routes}

pub data Feature : Type 0 where
  epskc logs : Feature

pub data Message : Type 0 where
  running_to : (on : Bool) → Message
  epskc_to : (on : Bool) → Message
  logs_to : (on : Bool) → Message

-- `s_server`, the flags of the route sets, the work queued on the server, `s_control_queue`,
-- `s_control_task` and `s_control_start_failed`, and the stack's ePSKc feature.
pub record State : Type 0 where
  pub server : Bool
  pub epskc_registered : Bool
  pub logs_registered : Bool
  pub work : List (Feature × Bool)
  pub queue : Option (List Message)
  pub task : Bool
  pub start_failed : Bool
  pub feature : Bool

-- What the HTTP server answers while it starts, and the two settings.
pub record Start : Type 0 where
  pub started : Bool
  pub all_registered : Bool
  pub rest_epskc : Bool
  pub rest_logs : Bool

-- `queue_routes`, with whether the server takes the work.
unfoldable pub queue_routes : Bool → Feature → Bool → State → State
queue_routes taken f on s =
    if s.server && taken then record s { work = s.work ++ ((f, on) ∷ []) } else s

-- The end of the server: its queue goes with it.
unfoldable pub shut_down : State → State
shut_down s = record s {
  server = false;
  epskc_registered = false;
  logs_registered = false;
  work = [];
}

-- `otbr_rest_stop`
unfoldable pub rest_stop : State → State
unfolding shut_down
rest_stop s = if s.server then shut_down s else s

-- `otbr_rest_start`
unfoldable pub rest_start : Start → Bool → State → Bool × State
unfolding queue_routes shut_down
rest_start a taken s =
    if s.server
    then (true, s)
    else if not a.started
    then (false, record s { server = false })
    else if not a.all_registered
    then (false, shut_down (record s { server = true }))
    else (
      true,
      queue_routes taken logs a.rest_logs
          (queue_routes taken epskc a.rest_epskc (record s { server = true })),
    )

-- One round of `rest_control_task`; `usable` is whether the Thread stack is ready.
unfoldable pub handle : Start → Bool → Bool → Message → State → State
unfolding rest_start rest_stop queue_routes
handle a usable taken (running_to true) s = (rest_start a taken s).1
handle a usable taken (running_to false) s = rest_stop s
handle a usable taken (epskc_to on) s =
    queue_routes taken epskc on (if usable then record s { feature = on } else s)
handle a usable taken (logs_to on) s = queue_routes taken logs on s

unfoldable pub receive : Start → Bool → Bool → Option (List Message) → State → State
unfolding handle
receive a usable taken none s = s
receive a usable taken (some []) s = s
receive a usable taken (some (m ∷ ms)) s = handle a usable taken m (record s { queue = some ms })

unfoldable pub control_round : Start → Bool → Bool → State → State
unfolding receive
control_round a usable taken s = receive a usable taken s.queue s

-- `xQueueSend` without waiting, on a queue of four messages.
unfoldable pub send : Message → Option (List Message) → Bool × Option (List Message)
send m none = (false, none)
send m (some ms) = if ltb (length ms) 4 then (true, some (ms ++ (m ∷ []))) else (false, some ms)

-- `request_control`
unfoldable pub request_control : Message → State → Bool × State
unfolding send
request_control m s =
    let (sent, queue) = send m s.queue in
    if s.start_failed then (false, s) else (sent, record s { queue = queue })

abbrev pub has_queue : Option (List Message) → Bool
has_queue none = false
has_queue (some ms) = true

-- `otbr_rest_control_init`
unfoldable pub control_init : Bool → State → Bool × State
control_init created s =
    if has_queue s.queue
    then (true, s)
    else if created
    then (true, record s { queue = some [] })
    else (false, s)

-- The part of `otbr_rest_control_start` after the queue is there.
unfoldable pub spawn_control : Bool → State → Bool × State
spawn_control spawned s =
    if spawned
    then (true, record s { task = true; start_failed = false })
    else (false, record s { start_failed = true; queue = some [] })

-- `otbr_rest_control_start`
unfoldable pub control_start : Bool → Bool → State → Bool × State
unfolding control_init spawn_control
control_start created spawned s =
    if s.task
    then (true, s)
    else let (good, s') = control_init created s in
      if good then spawn_control spawned s' else (false, s')

-- The work that the server's task does next: `apply_epskc_routes` or `apply_log_routes`.
unfoldable pub do_work : (ℕ → Answer) → List (Feature × Bool) → State → State
unfolding apply_routes
do_work answer [] s = s
do_work answer ((epskc, on) ∷ work) s = record s {
  work = work;
  epskc_registered =
      (apply_routes s.server answer (0 ∷ 1 ∷ 2 ∷ 3 ∷ 4 ∷ []) on s.epskc_registered).1;
}
do_work answer ((logs, on) ∷ work) s = record s {
  work = work;
  logs_registered = (apply_routes s.server answer (5 ∷ []) on s.logs_registered).1;
}

unfoldable pub server_work : (ℕ → Answer) → State → State
unfolding do_work
server_work answer s = do_work answer s.work s

-- The calls in any order, with any answers.
pub data Step : State → State → Type 0 where
  asks : (m : Message) (s : State) → Step s (request_control m s).1
  inits : (created : Bool) (s : State) → Step s (control_init created s).1
  starts : (created spawned : Bool) (s : State) → Step s (control_start created spawned s).1
  rounds : (a : Start) (usable taken : Bool) (s : State) → Step s (control_round a usable taken s)
  works : (answer : ℕ → Answer) (s : State) → Step s (server_work answer s)

pub data Reach (s : State) : State → Type 0 where
  here : Reach s s
  next : {t u : State} → Reach s t → Step t u → Reach s u
