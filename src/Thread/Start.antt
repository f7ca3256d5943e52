-- ===== src/Thread/Start.antt =====
-- main/thread.c: starting the border router at most once, adopting the stack, and the preference for
-- the router role. A section under `s_br_start_lock` is one step.
use cores3_epskc_commissione.Base.{
  ℕ, zero, suc, ◌+◌, ◌-◌, Bool, true, false, not, ◌&&◌, ◌||◌, ltb, if◌then◌else◌,
}

-- `s_br_boot_status`
pub data BootStatus : Type 0 where
  not_started skipped running name_failed init_failed reattach_started auto_start_failed
        no_credentials :
      BootStatus
  spawn_failed spawned : BootStatus

-- `s_br_started`, `s_br_starting`, `s_br_boot_status` and `s_share_cb_set`.
pub record State : Type 0 where
  pub started : Bool
  pub starting : Bool
  pub status : BootStatus
  pub share_cb_set : Bool

-- `claim_border_router_start`
unfoldable pub claim : State → Bool × State
claim s =
    if not s.started && not s.starting then (true, record s { starting = true }) else (false, s)

-- `finish_border_router_start`
unfoldable pub finish : Bool → State → State
finish started s = record s { started = started; starting = false }

-- What the start is answered: the name and the initialisation, the stored dataset, and its start.
pub record Answers : Type 0 where
  pub name_set : Bool
  pub initialised : Bool
  pub has_dataset : Bool
  pub auto_started : Bool

-- `run_border_router_start_claimed`; `usable` is `s_ready` with a backbone.
unfoldable pub run_claimed : Bool → Answers → State → State
unfolding finish
run_claimed usable a s =
    if not usable
    then finish false (record s { status = skipped })
    else if not a.name_set
    then finish false (record s { status = name_failed })
    else if not a.initialised
    then finish false (record s { status = init_failed })
    else finish true (record s {
      share_cb_set = true;
      status =
          if not a.has_dataset
          then no_credentials
          else if a.auto_started
          then reattach_started
          else auto_start_failed;
    })

-- `thread_run_border_router_start`
unfoldable pub run_start : Bool → Answers → State → State
unfolding claim run_claimed
run_start usable a s =
    if not usable
    then record s { status = skipped }
    else let (claimed, s') = claim s in
      if not claimed then s else run_claimed usable a (record s' { status = running })

pub data EspErr : Type 0 where
  esp_ok esp_fail no_mem : EspErr

-- `thread_start_border_router`: its result, whether the task was created, and the state then; the
-- task runs `run_claimed`.
unfoldable pub start_border_router : Bool → Bool → State → EspErr × (Bool × State)
unfolding claim finish
start_border_router usable created s =
    if not usable
    then (esp_fail, (false, s))
    else let (claimed, s') = claim s in
      if not claimed
      then (esp_ok, (false, s))
      else if not created
      then (no_mem, (false, record (finish false s') { status = spawn_failed }))
      else (esp_ok, (true, record s' { status = spawned }))

-- `thread_init`: `ready` over the polls of `otInstanceIsInitialized`, of which there are 101.
unfoldable pub init_loop : ℕ → (ℕ → Bool) → ℕ → Bool
init_loop zero initialized i = initialized i
init_loop (suc n) initialized i =
    let later = init_loop n initialized (i + 1) in if initialized i then true else later

unfoldable pub thread_init : Bool → (ℕ → Bool) → Bool
unfolding init_loop
thread_init ready initialized = ready || init_loop 100 initialized 0

-- `s_prefer_router` and `s_last_promote_us`.
pub record Promotion : Type 0 where
  pub prefer : Bool
  pub last_us : ℕ

-- `thread_apply_router_preference` at a time; the answer is whether the role was asked for. A clock
-- that runs back gives a negative difference, which is below the limit as 0 is.
unfoldable pub apply_preference : Bool → Bool → ℕ → Promotion → Bool × Promotion
apply_preference ready is_child now p =
    if not p.prefer || not ready
    then (false, p)
    else if ltb (now - p.last_us) 30000000
    then (false, p)
    else if is_child
    then (true, record p { last_us = now })
    else (false, p)

-- `thread_set_prefer_router`
unfoldable pub set_prefer : Bool → Bool → Bool → ℕ → Promotion → Bool × Promotion
unfolding apply_preference
set_prefer ready is_child on now p =
    let p' = record p { prefer = on } in
    if not ready
    then (false, p')
    else if on
    then apply_preference ready is_child now (record p' { last_us = 0 })
    else (false, p')
