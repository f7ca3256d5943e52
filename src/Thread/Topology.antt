-- ===== src/Thread/Topology.antt =====
-- main/thread.c: the topology scan. A section under `s_topology_lock` is one step, and the bits of
-- `s_topology_router_ids` are a function of the router's number.
use cores3_epskc_commissione.Base.{
  ℕ, ◌+◌, ◌%◌, ◌^◌, Bool, true, false, not, ◌&&◌, ◌||◌, Option, none, some, List, [], ◌∷◌, ltb,
  ◌==◌, if◌then◌else◌,
}

pub data Status : Type 0 where
  never scanning complete partial failed : Status

pub record Topology : Type 0 where
  pub status : Status
  pub routers_seen : ℕ
  pub children_seen : ℕ
  pub border_routers_seen : ℕ
  pub includes_self : Bool
  pub completed_at_ms : ℕ

-- `s_topology`, `s_topology_router_ids` and `s_topology_missing_child_table`.
pub record State : Type 0 where
  pub topology : Topology
  pub ids : ℕ → Bool
  pub missing : Bool

abbrev pub u16 : ℕ → ℕ
u16 n = n % 2 ^ 16

-- `topology_reset`
unfoldable pub reset : Status → State
reset status = record {
  topology = record {
    status = status;
    routers_seen = 0;
    children_seen = 0;
    border_routers_seen = 0;
    includes_self = false;
    completed_at_ms = 0;
  };
  ids = λ i. false;
  missing = false;
}

pub record Child : Type 0 where
  pub border_router : Bool
  pub this_device : Bool

-- `otMeshDiagRouterInfo`; a child iterator that is NULL is `none`.
pub record Router : Type 0 where
  pub id : ℕ
  pub children : Option (List Child)
  pub border_router : Bool
  pub this_device : Bool

abbrev pub bit : Bool → ℕ
bit b = if b then 1 else 0

-- What the loop over the child iterator counts.
pub record Counted : Type 0 where
  pub children : ℕ
  pub border_routers : ℕ
  pub self : Bool

unfoldable pub count_loop : List Child → Counted → Counted
count_loop [] n = n
count_loop (c ∷ cs) n = count_loop cs (record {
  children = u16 (n.children + 1);
  border_routers = u16 (n.border_routers + bit c.border_router);
  self = n.self || c.this_device;
})

abbrev pub nothing_counted : Counted
nothing_counted = record { children = 0; border_routers = 0; self = false }

unfoldable pub count_children : Option (List Child) → Counted
unfolding count_loop
count_children none = nothing_counted
count_children (some cs) = count_loop cs nothing_counted

abbrev pub is_none : Option (List Child) → Bool
is_none none = true
is_none (some cs) = false

abbrev pub is_scanning : Status → Bool
is_scanning never = false
is_scanning scanning = true
is_scanning complete = false
is_scanning partial = false
is_scanning failed = false

-- The first half of the callback's section: a router that was not seen yet.
unfoldable pub note_router : State → Router → State
unfolding count_children
note_router s r =
    let counted = count_children r.children in
    let t = s.topology in
    if is_scanning t.status && ltb r.id 64 && not (s.ids r.id)
    then record {
      topology = record t {
        routers_seen = u16 (t.routers_seen + 1);
        children_seen = u16 (t.children_seen + counted.children);
        border_routers_seen =
            u16 (t.border_routers_seen + bit r.border_router + counted.border_routers);
        includes_self = t.includes_self || r.this_device || counted.self;
      };
      ids = λ i. (i == r.id) || s.ids i;
      missing = s.missing || is_none r.children;
    }
    else s

-- The `otError` of a callback.
pub data Error : Type 0 where
  pending no_error other : Error

unfoldable pub final_status : State → Error → Status
final_status s no_error =
    if not s.missing
    then complete
    else if not (s.topology.routers_seen == 0) || not (s.topology.children_seen == 0)
    then partial
    else failed
final_status s pending =
    if not (s.topology.routers_seen == 0) || not (s.topology.children_seen == 0)
    then partial
    else failed
final_status s other =
    if not (s.topology.routers_seen == 0) || not (s.topology.children_seen == 0)
    then partial
    else failed

abbrev pub is_pending : Error → Bool
is_pending pending = true
is_pending no_error = false
is_pending other = false

-- The second half.
unfoldable pub finish : State → Error → ℕ → State
unfolding final_status
finish s error now_ms =
    if is_scanning s.topology.status && not (is_pending error)
    then record s {
      topology = record (s.topology) { status = final_status s error; completed_at_ms = now_ms };
    }
    else s

-- `topology_discover_cb`, a router that is NULL being `none`.
unfoldable pub discover_cb : State → Error → Option Router → ℕ → State
unfolding note_router finish
discover_cb s error none now_ms = finish s error now_ms
discover_cb s error (some r) now_ms = finish (note_router s r) error now_ms

pub data Started : Type 0 where
  start_ok no_bufs bad_state start_failed : Started

pub data EspErr : Type 0 where
  esp_ok esp_fail no_mem invalid_state : EspErr

unfoldable pub refresh_error : Started → EspErr
refresh_error start_ok = esp_ok
refresh_error no_bufs = no_mem
refresh_error bad_state = invalid_state
refresh_error start_failed = esp_fail

abbrev pub is_started : Started → Bool
is_started start_ok = true
is_started no_bufs = false
is_started bad_state = false
is_started start_failed = false

-- `thread_topology_refresh`; `answer` is what `otMeshDiagDiscoverTopology` answers.
unfoldable pub refresh : Bool → State → Started → EspErr × State
unfolding reset refresh_error
refresh ready s answer =
    if not ready
    then (invalid_state, reset failed)
    else if is_scanning s.topology.status
    then (invalid_state, s)
    else if is_started answer
    then (esp_ok, reset scanning)
    else (refresh_error answer, reset failed)
