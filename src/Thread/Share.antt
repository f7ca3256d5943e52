-- ===== src/Thread/Share.antt =====
-- main/thread.c: the border agent's name and the ephemeral-key service it advertises.
use cores3_epskc_commissione.Base.{
  ℕ, ◌-◌, Bool, true, false, not, ◌&&◌, ◌||◌, Option, none, some, List, [], ◌∷◌, ◌++◌, ltb, ◌==◌,
  if◌then◌else◌, length, take,
}

-- `otBorderAgentEphemeralKeyState`
pub data KeyState : Type 0 where
  disabled stopped started connected accepted : KeyState

unfoldable pub is_active : KeyState → Bool
is_active disabled = false
is_active stopped = false
is_active started = true
is_active connected = true
is_active accepted = true

-- The calls of the mDNS responder and of OpenThread that these functions make.
pub data Call : Type 0 where
  add_share : (port : ℕ) (added : Bool) → Call
  remove_share : (removed : Bool) → Call
  remove_meshcop set_cb : Call
  set_name publish : (name : List ℕ) → Call
  set_port apply_txt apply_share_txt : Call
  enable_key : (on : Bool) → Call
  start_key : (tap : List ℕ) (lifetime_ms port : ℕ) → Call
  stop_key : Call

-- `s_ready`, `s_br_started`, `s_border_router_name`, `s_share_cb_set` and `s_meshcop_e_published`.
pub record State : Type 0 where
  pub ready : Bool
  pub br_started : Bool
  pub name : List ℕ
  pub cb_set : Bool
  pub published : Bool

-- `share_state_cb`, with the state of the key, its port and the answers of `mdns_service_add` and of
-- `mdns_service_remove`, which the code does not read.
unfoldable pub share_state_cb : KeyState → ℕ → Bool → Bool → State → List Call × State
unfolding is_active
share_state_cb st port added removed s =
    if is_active st && not s.published
    then (
      add_share port added ∷ (if added then apply_share_txt ∷ [] else []),
      record s { published = added },
    )
    else if not (is_active st) && s.published
    then (remove_share removed ∷ [], record s { published = false })
    else ([], s)

pub data EspErr : Type 0 where
  esp_ok esp_fail invalid_arg invalid_state : EspErr

-- What the stack and the responder answer while a name is set.
pub record Answers : Type 0 where
  pub name_set : Bool
  pub attached : Bool
  pub publish_ok : Bool
  pub key : KeyState
  pub port : ℕ
  pub added : Bool
  pub removed : Bool

-- `esp_openthread_set_meshcop_instance_name` and what follows it while attached.
unfoldable pub publish_name : Answers → List ℕ → EspErr × List Call
publish_name a name =
    if a.name_set && a.attached
    then if a.publish_ok
      then (esp_ok, set_name name ∷ publish name ∷ apply_txt ∷ [])
      else (esp_fail, set_name name ∷ publish name ∷ [])
    else (if a.name_set then esp_ok else esp_fail, set_name name ∷ [])

-- `thread_set_border_router_name`
unfoldable pub set_border_router_name :
    Answers → Option (List ℕ) → State → EspErr × (List Call × State)
unfolding share_state_cb publish_name
set_border_router_name a none s = (invalid_arg, ([], s))
set_border_router_name a (some name) s =
    if (length name == 0) || ltb 32 (length name)
    then (invalid_arg, ([], s))
    else let s' = record s { name = name } in
      if not s.ready || not s.br_started
      then (esp_ok, ([], s'))
      else let (err, calls) = publish_name a name in
        let (shared, s'') =
          share_state_cb a.key a.port a.added a.removed (record s' { published = false }) in
        (
          err,
          (
            (if s.published then remove_share a.removed ∷ [] else [])
                ++ ((remove_meshcop ∷ calls) ++ shared),
            s'',
          ),
        )

-- `thread_share_start_on`, with the passcode that the stack generates, if it does, and whether it takes
-- the key: the result, the code written, and the calls.
unfoldable pub share_start_on :
    Option (List ℕ) → Bool → ℕ → ℕ → ℕ → State → EspErr × (Option (List ℕ) × (List Call × State))
share_start_on tap taken size lifetime_ms port s =
    if not s.ready || not s.br_started || ltb size 10
    then (invalid_state, (none, ([], s)))
    else let s' = record s { cb_set = true } in
      let first = (if s.cb_set then [] else set_cb ∷ []) ++ (enable_key true ∷ []) in
      elim tap [
        | none ↦ (esp_fail, (none, (first, s')))
        | some t ↦
            if taken
            then (
              esp_ok,
              (some (take (size - 1) t), (first ++ (start_key t lifetime_ms port ∷ []), s')),
            )
            else (esp_fail, (none, (first ++ (start_key t lifetime_ms port ∷ []), s')))
      ]

-- `thread_share_stop`
unfoldable pub share_stop : State → List Call
share_stop s = if s.ready then stop_key ∷ [] else []

-- `thread_epskc_set_feature_enabled`
unfoldable pub epskc_set_feature_enabled : Bool → State → List Call × State
epskc_set_feature_enabled on s =
    if not s.ready
    then ([], s)
    else if on && not s.cb_set
    then (set_cb ∷ enable_key on ∷ [], record s { cb_set = true })
    else (enable_key on ∷ [], s)

-- `epskc_state`, with the state of the stack.
unfoldable pub epskc_state : KeyState → State → KeyState
epskc_state st s = if s.ready then st else disabled

-- The words of `thread_share_state` and `thread_share_state_rest`.
pub data Word : Type 0 where
  w_off w_waiting w_connected w_accepted w_stopped w_started w_disabled : Word

unfoldable pub share_state : KeyState → Word
share_state disabled = w_off
share_state stopped = w_off
share_state started = w_waiting
share_state connected = w_connected
share_state accepted = w_accepted

unfoldable pub share_state_rest : KeyState → Word
share_state_rest disabled = w_disabled
share_state_rest stopped = w_stopped
share_state_rest started = w_started
share_state_rest connected = w_connected
share_state_rest accepted = w_accepted

-- `meshcop_service_changed_cb`, with whether the border agent is active, whether the service is there,
-- and whether its publication is taken.
unfoldable pub meshcop_service_changed_cb : Bool → Bool → Bool → State → List Call
meshcop_service_changed_cb active exists publish_ok s =
    let refreshed = apply_txt ∷ (if s.published then apply_share_txt ∷ [] else []) in
    if not active
    then refreshed
    else if exists
    then set_port ∷ refreshed
    else publish s.name ∷ (if publish_ok then set_port ∷ refreshed else [])
