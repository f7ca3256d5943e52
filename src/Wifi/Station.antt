-- ===== src/Wifi/Station.antt =====
-- main/main.c: the reconnect supervisor's state and its handlers. A handler returns the state that
-- it leaves and the calls that it makes, in order; what a call answers is an argument.
use cores3_epskc_commissione.Base.{
  ℕ, ◌+◌, ◌*◌, ◌%◌, ◌^◌, Bool, true, false, not, ◌&&◌, ◌||◌, Option, none, some, List, [], ◌∷◌,
  ◌++◌, ltb, if◌then◌else◌, get_or,
}

-- The calls of the driver, of `esp_timer`, of the UI and of the border router.
pub data Call : Type 0 where
  connect timer_stop linklocal start_br rest_start : Call
  timer_start : ℕ → Call
  show_wifi : Bool → Call

pub record Station : Type 0 where
  pub step : ℕ
  pub retries : ℕ
  pub hold : Bool
  pub join_active : Bool
  pub supervisor_on : Bool
  pub have_credentials : Bool
  pub has_timer : Bool
  pub connected : Bool
  pub fail : Bool
  pub disconnected : Bool
  pub backbone_ready : Bool
  pub ip : Option ℕ
  pub ip6 : Option ℕ
  pub last_disc_reason : ℕ
  pub disconnect_count : ℕ
  pub last_disc_us : ℕ
  pub last_conn_us : ℕ

-- `k_backoff_ms`
abbrev pub backoff_ms : List ℕ
backoff_ms = 0 ∷ 0 ∷ 0 ∷ 1000 ∷ 2000 ∷ 5000 ∷ 15000 ∷ 30000 ∷ 60000 ∷ []

-- `backoff_delay_ms`
unfoldable pub backoff_delay : ℕ → ℕ
backoff_delay step = get_or backoff_ms (if ltb 8 step then 8 else step) 0

unfoldable pub cancel_reconnect : Station → Station × List Call
cancel_reconnect s = (record s { step = 0 }, if s.has_timer then timer_stop ∷ [] else [])

-- `schedule_reconnect`; a timer that cannot be armed is only logged.
unfoldable pub schedule_reconnect : Station → Station × List Call
schedule_reconnect s =
    if not s.has_timer
    then (if ltb s.retries 5 then (record s { retries = s.retries + 1 }, connect ∷ []) else (s, []))
    else (
      record s { step = if ltb s.step 1000 then s.step + 1 else s.step },
      timer_stop ∷ timer_start (backoff_delay s.step * 1000 + 1) ∷ [],
    )

-- `reconnect_timer_cb`; `accepted` is the answer of `esp_wifi_connect`.
unfoldable pub reconnect_timer_cb : Station → Bool → Station × List Call
unfolding schedule_reconnect
reconnect_timer_cb s accepted =
    if not s.supervisor_on || s.hold || s.join_active
    then (s, [])
    else if s.connected
    then (s, [])
    else if accepted
    then (s, connect ∷ [])
    else ((schedule_reconnect s).0, connect ∷ (schedule_reconnect s).1)

-- `wifi_watchdog_cb`; `stored` is whether the driver's configuration was read and has an SSID,
-- `active` what `esp_timer_is_active` answers.
unfoldable pub wifi_watchdog_cb : Station → Bool → Bool → Station × List Call
unfolding schedule_reconnect
wifi_watchdog_cb s stored active =
    if not s.supervisor_on || s.join_active || s.hold
    then (s, [])
    else if s.connected
    then (s, [])
    else let s' = record s { have_credentials = stored } in
      if not stored
      then (s', [])
      else if s.has_timer && active
      then (s', [])
      else schedule_reconnect s'

pub data Event : Type 0 where
  sta_start sta_connected other : Event
  sta_disconnected : Option ℕ → Event
  got_ip : ℕ → Event
  got_ip6 : Bool → ℕ → Event

-- The branches of a disconnect: a deliberate leave, a bounded join, the supervisor.
unfoldable pub after_disconnect : Station → Station × List Call
unfolding cancel_reconnect schedule_reconnect
after_disconnect s =
    if s.hold
    then cancel_reconnect s
    else if s.join_active || not s.supervisor_on
    then (if ltb s.retries 5
        then (record s { retries = s.retries + 1 }, connect ∷ [])
        else (record s { fail = true }, []))
    else schedule_reconnect s

-- What `on_wifi` reads: the clock, `ui_defer_br_start`'s answer and the REST setting.
pub record Around : Type 0 where
  pub now : ℕ
  pub deferred : Bool
  pub rest_api : Bool

-- `STA_DISCONNECTED`
unfoldable pub on_disconnected : Station → Option ℕ → ℕ → Station × List Call
unfolding after_disconnect
on_disconnected s reason now =
    let (s', calls) = after_disconnect (record s {
      last_disc_reason = elim reason [ none ↦ s.last_disc_reason | some r ↦ r ];
      disconnect_count = (s.disconnect_count + 1) % 2 ^ 32;
      last_disc_us = now;
      connected = false;
      backbone_ready = false;
      ip = none;
      ip6 = none;
    }) in
    (record s' { disconnected = true }, show_wifi false ∷ calls)

-- `STA_GOT_IP`
unfoldable pub on_got_ip : Station → ℕ → Around → Station × List Call
unfolding cancel_reconnect
on_got_ip s ip env =
    let (s', calls) =
      cancel_reconnect
        (record s { ip = some ip; retries = 0; last_conn_us = env.now; have_credentials = true }) in
    (
      record s' { fail = false; connected = true; backbone_ready = true },
      calls
          ++ (show_wifi true ∷ [])
          ++ (if env.deferred then [] else start_br ∷ [])
          ++ (if env.rest_api then rest_start ∷ [] else []),
    )

unfoldable pub on_wifi : Station → Event → Around → Station × List Call
unfolding on_disconnected on_got_ip
on_wifi s sta_start env = (s, connect ∷ [])
on_wifi s sta_connected env = (s, linklocal ∷ [])
on_wifi s other env = (s, [])
on_wifi s (sta_disconnected reason) env = on_disconnected s reason env.now
on_wifi s (got_ip ip) env = on_got_ip s ip env
on_wifi s (got_ip6 backbone ip) env =
    if backbone
    then (
      record s { ip6 = some ip; backbone_ready = true },
      if env.deferred then [] else start_br ∷ [],
    )
    else (s, [])
