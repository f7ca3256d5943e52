-- ===== src/Wifi/Ladder.antt =====
-- main/main.c: the reconnect ladder and the states that the handlers reach.
use cores3_epskc_commissione.Base.{
  ℕ, zero, suc, ◌+◌, ◌*◌, ◌≡◌, ◌≤◌, refl, Bool, true, false, none, List, [], ◌∷◌, ◌++◌,
  if◌then◌else◌, arith, ltb, ◌==◌, inl, inr, Bool-cases, ap,
}
use cores3_epskc_commissione.Wifi.Station.{
  Call, timer_stop, timer_start, show_wifi, Station, backoff_delay, cancel_reconnect,
  schedule_reconnect, reconnect_timer_cb, wifi_watchdog_cb, Event, sta_disconnected, Around,
  after_disconnect, on_disconnected, on_got_ip, on_wifi,
}

-- A delay of the ladder is a minute at most.
pub backoff_delay-le : (step : ℕ) → backoff_delay step ≤ 60000
unfolding backoff_delay
backoff_delay-le step = ground arith

-- A step of the supervisor, with the calls that it makes.
pub data Step : Station → Station → List Call → Type 0 where
  event : {s : Station} (e : Event) (env : Around) → Step s (on_wifi s e env).0 (on_wifi s e env).1
  timer :
      {s : Station} (accepted : Bool)
      → Step s (reconnect_timer_cb s accepted).0 (reconnect_timer_cb s accepted).1
  watchdog :
      {s : Station} (stored active : Bool)
      → Step s (wifi_watchdog_cb s stored active).0 (wifi_watchdog_cb s stored active).1

pub data Reach : Station → Station → Type 0 where
  here : {s : Station} → Reach s s
  next : {s t u : Station} {calls : List Call} → Reach s t → Step t u calls → Reach s u

-- The counters stay small, and a connected station has its backbone.
pub record IsStation (s : Station) : Type 0 where
  pub step : s.step ≤ 1000
  pub retries : s.retries ≤ 5
  pub has_backbone : s.connected ≡ true → s.backbone_ready ≡ true

on_wifi-IsStation :
    (s : Station) (e : Event) (env : Around) → IsStation s → IsStation (on_wifi s e env).0
unfolding on_wifi on_disconnected on_got_ip after_disconnect schedule_reconnect cancel_reconnect
on_wifi-IsStation s e env r = ground arith

reconnect_timer_cb-IsStation :
    (s : Station) (b : Bool) → IsStation s → IsStation (reconnect_timer_cb s b).0
unfolding reconnect_timer_cb schedule_reconnect
reconnect_timer_cb-IsStation s b r = ground arith

wifi_watchdog_cb-IsStation :
    (s : Station) (stored active : Bool)
    → IsStation s
    → IsStation (wifi_watchdog_cb s stored active).0
unfolding wifi_watchdog_cb schedule_reconnect
wifi_watchdog_cb-IsStation s stored active r = ground arith

-- In every state that the handlers reach from one that has them, the counters are small (the step
-- at most 1000, the retries at most 5) and a station that has its IPv4 address has its backbone.
pub Reach-IsStation : (s t : Station) → Reach s t → IsStation s → IsStation t
Reach-IsStation s t here i = i
Reach-IsStation s t (next r (event e env)) i = on_wifi-IsStation _ e env (Reach-IsStation _ _ r i)
Reach-IsStation s t (next r (timer b)) i =
    reconnect_timer_cb-IsStation _ b (Reach-IsStation _ _ r i)
Reach-IsStation s t (next r (watchdog b c)) i =
    wifi_watchdog_cb-IsStation _ b c (Reach-IsStation _ _ r i)

-- The station after `n` disconnects in a row, and the calls of all of them.
abbrev pub disconnects : ℕ → Station → Around → Station × List Call
disconnects zero s env = (s, [])
disconnects (suc n) s env =
    let (s', calls) = on_wifi s (sta_disconnected none) env in
    let (t, more) = disconnects n s' env in (t, calls ++ more)

-- The wait before an attempt in microseconds, one more than what the ladder says: three attempts at
-- once, then after 1, 2, 5, 15 and 30 seconds, then every minute.
abbrev pub wait_us : ℕ → ℕ
wait_us step =
    if ltb step 3
    then 1
    else if step == 3
    then 1000001
    else if step == 4
    then 2000001
    else if step == 5
    then 5000001
    else if step == 6
    then 15000001
    else if step == 7
    then 30000001
    else 60000001

-- The calls that the ladder prescribes for `n` attempts from a step on, of which there is no last one.
abbrev pub ladder : ℕ → ℕ → List Call
ladder zero step = []
ladder (suc n) step =
    show_wifi false ∷ timer_stop ∷ timer_start (wait_us step) ∷ ladder n (step + 1)

backoff_delay-wait_us : (step : ℕ) → backoff_delay step * 1000 + 1 ≡ wait_us step
unfolding backoff_delay
backoff_delay-wait_us zero = refl
backoff_delay-wait_us (suc zero) = refl
backoff_delay-wait_us (suc (suc zero)) = refl
backoff_delay-wait_us (suc (suc (suc zero))) = refl
backoff_delay-wait_us (suc (suc (suc (suc zero)))) = refl
backoff_delay-wait_us (suc (suc (suc (suc (suc zero))))) = refl
backoff_delay-wait_us (suc (suc (suc (suc (suc (suc zero)))))) = refl
backoff_delay-wait_us (suc (suc (suc (suc (suc (suc (suc zero))))))) = refl
backoff_delay-wait_us (suc (suc (suc (suc (suc (suc (suc (suc n)))))))) = ground arith

-- Beyond the last entry of the table the step does not matter.
ladder-last : (n a b : ℕ) → 8 ≤ a → 8 ≤ b → ladder n a ≡ ladder n b
ladder-last zero a b h k = refl
ladder-last (suc n) a b h k =
    let first : wait_us a ≡ 60000001 = ground arith in
    let second : wait_us b ≡ 60000001 = ground arith in
    rw (first, second)
      (ap (λ calls. show_wifi false ∷ timer_stop ∷ timer_start 60000001 ∷ calls)
        (ladder-last n (a + 1) (b + 1) (omega arith) (omega arith)))

ladder-capped :
    (n step : ℕ) → ladder n (if ltb step 1000 then step + 1 else step) ≡ ladder n (step + 1)
ladder-capped n step = elim (Bool-cases (ltb step 1000)) [
  | inl e ↦ rw e refl
  | inr e ↦ rw e (ladder-last n step (step + 1) (ground arith) (ground arith))
]

module _ (s : Station) (env : Around) (h : s.hold ≡ false) (j : s.join_active ≡ false)
    (u : s.supervisor_on ≡ true) (t : s.has_timer ≡ true) where
  on_wifi-calls :
      (on_wifi s (sta_disconnected none) env).1
      ≡ show_wifi false ∷ timer_stop ∷ timer_start (backoff_delay s.step * 1000 + 1) ∷ []
  unfolding on_wifi on_disconnected after_disconnect schedule_reconnect
  on_wifi-calls = simp (h, j, u, t)

  on_wifi-state :
      let s' = (on_wifi s (sta_disconnected none) env).0 in
      (s'.step ≡ (if ltb s.step 1000 then s.step + 1 else s.step))
      × (s'.hold ≡ false)
      × (s'.join_active ≡ false)
      × (s'.supervisor_on ≡ true)
      × (s'.has_timer ≡ true)
  unfolding on_wifi on_disconnected after_disconnect schedule_reconnect
  on_wifi-state = ground arith

-- However many disconnects come, a supervised station with a timer, that is neither held nor joining,
-- arms the next attempt at each of them, without an end: from the first step on, the first three after
-- 1 us, the next ones after 1, 2, 5, 15 and 30 seconds, and all later ones after a minute (and 1 us).
pub disconnects-ladder :
    (n : ℕ) (s : Station) (env : Around)
    → s.hold ≡ false
    → s.join_active ≡ false
    → s.supervisor_on ≡ true
    → s.has_timer ≡ true
    → (disconnects n s env).1 ≡ ladder n s.step
disconnects-ladder zero s env h j u t = refl
disconnects-ladder (suc n) s env h j u t =
    let (e, h', j', u', t') = on_wifi-state s env h j u t in
    rw
      (
        on_wifi-calls s env h j u t,
        disconnects-ladder n (on_wifi s (sta_disconnected none) env).0 env h' j' u' t',
        e,
        backoff_delay-wait_us s.step,
        ladder-capped n s.step,
      )
      refl
