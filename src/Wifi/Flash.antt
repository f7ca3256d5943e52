-- ===== src/Wifi/Flash.antt =====
-- main/main.c: what a join writes, answers and leaves.
use cores3_epskc_commissione.Base.{
  ℕ, ◌≡◌, ◌≢◌, refl, ◌↔◌, inl, inr, Bool, true, false, ◌&&◌, Option, none, some, List, [], ◌∷◌,
  if◌then◌else◌, arith, Bool-cases,
}
use cores3_epskc_commissione.Wifi.Station.{
  Station, Around, sta_disconnected, show_wifi, timer_stop, on_wifi, on_disconnected,
  after_disconnect, cancel_reconnect, reconnect_timer_cb, wifi_watchdog_cb,
}
use cores3_epskc_commissione.Wifi.Join.{
  Storage, ram, flash, Config, Asked, set_storage, set_config, get_config, connect, disconnect,
  EspErr, esp_ok, esp_fail, err_of, Answers, is_ok, finish, rollback, after_wait, try_candidate,
  invalid_join, app_wifi_join, app_wifi_leave, empty, hold_for_switch,
}

-- The configurations that the calls hand to the driver while its storage is the flash, from a
-- storage on. A `set_storage` that fails leaves the storage.
abbrev pub writes : Storage → List Asked → List Config
writes m [] = []
writes m (set_storage n true ∷ calls) = writes n calls
writes m (set_storage n false ∷ calls) = writes m calls
writes flash (set_config c ok ∷ calls) = c ∷ writes flash calls
writes ram (set_config c ok ∷ calls) = writes ram calls
writes m (get_config ok ∷ calls) = writes m calls
writes m (connect ok ∷ calls) = writes m calls
writes m (disconnect ok ∷ calls) = writes m calls

-- Every step up to the association of the candidate went well, and the wait reported it.
abbrev pub proved : Answers → Bool
proved a = is_ok a.to_ram && is_ok a.snapshot && is_ok a.stage && is_ok a.start && a.wait_connected

writes-end : (m : Storage) (b : Bool) → writes m (set_storage flash b ∷ []) ≡ []
writes-end m true = refl
writes-end m false = refl

abbrev asked_ram : List Asked → List Asked
asked_ram calls = set_storage ram true ∷ get_config true ∷ calls

module _ (a : Answers) (err : EspErr) (s : Station) (cfg : Config) (m : Storage)
    (b c d : Bool) where
  rollback-writes :
      writes m (rollback a err s (asked_ram (disconnect b ∷ set_config cfg c ∷ connect d ∷ []))).1.1
      ≡ []
  unfolding rollback finish
  rollback-writes = ground arith

  rollback-writes_stage :
      writes m (rollback a err s (asked_ram (disconnect b ∷ set_config cfg c ∷ []))).1.1 ≡ []
  unfolding rollback finish
  rollback-writes_stage = ground arith

after_wait-writes :
    (a : Answers) (s : Station) (cfg : Config) (m : Storage) (b c d : Bool)
    → writes m
        (after_wait a cfg s (asked_ram (disconnect b ∷ set_config cfg c ∷ connect d ∷ []))).1.1
      ≡ (if a.wait_connected && is_ok a.to_flash then cfg ∷ [] else [])
unfolding after_wait finish
after_wait-writes a s cfg m b c d = ground (arith, rollback-writes a esp_fail s cfg m b c d)

try_candidate-writes :
    (a : Answers) (s : Station) (cfg : Config) (m : Storage)
    → writes m (try_candidate a cfg s (asked_ram [])).1.1 ≡ (
        if is_ok a.stage && is_ok a.start && a.wait_connected && is_ok a.to_flash
        then cfg ∷ []
        else [])
unfolding try_candidate
try_candidate-writes a s cfg m = elim (Bool-cases (is_ok a.stage)) [
  | inr e ↦
      simp (try_candidate, e)
        (rollback-writes_stage a (err_of a.stage) _ cfg m (is_ok a.first_disconnect) false true)
  | inl e ↦ elim (Bool-cases (is_ok a.start)) [
    | inr f ↦
        simp (try_candidate, e, f)
          (rollback-writes a (err_of a.start) _ cfg m (is_ok a.first_disconnect) true false)
    | inl f ↦
        simp (try_candidate, e, f)
          (after_wait-writes a _ cfg m (is_ok a.first_disconnect) true true)
  ]
]

-- A join with valid strings that got its lock hands exactly one configuration to the driver while
-- the storage is the flash, the candidate, if its association was reported after every earlier
-- call succeeded and the storage could be set back, and none in any other case, whatever the
-- calls answer.
pub app_wifi_join-writes :
    (ssid pass : List ℕ) (a : Answers) (s : Station) (m : Storage)
    → invalid_join (some ssid) (some pass) ≡ false
    → a.has_lock ≡ true
    → a.taken ≡ true
    → writes m (app_wifi_join (some ssid) (some pass) a s).1.1
      ≡ (if proved a && is_ok a.to_flash then record { ssid = ssid; password = pass } ∷ [] else [])
unfolding app_wifi_join finish
app_wifi_join-writes ssid pass a s m v h t = elim (Bool-cases (is_ok a.to_ram)) [
  | inr e ↦ simp (app_wifi_join, v, h, t, e) (writes-end m (is_ok a.final))
  | inl e ↦ elim (Bool-cases (is_ok a.snapshot)) [
    | inr f ↦ simp (app_wifi_join, v, h, t, e, f) (writes-end ram (is_ok a.final))
    | inl f ↦ simp (app_wifi_join, v, h, t, e, f, try_candidate-writes)
  ]
]

rollback-err :
    (a : Answers) (err : EspErr) (s : Station) (calls : List Asked)
    → err ≢ esp_ok
    → (rollback a err s calls).0 ≢ esp_ok
unfolding rollback finish
rollback-err a err s calls n = ground arith

after_wait-ok_iff :
    (a : Answers) (cfg : Config) (s : Station) (calls : List Asked)
    → ((after_wait a cfg s calls).0 ≡ esp_ok)
      ↔ (a.wait_connected && is_ok a.to_flash && is_ok a.store && is_ok a.final ≡ true)
unfolding after_wait finish
after_wait-ok_iff a cfg s calls = ground (arith, rollback-err a esp_fail s calls)

try_candidate-ok_iff :
    (a : Answers) (cfg : Config) (s : Station) (calls : List Asked)
    → ((try_candidate a cfg s calls).0 ≡ esp_ok) ↔ (
        is_ok a.stage
          && is_ok a.start
          && a.wait_connected
          && is_ok a.to_flash
          && is_ok a.store
          && is_ok a.final
        ≡ true)
unfolding try_candidate
try_candidate-ok_iff a cfg s calls = grind (arith, rollback-err, after_wait-ok_iff)

-- A join with valid strings that got its lock answers `ESP_OK` exactly if every call up to the
-- association succeeded, the association was reported, the candidate was stored, and the flash
-- storage could be set before and after that.
pub app_wifi_join-ok_iff :
    (ssid pass : List ℕ) (a : Answers) (s : Station)
    → invalid_join (some ssid) (some pass) ≡ false
    → a.has_lock ≡ true
    → a.taken ≡ true
    → ((app_wifi_join (some ssid) (some pass) a s).0 ≡ esp_ok)
      ↔ (proved a && is_ok a.to_flash && is_ok a.store && is_ok a.final ≡ true)
unfolding app_wifi_join finish
app_wifi_join-ok_iff ssid pass a s v h t = ground (
  arith,
  try_candidate-ok_iff a (record { ssid = ssid; password = pass })
      (record s { join_active = true; step = 0 }) (asked_ram []),
)

module _ (a : Answers) (err : EspErr) (cfg : Config) (s : Station) (calls : List Asked) where
  rollback-join_active : (rollback a err s calls).1.0.join_active ≡ false
  unfolding rollback finish
  rollback-join_active = ground arith

  after_wait-join_active : (after_wait a cfg s calls).1.0.join_active ≡ false
  unfolding after_wait finish
  after_wait-join_active = ground (arith, rollback-join_active_fail)
    where
      rollback-join_active_fail : (rollback a esp_fail s calls).1.0.join_active ≡ false
      rollback-join_active_fail = unfold rollback finish in ground arith

try_candidate-join_active :
    (a : Answers) (cfg : Config) (s : Station) (calls : List Asked)
    → (try_candidate a cfg s calls).1.0.join_active ≡ false
unfolding try_candidate
try_candidate-join_active a cfg s calls = elim (Bool-cases (is_ok a.stage)) [
  | inr e ↦ simp (try_candidate, e) (rollback-join_active a (err_of a.stage) cfg _ _)
  | inl e ↦ elim (Bool-cases (is_ok a.start)) [
    | inr f ↦ simp (try_candidate, e, f) (rollback-join_active a (err_of a.start) cfg _ _)
    | inl f ↦ simp (try_candidate, e, f) (after_wait-join_active a esp_ok cfg _ _)
  ]
]

join_valid-join_active :
    (ssid pass : List ℕ) (a : Answers) (s : Station)
    → s.join_active ≡ false
    → (app_wifi_join (some ssid) (some pass) a s).1.0.join_active ≡ false
unfolding app_wifi_join finish
join_valid-join_active ssid pass a s e = elim (Bool-cases (invalid_join (some ssid) (some pass))) [
  | inl v ↦ simp (app_wifi_join, v) e
  | inr v ↦ elim (Bool-cases (a.has_lock)) [
    | inr h ↦ simp (app_wifi_join, v, h) e
    | inl h ↦ elim (Bool-cases (a.taken)) [
      | inr t ↦ simp (app_wifi_join, v, h, t) e
      | inl t ↦ elim (Bool-cases (is_ok a.to_ram)) [
        | inr r ↦ simp (app_wifi_join, v, h, t, r)
        | inl r ↦ elim (Bool-cases (is_ok a.snapshot)) [
          | inr f ↦ simp (app_wifi_join, v, h, t, r, f)
          | inl f ↦
              simp (app_wifi_join, v, h, t, r, f)
                (try_candidate-join_active a (record { ssid = ssid; password = pass }) _ _)
        ]
      ]
    ]
  ]
]

-- A join that starts while none is active leaves none active, on every exit.
pub app_wifi_join-join_active :
    (ssid pass : Option (List ℕ)) (a : Answers) (s : Station)
    → s.join_active ≡ false
    → (app_wifi_join ssid pass a s).1.0.join_active ≡ false
unfolding app_wifi_join
app_wifi_join-join_active none pass a s e = e
app_wifi_join-join_active (some ssid) none a s e = e
app_wifi_join-join_active (some ssid) (some pass) a s e = join_valid-join_active ssid pass a s e

-- A leave that got its lock hands the driver the empty configuration under flash storage, if that
-- storage could be set, and nothing else.
pub app_wifi_leave-writes :
    (a : Answers) (s : Station) (m : Storage)
    → a.has_lock ≡ true
    → a.taken ≡ true
    → writes m (app_wifi_leave a s).1.1 ≡ (if is_ok a.to_flash then empty ∷ [] else [])
unfolding app_wifi_leave
app_wifi_leave-writes a s m h t = ground arith

-- After a leave that got its lock, whatever the driver answered, neither the disconnect event nor
-- the reconnect timer nor the watchdog connects or arms an attempt, for any answers to them.
pub app_wifi_leave_stays_down :
    (a : Answers) (s : Station) (reason : Option ℕ) (env : Around) (accepted stored active : Bool)
    → a.has_lock ≡ true
    → a.taken ≡ true
    → let left = (app_wifi_leave a s).1.0 in
      ((on_wifi left (sta_disconnected reason) env).1
        ≡ show_wifi false ∷ (if s.has_timer then timer_stop ∷ [] else []))
      × ((reconnect_timer_cb left accepted).1 ≡ [])
      × ((wifi_watchdog_cb left stored active).1 ≡ [])
unfolding app_wifi_leave hold_for_switch on_wifi on_disconnected after_disconnect cancel_reconnect
    reconnect_timer_cb wifi_watchdog_cb
app_wifi_leave_stays_down a s reason env accepted stored active h t = ground arith
