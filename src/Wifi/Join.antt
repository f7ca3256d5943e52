-- ===== src/Wifi/Join.antt =====
-- main/main.c: `app_wifi_join` and `app_wifi_leave`. What the driver, the lock and the event group
-- answer is an argument, so that every behaviour of theirs is covered, and what the functions ask of
-- the driver is the list of its calls with the answers.
use cores3_epskc_commissione.Base.{
  ℕ, Bool, true, false, not, ◌&&◌, ◌||◌, Option, none, some, List, [], ◌∷◌, ◌++◌, ltb, ◌==◌,
  if◌then◌else◌, length, get_or,
}
use cores3_epskc_commissione.Wifi.Station.{Station}

pub data Storage : Type 0 where
  ram flash : Storage

-- `wifi_config_t`: the SSID and the password; the zeroed one has neither.
pub record Config : Type 0 where
  pub ssid : List ℕ
  pub password : List ℕ

abbrev pub empty : Config
empty = record { ssid = []; password = [] }

-- A call of the driver with its answer.
pub data Asked : Type 0 where
  set_storage : Storage → Bool → Asked
  set_config : Config → Bool → Asked
  get_config connect disconnect : Bool → Asked

pub data EspErr : Type 0 where
  esp_ok esp_fail invalid_arg invalid_state timeout : EspErr
  driver : ℕ → EspErr

-- The answer of a call, `none` being `ESP_OK`.
abbrev pub Answer : Type 0
Answer = Option ℕ

abbrev pub is_ok : Answer → Bool
is_ok none = true
is_ok (some e) = false

abbrev pub err_of : Answer → EspErr
err_of none = esp_ok
err_of (some e) = driver e

-- What happens around one join: the lock, the answers of the driver's calls in the order of the
-- code, and the bits that the wait ended with. What `on_wifi` does meanwhile is not part of it.
pub record Answers : Type 0 where
  pub has_lock : Bool
  pub taken : Bool
  pub to_ram : Answer
  pub snapshot : Answer
  pub previous : Config
  pub first_disconnect : Answer
  pub stage : Answer
  pub start : Answer
  pub wait_connected : Bool
  pub to_flash : Answer
  pub store : Answer
  pub second_disconnect : Answer
  pub restore : Answer
  pub reconnect : Answer
  pub final : Answer

-- `ssid[0] != '\0'`
abbrev pub has_ssid : Config → Bool
has_ssid c = ltb 0 (length c.ssid) && not (get_or c.ssid 0 0 == 0)

abbrev pub Done : Type 0
Done = EspErr × (Station × List Asked)

-- `done:`; `calls` are those before it.
unfoldable pub finish : Answers → EspErr → Station → List Asked → Done
finish a err s calls = (
  elim err as (λ _. EspErr) [
    | esp_ok ↦ err_of a.final
    | esp_fail ↦ esp_fail
    | invalid_arg ↦ invalid_arg
    | invalid_state ↦ invalid_state
    | timeout ↦ timeout
    | driver e ↦ driver e
  ],
  (record s { join_active = false }, calls ++ (set_storage flash (is_ok a.final) ∷ [])),
)

-- `wifi_disconnect_for_config_switch`, on the state; its wait takes the bit back.
unfoldable pub hold_for_switch : Station → Station
hold_for_switch s = record s { hold = true; disconnected = false }

-- `rollback:`
unfoldable pub rollback : Answers → EspErr → Station → List Asked → Done
unfolding finish hold_for_switch
rollback a err s calls =
    let restored = if has_ssid a.previous then a.previous else empty in
    let asked =
      calls
      ++ (disconnect (is_ok a.second_disconnect) ∷ set_config restored (is_ok a.restore) ∷ []) in
    let held = hold_for_switch s in
    if not (is_ok a.restore)
    then finish a err (record held { hold = true }) asked
    else let cleared = record held { retries = 0; connected = false; fail = false } in
      if has_ssid a.previous
      then finish a err (record cleared { hold = false; have_credentials = true })
          (asked ++ (connect (is_ok a.reconnect) ∷ []))
      else finish a err (record cleared { hold = true; have_credentials = false }) asked

-- From the candidate's association on.
unfoldable pub after_wait : Answers → Config → Station → List Asked → Done
unfolding finish rollback
after_wait a cfg s calls =
    if a.wait_connected
    then (let asked = calls ++ (set_storage flash (is_ok a.to_flash) ∷ []) in
        if is_ok a.to_flash
        then (let asked' = asked ++ (set_config cfg (is_ok a.store) ∷ []) in
            if not (is_ok a.store)
            then finish a (err_of a.store) s asked'
            else finish a esp_ok (record s { have_credentials = true }) asked')
        else finish a (err_of a.to_flash) s asked)
    else rollback a esp_fail s calls

-- From `previous` on.
unfoldable pub try_candidate : Answers → Config → Station → List Asked → Done
unfolding hold_for_switch
try_candidate a cfg s calls =
    let held = record (hold_for_switch s) {
      connected = false;
      fail = false;
      disconnected = false;
    } in
    let asked =
      calls ++ (disconnect (is_ok a.first_disconnect) ∷ set_config cfg (is_ok a.stage) ∷ []) in
    if not (is_ok a.stage)
    then rollback a (err_of a.stage) held asked
    else let trying = record held { retries = 0; hold = false } in
      let asked' = asked ++ (connect (is_ok a.start) ∷ []) in
      if not (is_ok a.start)
      then rollback a (err_of a.start) trying asked'
      else after_wait a cfg trying asked'

abbrev pub invalid_join : Option (List ℕ) → Option (List ℕ) → Bool
invalid_join none pass = true
invalid_join (some ssid) none = true
invalid_join (some ssid) (some pass) =
    (length ssid == 0) || ltb 32 (length ssid) || ltb 64 (length pass)

-- `app_wifi_join` on the strings, NULL being `none`.
unfoldable pub app_wifi_join : Option (List ℕ) → Option (List ℕ) → Answers → Station → Done
app_wifi_join none pass a s = (invalid_arg, (s, []))
app_wifi_join (some ssid) none a s = (invalid_arg, (s, []))
app_wifi_join (some ssid) (some pass) a s =
    if invalid_join (some ssid) (some pass)
    then (invalid_arg, (s, []))
    else if not a.has_lock
    then (invalid_state, (s, []))
    else if not a.taken
    then (timeout, (s, []))
    else let joining = record s { join_active = true; step = 0 } in
      let asked = set_storage ram (is_ok a.to_ram) ∷ [] in
      if not (is_ok a.to_ram)
      then finish a (err_of a.to_ram) joining asked
      else let asked' = asked ++ (get_config (is_ok a.snapshot) ∷ []) in
        if not (is_ok a.snapshot)
        then finish a (err_of a.snapshot) joining asked'
        else try_candidate a (record { ssid = ssid; password = pass }) joining asked'

-- `app_wifi_leave`; its lock answers with `taken` and `has_lock`.
unfoldable pub app_wifi_leave : Answers → Station → Done
unfolding hold_for_switch
app_wifi_leave a s =
    if not a.has_lock || not a.taken
    then (invalid_state, (s, []))
    else let held = hold_for_switch s in
      let asked =
        disconnect (is_ok a.first_disconnect) ∷ set_storage flash (is_ok a.to_flash) ∷ [] in
      if not (is_ok a.to_flash)
      then (err_of a.to_flash, (record held { step = 0 }, asked))
      else let asked' = asked ++ (set_config empty (is_ok a.store) ∷ []) in
        if not (is_ok a.store)
        then (err_of a.store, (record held { step = 0 }, asked'))
        else (esp_ok, (record held { have_credentials = false; step = 0 }, asked'))
