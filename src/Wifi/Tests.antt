-- ===== src/Wifi/Tests.antt =====
-- main/main.c: runs of the supervisor, of a join and of a leave.
use cores3_epskc_commissione.Base.{
  ℕ, ◌≡◌, refl, true, false, ◌&&◌, none, some, List, [], ◌∷◌, if◌then◌else◌, arith,
}
use cores3_epskc_commissione.Wifi.Station.{
  show_wifi, timer_stop, reconnect_timer_cb, Station, sta_disconnected, Around, on_wifi,
  wifi_watchdog_cb,
}
use cores3_epskc_commissione.Wifi.Ladder.{
  event, watchdog, here, next, IsStation, Reach-IsStation, disconnects, ladder, disconnects-ladder,
}
use cores3_epskc_commissione.Wifi.Join.{flash, empty, Answers, is_ok, app_wifi_join, app_wifi_leave}
use cores3_epskc_commissione.Wifi.Flash.{
  writes, proved, app_wifi_join-writes, app_wifi_leave_stays_down,
}

abbrev station : Station
station = record {
  step = 0;
  retries = 0;
  hold = false;
  join_active = false;
  supervisor_on = true;
  have_credentials = true;
  has_timer = true;
  connected = false;
  fail = false;
  disconnected = false;
  backbone_ready = false;
  ip = none;
  ip6 = none;
  last_disc_reason = 0;
  disconnect_count = 0;
  last_disc_us = 0;
  last_conn_us = 0;
}

abbrev around : Around
around = record { now = 5; deferred = true; rest_api = true }

disconnects-ladder_example : (disconnects 12 station around).1 ≡ ladder 12 0
disconnects-ladder_example = disconnects-ladder 12 station around refl refl refl refl

abbrev lost : Station
lost = (on_wifi station (sta_disconnected (some 200)) around).0

Reach-IsStation_example : IsStation (wifi_watchdog_cb lost true false).0
Reach-IsStation_example =
    Reach-IsStation station (wifi_watchdog_cb lost true false).0
      (next (next here (event (sta_disconnected (some 200)) around)) (watchdog true false))
      (ground arith)

-- A join that works at every step.
abbrev answers : Answers
answers = record {
  has_lock = true;
  taken = true;
  to_ram = none;
  snapshot = none;
  previous = empty;
  first_disconnect = none;
  stage = none;
  start = none;
  wait_connected = true;
  to_flash = none;
  store = none;
  second_disconnect = none;
  restore = none;
  reconnect = none;
  final = none;
}

abbrev ssid : List ℕ
ssid = b'h' ∷ b'o' ∷ b'm' ∷ b'e' ∷ []

abbrev pass : List ℕ
pass = b's' ∷ b'e' ∷ b'c' ∷ []

app_wifi_join-writes_example :
    writes flash (app_wifi_join (some ssid) (some pass) answers station).1.1 ≡ (
      if proved answers && is_ok answers.to_flash
      then record { ssid = ssid; password = pass } ∷ []
      else [])
app_wifi_join-writes_example = app_wifi_join-writes ssid pass answers station flash refl refl refl

app_wifi_leave_stays_down_example :
    ((on_wifi (app_wifi_leave answers station).1.0 (sta_disconnected none) around).1
      ≡ show_wifi false ∷ (if station.has_timer then timer_stop ∷ [] else []))
    × ((reconnect_timer_cb (app_wifi_leave answers station).1.0 true).1 ≡ [])
    × ((wifi_watchdog_cb (app_wifi_leave answers station).1.0 true false).1 ≡ [])
app_wifi_leave_stays_down_example =
    app_wifi_leave_stays_down answers station none around true true false refl refl
