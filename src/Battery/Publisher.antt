-- ===== src/Battery/Publisher.antt =====
-- main/matter_battery.cpp: samples noted from any task, and their publication on the CHIP event loop.
use cores3_epskc_commissione.Base.{
  ℕ, ◌+◌, Bool, true, false, not, ◌&&◌, ◌||◌, Option, none, some, ◌==◌, if◌then◌else◌,
}
use cores3_epskc_commissione.Power.Gauge.{Status}
use cores3_epskc_commissione.Power.Matter.{Sample, Values, convert, voltage_due}

-- A cached attribute: -2, or the last value that an update took.
pub data Cached : Type 0 where
  unsent : Cached
  holds : (v : Option ℕ) → Cached

unfoldable pub differs : Option ℕ → Cached → Bool
differs v unsent = true
differs none (holds none) = false
differs none (holds (some b)) = true
differs (some a) (holds none) = true
differs (some a) (holds (some b)) = not (a == b)

-- `matter_battery_voltage_due` on a cached voltage.
unfoldable pub due : Cached → Option ℕ → ℕ → ℕ → Bool
due unsent next last_ms now = true
due (holds previous) next last_ms now = voltage_due previous next last_ms now

-- `s_sent` and `s_voltage_at`.
pub record Caches : Type 0 where
  pub percent_half : Cached
  pub millivolts : Cached
  pub status : Cached
  pub charge : Cached
  pub level : Cached
  pub voltage_at : ℕ

-- Which updates of an attribute succeed.
pub record Accepts : Type 0 where
  pub percent_half : Bool
  pub millivolts : Bool
  pub status : Bool
  pub charge : Bool
  pub level : Bool

-- A value that is new, and whose update succeeds.
unfoldable pub take_value : Bool → Option ℕ → Cached → Cached
unfolding differs
take_value accepts v c = if differs v c && accepts then holds v else c

abbrev pub is_known : Option ℕ → Bool
is_known none = false
is_known (some v) = true

-- The updates of `publish`.
unfoldable pub update_all : Accepts → Values → ℕ → Caches → Caches
unfolding take_value
update_all a next now c = record {
  percent_half = take_value a.percent_half next.percent_half c.percent_half;
  millivolts =
      if due c.millivolts next.millivolts c.voltage_at now && a.millivolts
      then holds next.millivolts
      else c.millivolts;
  voltage_at =
      if due c.millivolts next.millivolts c.voltage_at now && a.millivolts
      then now
      else c.voltage_at;
  status = take_value a.status (some next.status) c.status;
  charge = take_value a.charge (some next.charge) c.charge;
  level = if is_known next.level then take_value a.level next.level c.level else c.level;
}

-- `s_sample`, `s_ready`, `s_pending`, `s_sent`, and the publications that are scheduled; `copying` is a
-- `publish` that has released `s_pending` and not copied the sample yet.
pub record State : Type 0 where
  pub sample : Sample
  pub ready : Bool
  pub pending : Bool
  pub caches : Caches
  pub scheduled : ℕ
  pub copying : Bool

-- `request_publish`, with whether ScheduleWork takes it.
unfoldable pub request_publish : Bool → State → State
request_publish takes s =
    if not s.ready || s.pending
    then s
    else if takes
    then record s { pending = true; scheduled = 1 + s.scheduled }
    else record s { pending = false }

-- The sample of a reading, and of none.
abbrev pub no_sample : ℕ → Sample
no_sample now = record {
  at_ms = now;
  percent = none;
  millivolts = none;
  valid = false;
  present = false;
  estimated = false;
  usb = false;
  charging = false;
  full = false;
}

unfoldable pub sample_of : Option Status → Bool → ℕ → Sample
sample_of none good now = no_sample now
sample_of (some ps) good now =
    if good
    then record {
      at_ms = now;
      percent = ps.percent;
      millivolts = ps.batt_mv;
      valid = true;
      present = ps.present;
      estimated = ps.percent_estimated;
      usb = ps.vbus;
      charging = ps.charging;
      full = ps.full;
    }
    else no_sample now

-- `matter_note_power`
unfoldable pub note_power : Option Status → Bool → ℕ → Bool → State → State
unfolding sample_of request_publish
note_power ps good now takes s = request_publish takes (record s { sample = sample_of ps good now })

-- `publish` up to the release of `s_pending`, and from the copy of the sample on.
unfoldable pub publish_begin : ℕ → State → State
publish_begin left s = record s { pending = false; scheduled = left; copying = true }

unfoldable pub publish_copy : Accepts → ℕ → State → State
unfolding update_all
publish_copy a now s = record s {
  copying = false;
  caches = update_all a (convert s.sample now) now s.caches;
}

-- The end of `matter_battery_start`, with whether the endpoint list is set, and the timer created and
-- started.
unfoldable pub battery_start : Bool → Bool → State → Bool × State
unfolding request_publish
battery_start set_up takes s =
    if not set_up then (false, s) else (true, request_publish takes (record s { ready = true }))
