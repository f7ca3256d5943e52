-- ===== src/Power/Matter.antt =====
-- main/matter_battery_model.h: what the Matter battery endpoint makes of a sample of the battery.
use cores3_epskc_commissione.Base.{
  ℕ, ◌+◌, ◌-◌, ◌*◌, ◌^◌, ◌%◌, ◌≡◌, ◌≤◌, ◌<◌, ◌⊎◌, Bool, true, false, not, ◌&&◌, ◌||◌, Option, none,
  some, ltb, leb, ◌==◌, if◌then◌else◌, arith,
}
use cores3_epskc_commissione.Power.Gauge.{between}

-- `matter_battery_sample_t`; a negative number is `none`.
pub record Sample : Type 0 where
  pub at_ms : ℕ
  pub percent : Option ℕ
  pub millivolts : Option ℕ
  pub valid : Bool
  pub present : Bool
  pub estimated : Bool
  pub usb : Bool
  pub charging : Bool
  pub full : Bool

-- `matter_battery_values_t`; -1 is `none`.
pub record Values : Type 0 where
  pub percent_half : Option ℕ
  pub millivolts : Option ℕ
  pub status : ℕ
  pub charge : ℕ
  pub level : Option ℕ

abbrev pub no_values : Values
no_values = record { percent_half = none; millivolts = none; status = 0; charge = 0; level = none }

abbrev pub level_of : ℕ → ℕ
level_of p = if leb p 5 then 2 else if ltb p 15 then 1 else 0

-- The percentage that is shown: a measured one.
abbrev pub shown : Bool → Option ℕ → Option ℕ
shown estimated none = none
shown estimated (some p) = if not estimated && leb p 100 then some p else none

abbrev pub twice : Option ℕ → Option ℕ
twice none = none
twice (some p) = some (p * 2)

abbrev pub level : Option ℕ → Option ℕ
level none = none
level (some p) = some (level_of p)

-- `matter_battery_convert`
unfoldable pub convert : Sample → ℕ → Values
convert s now =
    if not s.valid || ltb now s.at_ms || leb 60000 (now - s.at_ms)
    then no_values
    else if not s.present
    then record no_values { status = 3 }
    else record {
      percent_half = twice (shown s.estimated s.percent);
      millivolts = if between 2500 4350 s.millivolts then s.millivolts else none;
      status = if s.usb then 2 else 1;
      charge = if not s.usb then 3 else if s.full then 2 else if s.charging then 1 else 3;
      level = level (shown s.estimated s.percent);
    }

abbrev same : Option ℕ → Option ℕ → Bool
same none none = true
same none (some b) = false
same (some a) none = false
same (some a) (some b) = a == b

abbrev pub is_none : Option ℕ → Bool
is_none none = true
is_none (some a) = false

-- `matter_battery_voltage_due` on `uint64_t` times.
unfoldable pub voltage_due : Option ℕ → Option ℕ → ℕ → ℕ → Bool
voltage_due previous next last_ms now_ms =
    not (same previous next)
    && (is_none previous || is_none next || leb 60000 ((now_ms + 2 ^ 64 - last_ms) % 2 ^ 64))

-- What Matter requires of the values: half percents up to 200, a cell voltage, and the codes of
-- `PowerSourceStatusEnum`, `BatChargeStateEnum` and `BatChargeLevelEnum`; the level is there exactly
-- if the percentage is, and it falls with it.
pub record IsValues (v : Values) : Type 0 where
  pub percent_half : (p : ℕ) → v.percent_half ≡ some p → p ≤ 200
  pub millivolts : (m : ℕ) → v.millivolts ≡ some m → (2500 ≤ m) × (m ≤ 4350)
  pub status : v.status ≤ 3
  pub charge : v.charge ≤ 3
  pub level :
      (p : ℕ)
      → v.percent_half ≡ some p
      → v.level ≡ some (if leb p 10 then 2 else if ltb p 30 then 1 else 0)
  pub no_level : v.percent_half ≡ none → v.level ≡ none

-- Whatever the sample and the clock, the values lie in the ranges of their Matter attributes, a
-- voltage is one of 2500 to 4350 mV, and the level is that of the percentage.
pub convert-IsValues : (s : Sample) (now : ℕ) → IsValues (convert s now)
unfolding convert
convert-IsValues s now = record {
  percent_half = λ p e. ground arith;
  millivolts = λ m e. ground arith;
  status = ground arith;
  charge = ground arith;
  level = λ p e. ground arith;
  no_level = λ e. ground arith;
}

-- A sample that is invalid, from the future or a minute old gives only nulls.
pub convert-stale :
    (s : Sample) (now : ℕ)
    → (s.valid ≡ false) ⊎ (now < s.at_ms) ⊎ (s.at_ms + 60000 ≤ now)
    → convert s now ≡ no_values
unfolding convert
convert-stale s now h = ground arith
