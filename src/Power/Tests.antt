-- ===== src/Power/Tests.antt =====
-- main/power.c and main/matter_battery_model.h: runs of a reading, of the history and of the
-- conversion.
use cores3_epskc_commissione.Base.{
  ℕ, ◌+◌, ◌-◌, ◌*◌, ◌≤◌, ◌≡◌, refl, Bool, true, false, Option, some, List, [], ◌∷◌,
}
use cores3_epskc_commissione.Power.Gauge.{value, Bus, Device, power_read}
use cores3_epskc_commissione.Power.Reading.{IsReading, power_read-IsReading}
use cores3_epskc_commissione.Power.History.{Entry, History, Rate, push, note_sample, discharge_rate}
use cores3_epskc_commissione.Power.Discharge.{discharge, IsIn, discharge_rate-discharge}

-- A battery at 4 V, on battery power, whose gauge reports 0.
abbrev bus : Bus
bus = record {
  init = value tt;
  add_device = value tt;
  read = λ reg. value 8;
  read_two = λ reg. value (15, 160);
  write = λ reg v. value tt;
}

abbrev device : Device
device = record { added = false; adc_ready = false }

power_read-IsReading_example : IsReading (power_read bus device).1.0
power_read-IsReading_example = power_read-IsReading bus device

abbrev empty : History
empty = record { hist = λ i. (0, 0); n = 0; head = 0 }

abbrev minute : ℕ
minute = 60000000

-- Eleven minutes, in which the battery falls from 90 to 88 percent.
abbrev samples : List (Option ℕ × (Bool × ℕ))
samples =
    (some 90, (true, minute))
    ∷ (some 90, (true, 2 * minute))
    ∷ (some 90, (true, 3 * minute))
    ∷ (some 90, (true, 4 * minute))
    ∷ (some 89, (true, 5 * minute))
    ∷ (some 89, (true, 6 * minute))
    ∷ (some 89, (true, 7 * minute))
    ∷ (some 89, (true, 8 * minute))
    ∷ (some 89, (true, 9 * minute))
    ∷ (some 88, (true, 10 * minute))
    ∷ (some 88, (true, 11 * minute))
    ∷ (some 88, (true, 12 * minute))
    ∷ []

abbrev rate : Rate
rate = record { drop = 2; elapsed = 11 * minute; remaining = 88 }

discharge_rate-discharge_example :
    ((first : Entry) × ((last : Entry) × IsIn first (discharge [] samples)
        × IsIn last (discharge [] samples)
        × (rate.elapsed ≡ last.0 - first.0)
        × (rate.drop ≡ first.1 - last.1)
        × (rate.remaining ≡ last.1)))
    × (600000000 ≤ rate.elapsed)
    × (rate.elapsed ≤ 990000000)
    × (2 ≤ rate.drop)
    × (rate.drop + rate.remaining ≤ 100)
unfolding note_sample push discharge_rate
discharge_rate-discharge_example = discharge_rate-discharge empty samples (12 * minute) rate refl
