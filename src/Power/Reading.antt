-- ===== src/Power/Reading.antt =====
-- main/power.c: the status that a reading leaves.
use cores3_epskc_commissione.Base.{
  ℕ, ◌≤◌, ◌≡◌, inl, inr, Bool, true, false, Option, none, some, arith, Bool-cases,
}
use cores3_epskc_commissione.Power.Gauge.{
  Got, value, failed, Status, Bus, Device, percent_from_mv, curve_loop, percent_of, read_status,
  power_read, no_status, ensure_init, after_init, read_adc, bit_at, between,
}

percent_from_mv-le : (mv : ℕ) → percent_from_mv mv ≤ 100
unfolding percent_from_mv curve_loop
percent_from_mv-le mv = ground arith

percent_of-le :
    (soc : Got ℕ) (batt : Option ℕ) (vbus : Bool) (p : ℕ)
    → (percent_of soc batt vbus).0 ≡ some p
    → p ≤ 100
unfolding percent_of
percent_of-le soc none vbus p e = ground arith
percent_of-le soc (some mv) vbus p e = ground (arith, percent_from_mv-le mv)

percent_of-estimated :
    (soc : Got ℕ) (batt : Option ℕ) (vbus : Bool)
    → (percent_of soc batt vbus).1 ≡ true
    → (vbus ≡ false) × (between 2500 4350 batt ≡ true)
unfolding percent_of
percent_of-estimated soc none vbus e = ground arith
percent_of-estimated soc (some mv) vbus e = ground arith

-- What every status of the PMIC satisfies: the percentage is one; charging and full exclude each
-- other and need the battery and USB power; a percentage is read off the voltage curve only for a
-- battery that is present, without USB power, at a plausible cell voltage.
pub record IsReading (s : Status) : Type 0 where
  pub percent : (p : ℕ) → s.percent ≡ some p → p ≤ 100
  pub charging : s.charging ≡ true → (s.present ≡ true) × (s.vbus ≡ true)
  pub full : s.full ≡ true → (s.present ≡ true) × (s.vbus ≡ true) × (s.charging ≡ false)
  pub absent : s.present ≡ false → s.percent ≡ none
  pub estimated :
      s.percent_estimated ≡ true
      → (s.present ≡ true) × (s.vbus ≡ false) × (between 2500 4350 s.batt_mv ≡ true)

no_status-IsReading : IsReading no_status
unfolding no_status
no_status-IsReading = ground arith

read_status-IsReading : (bus : Bus) (st1 st2 : ℕ) → IsReading (read_status bus st1 st2)
unfolding read_status
read_status-IsReading bus st1 st2 =
    let batt : Option ℕ = read_adc bus 0x34 5 in
    record {
      percent = λ p e. elim (Bool-cases (bit_at st1 8)) [
        | inl b ↦ percent_of-le (bus.read 0xA4) batt (bit_at st1 32) p (ground arith)
        | inr b ↦ ground arith
      ];
      charging = λ e. ground arith;
      full = λ e. ground arith;
      absent = λ e. ground arith;
      estimated = λ e. elim (Bool-cases (bit_at st1 8)) [
        | inl b ↦
            let (v, m) = percent_of-estimated (bus.read 0xA4) batt (bit_at st1 32) (ground arith) in
            (b, v, m)
        | inr b ↦ ground arith
      ];
    }

after_init-IsReading : (bus : Bus) (r : Got Unit) (d : Device) → IsReading (after_init bus r d).1.0
unfolding after_init
after_init-IsReading bus (failed e) d = no_status-IsReading
after_init-IsReading bus (value u) d =
    elim (bus.read 0x00)
      as (λ r.
        IsReading
          (elim r as (λ _. Got Unit × (Status × Device)) [
            | failed e ↦ (failed e, (no_status, d))
            | value st1 ↦ elim (bus.read 0x01) as (λ _. Got Unit × (Status × Device)) [
              | failed e ↦ (failed e, (no_status, d))
              | value st2 ↦ (value tt, (read_status bus st1 st2, d))
            ]
          ]).1.0) [
            | failed e ↦ no_status-IsReading
            | value st1 ↦
                elim (bus.read 0x01)
                  as (λ r.
                    IsReading
                      (elim r as (λ _. Got Unit × (Status × Device)) [
                        | failed e ↦ (failed e, (no_status, d))
                        | value st2 ↦ (value tt, (read_status bus st1 st2, d))
                      ]).1.0) [
                        | failed e ↦ no_status-IsReading
                        | value st2 ↦ read_status-IsReading bus st1 st2
                      ]
          ]

-- Whatever the bus answers, the status that `power_read` leaves has a percentage of at most 100, is
-- charging or full (never both) only with battery and USB, has no percentage without a battery, and
-- an estimated one only on battery power at 2500 to 4350 mV.
pub power_read-IsReading : (bus : Bus) (d : Device) → IsReading (power_read bus d).1.0
unfolding power_read
power_read-IsReading bus d = after_init-IsReading bus (ensure_init bus d).0 (ensure_init bus d).1

-- A failed `power_read` leaves no measurement.
pub power_read-error :
    (bus : Bus) (d : Device) (e : ℕ)
    → (power_read bus d).0 ≡ failed e
    → (power_read bus d).1.0 ≡ no_status
unfolding power_read after_init
power_read-error bus d e f = ground arith
