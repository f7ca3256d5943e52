-- ===== src/PowerLog/Samples.antt =====
-- main/power_log.c: the log of the last 8640 power samples. Every function that takes `s_lock` runs
-- as one step.
use cores3_epskc_commissione.Base.{
  ℕ, ◌+◌, ◌-◌, ◌*◌, ◌%◌, ◌^◌, Bool, ◌&&◌, ◌||◌, Option, none, some, List, [], ◌∷◌, ltb, leb, ◌==◌,
  if◌then◌else◌, length, ℤ,
}
use cores3_epskc_commissione.Power.Gauge.{Status}

abbrev pub capacity : ℕ
capacity = 8640

abbrev pub u32 : ℕ → ℕ
u32 n = n % 2 ^ 32

pub record Sample : Type 0 where
  pub seq : ℕ
  pub uptime_ms : ℕ
  pub percent : Option ℕ
  pub batt_mv : Option ℕ
  pub vbus_mv : Option ℕ
  pub vsys_mv : Option ℕ
  pub pmic_temp_c : Option ℤ
  pub screen_percent : ℕ
  pub raw_st1 : ℕ
  pub raw_st2 : ℕ
  pub valid : Bool
  pub present : Bool
  pub usb : Bool
  pub charging : Bool
  pub full : Bool
  pub estimated : Bool

-- The samples once they are allocated, the count being that of the valid ones.
pub record Samples : Type 0 where
  pub at : ℕ → Sample
  pub boot_id : ℕ
  pub latest : ℕ
  pub count : ℕ

-- The row that `power_log_note` makes of a reading, before it has a number.
unfoldable pub row_of : Status → Bool → ℕ → ℕ → Sample
row_of ps valid screen_percent now = record {
  seq = 0;
  uptime_ms = now;
  percent = if valid then ps.percent else none;
  batt_mv = if valid then ps.batt_mv else none;
  vbus_mv = if valid then ps.vbus_mv else none;
  vsys_mv = if valid then ps.vsys_mv else none;
  pmic_temp_c = if valid then ps.pmic_temp_c else none;
  screen_percent = if ltb 100 screen_percent then 100 else screen_percent;
  raw_st1 = if valid then ps.raw_st1 else 0;
  raw_st2 = if valid then ps.raw_st2 else 0;
  valid = valid;
  present = valid && ps.present;
  usb = valid && ps.vbus;
  charging = valid && ps.charging;
  full = valid && ps.full;
  estimated = valid && ps.percent_estimated;
}

-- `(seq - 1) % POWER_LOG_CAPACITY` on `uint32_t`.
abbrev pub sample_index : ℕ → ℕ
sample_index seq = u32 (seq + 2 ^ 32 - 1) % capacity

-- `power_log_note` on a log, that is allocated if it is `some`, and a status that is not NULL.
unfoldable pub note : Option Samples → Option Status → Bool → ℕ → ℕ → Option Samples
note none ps valid screen now = none
note (some s) none valid screen now = some s
note (some s) (some ps) valid screen now =
    let seq = u32 (s.latest + 1) in
    some (record {
      at = λ i.
          if i == sample_index seq
          then record (row_of ps valid screen now) { seq = seq }
          else s.at i;
      boot_id = s.boot_id;
      latest = seq;
      count = if ltb s.count capacity then s.count + 1 else s.count;
    })

pub record Info : Type 0 where
  pub boot_id : ℕ
  pub oldest_seq : ℕ
  pub latest_seq : ℕ
  pub count : ℕ

-- `power_log_info`
unfoldable pub info : Option Samples → Option Info
info none = none
info (some s) = some (record {
  boot_id = s.boot_id;
  oldest_seq = if s.count == 0 then 0 else u32 (s.latest + 2 ^ 32 - s.count + 1);
  latest_seq = s.latest;
  count = s.count;
})

-- `power_log_get`
unfoldable pub get : Option Samples → ℕ → Option Sample
get none seq = none
get (some s) seq =
    if seq == 0
    then none
    else if leb seq s.latest && ltb (u32 (s.latest + 2 ^ 32 - s.count)) seq
    then some (s.at (sample_index seq))
    else none

-- The loop of `power_log_parse_uint` behind the first `n`; `none` is `return false`.
unfoldable pub parse_loop : List ℕ → ℕ → ℕ → Option ℕ
parse_loop [] maximum n = some n
parse_loop (c ∷ s) maximum n =
    let rest = parse_loop s maximum (n * 10 + (c - 48)) in
    if ltb c 48 || ltb 57 c then none else if ltb maximum (n * 10 + (c - 48)) then none else rest

-- `power_log_parse_uint`, NULL being `none`.
unfoldable pub parse_uint : Option (List ℕ) → ℕ → Option ℕ
unfolding parse_loop
parse_uint none maximum = none
parse_uint (some s) maximum = if length s == 0 then none else parse_loop s maximum 0
