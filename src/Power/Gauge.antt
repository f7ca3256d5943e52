-- ===== src/Power/Gauge.antt =====
-- main/power.c: reading the AXP2101. The I2C bus is a parameter: what it answers under a register.
-- An `int` of the status that is -1 or `INT_MIN` when it is unavailable is `none` then.
use cores3_epskc_commissione.Base.{
  ℕ, ◌+◌, ◌-◌, ◌*◌, ◌/◌, ◌%◌, ◌^◌, bit_and, bit_or, Bool, true, false, not, ◌&&◌, ◌||◌, Option,
  none, some, List, [], ◌∷◌, ltb, leb, ◌==◌, if◌then◌else◌, ℤ, pos, negsuc,
}

-- What a call of the bus answers: a result or an error.
pub data Got (A : Type 0) : Type 0 where
  value : A → Got A
  failed : ℕ → Got A

pub data ChargeDetail : Type 0 where
  trickle pre_charge constant_current constant_voltage done not_charging unknown not_connected
        discharging :
      ChargeDetail

pub record Status : Type 0 where
  pub percent : Option ℕ
  pub batt_mv : Option ℕ
  pub vbus_mv : Option ℕ
  pub vsys_mv : Option ℕ
  pub pmic_temp_c : Option ℤ
  pub present : Bool
  pub percent_estimated : Bool
  pub charging : Bool
  pub full : Bool
  pub vbus : Bool
  pub charge_detail : ChargeDetail
  pub raw_st1 : ℕ
  pub raw_st2 : ℕ

-- One read of a register, of two registers, and the answers that `ensure_init` gets.
pub record Bus : Type 0 where
  pub init : Got Unit
  pub add_device : Got Unit
  pub read : ℕ → Got ℕ
  pub read_two : ℕ → Got (ℕ × ℕ)
  pub write : ℕ → ℕ → Got Unit

-- `s_axp` is set, and `s_adc_ready`.
pub record Device : Type 0 where
  pub added : Bool
  pub adc_ready : Bool

-- `read_adc`: the low `hbits` bits of the first byte in front of the second.
unfoldable pub read_adc : Bus → ℕ → ℕ → Option ℕ
read_adc bus reg hbits = elim (bus.read_two reg) [
  | failed e ↦ none
  | value (high, low) ↦ some (high % 2 ^ hbits * 256 + low)
]

-- ADC_EN_VBAT | ADC_EN_VBUS | ADC_EN_VSYS | ADC_EN_TDIE
abbrev pub adc_want : ℕ
adc_want = 29

-- The channels of the ADC, once the device is there.
unfoldable pub enable_adc : Bus → Device → Got Unit × Device
enable_adc bus d = elim (bus.read 0x30) [
  | failed e ↦ (failed e, d)
  | value adc ↦
      if bit_and adc adc_want == adc_want
      then (value tt, record d { adc_ready = true })
      else elim (bus.write 0x30 (bit_or adc adc_want)) [
        | failed e ↦ (failed e, d)
        | value u ↦ (value tt, record d { adc_ready = true })
      ]
]

unfoldable pub ensure_init : Bus → Device → Got Unit × Device
unfolding enable_adc
ensure_init bus d = if d.added && d.adc_ready then (value tt, d) else elim (bus.init) [
  | failed e ↦ (failed e, d)
  | value u ↦ if d.added then enable_adc bus d else elim (bus.add_device) [
    | failed e ↦ (failed e, d)
    | value v ↦ enable_adc bus (record d { added = true })
  ]
]

-- `charge_detail_str`
unfoldable pub charge_detail_str : ℕ → ChargeDetail
charge_detail_str st2 =
    let phase = st2 % 8 in
    if phase == 0
    then trickle
    else if phase == 1
    then pre_charge
    else if phase == 2
    then constant_current
    else if phase == 3
    then constant_voltage
    else if phase == 4
    then done
    else if phase == 5
    then not_charging
    else unknown

abbrev pub curve : List (ℕ × ℕ)
curve =
    (4200, 100)
    ∷ (4060, 90)
    ∷ (3980, 80)
    ∷ (3920, 70)
    ∷ (3870, 60)
    ∷ (3820, 50)
    ∷ (3790, 40)
    ∷ (3770, 30)
    ∷ (3740, 20)
    ∷ (3680, 10)
    ∷ (3450, 5)
    ∷ (3000, 0)
    ∷ []

-- The loop over the curve behind a point.
unfoldable pub curve_loop : ℕ × ℕ → List (ℕ × ℕ) → ℕ → ℕ
curve_loop above [] mv = 0
curve_loop (above_mv, above_pct) ((point_mv, point_pct) ∷ points) mv =
    let rest = curve_loop (point_mv, point_pct) points mv in
    if leb point_mv mv
    then point_pct
      + ((mv - point_mv) * (above_pct - point_pct) + (above_mv - point_mv) / 2)
        / (above_mv - point_mv)
    else rest

unfoldable pub percent_from_mv : ℕ → ℕ
unfolding curve_loop
percent_from_mv mv =
    if leb 4200 mv
    then 100
    else curve_loop (4200, 100)
        ((4060, 90)
          ∷ (3980, 80)
          ∷ (3920, 70)
          ∷ (3870, 60)
          ∷ (3820, 50)
          ∷ (3790, 40)
          ∷ (3770, 30)
          ∷ (3740, 20)
          ∷ (3680, 10)
          ∷ (3450, 5)
          ∷ (3000, 0)
          ∷ [])
        mv

-- `22 + (7274 - raw) / 20`, where `/` rounds towards zero.
unfoldable pub die_temperature : ℕ → ℤ
die_temperature raw =
    if leb raw 7274
    then pos (22 + (7274 - raw) / 20)
    else let below = (raw - 7274) / 20 in
      if leb below 22 then pos (22 - below) else negsuc (below - 23)

unfoldable pub no_status : Status
no_status = record {
  percent = none;
  batt_mv = none;
  vbus_mv = none;
  vsys_mv = none;
  pmic_temp_c = none;
  present = false;
  percent_estimated = false;
  charging = false;
  full = false;
  vbus = false;
  charge_detail = unknown;
  raw_st1 = 0;
  raw_st2 = 0;
}

abbrev pub between : ℕ → ℕ → Option ℕ → Bool
between low high none = false
between low high (some mv) = leb low mv && leb mv high

-- The percentage: the gauge's, the curve's, or none; and whether it is the curve's.
unfoldable pub percent_of : Got ℕ → Option ℕ → Bool → Option ℕ × Bool
unfolding percent_from_mv
percent_of soc batt_mv vbus =
    let gauge = elim soc as (λ _. Option ℕ) [
      | failed e ↦ none
      | value soc ↦
          if leb soc 100 && (ltb 0 soc || between 2500 3799 batt_mv) then some soc else none
    ] in
    elim gauge [
      | some soc ↦ (some soc, false)
      | none ↦ elim batt_mv [
        | none ↦ (none, false)
        | some mv ↦
            if not vbus && between 2500 4350 (some mv)
            then (some (percent_from_mv mv), true)
            else (none, false)
      ]
    ]

abbrev pub bit_at : ℕ → ℕ → Bool
bit_at st mask = (st / mask) % 2 == 1

-- `power_read` from the two status registers on.
unfoldable pub read_status : Bus → ℕ → ℕ → Status
unfolding percent_of die_temperature charge_detail_str read_adc
read_status bus st1 st2 =
    let present = bit_at st1 8 in
    let vbus = bit_at st1 32 in
    let charging = present && vbus && ((st2 / 32) % 4 == 1) in
    let batt_mv = read_adc bus 0x34 5 in
    let pct = if present then percent_of (bus.read 0xA4) batt_mv vbus else (none, false) in
    record {
      percent = pct.0;
      batt_mv = batt_mv;
      vbus_mv = read_adc bus 0x38 6;
      vsys_mv = read_adc bus 0x3A 6;
      pmic_temp_c = elim (read_adc bus 0x3C 6) [
        | none ↦ none
        | some raw ↦ some (die_temperature raw)
      ];
      present = present;
      percent_estimated = pct.1;
      charging = charging;
      full = present && vbus && not charging && (st2 % 8 == 4);
      vbus = vbus;
      charge_detail =
          if not present
          then not_connected
          else if not vbus
          then discharging
          else charge_detail_str st2;
      raw_st1 = st1;
      raw_st2 = st2;
    }

-- `power_read` from `ensure_init`'s answer on.
unfoldable pub after_init : Bus → Got Unit → Device → Got Unit × (Status × Device)
after_init bus (failed e) d = (failed e, (no_status, d))
after_init bus (value u) d = elim (bus.read 0x00) [
  | failed e ↦ (failed e, (no_status, d))
  | value st1 ↦ elim (bus.read 0x01) [
    | failed e ↦ (failed e, (no_status, d))
    | value st2 ↦ (value tt, (read_status bus st1 st2, d))
  ]
]

-- `power_read` on a status that is not NULL.
unfoldable pub power_read : Bus → Device → Got Unit × (Status × Device)
unfolding ensure_init after_init
power_read bus d = let (ready, d') = ensure_init bus d in after_init bus ready d'
