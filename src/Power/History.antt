-- ===== src/Power/History.antt =====
-- main/power.c: the discharge history, a ring of twelve samples, and the rate over it. What takes
-- `s_hist_lock` runs as one step.
use cores3_epskc_commissione.Base.{
  ℕ, ◌+◌, ◌-◌, ◌%◌, Bool, not, ◌||◌, Option, none, some, ltb, ◌==◌, if◌then◌else◌,
}

abbrev pub hist_n : ℕ
hist_n = 12

-- An entry: `t_us` and `pct`.
abbrev pub Entry : Type 0
Entry = ℕ × ℕ

pub record History : Type 0 where
  pub hist : ℕ → Entry
  pub n : ℕ
  pub head : ℕ

abbrev pub newest : History → ℕ
newest h = (h.head + hist_n - 1) % hist_n

abbrev pub oldest : History → ℕ
oldest h = if h.n == hist_n then h.head else 0

abbrev pub cleared : History → History
cleared h = record h { n = 0; head = 0 }

-- The end of `power_note_sample`: the sample into the next slot.
unfoldable pub push : History → ℕ → ℕ → History
push h percent now = record {
  hist = λ i. if i == h.head then (now, percent) else h.hist i;
  n = if ltb h.n hist_n then h.n + 1 else h.n;
  head = (h.head + 1) % hist_n;
}

-- `power_note_sample` at the time `now`, a negative percentage being `none`.
unfoldable pub note_sample : History → Option ℕ → Bool → ℕ → History
note_sample h none on_battery now = cleared h
note_sample h (some percent) on_battery now =
    if not on_battery || ltb 100 percent
    then cleared h
    else if h.n == 0
    then push h percent now
    else let last = h.hist (newest h) in
      if ltb 90000000 (now - last.0) || ltb last.1 percent || ltb now last.0
      then push (cleared h) percent now
      else if ltb (now - last.0) 60000000
      then h
      else push h percent now

-- What the rate is computed from: `drop` percent in `elapsed` microseconds, `remaining` percent left.
pub record Rate : Type 0 where
  pub drop : ℕ
  pub elapsed : ℕ
  pub remaining : ℕ

-- `power_discharge_rate` at the time `now`. `dt_h < 10.0 / 60.0` is the test of the elapsed
-- microseconds against ten minutes, and a difference that is negative fails its test as 0 does.
unfoldable pub discharge_rate : History → ℕ → Option Rate
discharge_rate h now =
    if ltb h.n 2
    then none
    else let last = h.hist (newest h) in
      let first = h.hist (oldest h) in
      if ltb (last.0 - first.0) 600000000 || ltb (first.1 - last.1) 2 || ltb 90000000 (now - last.0)
      then none
      else some (record { drop = first.1 - last.1; elapsed = last.0 - first.0; remaining = last.1 })
