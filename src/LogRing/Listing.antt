-- ===== src/LogRing/Listing.antt =====
-- main/log_ring.c: what `log_ring_info` announces, and a slot whose writing a reset cut short.
use cores3_epskc_commissione.Base.{
  ℕ, ◌+◌, ◌-◌, ◌^◌, ◌<◌, ◌≡◌, none, some, List, [], ◌∷◌, ltb, ◌==◌, if◌then◌else◌, length, arith,
  ◌≢◌, Option-cases, inl, inr,
}
use cores3_epskc_commissione.LogRing.Slot.{State, ring_lines, u32, Text, line, Slot}
use cores3_epskc_commissione.LogRing.Text.{append_clean}
use cores3_epskc_commissione.LogRing.Ring.{
  slot_index, store_slot, begin, current, init, Info, log_info,
}
use cores3_epskc_commissione.LogRing.Refine.{
  Entry, Log, Holds, log_lines, logged, log_lines-Holds, init-Holds,
}

length-logged : (log : Log) (es : List Entry) → length (logged log es) ≡ length log + length es
length-logged log [] = omega arith
length-logged log ((now, text) ∷ es) =
    omega (arith, length-logged ((u32 now, append_clean [] text) ∷ log) es)

log_info-Holds :
    (s : State) (h : ℕ) (log : Log) (i : Info)
    → Holds s h log
    → log_info s current ≡ some i
    → (i.latest_seq ≡ length log)
      × (i.oldest_seq ≡ (
          if length log == 0
          then 0
          else if ltb ring_lines (length log)
          then length log - ring_lines + 1
          else 1))
unfolding log_info
log_info-Holds s h log i r e = ground arith

log_info-found : (s : State) (h : ℕ) (log : Log) → Holds s h log → log_info s current ≢ none
unfolding log_info
log_info-found s h log r = ground arith

-- After the first `log_ring_init` of a boot, at any contents of the memory, and fewer than 2^32
-- complete lines, `log_ring_info` announces the number of the lines as the latest one, and as the
-- oldest one the first of the last 1024, or zero without any line.
pub log_info-log_lines :
    (s : State) (boot_id : ℕ) (es : List Entry)
    → s.cur ≡ none
    → length es < 2 ^ 32
    → (i : Info) × (log_info (log_lines (init s boot_id) es) current ≡ some i)
      × (i.latest_seq ≡ length es)
      × (i.oldest_seq ≡ (
          if length es == 0
          then 0
          else if ltb ring_lines (length es)
          then length es - ring_lines + 1
          else 1))
log_info-log_lines s boot_id es e l =
    elim (Option-cases (log_info (log_lines (init s boot_id) es) current)) [
      | inl n ↦ absurd (
          log_info-found (log_lines (init s boot_id) es) (init s boot_id).ring.active (logged [] es)
            holds n)
      | inr (i, f) ↦
          let (latest, oldest) = rw count at (
            log_info-Holds (log_lines (init s boot_id) es) (init s boot_id).ring.active
              (logged [] es) i holds f) in
          (i, f, latest, oldest)
    ]
  where
    holds : Holds (log_lines (init s boot_id) es) (init s boot_id).ring.active (logged [] es)
    holds =
        log_lines-Holds (init s boot_id) (init s boot_id).ring.active [] es (init-Holds s boot_id e)
          (omega arith)

    count : length (logged [] es) ≡ length es
    count = omega (arith, length-logged [] es)

-- Where a reset may cut the writing of a slot short: its text being written under the mark, also after
-- the uptime, or all of it written but the check.
pub data Moment : Type 0 where
  marked stamped : (text : Text) → Moment
  numbered : Moment

-- What the slot holds then, of the line with this number, time and text.
abbrev pub written : Moment → Slot → ℕ → ℕ → List ℕ → Slot
written (marked t) old seq now text = record old { seq = 0; text = t }
written (stamped t) old seq now text = record old { seq = 0; text = t; uptime_ms = now }
written numbered old seq now text = record old { seq = seq; text = line text; uptime_ms = now }

-- The ring at such a moment.
abbrev pub cut : State → ℕ → Moment → ℕ → List ℕ → State
cut s h m now text =
    let (s', seq) = begin s h in
    let i = slot_index seq in store_slot s' h i (written m ((s'.ring.half h).slots i) seq now text)
