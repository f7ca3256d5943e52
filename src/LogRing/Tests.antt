-- ===== src/LogRing/Tests.antt =====
-- main/log_ring.c: runs of the cleaning and of the ring.
use cores3_epskc_commissione.Base.{ℕ, ◌-◌, ◌≡◌, ◌≤◌, refl, none, List, [], ◌∷◌, length, arith, some}
use cores3_epskc_commissione.LogRing.Text.{text_size, append_clean}
use cores3_epskc_commissione.LogRing.Slot.{State, Slot, line}
use cores3_epskc_commissione.LogRing.Ring.{current, init, get}
use cores3_epskc_commissione.LogRing.Utf8.{IsText, nil, append_clean-IsText}
use cores3_epskc_commissione.LogRing.Refine.{Entry, log_lines, logged, recent, get-log_lines}

-- An escape sequence, a letter, a truncated character and a NUL.
abbrev noisy : List ℕ
noisy = 0x1b ∷ b'[' ∷ b'0' ∷ b'm' ∷ b'a' ∷ 0xe2 ∷ 0x82 ∷ 0 ∷ []

append_clean-IsText_example :
    IsText (append_clean [] noisy) × (length (append_clean [] noisy) ≤ text_size - 1)
append_clean-IsText_example = append_clean-IsText [] noisy nil (omega arith)

abbrev no_slot : Slot
no_slot = record { seq = 0; uptime_ms = 0; check = 0; text = line [] }

-- Before the first `log_ring_init` after power-on.
abbrev powered_on : State
powered_on = record {
  ring = record {
    magic = 7;
    layout = 0;
    boot_count = 0;
    active = 5;
    half = λ h. record { magic = 0; boot_count = 0; boot_id = 0; slots = λ i. no_slot };
  };
  cur = none;
  prev = none;
  latest = 9;
  last_ms = 0;
  prev_latest = 0;
  prev_last_ms = 0;
  pending = [];
  victim = 0;
}

abbrev entries : List Entry
entries = (10, b'a' ∷ []) ∷ (20, b'b' ∷ []) ∷ []

get-log_lines_example :
    get (log_lines (init powered_on 77) entries) current 2 ≡ recent (logged [] entries) 2
get-log_lines_example = get-log_lines powered_on 77 2 entries refl (omega arith)

-- A running state, whose next line was cut short.
abbrev running : State
running = record powered_on { cur = some 0 }
