-- ===== src/LogRing/Refine.antt =====
-- main/log_ring.c: the ring against the list of the lines that were committed, newest first.
use cores3_epskc_commissione.Base.{
  ℕ, zero, suc, ◌+◌, ◌-◌, ◌^◌, ◌<◌, ◌≤◌, ◌≡◌, refl, sym, ap, subst, ◌∙◌, ◌≢◌, inl, inr, true, ◌&&◌,
  Option, none, some, List, [], ◌∷◌, ltb, leb, ◌==◌, if◌then◌else◌, length, arith, Bool-cases,
  ==_iff,
}
use cores3_epskc_commissione.LogRing.Text.{append_clean}
use cores3_epskc_commissione.LogRing.Slot.{
  ring_lines, u32, Text, line, Slot, slot_check, slot_valid, State,
}
use cores3_epskc_commissione.LogRing.Ring.{
  slot_index, commit, current, is_cur, get, get_slot, log_line, init, open_half, ring_trusted,
  swapped, fresh, recover_previous,
}

-- A line as it was committed: when, and its text.
abbrev pub Entry : Type 0
Entry = ℕ × List ℕ

abbrev pub Log : Type 0
Log = List Entry

abbrev pub nth : Log → ℕ → Entry
nth [] k = (0, [])
nth (e ∷ log) zero = e
nth (e ∷ log) (suc k) = nth log k

-- The slot that holds the entry with a number.
abbrev pub slot_of : ℕ → ℕ → Entry → Slot
slot_of boot_id seq e = record {
  seq = seq;
  uptime_ms = e.0;
  check = slot_check seq e.0 (line e.1) boot_id;
  text = line e.1;
}

abbrev pub slots : State → ℕ → ℕ → Slot
slots s h = (s.ring.half h).slots

abbrev pub boot_id_of : State → ℕ → ℕ
boot_id_of s h = (s.ring.half h).boot_id

-- The half `h` that is being written holds the log.
pub record Holds (s : State) (h : ℕ) (log : Log) : Type 0 where
  pub is_current : s.cur ≡ some h
  pub counted : s.latest ≡ length log
  pub small : length log < 2 ^ 32
  pub kept :
      (k : ℕ)
      → k < length log
      → k < ring_lines
      → slots s h (slot_index (length log - k))
        ≡ slot_of (boot_id_of s h) (length log - k) (nth log k)

module _ (s : State) (h : ℕ) (before seg : List ℕ) (now : ℕ) where
  commit-boot_id : boot_id_of (commit s h before seg now) h ≡ boot_id_of s h
  unfolding commit
  commit-boot_id = ground arith

  commit-slots_self :
      slots (commit s h before seg now) h (slot_index (u32 (s.latest + 1)))
      ≡ slot_of (boot_id_of s h) (u32 (s.latest + 1)) (now, append_clean before seg)
  unfolding commit
  commit-slots_self = ground arith

  commit-slots_ne :
      (i : ℕ)
      → i ≢ slot_index (u32 (s.latest + 1))
      → slots (commit s h before seg now) h i ≡ slots s h i
  unfolding commit
  commit-slots_ne i n = ground arith

apart :
    (n k : ℕ)
    → n + 1 < 2 ^ 32
    → k < n
    → suc k < ring_lines
    → slot_index (n - k) ≢ slot_index (u32 (n + 1))
apart n k h l m = omega arith

-- Committing a line puts it in front of the log.
pub Holds-commit :
    (s : State) (h : ℕ) (before seg : List ℕ) (now : ℕ) (log : Log)
    → Holds s h log
    → length log + 1 < 2 ^ 32
    → Holds (commit s h before seg now) h ((now, append_clean before seg) ∷ log)
Holds-commit s h before seg now log r small = record {
  is_current = unfold commit in r.is_current;
  counted = unfold commit in omega (arith, r.counted);
  small = omega arith;
  kept = kept;
}
  where
    next : u32 (s.latest + 1) ≡ suc (length log)
    next = omega (arith, r.counted)

    kept :
        (k : ℕ)
        → k < suc (length log)
        → k < ring_lines
        → slots (commit s h before seg now) h (slot_index (suc (length log) - k))
          ≡ slot_of
              (boot_id_of (commit s h before seg now) h)
              (suc (length log) - k)
              (nth ((now, append_clean before seg) ∷ log) k)
    kept zero l m =
        let e : suc (length log) - 0 ≡ u32 (s.latest + 1) = omega (arith, next) in
        rw (e, commit-slots_self s h before seg now, commit-boot_id s h before seg now)
    kept (suc k) l m =
        let e : suc (length log) - suc k ≡ length log - k = omega arith in
        rw
          (
            e,
            commit-boot_id s h before seg now,
            commit-slots_ne s h before seg now (slot_index (length log - k)) (λ f.
                apart (length log) k small (omega arith) (omega arith)
                  (f ∙ ap slot_index (next ∙ omega arith))),
          )
          (r.kept k (omega arith) (omega arith))

-- What a reader sees of a log: the entry with a number among the last 1024.
abbrev pub recent : Log → ℕ → Option (ℕ × Text)
recent log seq =
    if seq == 0
    then none
    else if leb seq (length log) && ltb (length log - seq) ring_lines
    then some ((nth log (length log - seq)).0, line (nth log (length log - seq)).1)
    else none

slot_valid-slot_of :
    (boot_id seq : ℕ) (e : Entry) → 0 < seq → slot_valid (slot_of boot_id seq e) boot_id ≡ true
unfolding slot_valid
slot_valid-slot_of boot_id seq e h = ground arith

is_cur_self : (s : State) (h : ℕ) → s.cur ≡ some h → is_cur s h ≡ true
is_cur_self s h e = ground arith

get_slot-Holds :
    (s : State) (h seq : ℕ) (log : Log)
    → Holds s h log
    → 0 < seq
    → get_slot s h seq ≡ (
        if leb seq (length log) && ltb (length log - seq) ring_lines
        then some ((nth log (length log - seq)).0, line (nth log (length log - seq)).1)
        else none)
unfolding get_slot
get_slot-Holds s h seq log r p =
    elim (Bool-cases (leb seq (length log) && ltb (length log - seq) ring_lines)) [
      | inr e ↦ rw (is_cur_self s h r.is_current, r.counted, e)
      | inl e ↦
          let within : (seq ≤ length log) × (length log - seq < ring_lines) = ground arith in
          let back : length log - (length log - seq) ≡ seq = omega arith in
          let found : slots s h (slot_index seq)
              ≡ slot_of (boot_id_of s h) seq (nth log (length log - seq)) =
            rw back at (r.kept (length log - seq) (omega arith) within.1) in
          rw (
            is_cur_self s h r.is_current,
            r.counted,
            e,
            found,
            (==_iff seq seq).1 refl,
            slot_valid-slot_of (boot_id_of s h) seq (nth log (length log - seq)) p,
          )
    ]

get-Holds : (s : State) (h seq : ℕ) (log : Log) → Holds s h log → get s current seq ≡ recent log seq
unfolding get
get-Holds s h zero log r = rw (r.is_current, get)
get-Holds s h (suc seq) log r =
    simp (get, r.is_current, get_slot-Holds s h (suc seq) log r (omega arith))

-- The lines that `log_ring_line` is given, in order, with the times; the log that they make.
abbrev pub log_lines : State → List Entry → State
log_lines s [] = s
log_lines s ((now, text) ∷ es) = log_lines (log_line s (some text) now) es

abbrev pub logged : Log → List Entry → Log
logged log [] = log
logged log ((now, text) ∷ es) = logged ((u32 now, append_clean [] text) ∷ log) es

log_line-commit :
    (s : State) (h : ℕ) (text : List ℕ) (now : ℕ)
    → s.cur ≡ some h
    → log_line s (some text) now ≡ commit s h [] text (u32 now)
unfolding log_line
log_line-commit s h text now e = simp (log_line, e)

pub log_lines-Holds :
    (s : State) (h : ℕ) (log : Log) (es : List Entry)
    → Holds s h log
    → length log + length es < 2 ^ 32
    → Holds (log_lines s es) h (logged log es)
log_lines-Holds s h log [] r l = r
log_lines-Holds s h log ((now, text) ∷ es) r l =
    log_lines-Holds (log_line s (some text) now) h ((u32 now, append_clean [] text) ∷ log) es
      (subst (λ t. Holds t h ((u32 now, append_clean [] text) ∷ log))
        (sym (log_line-commit s h text now r.is_current))
        (Holds-commit s h [] text (u32 now) log r (omega arith)))
      (omega arith)

open_half-Holds : (s : State) (boot_id : ℕ) → Holds (open_half s boot_id) s.ring.active []
unfolding open_half
open_half-Holds s boot_id = record {
  is_current = refl;
  counted = refl;
  small = omega arith;
  kept = λ k l m. ground arith;
}

pub init-Holds :
    (s : State) (boot_id : ℕ)
    → s.cur ≡ none
    → Holds (init s boot_id) (init s boot_id).ring.active []
unfolding init open_half recover_previous
init-Holds s boot_id e = elim (Bool-cases (ring_trusted s.ring)) [
  | inl t ↦ simp (init, e, t) (open_half-Holds (swapped (recover_previous s s.ring.active)) boot_id)
  | inr t ↦ simp (init, e, t) (open_half-Holds (fresh s) boot_id)
]

-- After the first `log_ring_init` of a boot, at any contents of the memory, and fewer than 2^32
-- complete lines, `log_ring_get` for the current boot returns exactly the last 1024 lines under
-- their numbers: the n-th line, cleaned, for n among those, and nothing for any other number.
pub get-log_lines :
    (s : State) (boot_id seq : ℕ) (es : List Entry)
    → s.cur ≡ none
    → length es < 2 ^ 32
    → get (log_lines (init s boot_id) es) current seq ≡ recent (logged [] es) seq
get-log_lines s boot_id seq es e l =
    get-Holds (log_lines (init s boot_id) es) (init s boot_id).ring.active seq (logged [] es) (
      log_lines-Holds (init s boot_id) (init s boot_id).ring.active [] es (init-Holds s boot_id e)
        (omega arith))
