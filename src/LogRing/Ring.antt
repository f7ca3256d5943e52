-- ===== src/LogRing/Ring.antt =====
-- main/log_ring.c: committing, assembling, recovering and reading lines. Every function that takes
-- `s_lock` runs as one step.
use cores3_epskc_commissione.Base.{
  ℕ, zero, suc, ◌+◌, ◌-◌, ◌*◌, ◌%◌, ◌^◌, Bool, false, not, ◌&&◌, ◌||◌, Option, none, some, List, [],
  ◌∷◌, ◌++◌, ltb, leb, ◌==◌, if◌then◌else◌, length, get_or, set, bit_xor,
}
use cores3_epskc_commissione.LogRing.Text.{append_clean}
use cores3_epskc_commissione.LogRing.Slot.{
  ring_lines, u32, Text, line, Slot, slot_check, slot_valid, Half, Ring, Pending, State, update,
}

-- `(seq - 1) % LOG_RING_LINES` on `uint32_t`.
abbrev pub slot_index : ℕ → ℕ
slot_index seq = u32 (seq + 2 ^ 32 - 1) % ring_lines

abbrev pub store_slot : State → ℕ → ℕ → Slot → State
store_slot s h i slot = record s {
  ring = record (s.ring) {
    half =
        update s.ring.half h
          (record (s.ring.half h) { slots = update (s.ring.half h).slots i slot });
  };
}

-- `begin_locked`: the next sequence number, and its slot marked as being rewritten.
unfoldable pub begin : State → ℕ → State × ℕ
begin s h =
    let seq = u32 (s.latest + 1) in
    let old = (s.ring.half h).slots (slot_index seq) in
    (
      store_slot (record s { latest = seq }) h (slot_index seq)
          (record old { seq = 0; text = line [] }),
      seq,
    )

-- `finish_locked`, with the text that was written into the slot.
unfoldable pub finish : State → ℕ → ℕ → List ℕ → ℕ → State
finish s h seq text now =
    record (store_slot s h (slot_index seq) (record {
      seq = seq;
      uptime_ms = now;
      check = slot_check seq now (line text) (s.ring.half h).boot_id;
      text = line text;
    })) { last_ms = now }

-- `commit_locked` with the pending text; what it does to the pending slot is its callers' `release`.
unfoldable pub commit : State → ℕ → List ℕ → List ℕ → ℕ → State
unfolding begin finish
commit s h before seg now =
    let (s', seq) = begin s h in finish s' h seq (append_clean before seg) now

abbrev pub no_pending : Pending
no_pending = record { task = 0; text = [] }

-- `p->task = NULL; p->len = 0`
unfoldable pub release : State → ℕ → State
release s i = record s { pending = set s.pending i no_pending }

unfoldable pub find_pending : ℕ → ℕ → List Pending → Option ℕ
find_pending task i [] = none
find_pending task i (p ∷ ps) = if p.task == task then some i else find_pending task (i + 1) ps

abbrev pub pending_slots : ℕ
pending_slots = 4

-- `claim_pending_locked`: a free slot, or the victim's, whose text becomes a line of its own.
unfoldable pub claim_pending : State → ℕ → ℕ → ℕ → State × ℕ
unfolding find_pending commit
claim_pending s h task now = elim (find_pending 0 0 s.pending) [
  | some i ↦ (record s { pending = set s.pending i (record { task = task; text = [] }) }, i)
  | none ↦
      let i = s.victim % pending_slots in
      let s' = commit s h (get_or s.pending i no_pending).text [] now in
      (
        record s' {
          victim = u32 (s.victim + 1);
          pending = set s'.pending i (record { task = task; text = [] });
        },
        i,
      )
]

-- The newline of `ingest`'s loop, with the pending slot of the task if there is one.
unfoldable pub end_line : State → ℕ → Option ℕ → List ℕ → ℕ → State
unfolding commit release
end_line s h none seg now = if length seg == 0 then s else commit s h [] seg now
end_line s h (some i) seg now =
    let text = (get_or s.pending i no_pending).text in
    if (length seg == 0) && (length text == 0)
    then record s { pending = set s.pending i (record { task = 0; text = text }) }
    else release (commit s h text seg now) i

-- The end of `ingest`'s text behind its last newline.
unfoldable pub end_text : State → ℕ → Option ℕ → ℕ → List ℕ → ℕ → State
unfolding claim_pending
end_text s h p task seg now =
    if length seg == 0
    then s
    else let (s', i) = elim p as (λ _. State × ℕ) [
      | some i ↦ (s, i)
      | none ↦ claim_pending s h task now
    ] in
      let text = (get_or s'.pending i no_pending).text in
      record s' {
        pending = set s'.pending i (record { task = task; text = append_clean text seg });
      }

-- The loop: `seg` is the text from `start` up to the byte at hand.
unfoldable pub ingest_loop : State → ℕ → Option ℕ → ℕ → List ℕ → List ℕ → ℕ → State
ingest_loop s h p task seg [] now = end_text s h p task seg now
ingest_loop s h p task seg (c ∷ text) now =
    let joined : List ℕ = seg ++ (c ∷ []) in
    let newline = ingest_loop (end_line s h p seg now) h none task [] text now in
    let more = ingest_loop s h p task joined text now in if c == 10 then newline else more

-- `ingest` by a task; `now` is `esp_timer_get_time() / 1000`.
unfoldable pub ingest : State → ℕ → List ℕ → ℕ → State
unfolding ingest_loop end_line end_text find_pending
ingest s task text now = elim (s.cur) [
  | none ↦ s
  | some h ↦
      if length text == 0
      then s
      else ingest_loop s h (find_pending task 0 s.pending) task [] text (u32 now)
]

-- `log_ring_line` on a text, NULL being `none`.
unfoldable pub log_line : State → Option (List ℕ) → ℕ → State
log_line s none now = s
log_line s (some text) now = elim (s.cur) [ none ↦ s | some h ↦ commit s h [] text (u32 now) ]

-- The loop of `recover_previous` over the slots `i ..`, `n` of them.
unfoldable pub recover_loop : Half → ℕ → ℕ → ℕ × ℕ → ℕ × ℕ
recover_loop h zero i best = best
recover_loop h (suc n) i (latest, last_ms) = recover_loop h n (i + 1) (
    if ltb latest (h.slots i).seq && slot_valid (h.slots i) h.boot_id
    then ((h.slots i).seq, (h.slots i).uptime_ms)
    else (latest, last_ms))

unfoldable pub recover_previous : State → ℕ → State
unfolding recover_loop
recover_previous s i =
    let (latest, last_ms) = recover_loop (s.ring.half i) ring_lines 0 (0, 0) in
    record s { prev = some i; prev_latest = latest; prev_last_ms = last_ms }

abbrev pub ring_magic : ℕ
ring_magic = 0x52474f4c

abbrev pub half_magic : ℕ
half_magic = 0x48474f4c

-- `sizeof(ring_t)`
abbrev pub ring_size : ℕ
ring_size = 64 + 2 * (64 + 1024 * 192)

unfoldable pub ring_trusted : Ring → Bool
ring_trusted r =
    (r.magic == ring_magic)
    && (r.layout == ring_size)
    && ltb r.active 2
    && ((r.half r.active).magic == half_magic)
    && ((r.half r.active).boot_count == r.boot_count)

-- The half of this boot gets its count and a fresh random ID.
unfoldable pub open_half : State → ℕ → State
open_half s boot_id =
    let a = s.ring.active in
    record s {
      ring = record (s.ring) {
        half = update s.ring.half a (record (s.ring.half a) {
          magic = half_magic;
          boot_count = s.ring.boot_count;
          boot_id = boot_id;
        });
      };
      latest = 0;
      cur = some a;
    }

-- The other half becomes this boot's.
abbrev pub swapped : State → State
swapped s = record s {
  ring = record (s.ring) {
    boot_count = u32 (s.ring.boot_count + 1);
    active = bit_xor s.ring.active 1;
  };
}

-- A ring that cannot be trusted starts over.
abbrev pub fresh : State → State
fresh s = record s {
  ring = record (s.ring) { magic = ring_magic; layout = ring_size; boot_count = 1; active = 0 };
}

-- `log_ring_init`; the random boot ID is an argument.
unfoldable pub init : State → ℕ → State
init s boot_id = elim (s.cur) [
  | some h ↦ s
  | none ↦
      if ring_trusted s.ring
      then open_half (swapped (recover_previous s s.ring.active)) boot_id
      else open_half (fresh s) boot_id
]

pub data Boot : Type 0 where
  current previous : Boot

unfoldable pub half_for : State → Boot → Option ℕ
half_for s current = s.cur
half_for s previous = s.prev

pub record Info : Type 0 where
  pub boot_id : ℕ
  pub boot_count : ℕ
  pub latest_seq : ℕ
  pub oldest_seq : ℕ
  pub last_uptime_ms : ℕ

abbrev pub is_cur : State → ℕ → Bool
is_cur s h = elim (s.cur) [ none ↦ false | some c ↦ h == c ]

unfoldable pub log_info : State → Boot → Option Info
unfolding half_for
log_info s boot = elim (half_for s boot) [
  | none ↦ none
  | some h ↦
      let latest = if is_cur s h then s.latest else s.prev_latest in
      some (record {
        boot_id = (s.ring.half h).boot_id;
        boot_count = (s.ring.half h).boot_count;
        latest_seq = latest;
        oldest_seq =
            if latest == 0 then 0 else if ltb ring_lines latest then latest - ring_lines + 1 else 1;
        last_uptime_ms = if is_cur s h then s.last_ms else s.prev_last_ms;
      })
]

-- `log_ring_get`: the uptime and the text of the line.
unfoldable pub get_slot : State → ℕ → ℕ → Option (ℕ × Text)
get_slot s h seq =
    let latest = if is_cur s h then s.latest else s.prev_latest in
    let copy = (s.ring.half h).slots (slot_index seq) in
    if leb seq latest && ltb (latest - seq) ring_lines
    then (if not (copy.seq == seq) || not (slot_valid copy (s.ring.half h).boot_id)
        then none
        else some (copy.uptime_ms, copy.text))
    else none

unfoldable pub get : State → Boot → ℕ → Option (ℕ × Text)
unfolding get_slot half_for
get s boot seq = elim (half_for s boot) [
  | none ↦ none
  | some h ↦ if seq == 0 then none else get_slot s h seq
]
