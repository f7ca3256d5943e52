-- ===== src/PowerLog/Refine.antt =====
-- main/power_log.c: the samples against the list of the rows that were noted, newest first.
use cores3_epskc_commissione.Base.{
  ℕ, zero, suc, ◌+◌, ◌-◌, ◌^◌, ◌<◌, ◌≤◌, ◌≡◌, ◌≢◌, refl, min, ◌&&◌, Bool, Option, none, some, List,
  [], ◌∷◌, ltb, leb, ◌==◌, if◌then◌else◌, length, arith, Bool-cases, inl, inr, ==_iff,
}
use cores3_epskc_commissione.Power.Gauge.{Status}
use cores3_epskc_commissione.PowerLog.Samples.{
  capacity, u32, Sample, Samples, row_of, sample_index, note, get,
}

-- A reading as it was noted.
pub record Noted : Type 0 where
  pub status : Status
  pub valid : Bool
  pub screen : ℕ
  pub now : ℕ

abbrev pub row : Noted → ℕ → Sample
row e seq = record (row_of e.status e.valid e.screen e.now) { seq = seq }

-- The row of the entry `k` places behind the newest one of a log, under its number.
abbrev pub nth : List Noted → ℕ → Option Sample
nth [] k = none
nth (e ∷ log) zero = some (row e (suc (length log)))
nth (e ∷ log) (suc k) = nth log k

pub record Holds (s : Samples) (log : List Noted) : Type 0 where
  pub latest : s.latest ≡ length log
  pub count : s.count ≡ min (length log) capacity
  pub small : length log < 2 ^ 32
  pub kept :
      (k : ℕ)
      → k < length log
      → k < capacity
      → some (s.at (sample_index (length log - k))) ≡ nth log k

-- The samples after the readings of a list, oldest first, and the log that they make.
abbrev pub notes : Option Samples → List Noted → Option Samples
notes s [] = s
notes s (e ∷ es) = notes (note s (some e.status) e.valid e.screen e.now) es

abbrev pub noted : List Noted → List Noted → List Noted
noted log [] = log
noted log (e ∷ es) = noted (e ∷ log) es

abbrev pub noted_samples : Samples → Noted → Samples
noted_samples s e =
    let seq = u32 (s.latest + 1) in
    record {
      at = λ i. if i == sample_index seq then row e seq else s.at i;
      boot_id = s.boot_id;
      latest = seq;
      count = if ltb s.count capacity then s.count + 1 else s.count;
    }

note-samples :
    (s : Samples) (e : Noted)
    → note (some s) (some e.status) e.valid e.screen e.now ≡ some (noted_samples s e)
unfolding note
note-samples s e = refl

apart :
    (n k : ℕ)
    → n + 1 < 2 ^ 32
    → k < n
    → suc k < capacity
    → sample_index (n - k) ≢ sample_index (suc n)
apart n k h l m = omega arith

Holds-note :
    (s : Samples) (e : Noted) (log : List Noted)
    → Holds s log
    → length log + 1 < 2 ^ 32
    → Holds (noted_samples s e) (e ∷ log)
Holds-note s e log r small = record {
  latest = omega (arith, r.latest);
  count = ground arith;
  small = omega arith;
  kept = kept;
}
  where
    seq : u32 (s.latest + 1) ≡ suc (length log)
    seq = omega (arith, r.latest)

    kept :
        (k : ℕ)
        → k < suc (length log)
        → k < capacity
        → some ((noted_samples s e).at (sample_index (suc (length log) - k))) ≡ nth (e ∷ log) k
    kept zero l m =
        let z : suc (length log) - 0 ≡ suc (length log) = omega arith in
        rw (
          z,
          seq,
          (==_iff (sample_index (suc (length log))) (sample_index (suc (length log)))).1 refl,
        )
    kept (suc k) l m =
        let z : suc (length log) - suc k ≡ length log - k = omega arith in
        let old = r.kept k (omega arith) (omega arith) in
        let far = apart (length log) k small (omega arith) (omega arith) in
        rw (z, seq) (ground arith)

-- What a reader sees of a log: the row with a number among the last 8640.
abbrev pub recent : List Noted → ℕ → Option Sample
recent log seq =
    if seq == 0
    then none
    else if leb seq (length log) && ltb (length log - seq) capacity
    then nth log (length log - seq)
    else none

get-Holds :
    (s : Samples) (seq : ℕ) (log : List Noted) → Holds s log → get (some s) seq ≡ recent log seq
unfolding get
get-Holds s seq log r =
    elim (Bool-cases (leb seq (length log) && ltb (length log - seq) capacity)) [
      | inr e ↦ ground arith
      | inl e ↦
          let within : (seq ≤ length log) × (length log - seq < capacity) = ground arith in
          elim (Bool-cases (seq == 0)) [
            | inl z ↦ ground arith
            | inr z ↦
                let back : length log - (length log - seq) ≡ seq = omega arith in
                let positive : 0 < seq = ground arith in
                let found : some (s.at (sample_index seq)) ≡ nth log (length log - seq) =
                  rw back at (r.kept (length log - seq) (omega arith) within.1) in
                ground arith
          ]
    ]

notes-Holds :
    (s : Samples) (log es : List Noted) (seq : ℕ)
    → Holds s log
    → length log + length es < 2 ^ 32
    → get (notes (some s) es) seq ≡ recent (noted log es) seq
notes-Holds s log [] seq r l = get-Holds s seq log r
notes-Holds s log (e ∷ es) seq r l = rw (note-samples s e) (
    notes-Holds (noted_samples s e) (e ∷ log) es seq (Holds-note s e log r (omega arith))
      (omega arith))

-- From freshly allocated samples on, after fewer than 2^32 readings, `power_log_get` returns exactly
-- the last 8640 rows under their numbers, and nothing for any other number.
pub get-notes :
    (s : Samples) (es : List Noted) (seq : ℕ)
    → s.latest ≡ 0
    → s.count ≡ 0
    → length es < 2 ^ 32
    → get (notes (some s) es) seq ≡ recent (noted [] es) seq
get-notes s es seq z c l =
    notes-Holds s [] es seq
      (record {
        latest = z;
        count = omega arith;
        small = omega arith;
        kept = λ k l m. ground arith;
      })
      (omega arith)
