-- ===== src/Thread/Rollback.antt =====
-- main/thread.c: what a join leaves stored.
use cores3_epskc_commissione.Base.{
  ◌≤◌, ◌<◌, ◌≡◌, refl, ◌↔◌, ◌⊎◌, inl, inr, Bool, true, false, not, ◌&&◌, ◌||◌, ◌==◌, Option, none,
  some, List, [], ◌∷◌, ltb, if◌then◌else◌, length, arith, Bool-cases,
}
use cores3_epskc_commissione.Thread.Dataset.{
  Tlvs, Start, running, failing, is_running, Asked, diag_cancel, reset_topology, thread_enabled,
  ip6_enabled, erase_info, auto_start, esp_ok, Stack, is_complete, previous_of, resume_previous,
  undo_start, apply_dataset, max_length, thread_join,
}

-- Whether a start stores its dataset.
abbrev pub stores : Start → Bool
stores running = true
stores (failing kept) = kept

-- What the calls leave stored: a start that stores its dataset leaves that, and any other one what was
-- there; an erasure that succeeds leaves nothing, and one that fails what was there.
abbrev pub stored : Option Tlvs → List Asked → Option Tlvs
stored s [] = s
stored s (diag_cancel ∷ calls) = stored s calls
stored s (reset_topology ∷ calls) = stored s calls
stored s (thread_enabled on ∷ calls) = stored s calls
stored s (ip6_enabled on ∷ calls) = stored s calls
stored s (erase_info true ∷ calls) = stored none calls
stored s (erase_info false ∷ calls) = stored s calls
stored s (auto_start ds start ∷ calls) = stored (if stores start then some ds else s) calls

-- The dataset that may be joined: of 1 to 254 bytes, and complete as OpenThread parses it.
abbrev pub IsCandidate : Stack → Tlvs → Type 0
IsCandidate st tlvs =
    (0 < length tlvs) × (length tlvs ≤ max_length) × (is_complete (st.parse tlvs) ≡ true)

-- Whether the way back from a failed candidate works: the previous dataset starts again or is stored by
-- the start that fails, or, where there was none, the candidate is erased.
abbrev pub goes_back : Stack → Option Tlvs → Bool
goes_back st none = st.erased_again
goes_back st (some previous) = stores st.restarted

-- What a candidate that failed leaves: what was stored before, or, where the way back fails too, the
-- candidate if its start had stored it and nothing otherwise.
abbrev pub left_by : Stack → Tlvs → Option Tlvs → Option Tlvs
left_by st tlvs previous =
    if goes_back st previous then previous else if stores st.started then some tlvs else none

Start-cases : (s : Start) → (s ≡ running) ⊎ ((kept : Bool) × (s ≡ failing kept))
Start-cases running = inl refl
Start-cases (failing kept) = inr (kept, refl)

apply_dataset-stored :
    (st : Stack) (tlvs : Tlvs) (p : Option Tlvs)
    → previous_of st.active ≡ p
    → stored p (apply_dataset st tlvs).1 ≡ (
        if not st.erased then p else if is_running st.started then some tlvs else left_by st tlvs p)
unfolding apply_dataset resume_previous undo_start
apply_dataset-stored st tlvs none e = elim (Bool-cases (st.erased)) [
  | inr x ↦ simp (e, x)
  | inl x ↦ elim (Start-cases (st.started)) [
    | inl y ↦ simp (e, x, y)
    | inr (kept, y) ↦ elim (Bool-cases (st.erased_again)) [
      | inl z ↦ simp (e, x, y, z)
      | inr z ↦ simp (e, x, y, z)
    ]
  ]
]
apply_dataset-stored st tlvs (some p) e = elim (Bool-cases (st.erased)) [
  | inr x ↦ elim (Start-cases (st.restarted)) [
    | inl w ↦ simp (e, x, w)
    | inr (true, w) ↦ simp (e, x, w)
    | inr (false, w) ↦ simp (e, x, w)
  ]
  | inl x ↦ elim (Start-cases (st.started)) [
    | inl y ↦ simp (e, x, y)
    | inr (kept, y) ↦ simp (e, x, y)
  ]
]

apply_dataset-ok_iff :
    (st : Stack) (tlvs : Tlvs)
    → ((apply_dataset st tlvs).0 ≡ esp_ok) ↔ (st.erased && is_running st.started ≡ true)
unfolding apply_dataset
apply_dataset-ok_iff st tlvs = ground arith

-- What `thread_join` leaves stored, for all that OpenThread can answer: the candidate where it is valid,
-- the old information is erased and the candidate starts; what was stored before where nothing is erased;
-- and where the candidate fails to start, what was stored before if the way back works, else the
-- candidate or nothing, by whether the failed start had stored it.
pub thread_join-stored :
    (st : Stack) (tlvs : Tlvs)
    → stored (previous_of st.active) (thread_join st tlvs).1 ≡ (
        if not st.ready
          || ((length tlvs == 0) || ltb max_length (length tlvs))
          || not (is_complete (st.parse tlvs))
          || not st.erased
        then previous_of st.active
        else if is_running st.started
        then some tlvs
        else left_by st tlvs (previous_of st.active))
unfolding thread_join
thread_join-stored st tlvs =
    ground (arith, apply_dataset-stored st tlvs (previous_of st.active) refl)

-- `thread_join` answers ESP_OK exactly if the stack runs, the dataset is complete and of 1 to 254
-- bytes, and OpenThread erased the old information and started the candidate.
pub thread_join-ok_iff :
    (st : Stack) (tlvs : Tlvs)
    → ((thread_join st tlvs).0 ≡ esp_ok) ↔ (
        (st.ready ≡ true)
        × IsCandidate st tlvs
        × (st.erased ≡ true)
        × (is_running st.started ≡ true))
unfolding thread_join
thread_join-ok_iff st tlvs = ground (arith, apply_dataset-ok_iff st tlvs)
