-- ===== src/Server/Paging.antt =====
-- main/otbr_rest.c: the pages of /power/history and /logs.
use cores3_epskc_commissione.Base.{
  ℕ, zero, suc, ◌+◌, ◌-◌, Bool, true, false, not, ◌&&◌, ◌||◌, Option, none, some, List, [], ◌∷◌,
  ltb, leb, ◌==◌, if◌then◌else◌,
}
use cores3_epskc_commissione.PowerLog.Samples.{parse_uint, u32}

-- The first number of a page.
unfoldable pub first_seq : ℕ → ℕ → ℕ → ℕ
first_seq after oldest latest =
    let start = if leb latest after then 0 else u32 (after + 1) in
    if not (start == 0) && ltb start oldest then oldest else start

-- The loop from a number on, `room` rows before the limit. The fuel counts the numbers left.
unfoldable pub page_loop {ℓ} : {A : Type ℓ} → ℕ → (ℕ → Option A) → ℕ → ℕ → ℕ → List A
page_loop zero row_at latest seq room = []
page_loop (suc fuel) row_at latest seq room = elim ((seq == 0) || ltb latest seq || (room == 0)) [
  | true ↦ []
  | false ↦ elim (row_at seq) [
    | none ↦ page_loop fuel row_at latest (u32 (seq + 1)) room
    | some row ↦ row ∷ page_loop fuel row_at latest (u32 (seq + 1)) (room - 1)
  ]
]

-- The rows of a page, of `power_log_get` or `log_ring_get`.
unfoldable pub page {ℓ} : {A : Type ℓ} → (ℕ → Option A) → ℕ → ℕ → ℕ → ℕ → List A
page row_at after limit oldest latest =
    let start = first_seq after oldest latest in
    page_loop (suc latest - start) row_at latest start limit

-- A number of the query: what `httpd_query_key_value` gives, absent or not; an absent one keeps the
-- default.
pub data Field : Type 0 where
  absent broken : Field
  value : (text : List ℕ) → Field

unfoldable pub number_of : ℕ → ℕ → Field → Option ℕ
number_of default maximum absent = some default
number_of default maximum broken = none
number_of default maximum (value text) = parse_uint (some text) maximum

-- `query_choice`
unfoldable pub query_choice :
    List ℕ → List ℕ → (List ℕ → List ℕ → Bool) → Bool → Field → Option Bool
query_choice first second same is_second absent = some is_second
query_choice first second same is_second broken = none
query_choice first second same is_second (value text) =
    if same text second then some true else if same text first then some false else none

-- The answer to a query: refused, unavailable, or the rows.
pub data Answer {ℓ} (A : Type ℓ) : Type ℓ where
  invalid_after invalid_limit no_log : Answer A
  rows : List A → Answer A

-- `h_power_history`, with the ring's oldest and latest number, if it has been allocated.
unfoldable pub h_power_history {ℓ} :
    {A : Type ℓ} → (ℕ → Option A) → Option (ℕ × ℕ) → Field → Field → Answer A
h_power_history row_at bounds after_field limit_field = elim (number_of 0 4294967295 after_field) [
  | none ↦ invalid_after
  | some after ↦ elim (number_of 120 120 limit_field) [
    | none ↦ invalid_limit
    | some limit ↦ if limit == 0 then invalid_limit else elim bounds [
      | none ↦ no_log
      | some (oldest, latest) ↦ rows (page row_at after limit oldest latest)
    ]
  ]
]

-- The numbers from `seq` on, `n` of them.
abbrev pub range : ℕ → ℕ → List ℕ
range seq zero = []
range seq (suc n) = seq ∷ range (suc seq) n

-- The rows that are there under a list of numbers.
abbrev pub present {ℓ} : {A : Type ℓ} → (ℕ → Option A) → List ℕ → List A
present row_at [] = []
present row_at (seq ∷ seqs) = elim (row_at seq) [
  | none ↦ present row_at seqs
  | some row ↦ row ∷ present row_at seqs
]
