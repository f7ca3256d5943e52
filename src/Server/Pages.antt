-- ===== src/Server/Pages.antt =====
-- main/otbr_rest.c: the rows of a page against the numbers that the client has not seen.
use cores3_epskc_commissione.Base.{
  ℕ, zero, suc, ◌+◌, ◌-◌, ◌≤◌, ◌<◌, max, ◌≡◌, refl, sym, ap, ◌∙◌, inl, inr, true, false, ◌||◌,
  Option, none, some, [], ◌∷◌, ltb, ◌==◌, take, arith, Bool-cases, Option-cases, ltb→lt, ltb→le,
}
use cores3_epskc_commissione.PowerLog.Samples.{u32}
use cores3_epskc_commissione.Server.Paging.{first_seq, page_loop, page, range, present}

module _ {ℓ} {A : Type ℓ} (row_at : ℕ → Option A) where
  page_loop-stop :
      (fuel latest seq room : ℕ)
      → ((seq == 0) || ltb latest seq || (room == 0)) ≡ true
      → page_loop fuel row_at latest seq room ≡ []
  unfolding page_loop
  page_loop-stop zero latest seq room e = refl
  page_loop-stop (suc fuel) latest seq room e = simp (page_loop, e)

  page_loop-none :
      (fuel latest seq room : ℕ)
      → ((seq == 0) || ltb latest seq || (room == 0)) ≡ false
      → row_at seq ≡ none
      → page_loop (suc fuel) row_at latest seq room
        ≡ page_loop fuel row_at latest (u32 (seq + 1)) room
  unfolding page_loop
  page_loop-none fuel latest seq room e f = simp (page_loop, e, f)

  page_loop-some :
      (fuel latest seq room : ℕ) (row : A)
      → ((seq == 0) || ltb latest seq || (suc room == 0)) ≡ false
      → row_at seq ≡ some row
      → page_loop (suc fuel) row_at latest seq (suc room)
        ≡ row ∷ page_loop fuel row_at latest (u32 (seq + 1)) room
  unfolding page_loop
  page_loop-some fuel latest seq room row e f =
      let less : suc room - 1 ≡ room = omega arith in simp (page_loop, e, f, less)

  take-present_none :
      (seq n room : ℕ)
      → row_at seq ≡ none
      → take room (present row_at (range seq (suc n)))
        ≡ take room (present row_at (range (suc seq) n))
  take-present_none seq n room f = simp f

  take-present_some :
      (seq n room : ℕ) (row : A)
      → row_at seq ≡ some row
      → take (suc room) (present row_at (range seq (suc n)))
        ≡ row ∷ take room (present row_at (range (suc seq) n))
  take-present_some seq n room row f = simp f

  take-present_nil : (k seq n : ℕ) → n ≡ 0 → take k (present row_at (range seq n)) ≡ []
  take-present_nil zero seq n e = refl
  take-present_nil (suc k) seq zero e = refl
  take-present_nil (suc k) seq (suc n) e = absurd (omega arith)

  page_loop-next :
      (fuel latest seq k n : ℕ)
      → 0 < seq
      → latest < 4294967296
      → suc n ≡ suc latest - seq
      → (seq < latest
          → page_loop fuel row_at latest (suc seq) k ≡ take k (present row_at (range (suc seq) n)))
      → page_loop fuel row_at latest (u32 (seq + 1)) k ≡ take k (present row_at (range (suc seq) n))
  page_loop-next fuel latest seq k n p l e later = elim (Bool-cases (ltb seq latest)) [
    | inl f ↦
        let step : u32 (seq + 1) ≡ suc seq = omega (arith, ltb→lt seq latest f) in
        ap (λ at. page_loop fuel row_at latest at k) step ∙ later (ltb→lt seq latest f)
    | inr f ↦
        let past : ((u32 (seq + 1) == 0) || ltb latest (u32 (seq + 1)) || (k == 0)) ≡ true =
          ground (arith, ltb→le seq latest f) in
        page_loop-stop fuel latest (u32 (seq + 1)) k past
        ∙ sym (take-present_nil k (suc seq) n (omega (arith, ltb→le seq latest f)))
  ]

  page_loop-present :
      (fuel latest seq room n : ℕ)
      → 0 < seq
      → latest < 4294967296
      → n ≡ suc latest - seq
      → n ≤ fuel
      → page_loop fuel row_at latest seq room ≡ take room (present row_at (range seq n))
  page_loop-present fuel latest seq zero n p l e h = page_loop-stop fuel latest seq 0 (ground arith)
  page_loop-present fuel latest seq (suc room) zero p l e h =
      page_loop-stop fuel latest seq (suc room) (ground arith)
  page_loop-present zero latest seq (suc room) (suc n) p l e h = absurd (omega arith)
  page_loop-present (suc fuel) latest seq (suc room) (suc n) p l e h =
      let goes : ((seq == 0) || ltb latest seq || (suc room == 0)) ≡ false = ground arith in
      let next = λ (k : ℕ). page_loop-next fuel latest seq k n p l e (λ (lt : seq < latest).
        page_loop-present fuel latest (suc seq) k n (omega arith) l (omega arith) (omega arith)) in
      elim (Option-cases (row_at seq)) [
        | inl f ↦
            page_loop-none fuel latest seq (suc room) goes f
            ∙ (next (suc room) ∙ sym (take-present_none seq n (suc room) f))
        | inr (row, f) ↦
            page_loop-some fuel latest seq room row goes f
            ∙ (ap (λ rest. row ∷ rest) (next room) ∙ sym (take-present_some seq n room row f))
      ]

first_seq-late : (after oldest latest : ℕ) → latest ≤ after → first_seq after oldest latest ≡ 0
unfolding first_seq
first_seq-late after oldest latest h = ground arith

first_seq-max :
    (after oldest latest : ℕ)
    → after < latest
    → latest < 4294967296
    → first_seq after oldest latest ≡ max (after + 1) oldest
unfolding first_seq
first_seq-max after oldest latest h l = ground arith

-- A page holds the first `limit` rows there are under the numbers after `after` that the ring still
-- has, up to the latest, in their order, also where the latest is the last of 32 bits.
pub page-present {ℓ} :
    {A : Type ℓ} (row_at : ℕ → Option A) (after limit oldest latest : ℕ)
    → latest < 4294967296
    → 0 < oldest
    → page row_at after limit oldest latest
      ≡ take limit
          (present row_at (range (max (after + 1) oldest) (suc latest - max (after + 1) oldest)))
unfolding page
page-present row_at after limit oldest latest l o = elim (Bool-cases (ltb after latest)) [
  | inl f ↦
      let from = first_seq-max after oldest latest (ltb→lt after latest f) l in
      ap (λ start. page_loop (suc latest - start) row_at latest start limit) from
      ∙ page_loop-present row_at (suc latest - max (after + 1) oldest) latest
          (max (after + 1) oldest) limit (suc latest - max (after + 1) oldest) (omega arith) l refl
          (omega arith)
  | inr f ↦
      let from = first_seq-late after oldest latest (ltb→le after latest f) in
      ap (λ start. page_loop (suc latest - start) row_at latest start limit) from
      ∙ page_loop-stop row_at (suc latest - 0) latest 0 limit refl
      ∙ sym (
          take-present_nil row_at limit (max (after + 1) oldest)
            (suc latest - max (after + 1) oldest) (omega (arith, ltb→le after latest f)))
]
