-- ===== src/Server/Batch.antt =====
-- main/otbr_rest.c: logs_send, small writes gathered into chunks.
use cores3_epskc_commissione.Base.{
  ℕ, ◌+◌, ◌≤◌, ◌≡◌, refl, sym, ap, ◌∙◌, inl, inr, Bool, true, false, not, Option, none, some, List,
  [], ◌∷◌, ◌++◌, append_assoc, append-nil, ltb, ◌==◌, if◌then◌else◌, length, length-append, arith,
  Bool-cases,
}

abbrev pub batch_size : ℕ
batch_size = 1536

-- `logs_scratch_t.batch`, with the chunks that have gone out.
pub record Scratch : Type 0 where
  pub batch : List ℕ
  pub sent : List (List ℕ)

-- The text once the batch is empty: on its own when it is larger than the batch.
unfoldable pub put_text : (List ℕ → Bool) → List ℕ → List (List ℕ) → Bool × Scratch
put_text taken text sent =
    if ltb batch_size (length text)
    then if taken text
      then (true, record { batch = []; sent = sent ++ (text ∷ []) })
      else (false, record { batch = []; sent = sent })
    else (true, record { batch = text; sent = sent })

-- `logs_send` on a connection that takes a chunk or does not; whether it returned ESP_OK.
unfoldable pub logs_send : (List ℕ → Bool) → List ℕ → Scratch → Bool × Scratch
logs_send taken text s =
    if not (ltb batch_size (length s.batch + length text))
    then (true, record { batch = s.batch ++ text; sent = s.sent })
    else if length s.batch == 0
    then put_text taken text s.sent
    else if taken s.batch
    then put_text taken text (s.sent ++ (s.batch ∷ []))
    else (false, s)

-- What follows only where `err == ESP_OK`.
abbrev pub and_then : Bool × Scratch → (Scratch → Bool × Scratch) → Bool × Scratch
and_then r f = if r.0 then f r.1 else (false, r.1)

-- One round of the loop of `h_logs`: in text the line and a newline; in JSON the row that
-- `log_ring_json` wrote, none if it is empty, behind a comma if it is a later one.
unfoldable pub send_row : (List ℕ → Bool) → Bool → Bool → List ℕ → Scratch → Bool × Scratch
send_row taken true later row s = logs_send taken (row ++ (10 ∷ [])) s
send_row taken false later row s =
    if length row == 0
    then (false, s)
    else and_then (if later then logs_send taken (b',' ∷ []) s else (true, s)) (logs_send taken row)

-- The loop, over the lines that the ring gives.
unfoldable pub send_rows : (List ℕ → Bool) → Bool → Bool → List (List ℕ) → Scratch → Bool × Scratch
unfolding send_row
send_rows taken text later [] s = (true, s)
send_rows taken text later (row ∷ rows) s =
    and_then (send_row taken text later row s) (send_rows taken text true rows)

unfoldable pub flush : (List ℕ → Bool) → Scratch → Bool × Scratch
flush taken s =
    if length s.batch == 0
    then (true, s)
    else if taken s.batch
    then (true, record { batch = []; sent = s.sent ++ (s.batch ∷ []) })
    else (false, s)

abbrev pub closing : List ℕ
closing = b']' ∷ b'}' ∷ []

abbrev pub no_chunk : Scratch
no_chunk = record { batch = []; sent = [] }

-- The body that `h_logs` sends: the head, unless it did not fit its buffer, the lines, the end in JSON,
-- and the rest of the batch.
unfoldable pub log_body : (List ℕ → Bool) → Bool → Option (List ℕ) → List (List ℕ) → Bool × Scratch
unfolding send_rows
log_body taken text none rows = (false, no_chunk)
log_body taken text (some head) rows =
    and_then
      (and_then (and_then (logs_send taken head no_chunk) (send_rows taken text false rows))
        (λ s. if text then (true, s) else logs_send taken closing s))
      (flush taken)

-- All chunks after one another.
abbrev pub flat : List (List ℕ) → List ℕ
flat [] = []
flat (t ∷ ts) = t ++ flat ts

pub flat-append : (xs ys : List (List ℕ)) → flat (xs ++ ys) ≡ flat xs ++ flat ys
flat-append [] ys = refl
flat-append (x ∷ xs) ys =
    ap (λ r. x ++ r) (flat-append xs ys) ∙ sym (append_assoc x (flat xs) (flat ys))

pub flat_snoc : (xs : List (List ℕ)) (y : List ℕ) → flat (xs ++ (y ∷ [])) ≡ flat xs ++ y
flat_snoc xs y = flat-append xs (y ∷ []) ∙ ap (λ r. flat xs ++ r) (append-nil y)

-- What has gone out, and what waits in the batch.
abbrev pub stream : Scratch → List ℕ
stream s = flat s.sent ++ s.batch

-- The batch is within its buffer.
abbrev pub Fits : Scratch → Type 0
Fits s = length s.batch ≤ batch_size

pub nil-length : (xs : List ℕ) → (length xs == 0) ≡ true → xs ≡ []
nil-length [] e = refl
nil-length (x ∷ xs) e = ground arith

put_text-Fits :
    (taken : List ℕ → Bool) (text : List ℕ) (sent : List (List ℕ))
    → Fits (put_text taken text sent).1
unfolding put_text
put_text-Fits taken text sent = ground arith

pub logs_send-Fits :
    (taken : List ℕ → Bool) (text : List ℕ) (s : Scratch) → Fits s → Fits (logs_send taken text s).1
unfolding logs_send
logs_send-Fits taken text s h =
    let sum = length-append s.batch text in
    let a = put_text-Fits taken text s.sent in
    let b = put_text-Fits taken text (s.sent ++ (s.batch ∷ [])) in ground (arith, sum, a, b)

put_text-stream :
    (taken : List ℕ → Bool) (text : List ℕ) (sent : List (List ℕ))
    → (put_text taken text sent).0 ≡ true
    → stream (put_text taken text sent).1 ≡ flat sent ++ text
unfolding put_text
put_text-stream taken text sent e =
    let a = flat_snoc sent text in
    let b = append-nil (flat (sent ++ (text ∷ []))) in ground (arith, a, b)

pub logs_send-stream :
    (taken : List ℕ → Bool) (text : List ℕ) (s : Scratch)
    → (logs_send taken text s).0 ≡ true
    → stream (logs_send taken text s).1 ≡ stream s ++ text
unfolding logs_send
logs_send-stream taken text s e =
    elim (Bool-cases (ltb batch_size (length s.batch + length text))) [
      | inr f ↦ rw f (sym (append_assoc (flat s.sent) s.batch text))
      | inl f ↦ elim (Bool-cases (length s.batch == 0)) [
        | inl g ↦
            rw (f, g)
              (put_text-stream taken text s.sent (rw (f, g) at e)
                ∙ ap (λ r. r ++ text)
                    (sym (append-nil (flat s.sent))
                      ∙ ap (λ r. flat s.sent ++ r) (sym (nil-length s.batch g))))
        | inr g ↦ elim (Bool-cases (taken s.batch)) [
          | inl k ↦
              rw (f, g, k)
                (put_text-stream taken text (s.sent ++ (s.batch ∷ [])) (rw (f, g, k) at e)
                  ∙ ap (λ r. r ++ text) (flat_snoc s.sent s.batch))
          | inr k ↦ absurd (false_true (rw (f, g, k) at e))
        ]
      ]
    ]
  where
    false_true : false ≡ true → ⊥
    false_true k = ground arith
