-- ===== src/Server/Logs.antt =====
-- main/otbr_rest.c: the body that h_logs sends against its texts.
use cores3_epskc_commissione.Base.{
  ℕ, ◌+◌, ◌≡◌, refl, sym, ap, ◌∙◌, inl, inr, Bool, true, false, not, ◌&&◌, ◌||◌, if◌then◌else◌,
  some, List, [], ◌∷◌, ◌++◌, append_assoc, append-nil, subst, ltb, ◌==◌, length, All, All-append,
  arith, Bool-cases,
}
use cores3_epskc_commissione.Server.Batch.{
  batch_size, Scratch, put_text, logs_send, and_then, send_row, send_rows, flush, closing, no_chunk,
  log_body, flat, flat_snoc, nil-length, stream, logs_send-stream,
}

-- A chunk as it may be sent: an empty one would end the response.
abbrev pub IsChunk : List ℕ → Type 0
IsChunk c = (length c == 0) ≡ false

put_text-IsChunk :
    (taken : List ℕ → Bool) (text : List ℕ) (sent : List (List ℕ))
    → All IsChunk sent
    → All IsChunk (put_text taken text sent).1.sent
unfolding put_text
put_text-IsChunk taken text sent h = elim (Bool-cases (ltb batch_size (length text))) [
  | inr f ↦ rw f h
  | inl f ↦ elim (Bool-cases (taken text)) [
    | inl g ↦ rw (f, g) (All-append IsChunk sent (text ∷ []) h (ground arith, tt))
    | inr g ↦ rw (f, g) h
  ]
]

logs_send-IsChunk :
    (taken : List ℕ → Bool) (text : List ℕ) (s : Scratch)
    → All IsChunk s.sent
    → All IsChunk (logs_send taken text s).1.sent
unfolding logs_send
logs_send-IsChunk taken text s h =
    elim (Bool-cases (ltb batch_size (length s.batch + length text))) [
      | inr f ↦ rw f h
      | inl f ↦ elim (Bool-cases (length s.batch == 0)) [
        | inl g ↦ rw (f, g) (put_text-IsChunk taken text s.sent h)
        | inr g ↦ elim (Bool-cases (taken s.batch)) [
          | inl k ↦
              rw (f, g, k)
                (put_text-IsChunk taken text (s.sent ++ (s.batch ∷ []))
                  (All-append IsChunk s.sent (s.batch ∷ []) h (g, tt)))
          | inr k ↦ rw (f, g, k) h
        ]
      ]
    ]

-- Whether the JSON of every line was written.
abbrev pub all_written : List (List ℕ) → Bool
all_written [] = true
all_written (row ∷ rows) = not (length row == 0) && all_written rows

-- The lines of the body: in text each with its newline, in JSON a comma between two.
abbrev pub lines : List (List ℕ) → List ℕ
lines [] = []
lines (row ∷ rows) = row ++ (10 ∷ lines rows)

abbrev pub after_comma : List (List ℕ) → List ℕ
after_comma [] = []
after_comma (row ∷ rows) = b',' ∷ (row ++ after_comma rows)

abbrev pub separated : List (List ℕ) → List ℕ
separated [] = []
separated (row ∷ rows) = row ++ after_comma rows

abbrev pub body_of : Bool → List ℕ → List (List ℕ) → List ℕ
body_of true head rows = head ++ lines rows
body_of false head rows = head ++ (separated rows ++ closing)

-- A send that went well and put this text behind what was there, in chunks that are not empty.
record Sends (s : Scratch) (r : Bool × Scratch) (text : List ℕ) : Type 0 where
  sent_ok : r.0 ≡ true
  sent_text : stream r.1 ≡ stream s ++ text
  sent_chunks : All IsChunk s.sent → All IsChunk r.1.sent

Sends-nothing : (s : Scratch) → Sends s (true, s) []
Sends-nothing s = record {
  sent_ok = refl;
  sent_text = sym (append-nil (stream s));
  sent_chunks = λ h. h;
}

and_then-Sends :
    (s : Scratch) (r : Bool × Scratch) (f : Scratch → Bool × Scratch) (x y : List ℕ)
    → Sends s r x
    → Sends r.1 (f r.1) y
    → Sends s (and_then r f) (x ++ y)
and_then-Sends s r f x y a b = rw (a.sent_ok) (record {
  sent_ok = b.sent_ok;
  sent_text = b.sent_text ∙ ap (λ t. t ++ y) (a.sent_text) ∙ append_assoc (stream s) x y;
  sent_chunks = λ h. b.sent_chunks (a.sent_chunks h);
})

module _ (taken : List ℕ → Bool) (takes : (c : List ℕ) → taken c ≡ true) where
  put_text-ok : (text : List ℕ) (sent : List (List ℕ)) → (put_text taken text sent).0 ≡ true
  unfolding put_text
  put_text-ok text sent = ground (arith, takes text)

  logs_send-ok : (text : List ℕ) (s : Scratch) → (logs_send taken text s).0 ≡ true
  unfolding logs_send
  logs_send-ok text s =
      ground
        (arith, takes s.batch, put_text-ok text s.sent, put_text-ok text (s.sent ++ (s.batch ∷ [])))

  logs_send-Sends : (text : List ℕ) (s : Scratch) → Sends s (logs_send taken text s) text
  logs_send-Sends text s = record {
    sent_ok = logs_send-ok text s;
    sent_text = logs_send-stream taken text s (logs_send-ok text s);
    sent_chunks = logs_send-IsChunk taken text s;
  }

  lines-Sends :
      (later : Bool) (rows : List (List ℕ)) (s : Scratch)
      → Sends s (send_rows taken true later rows s) (lines rows)
  unfolding send_rows send_row
  lines-Sends later [] s = Sends-nothing s
  lines-Sends later (row ∷ rows) s =
      let r = logs_send taken (row ++ (10 ∷ [])) s in
      subst (λ t. Sends s (and_then r (send_rows taken true true rows)) t)
        (append_assoc row (10 ∷ []) (lines rows))
        (and_then-Sends s r (send_rows taken true true rows) (row ++ (10 ∷ [])) (lines rows)
          (logs_send-Sends (row ++ (10 ∷ [])) s) (lines-Sends true rows r.1))

  json_row-Sends :
      (row : List ℕ) (s : Scratch)
      → (length row == 0) ≡ false
      → Sends s (send_row taken false true row s) (b',' ∷ row)
  unfolding send_row
  json_row-Sends row s e = rw e (
      and_then-Sends s (logs_send taken (b',' ∷ []) s) (logs_send taken row) (b',' ∷ []) row
        (logs_send-Sends (b',' ∷ []) s) (logs_send-Sends row (logs_send taken (b',' ∷ []) s).1))

  first_row-Sends :
      (row : List ℕ) (s : Scratch)
      → (length row == 0) ≡ false
      → Sends s (send_row taken false false row s) row
  unfolding send_row
  first_row-Sends row s e = rw e (logs_send-Sends row s)

  after_comma-Sends :
      (rows : List (List ℕ)) (s : Scratch)
      → all_written rows ≡ true
      → Sends s (send_rows taken false true rows s) (after_comma rows)
  unfolding send_rows
  after_comma-Sends [] s w = Sends-nothing s
  after_comma-Sends (row ∷ rows) s w =
      and_then-Sends s (send_row taken false true row s) (send_rows taken false true rows)
        (b',' ∷ row) (after_comma rows) (json_row-Sends row s (ground arith))
        (after_comma-Sends rows (send_row taken false true row s).1 (ground arith))

  separated-Sends :
      (rows : List (List ℕ)) (s : Scratch)
      → all_written rows ≡ true
      → Sends s (send_rows taken false false rows s) (separated rows)
  unfolding send_rows
  separated-Sends [] s w = Sends-nothing s
  separated-Sends (row ∷ rows) s w =
      and_then-Sends s (send_row taken false false row s) (send_rows taken false true rows) row
        (after_comma rows) (first_row-Sends row s (ground arith))
        (after_comma-Sends rows (send_row taken false false row s).1 (ground arith))

  -- What is sent before the rest of the batch.
  abbrev unflushed : Bool → List ℕ → List (List ℕ) → Bool × Scratch
  unflushed text head rows =
      and_then (and_then (logs_send taken head no_chunk) (send_rows taken text false rows))
        (λ s. if text then (true, s) else logs_send taken closing s)

  unflushed-Sends :
      (text : Bool) (head : List ℕ) (rows : List (List ℕ))
      → text || all_written rows ≡ true
      → Sends no_chunk (unflushed text head rows) (body_of text head rows)
  unflushed-Sends true head rows w =
      let r = logs_send taken head no_chunk in
      let q = and_then r (send_rows taken true false rows) in
      subst (λ t. Sends no_chunk (unflushed true head rows) t) (append-nil (head ++ lines rows))
        (and_then-Sends no_chunk q (λ s. (true, s)) (head ++ lines rows) []
          (and_then-Sends no_chunk r (send_rows taken true false rows) head (lines rows)
            (logs_send-Sends head no_chunk) (lines-Sends false rows r.1))
          (Sends-nothing q.1))
  unflushed-Sends false head rows w =
      let r = logs_send taken head no_chunk in
      let q = and_then r (send_rows taken false false rows) in
      subst (λ t. Sends no_chunk (unflushed false head rows) t)
        (append_assoc head (separated rows) closing)
        (and_then-Sends no_chunk q (logs_send taken closing) (head ++ separated rows) closing
          (and_then-Sends no_chunk r (send_rows taken false false rows) head (separated rows)
            (logs_send-Sends head no_chunk) (separated-Sends rows r.1 w))
          (logs_send-Sends closing q.1))

  flush-ok : (s : Scratch) → ((flush taken s).0 ≡ true) × (flat (flush taken s).1.sent ≡ stream s)
  unfolding flush
  flush-ok s = elim (Bool-cases (length s.batch == 0)) [
    | inl g ↦ rw g (
      refl,
      sym (append-nil (flat s.sent)) ∙ ap (λ r. flat s.sent ++ r) (sym (nil-length s.batch g)),
    )
    | inr g ↦ rw (g, takes s.batch) (refl, flat_snoc s.sent s.batch)
  ]

  flush-IsChunk : (s : Scratch) → All IsChunk s.sent → All IsChunk (flush taken s).1.sent
  unfolding flush
  flush-IsChunk s h = elim (Bool-cases (length s.batch == 0)) [
    | inl g ↦ rw g h
    | inr g ↦ rw (g, takes s.batch) (All-append IsChunk s.sent (s.batch ∷ []) h (g, tt))
  ]

  -- On a connection that takes every chunk, the body of `GET /logs`, of a head that fits its buffer and
  -- lines that in JSON could all be written, goes out whole: its chunks put together are the head, then
  -- in text the lines, each with a newline, and in JSON the rows with a comma between two, and the end;
  -- and no chunk is empty, so that none ends the response early.
  pub log_body-flat :
      (text : Bool) (head : List ℕ) (rows : List (List ℕ))
      → text || all_written rows ≡ true
      → ((log_body taken text (some head) rows).0 ≡ true)
        × (flat (log_body taken text (some head) rows).1.sent ≡ body_of text head rows)
        × All IsChunk (log_body taken text (some head) rows).1.sent
  unfolding log_body
  log_body-flat text head rows w =
      let a = unflushed-Sends text head rows w in
      let s = (unflushed text head rows).1 in
      rw (a.sent_ok)
        ((flush-ok s).0, (flush-ok s).1 ∙ a.sent_text, flush-IsChunk s (a.sent_chunks tt))
