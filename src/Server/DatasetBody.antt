-- ===== src/Server/DatasetBody.antt =====
-- main/otbr_rest.c: h_dataset_active, from the digits that it serves to those that it takes.
use cores3_epskc_commissione.Base.{
  ℕ, ◌+◌, ◌*◌, ◌/◌, ◌%◌, ◌≤◌, ◌<◌, ◌≡◌, ◌≢◌, refl, sym, ap, ◌∙◌, Bool, true, false, not, Option,
  none, some, List, [], ◌∷◌, ◌++◌, ◌==◌, length, length-append, All, All-append, append-nil, subst,
  Bytes, arith,
}
use cores3_epskc_commissione.Rest.Wire.{
  quote, backslash, is_space, skip_spaces, find_byte, parse_dataset_quoted, parse_dataset_from,
  parse_dataset_hex_body,
}
use cores3_epskc_commissione.Rest.Bodies.{quotes}
use cores3_epskc_commissione.Thread.Dataset.{
  Tlvs, Stack, max_length, thread_join, hex_digit, bytes_to_hex, set_dataset_hex, dataset_hex,
}
use cores3_epskc_commissione.Thread.Hex.{
  length-bytes_to_hex, dataset_hex-some, set_dataset_hex-bytes_to_hex,
}
use cores3_epskc_commissione.Server.Body.{join, arrived, NonEmpty, NoNul}
use cores3_epskc_commissione.Server.Handlers.{
  get, put, Request, reply, plain, set_dataset, dataset_plan, h_dataset_active, read_checked,
}
use cores3_epskc_commissione.Server.Jobs.{job_of, request, read_checked-join}

-- A byte of a dataset in hexadecimal digits: no white space, quote, backslash, brace or NUL.
abbrev Plain : ℕ → Type 0
Plain c = (48 ≤ c) × (c ≢ backslash) × (c < 123)

hex_digit-Plain : (n : ℕ) → n < 16 → Plain (hex_digit n)
unfolding hex_digit
hex_digit-Plain n h = ground arith

bytes_to_hex-Plain : (ds : Tlvs) → Bytes ds → All Plain (bytes_to_hex ds)
unfolding bytes_to_hex
bytes_to_hex-Plain [] h = tt
bytes_to_hex-Plain (b ∷ ds) (h, hs) = (
  hex_digit-Plain (b / 16) (omega arith),
  (hex_digit-Plain (b % 16) (omega arith), bytes_to_hex-Plain ds hs),
)

find_byte-quote : (s : List ℕ) → All Plain s → find_byte quote (s ++ (quote ∷ [])) ≡ some (s, [])
unfolding find_byte
find_byte-quote [] h = refl
find_byte-quote (c ∷ s) (h, hs) =
    let other : (c == quote) ≡ false = ground arith in simp (find_byte, other, find_byte-quote s hs)

find_byte-backslash : (s : List ℕ) → All Plain s → find_byte backslash s ≡ none
unfolding find_byte
find_byte-backslash [] h = refl
find_byte-backslash (c ∷ s) (h, hs) =
    let other : (c == backslash) ≡ false = ground arith in
    simp (find_byte, other, find_byte-backslash s hs)

is_space-Plain : (c : ℕ) → Plain c → is_space c ≡ false
unfolding is_space
is_space-Plain c h = ground arith

parse_dataset_quoted-found :
    (payload s : List ℕ)
    → find_byte quote payload ≡ some (s, [])
    → find_byte backslash s ≡ none
    → parse_dataset_quoted payload ≡ some s
unfolding parse_dataset_quoted skip_spaces
parse_dataset_quoted-found payload s e f = ground arith

parse_dataset_quoted-Plain :
    (s : List ℕ) → All Plain s → parse_dataset_quoted (s ++ (quote ∷ [])) ≡ some s
parse_dataset_quoted-Plain s h =
    parse_dataset_quoted-found (s ++ (quote ∷ [])) s (find_byte-quote s h) (find_byte-backslash s h)

parse_dataset_hex_body-quotes :
    (q : Bool) (c : ℕ) (s : List ℕ)
    → All Plain (c ∷ s)
    → parse_dataset_hex_body (quotes q ++ ((c ∷ s) ++ quotes q)) ≡ some (c ∷ s)
unfolding parse_dataset_hex_body skip_spaces parse_dataset_from
parse_dataset_hex_body-quotes true c s h = unfold is_space in parse_dataset_quoted-Plain (c ∷ s) h
parse_dataset_hex_body-quotes false c s h =
    let bare : (not (c == quote)) ≡ true = ground arith in
    simp (parse_dataset_hex_body, is_space-Plain c h.0, parse_dataset_from, bare, append-nil s)

NoNul-Plain : (s : List ℕ) → All Plain s → NoNul s
NoNul-Plain [] h = tt
NoNul-Plain (c ∷ s) (h, hs) = (zero_ne, NoNul-Plain s hs)
  where
    zero_ne : c ≢ 0
    zero_ne e = omega arith

quotes-NoNul : (q : Bool) (s : List ℕ) → NoNul s → NoNul (quotes q ++ (s ++ quotes q))
quotes-NoNul true s n = (ne, All-append (λ b. b ≢ 0) s (quote ∷ []) n (ne, tt))
  where
    ne : quote ≢ 0
    ne e = omega arith
quotes-NoNul false s n = All-append (λ b. b ≢ 0) s [] n tt

length-quotes : (q : Bool) (s : List ℕ) → length (quotes q ++ (s ++ quotes q)) ≤ length s + 2
length-quotes true s = rw (length-append s (quote ∷ [])) (omega arith)
length-quotes false s = rw (append-nil s) (omega arith)

dataset_plan-Plain :
    (q : Bool) (c : ℕ) (s : List ℕ)
    → All Plain (c ∷ s)
    → job_of (dataset_plan (quotes q ++ ((c ∷ s) ++ quotes q))) ≡ some (set_dataset (c ∷ s))
unfolding dataset_plan
dataset_plan-Plain q c s h =
    let some_bytes : (length (quotes q ++ ((c ∷ s) ++ quotes q)) == 0) ≡ false = positive q in
    let no_brace : (c == b'{') ≡ false = ground arith in
    simp (dataset_plan, some_bytes, parse_dataset_hex_body-quotes q c s h, no_brace)
  where
    positive : (q : Bool) → (length (quotes q ++ ((c ∷ s) ++ quotes q)) == 0) ≡ false
    positive true = ground arith
    positive false = ground arith

dataset_plan-digits :
    (q : Bool) (hex : List ℕ)
    → All Plain hex
    → 0 < length hex
    → job_of (dataset_plan (quotes q ++ (hex ++ quotes q))) ≡ some (set_dataset hex)
dataset_plan-digits q [] h p = absurd (omega arith)
dataset_plan-digits q (c ∷ s) h p = dataset_plan-Plain q c s h

h_dataset_active-put :
    (hex : Option (List ℕ)) (pan name : List ℕ) (r : Request)
    → r.method ≡ put
    → h_dataset_active hex pan name r ≡ read_checked 540 r dataset_plan
unfolding h_dataset_active
h_dataset_active-put hex pan name r e = simp (h_dataset_active, e)

h_dataset_active-get :
    (o : Option (List ℕ)) (hex pan name : List ℕ) (r : Request)
    → o ≡ some hex
    → r.method ≡ get
    → r.text_plain ≡ true
    → h_dataset_active o pan name r ≡ reply (plain hex)
unfolding h_dataset_active
h_dataset_active-get o hex pan name r e g t = simp (h_dataset_active, e, g, t)

-- Where the stack has a dataset of 1 to 254 bytes, `GET /node/dataset/active` answers a request for
-- plain text with its digits; and these digits, given back by a `PUT` bare or as a JSON string and in any
-- pieces, run the job that joins with exactly this dataset, whatever is active then.
pub h_dataset_active-dataset_hex :
    (st other : Stack) (ds : Tlvs) (hex pan name : List ℕ) (q : Bool) (ps : List (List ℕ))
    (answers : List (Option (List ℕ))) (served : Request) (now : Option (List ℕ))
    → Bytes ds
    → length ds ≤ max_length
    → st.active ≡ some ds
    → dataset_hex st 540 ≡ some hex
    → All NonEmpty ps
    → join ps ≡ quotes q ++ (hex ++ quotes q)
    → served.method ≡ get
    → served.text_plain ≡ true
    → (h_dataset_active (dataset_hex st 540) pan name served ≡ reply (plain hex))
      × (job_of
            (h_dataset_active now pan name (request put (length (join ps)) (arrived ps ++ answers)))
          ≡ some (set_dataset hex))
      × (set_dataset_hex other hex ≡ thread_join other ds)
h_dataset_active-dataset_hex st other ds hex pan name q ps answers served now h l a e n j g t =
    let (same, positive) = dataset_hex-some st ds 540 hex a e in
    let digits : bytes_to_hex ds ≡ hex = cc in
    let size = length-bytes_to_hex ds in
    let digits_plain = subst (All Plain) digits (bytes_to_hex-Plain ds h) in
    let length_hex : length hex ≡ length ds * 2 = sym (ap length digits) ∙ size in
    let nul = subst NoNul (sym j) (quotes-NoNul q hex (NoNul-Plain hex digits_plain)) in
    let long = length-quotes q hex in
    let short : length (join ps) < 540 = rw j (omega arith) in
    (
      h_dataset_active-get (dataset_hex st 540) hex pan name served e g t,
      ap job_of (
            h_dataset_active-put now pan name
              (request put (length (join ps)) (arrived ps ++ answers)) refl
            ∙ read_checked-join put ps answers 540 dataset_plan n nul short)
          ∙ ap (λ body. job_of (dataset_plan body)) j
          ∙ dataset_plan-digits q hex digits_plain (omega arith),
      subst (λ s. set_dataset_hex other s ≡ thread_join other ds) digits
          (set_dataset_hex-bytes_to_hex other ds h l positive),
    )
