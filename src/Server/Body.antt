-- ===== src/Server/Body.antt =====
-- main/otbr_rest.c: recv_body, a request body read in several pieces.
use cores3_epskc_commissione.Base.{
  ℕ, zero, suc, ◌-◌, ◌<◌, ◌≡◌, ◌≢◌, refl, ap, ◌∙◌, true, false, inl, inr, Bool-cases, ◌||◌, Option,
  none, some, List, [], ◌∷◌, ◌++◌, map, leb, ◌==◌, if◌then◌else◌, length, All, arith, length-append,
}
use cores3_epskc_commissione.Rest.Wire.{has_byte, terminate_body}

-- The loop, with the bytes still expected and the answers of `httpd_req_recv`: no bytes for a closed
-- connection, none for an error. The connection gives nothing after its last answer.
unfoldable pub recv_loop : List (Option (List ℕ)) → ℕ → Option (List ℕ)
recv_loop answers zero = some []
recv_loop [] (suc left) = none
recv_loop (none ∷ answers) (suc left) = none
recv_loop (some [] ∷ answers) (suc left) = none
recv_loop (some (b ∷ bs) ∷ answers) (suc left) = elim (recv_loop answers (left - length bs)) [
  | none ↦ none
  | some rest ↦ some ((b ∷ bs) ++ rest)
]

-- `recv_body`: the string left in the buffer.
unfoldable pub recv_body : ℕ → ℕ → List (Option (List ℕ)) → Option (List ℕ)
unfolding recv_loop
recv_body content_len size answers =
    if (size == 0) || leb size content_len then none else elim (recv_loop answers content_len) [
      | none ↦ none
      | some got ↦ elim (terminate_body (some (got ++ (0 ∷ []))) (length got) size) [
        | none ↦ none
        | some _ ↦ some got
      ]
    ]

-- A body in the pieces in which it arrives.
abbrev pub join : List (List ℕ) → List ℕ
join [] = []
join (p ∷ ps) = p ++ join ps

abbrev pub arrived : List (List ℕ) → List (Option (List ℕ))
arrived = map some

abbrev pub NonEmpty : List ℕ → Type 0
NonEmpty p = 0 < length p

abbrev pub NoNul : List ℕ → Type 0
NoNul = All (λ b. b ≢ 0)

recv_loop-step :
    (b : ℕ) (bs rest : List ℕ) (answers : List (Option (List ℕ))) (left : ℕ)
    → recv_loop answers (left - length bs) ≡ some rest
    → recv_loop (some (b ∷ bs) ∷ answers) (suc left) ≡ some ((b ∷ bs) ++ rest)
unfolding recv_loop
recv_loop-step b bs rest answers left e = simp (recv_loop, e)

recv_loop-join :
    (ps : List (List ℕ)) (answers : List (Option (List ℕ)))
    → All NonEmpty ps
    → recv_loop (arrived ps ++ answers) (length (join ps)) ≡ some (join ps)
unfolding recv_loop
recv_loop-join [] answers h = refl
recv_loop-join ([] ∷ ps) answers (h, hs) = absurd (omega arith)
recv_loop-join ((b ∷ bs) ∷ ps) answers (h, hs) =
    let left : length (bs ++ join ps) - length bs ≡ length (join ps) =
      rw (length-append bs (join ps)) (omega arith) in
    recv_loop-step b bs (join ps) (arrived ps ++ answers) (length (bs ++ join ps))
      (ap (recv_loop (arrived ps ++ answers)) left ∙ recv_loop-join ps answers hs)

has_byte-NoNul : (got rest : List ℕ) → NoNul got → has_byte 0 (length got) (got ++ rest) ≡ false
unfolding has_byte
has_byte-NoNul [] rest h = refl
has_byte-NoNul (b ∷ got) rest (h, hs) = simp (has_byte, has_byte-NoNul got rest hs, ==_false h)
  where
    ==_false : {a c : ℕ} → a ≢ c → (a == c) ≡ false
    ==_false n = ground arith

-- A body without a NUL byte that is shorter than the buffer, and arrives in any number of pieces of any
-- lengths, is read whole, and what follows it on the connection is not read.
pub recv_body-join :
    (ps : List (List ℕ)) (answers : List (Option (List ℕ))) (size : ℕ)
    → All NonEmpty ps
    → NoNul (join ps)
    → length (join ps) < size
    → recv_body (length (join ps)) size (arrived ps ++ answers) ≡ some (join ps)
unfolding recv_body terminate_body
recv_body-join ps answers size h n l =
    let a : ((size == 0) || leb size (length (join ps))) ≡ false = ground arith in
    let b : (leb size (length (join ps)) || has_byte 0 (length (join ps)) (join ps ++ (0 ∷ [])))
        ≡ false =
      rw (has_byte-NoNul (join ps) (0 ∷ []) n) (ground arith) in
    simp (recv_body, a, recv_loop-join ps answers h, terminate_body, b)

recv_loop-step_none :
    (b : ℕ) (bs : List ℕ) (answers : List (Option (List ℕ))) (left : ℕ)
    → recv_loop answers (left - length bs) ≡ none
    → recv_loop (some (b ∷ bs) ∷ answers) (suc left) ≡ none
unfolding recv_loop
recv_loop-step_none b bs answers left e = simp (recv_loop, e)

-- An answer that ends the reading: an error, or no bytes, for a connection that was closed.
pub data IsEnd : Option (List ℕ) → Type 0 where
  error : IsEnd none
  closed : IsEnd (some [])

recv_loop-end :
    (last : Option (List ℕ)) (answers : List (Option (List ℕ))) (left : ℕ)
    → IsEnd last
    → recv_loop (last ∷ answers) (suc left) ≡ none
unfolding recv_loop
recv_loop-end _ answers left error = refl
recv_loop-end _ answers left closed = refl

recv_loop-cut :
    (ps : List (List ℕ)) (last : Option (List ℕ)) (answers : List (Option (List ℕ))) (left : ℕ)
    → All NonEmpty ps
    → IsEnd last
    → length (join ps) < left
    → recv_loop (arrived ps ++ (last ∷ answers)) left ≡ none
recv_loop-cut ps last answers zero h e l = absurd (omega arith)
recv_loop-cut [] last answers (suc left) h e l = recv_loop-end last answers left e
recv_loop-cut ([] ∷ ps) last answers (suc left) (h, hs) e l = absurd (omega arith)
recv_loop-cut ((b ∷ bs) ∷ ps) last answers (suc left) (h, hs) e l =
    let sum = length-append bs (join ps) in
    recv_loop-step_none b bs (arrived ps ++ (last ∷ answers)) left
      (recv_loop-cut ps last answers (left - length bs) hs e (omega arith))

-- A read that fails, or a connection that closes, before `content_len` bytes have arrived leaves no
-- body.
pub recv_body-cut :
    (ps : List (List ℕ)) (last : Option (List ℕ)) (answers : List (Option (List ℕ)))
    (content_len size : ℕ)
    → All NonEmpty ps
    → IsEnd last
    → length (join ps) < content_len
    → recv_body content_len size (arrived ps ++ (last ∷ answers)) ≡ none
unfolding recv_body
recv_body-cut ps last answers content_len size h e l =
    ground (arith, recv_loop-cut ps last answers content_len h e l)

has_byte-append :
    (got rest : List ℕ)
    → has_byte 0 (length got) got ≡ true
    → has_byte 0 (length got) (got ++ rest) ≡ true
unfolding has_byte
has_byte-append [] rest h = h
has_byte-append (b ∷ got) rest h = elim (Bool-cases (b == 0)) [
  | inl e ↦ simp (has_byte, e)
  | inr e ↦ rw e (has_byte-append got rest (rw e at h))
]

pub NoNul-has_byte : (got : List ℕ) → has_byte 0 (length got) got ≡ false → NoNul got
unfolding has_byte
NoNul-has_byte [] h = tt
NoNul-has_byte (b ∷ got) h = (ne, NoNul-has_byte got (ground arith))
  where
    ne : b ≢ 0
    ne e = ground arith

pub has_byte-no_NoNul : (got : List ℕ) → has_byte 0 (length got) got ≡ true → NoNul got → ⊥
unfolding has_byte
has_byte-no_NoNul [] h n = ground arith
has_byte-no_NoNul (b ∷ got) h (n, ns) = elim (Bool-cases (b == 0)) [
  | inl e ↦ ground arith
  | inr e ↦ has_byte-no_NoNul got (rw e at h) ns
]

-- A body that arrives whole with a NUL byte in it is refused.
pub recv_body-nul :
    (ps : List (List ℕ)) (answers : List (Option (List ℕ))) (size : ℕ)
    → All NonEmpty ps
    → has_byte 0 (length (join ps)) (join ps) ≡ true
    → recv_body (length (join ps)) size (arrived ps ++ answers) ≡ none
unfolding recv_body terminate_body
recv_body-nul ps answers size h n =
    let b : (leb size (length (join ps)) || has_byte 0 (length (join ps)) (join ps ++ (0 ∷ [])))
        ≡ true =
      rw (has_byte-append (join ps) (0 ∷ []) n) (ground arith) in
    elim (Bool-cases ((size == 0) || leb size (length (join ps)))) [
      | inl a ↦ simp (recv_body, a)
      | inr a ↦ simp (recv_body, a, recv_loop-join ps answers h, terminate_body, b)
    ]
