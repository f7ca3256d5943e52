-- ===== src/Thread/Entries.antt =====
-- main/thread.c: meshcop_txt_apply_locked on the encoding of the entries of a TXT record.
use cores3_epskc_commissione.Base.{
  ℕ, zero, suc, ◌+◌, ◌%◌, ◌^◌, ◌≤◌, ◌<◌, ◌≡◌, ◌≢◌, refl, sym, ap, ◌∙◌, Bool, true, false, ◌||◌,
  none, some, List, [], ◌∷◌, ◌++◌, ltb, leb, ◌==◌, if◌then◌else◌, length, take, drop, All, arith,
  length-append, append_assoc, Option-cases, Bool-cases, inl, inr,
}
use cores3_epskc_commissione.Base.Checked.{Checked, ok, ◌>>=◌, drop-append}
use cores3_epskc_commissione.Thread.Txt.{
  Item, split_eq, txt_item, with_item, txt_loop, model_item, meshcop_txt_apply,
}

-- An item that a TXT record can carry and the code takes.
pub record IsItem (i : Item) : Type 0 where
  pub keyed : 0 < length i.key
  pub key_short : length i.key < 16
  pub no_sign : All (λ b. b ≢ b'=') i.key
  pub fits : length i.key + (1 + length i.value) < 256

-- `key=value` after its length.
abbrev pub entry : Item → List ℕ
entry i = i.key ++ (b'=' ∷ i.value)

-- An entry that is passed over: without a sign, without a key, or with one of 16 bytes or more.
pub data IsSkipped : List ℕ → Type 0 where
  no_sign : (e : List ℕ) → All (λ b. b ≢ b'=') e → IsSkipped e
  no_key : (value : List ℕ) → IsSkipped (b'=' ∷ value)
  long_key :
      (key value : List ℕ)
      → All (λ b. b ≢ b'=') key
      → 16 ≤ length key
      → IsSkipped (key ++ (b'=' ∷ value))

pub data Entry : Type 0 where
  item : (i : Item) → IsItem i → Entry
  skipped : (e : List ℕ) → IsSkipped e → length e < 256 → Entry

abbrev pub bytes_of : Entry → List ℕ
bytes_of (item i h) = entry i
bytes_of (skipped e h l) = e

-- Each entry after its length.
abbrev pub encode_entries : List Entry → List ℕ
encode_entries [] = []
encode_entries (e ∷ es) = length (bytes_of e) ∷ (bytes_of e ++ encode_entries es)

abbrev pub items_of : List Entry → List Item
items_of [] = []
items_of (item i h ∷ es) = i ∷ items_of es
items_of (skipped e h l ∷ es) = items_of es

-- The items up to the first that the responder refuses, and whether it refuses none.
abbrev pub handed : (Item → Bool) → List Item → Bool × List Item
handed set_ok [] = (true, [])
handed set_ok (i ∷ is) =
    let later = handed set_ok is in if set_ok i then (later.0, i ∷ later.1) else (false, i ∷ [])

-- Nothing, or a length byte with fewer bytes after it than it says.
abbrev pub Cut : List ℕ → Type 0
Cut [] = Unit
Cut (n ∷ bytes) = (length bytes < n) × (n < 256)

split_eq-entry :
    (k v : List ℕ)
    → All (λ b. b ≢ b'=') k
    → split_eq (k ++ (b'=' ∷ v)) ≡ some (record { key = k; value = v })
unfolding split_eq
split_eq-entry [] v h = refl
split_eq-entry (b ∷ k) v (h, hs) = simp (split_eq, split_eq-entry k v hs, ==_false h)
  where
    ==_false : {a c : ℕ} → a ≢ c → (a == c) ≡ false
    ==_false n = ground arith

txt_item-entry : (i : Item) → IsItem i → txt_item (entry i) ≡ some i
unfolding txt_item
txt_item-entry i h =
    let p = h.keyed in
    let q = h.key_short in
    let c : ((length i.key == 0) || leb 16 (length i.key)) ≡ false = ground arith in
    simp (txt_item, split_eq-entry i.key i.value h.no_sign, c)

take-append_length : (xs ys : List ℕ) → take (length xs) (xs ++ ys) ≡ xs
take-append_length [] ys = refl
take-append_length (x ∷ xs) ys = ap (λ zs. x ∷ zs) (take-append_length xs ys)

split_eq-none : (e : List ℕ) → All (λ b. b ≢ b'=') e → split_eq e ≡ none
unfolding split_eq
split_eq-none [] h = refl
split_eq-none (b ∷ e) (h, hs) = simp (split_eq, split_eq-none e hs, ==_false h)
  where
    ==_false : {a c : ℕ} → a ≢ c → (a == c) ≡ false
    ==_false n = ground arith

txt_item-IsSkipped : (e : List ℕ) → IsSkipped e → txt_item e ≡ none
unfolding txt_item
txt_item-IsSkipped e (no_sign _ h) = simp (txt_item, split_eq-none e h)
txt_item-IsSkipped e (no_key value) = unfold split_eq in refl
txt_item-IsSkipped e (long_key key value h l) =
    let c : ((length key == 0) || leb 16 (length key)) ≡ true = ground arith in
    simp (txt_item, split_eq-entry key value h, c)

drop-nil : (n : ℕ) → drop {A = ℕ} n [] ≡ []
drop-nil zero = refl
drop-nil (suc n) = refl

drop-add : (a k : ℕ) (xs : List ℕ) → drop (a + k) xs ≡ drop k (drop a xs)
drop-add zero k xs = ap (λ n. drop n xs) (omega arith)
drop-add (suc a) k [] = drop-nil (suc a + k) ∙ sym (drop-nil k)
drop-add (suc a) k (x ∷ xs) = ap (λ n. drop n (x ∷ xs)) sum ∙ drop-add a k xs
  where
    sum : suc a + k ≡ suc (a + k)
    sum = omega arith

-- What the loop makes of an entry.
abbrev after : (Item → Bool) → List ℕ → Checked (Bool × List Item) → Checked (Bool × List Item)
after set_ok e later = elim (txt_item e) [
  | none ↦ later
  | some i ↦ if set_ok i then with_item i later else ok (false, i ∷ [])
]

txt_loop-step :
    (fuel : ℕ) (set_ok : Item → Bool) (txt : List ℕ) (at : ℕ) (e rest : List ℕ)
    → drop at txt ≡ length e ∷ (e ++ rest)
    → at + suc (length (e ++ rest)) ≡ length txt
    → length txt < 2 ^ 16
    → txt_loop (suc fuel) set_ok txt at
      ≡ after set_ok e (txt_loop fuel set_ok txt (at + 1 + length e))
unfolding txt_loop
txt_loop-step fuel set_ok txt at e rest d s l =
    let sum = length-append e rest in
    let next : (at + 1 + length e) % 2 ^ 16 ≡ at + 1 + length e = omega arith in
    let inside : ltb (length txt) (at + 1 + length e) ≡ false = ground arith in
    let fits : ltb (length (e ++ rest)) (length e) ≡ false = ground arith in
    elim (Option-cases (txt_item e)) [
      | inl f ↦ simp (txt_loop, d, next, inside, fits, take-append_length e rest, after, f)
      | inr (i, f) ↦ simp (txt_loop, d, next, inside, fits, take-append_length e rest, after, f)
    ]

txt_loop-Cut :
    (fuel : ℕ) (set_ok : Item → Bool) (txt : List ℕ) (at : ℕ) (t : List ℕ)
    → drop at txt ≡ t
    → at + length t ≡ length txt
    → length txt + 256 < 2 ^ 16
    → Cut t
    → txt_loop (suc fuel) set_ok txt at ≡ ok (true, [])
unfolding txt_loop
txt_loop-Cut fuel set_ok txt at [] d s l c = simp (txt_loop, d)
txt_loop-Cut fuel set_ok txt at (n ∷ t) d s l (c, m) =
    let next : (at + 1 + n) % 2 ^ 16 ≡ at + 1 + n = omega arith in
    let behind : ltb (length txt) (at + 1 + n) ≡ true = ground arith in
    simp (txt_loop, d, next, behind)

after-bytes_of :
    (set_ok : Item → Bool) (e : Entry) (es : List Entry) (later : Checked (Bool × List Item))
    → later ≡ ok (handed set_ok (items_of es))
    → after set_ok (bytes_of e) later ≡ ok (handed set_ok (items_of (e ∷ es)))
after-bytes_of set_ok (skipped e h l) es later k = simp (after, txt_item-IsSkipped e h, k)
after-bytes_of set_ok (item i h) es later k = elim (Bool-cases (set_ok i)) [
  | inl s ↦ simp (after, txt_item-entry i h, s, k)
  | inr s ↦ simp (after, txt_item-entry i h, s)
]

drop-entry :
    (at : ℕ) (txt e rest : List ℕ)
    → drop at txt ≡ length e ∷ (e ++ rest)
    → drop (at + 1 + length e) txt ≡ rest
drop-entry at txt e rest d =
    drop-add (at + 1) (length e) txt
    ∙ ap (drop (length e)) (drop-add at 1 txt ∙ ap (drop 1) d)
    ∙ drop-append e rest

txt_loop-encode_entries :
    (fuel : ℕ) (set_ok : Item → Bool) (txt : List ℕ) (at : ℕ) (es : List Entry) (t : List ℕ)
    → drop at txt ≡ encode_entries es ++ t
    → at + length (encode_entries es ++ t) ≡ length txt
    → length txt + 256 < 2 ^ 16
    → Cut t
    → length es < fuel
    → txt_loop fuel set_ok txt at ≡ ok (handed set_ok (items_of es))
txt_loop-encode_entries zero set_ok txt at es t d s l c f = absurd (omega arith)
txt_loop-encode_entries (suc fuel) set_ok txt at [] t d s l c f =
    txt_loop-Cut fuel set_ok txt at t d s l c
txt_loop-encode_entries (suc fuel) set_ok txt at (e ∷ es) t d s l c f =
    let b = bytes_of e in
    let rest = encode_entries es ++ t in
    let assoc = append_assoc b (encode_entries es) t in
    let d' = d ∙ ap (λ (bs : List ℕ). length b ∷ bs) assoc in
    let s' : at + suc (length (b ++ rest)) ≡ length txt =
      ap (λ (bs : List ℕ). at + suc (length bs)) (sym assoc) ∙ s in
    let sum = length-append b rest in
    txt_loop-step fuel set_ok txt at b rest d' s' (omega arith)
    ∙ after-bytes_of set_ok e es (txt_loop fuel set_ok txt (at + 1 + length b)) (
        txt_loop-encode_entries fuel set_ok txt (at + 1 + length b) es t
          (drop-entry at txt b rest d') (omega arith) l c (omega arith))

length-encode_entries : (es : List Entry) (t : List ℕ) → length es ≤ length (encode_entries es ++ t)
length-encode_entries [] t = omega arith
length-encode_entries (e ∷ es) t =
    let rest = length-encode_entries es t in
    rw
      (
        append_assoc (bytes_of e) (encode_entries es) t,
        length-append (bytes_of e) (encode_entries es ++ t),
      )
      (omega (arith, rest))

-- From a TXT record of OpenThread of up to 65,279 bytes, cut off or not after its last whole entry,
-- `meshcop_txt_apply_locked` on an active and published service hands the responder exactly the items
-- with a key of 1 to 15 bytes in their order, passing over every entry with no sign, no key or a longer
-- one, up to the first that the responder refuses, and the model name after them when it refuses none.
-- The loop ends, and reads no byte outside the record.
pub meshcop_txt_apply-encode_entries :
    (set_ok : Item → Bool) (model_name : List ℕ) (es : List Entry) (t : List ℕ)
    → Cut t
    → length (encode_entries es ++ t) + 256 < 2 ^ 16
    → meshcop_txt_apply true true set_ok model_name (some (encode_entries es ++ t))
      ≡ ok (
          if (handed set_ok (items_of es)).0
          then (handed set_ok (items_of es)).1 ++ (model_item model_name ∷ [])
          else (handed set_ok (items_of es)).1)
unfolding meshcop_txt_apply
meshcop_txt_apply-encode_entries set_ok model_name es t c l =
    let txt = encode_entries es ++ t in
    let many = length-encode_entries es t in
    ap
      (λ (r : Checked (Bool × List Item)). r >>= λ (p : Bool × List Item).
        ok (if p.0 then p.1 ++ (model_item model_name ∷ []) else p.1))
      (txt_loop-encode_entries (suc (length txt)) set_ok txt 0 es t refl (omega arith) l c
        (omega arith))
