-- ===== src/Thread/Hex.antt =====
-- main/thread.c: a dataset as hexadecimal digits, out and in.
use cores3_epskc_commissione.Base.{
  ℕ, ◌+◌, ◌*◌, ◌/◌, ◌%◌, ◌≤◌, ◌<◌, ◌≡◌, refl, sym, ap, subst, ◌∙◌, inl, inr, false, not, ◌||◌, none,
  some, List, [], ◌∷◌, ltb, ◌==◌, length, Bytes, arith, Bool-cases,
}
use cores3_epskc_commissione.Thread.Dataset.{
  Tlvs, Stack, max_length, thread_join, hex_nibble, hex_loop, set_dataset_hex, hex_digit,
  bytes_to_hex, dataset_hex,
}

hex_nibble-hex_digit : (n : ℕ) → n < 16 → hex_nibble (hex_digit n) ≡ some n
unfolding hex_nibble hex_digit
hex_nibble-hex_digit n h = ground arith

pub length-bytes_to_hex : (bs : List ℕ) → length (bytes_to_hex bs) ≡ length bs * 2
unfolding bytes_to_hex
length-bytes_to_hex [] = refl
length-bytes_to_hex (b ∷ bs) = omega (arith, length-bytes_to_hex bs)

hex_loop-pair :
    (a b hi lo : ℕ) (s tlvs : List ℕ)
    → hex_nibble a ≡ some hi
    → hex_nibble b ≡ some lo
    → hex_loop s ≡ some tlvs
    → hex_loop (a ∷ b ∷ s) ≡ some ((hi * 16 + lo) ∷ tlvs)
unfolding hex_loop
hex_loop-pair a b hi lo s tlvs e f g = simp (hex_loop, e, f, g)

hex_loop-bytes_to_hex : (bs : List ℕ) → Bytes bs → hex_loop (bytes_to_hex bs) ≡ some bs
unfolding bytes_to_hex hex_loop
hex_loop-bytes_to_hex [] h = refl
hex_loop-bytes_to_hex (b ∷ bs) (h, hs) =
    let whole : b / 16 * 16 + b % 16 ≡ b = omega arith in
    hex_loop-pair (hex_digit (b / 16)) (hex_digit (b % 16)) (b / 16) (b % 16) (bytes_to_hex bs) bs
      (hex_nibble-hex_digit (b / 16) (omega arith)) (hex_nibble-hex_digit (b % 16) (omega arith))
      (hex_loop-bytes_to_hex bs hs)
    ∙ ap (λ v. some (v ∷ bs)) whole

pub dataset_hex-some :
    (st : Stack) (ds : Tlvs) (size : ℕ) (hex : List ℕ)
    → st.active ≡ some ds
    → dataset_hex st size ≡ some hex
    → (some (bytes_to_hex ds) ≡ some hex) × (0 < length ds)
unfolding dataset_hex
dataset_hex-some st ds size hex a e = elim (Bool-cases (st.ready)) [
  | inr r ↦ ground arith
  | inl r ↦ elim (Bool-cases ((length ds == 0) || ltb size (length ds * 2 + 1))) [
    | inl z ↦ absurd (nothing (sym (simp (dataset_hex, r, a, z)) ∙ e))
    | inr z ↦ (sym (simp (dataset_hex, r, a, z)) ∙ e, ground arith)
  ]
]
  where
    nothing : {x : List ℕ} → none ≡ some x → ⊥
    nothing f = ground arith

pub set_dataset_hex-bytes_to_hex :
    (st : Stack) (ds : Tlvs)
    → Bytes ds
    → length ds ≤ max_length
    → 0 < length ds
    → set_dataset_hex st (bytes_to_hex ds) ≡ thread_join st ds
unfolding set_dataset_hex
set_dataset_hex-bytes_to_hex st ds h l p =
    let size : ((length (bytes_to_hex ds) == 0)
          || not (length (bytes_to_hex ds) % 2 == 0)
          || ltb max_length (length (bytes_to_hex ds) / 2))
        ≡ false =
      rw (length-bytes_to_hex ds) (ground arith) in
    simp (set_dataset_hex, size, hex_loop-bytes_to_hex ds h)

-- A dataset of 1 to 254 bytes that `thread_dataset_hex` writes, `thread_set_dataset_hex` reads back:
-- it joins with exactly these bytes.
pub set_dataset_hex-dataset_hex :
    (st other : Stack) (ds : Tlvs) (size : ℕ) (hex : List ℕ)
    → Bytes ds
    → length ds ≤ max_length
    → st.active ≡ some ds
    → dataset_hex st size ≡ some hex
    → set_dataset_hex other hex ≡ thread_join other ds
set_dataset_hex-dataset_hex st other ds size hex h l a e =
    let (same, positive) = dataset_hex-some st ds size hex a e in
    subst (λ s. set_dataset_hex other s ≡ thread_join other ds) (cc)
      (set_dataset_hex-bytes_to_hex other ds h l positive)
