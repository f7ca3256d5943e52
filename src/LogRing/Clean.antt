-- ===== src/LogRing/Clean.antt =====
-- main/log_ring.c: what `append_clean` writes.
use cores3_epskc_commissione.Base.{
  ℕ, zero, suc, ◌+◌, ◌-◌, ◌<◌, ◌≤◌, ◌≡◌, refl, sym, ap, inl, inr, ◌||◌, List, [], ◌∷◌, ◌++◌, ltb,
  ◌==◌, length, take, drop, length-append, arith, Bool-cases, ltb→le, ltb→lt,
}
use cores3_epskc_commissione.Base.Checked.{length-drop, length-take_le}
use cores3_epskc_commissione.LogRing.Text.{text_size, utf8_len, skip_csi, skip_escape, clean}

length-skip_csi : (s : List ℕ) → length (skip_csi s) ≤ length s
unfolding skip_csi
length-skip_csi [] = omega arith
length-skip_csi (c ∷ s) = ground (arith, length-skip_csi s)

pub length-skip_escape : (s : List ℕ) → length (skip_escape s) ≤ length s
unfolding skip_escape
length-skip_escape [] = omega arith
length-skip_escape (c ∷ s) = ground (arith, length-skip_csi s)

pub utf8_len-le : (s : List ℕ) → utf8_len s ≤ length s
unfolding utf8_len
utf8_len-le [] = omega arith
utf8_len-le (c ∷ s) = ground arith

-- One round of the loop by its kind of byte; `left` and `out` are what it leaves and writes.
pub data Round (used : ℕ) (from : List ℕ) : List ℕ → List ℕ → Type 0 where
  dropped : (left : List ℕ) → length left < length from → Round used from [] left
  blank : (c : ℕ) (left : List ℕ) → from ≡ c ∷ left → Round used from (32 ∷ []) left
  plain :
      (c : ℕ) (left : List ℕ)
      → from ≡ c ∷ left
      → 0x20 ≤ c
      → c < 0x7f
      → Round used from (c ∷ []) left
  replaced : (c : ℕ) (left : List ℕ) → from ≡ c ∷ left → Round used from (b'?' ∷ []) left
  whole :
      0 < utf8_len from
      → used + utf8_len from ≤ text_size - 1
      → Round used from (take (utf8_len from) from) (drop (utf8_len from) from)

-- The loop stops, or makes a round and goes on.
pub data Loop (fuel used : ℕ) (from : List ℕ) : List ℕ → Type 0 where
  stops : Loop fuel used from []
  goes_on :
      (out left : List ℕ) (used' : ℕ)
      → Round used from out left
      → used < text_size - 1
      → used' ≡ used + length out
      → Loop fuel used from (out ++ clean fuel used' left)

pub clean-Loop :
    (fuel used c : ℕ) (s : List ℕ) → Loop fuel used (c ∷ s) (clean (suc fuel) used (c ∷ s))
unfolding clean
clean-Loop fuel used c s = elim (Bool-cases (ltb used (text_size - 1))) [
  | inr h ↦ rw (h, clean) stops
  | inl h ↦
      let room : used < text_size - 1 = ltb→lt _ _ h in
      elim (Bool-cases (c == 0x1b)) [
        | inl e ↦
            rw (h, e, clean)
              (goes_on [] (skip_escape s) used (dropped _ (omega (arith, length-skip_escape s)))
                room (omega arith))
        | inr e ↦ elim (Bool-cases (c == 13)) [
          | inl f ↦
              rw (h, e, f, clean) (goes_on [] s used (dropped _ (omega arith)) room (omega arith))
          | inr f ↦ elim (Bool-cases (ltb c 0x20 || (c == 0x7f))) [
            | inl g ↦
                rw (h, e, f, g, clean)
                  (goes_on (32 ∷ []) s (used + 1) (blank c s refl) room (omega arith))
            | inr g ↦ elim (Bool-cases (ltb c 0x80)) [
              | inl k ↦
                  rw (h, e, f, g, k, clean)
                    (goes_on (c ∷ []) s (used + 1) (plain c s refl (ground arith) (ground arith))
                      room (omega arith))
              | inr k ↦ elim (Bool-cases (utf8_len (c ∷ s) == 0)) [
                | inl z ↦
                    rw (h, e, f, g, k, z, clean)
                      (goes_on (b'?' ∷ []) s (used + 1) (replaced c s refl) room (omega arith))
                | inr z ↦ elim (Bool-cases (ltb (text_size - 1) (used + utf8_len (c ∷ s)))) [
                  | inl w ↦ rw (h, e, f, g, k, z, w, clean) stops
                  | inr w ↦
                      rw (h, e, f, g, k, z, w, clean)
                        (goes_on (take (utf8_len (c ∷ s)) (c ∷ s)) (drop (utf8_len (c ∷ s)) (c ∷ s))
                          (used + utf8_len (c ∷ s)) (whole (ground arith) (ltb→le _ _ w)) room
                          (ap (λ n. used + n)
                            (sym (length-take_le _ (c ∷ s) (utf8_len-le (c ∷ s))))))
                ]
              ]
            ]
          ]
        ]
      ]
]

pub Round-shorter :
    {used : ℕ} {from out left : List ℕ} → Round used from out left → length left < length from
Round-shorter (dropped left h) = h
Round-shorter (blank c left e) = rw e (omega arith)
Round-shorter (plain c left e h k) = rw e (omega arith)
Round-shorter (replaced c left e) = rw e (omega arith)
Round-shorter {from} (whole h k) =
    omega (arith, length-drop (utf8_len from) from (utf8_len-le from))

Round-fits :
    {used : ℕ} {from out left : List ℕ}
    → Round used from out left
    → used < text_size - 1
    → used + length out ≤ text_size - 1
Round-fits (dropped left h) r = omega arith
Round-fits (blank c left e) r = omega arith
Round-fits (plain c left e h k) r = omega arith
Round-fits (replaced c left e) r = omega arith
Round-fits {from} (whole h k) r =
    omega (arith, length-take_le (utf8_len from) from (utf8_len-le from))

pub clean-fits :
    (fuel used : ℕ) (s : List ℕ)
    → used ≤ text_size - 1
    → used + length (clean fuel used s) ≤ text_size - 1
clean-fits fuel used [] h = unfold clean in omega arith
clean-fits zero used (c ∷ s) h = unfold clean in omega arith
clean-fits (suc fuel) used (c ∷ s) h =
    bound (clean-Loop fuel used c s) (λ used' left k. clean-fits fuel used' left k)
  where
    bound :
        {r : List ℕ}
        → Loop fuel used (c ∷ s) r
        → ((used' : ℕ) (left : List ℕ)
            → used' ≤ text_size - 1
            → used' + length (clean fuel used' left) ≤ text_size - 1)
        → used + length r ≤ text_size - 1
    bound stops ih = omega arith
    bound (goes_on out left used' r room e) ih = omega (
      arith,
      length-append out (clean fuel used' left),
      Round-fits r room,
      ih used' left (omega (arith, Round-fits r room)),
    )
