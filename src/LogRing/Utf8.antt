-- ===== src/LogRing/Utf8.antt =====
-- main/log_ring.c: the text that `append_clean` leaves, as UTF-8.
use cores3_epskc_commissione.Base.{
  ℕ, zero, suc, ◌+◌, ◌-◌, ◌<◌, ◌≤◌, ◌≡◌, refl, sym, ap, ◌≢◌, ◌⊎◌, inl, inr, List, [], ◌∷◌, ◌++◌,
  append_assoc, length, All, take, drop, length-append, arith,
}
use cores3_epskc_commissione.Base.Checked.{length-drop}
use cores3_epskc_commissione.LogRing.Text.{text_size, utf8_len, skip_escape, clean, append_clean}
use cores3_epskc_commissione.LogRing.Clean.{
  Round, dropped, blank, plain, replaced, whole, Loop, stops, goes_on, clean-Loop, clean-fits,
  utf8_len-le, length-skip_escape,
}

abbrev pub Within : ℕ → ℕ → ℕ → Type 0
Within lo hi c = (lo ≤ c) × (c ≤ hi)

-- One character: printable ASCII, or a row of the Unicode standard's table of well-formed byte
-- sequences (table 3-7).
abbrev pub IsChar : List ℕ → Type 0
IsChar (a ∷ []) = Within 0x20 0x7e a
IsChar (a ∷ b ∷ []) = Within 0xc2 0xdf a × Within 0x80 0xbf b
IsChar (a ∷ b ∷ c ∷ []) =
    (((a ≡ 0xe0) × Within 0xa0 0xbf b)
      ⊎ (((a ≡ 0xed) × Within 0x80 0x9f b)
          ⊎ ((Within 0xe1 0xef a × (a ≢ 0xed)) × Within 0x80 0xbf b)))
    × Within 0x80 0xbf c
IsChar (a ∷ b ∷ c ∷ d ∷ []) =
    (((a ≡ 0xf0) × Within 0x90 0xbf b)
      ⊎ (((a ≡ 0xf4) × Within 0x80 0x8f b) ⊎ (Within 0xf1 0xf3 a × Within 0x80 0xbf b)))
    × Within 0x80 0xbf c
    × Within 0x80 0xbf d
IsChar _ = ⊥

pub data IsText : List ℕ → Type 0 where
  nil : IsText []
  char : (c rest : List ℕ) → IsChar c → IsText rest → IsText (c ++ rest)

two : (a b : ℕ) (s : List ℕ) → utf8_len (a ∷ b ∷ s) ≡ 2 → IsChar (a ∷ b ∷ [])
unfolding utf8_len
two a b s e = ground arith

three : (a b c : ℕ) (s : List ℕ) → utf8_len (a ∷ b ∷ c ∷ s) ≡ 3 → IsChar (a ∷ b ∷ c ∷ [])
unfolding utf8_len
three a b c s e = ground arith

four : (a b c d : ℕ) (s : List ℕ) → utf8_len (a ∷ b ∷ c ∷ d ∷ s) ≡ 4 → IsChar (a ∷ b ∷ c ∷ d ∷ [])
unfolding utf8_len
four a b c d s e = ground arith

lengths :
    (s : List ℕ) → (utf8_len s ≡ 0) ⊎ ((utf8_len s ≡ 2) ⊎ ((utf8_len s ≡ 3) ⊎ (utf8_len s ≡ 4)))
unfolding utf8_len
lengths [] = inl refl
lengths (c ∷ s) = ground arith

short : (s : List ℕ) (n : ℕ) → utf8_len s ≡ n → n ≤ length s
short s n e = omega (arith, utf8_len-le s)

take-IsChar : (s : List ℕ) → 0 < utf8_len s → IsChar (take (utf8_len s) s)
take-IsChar s h = elim (lengths s) [
  | inl e ↦ absurd (omega arith)
  | inr (inl e) ↦ rw e (at_two s e (short s 2 e))
  | inr (inr (inl e)) ↦ rw e (at_three s e (short s 3 e))
  | inr (inr (inr e)) ↦ rw e (at_four s e (short s 4 e))
]
  where
    at_two : (s : List ℕ) → utf8_len s ≡ 2 → 2 ≤ length s → IsChar (take 2 s)
    at_two [] e l = absurd (omega arith)
    at_two (a ∷ []) e l = absurd (omega arith)
    at_two (a ∷ b ∷ s) e l = two a b s e

    at_three : (s : List ℕ) → utf8_len s ≡ 3 → 3 ≤ length s → IsChar (take 3 s)
    at_three [] e l = absurd (omega arith)
    at_three (a ∷ []) e l = absurd (omega arith)
    at_three (a ∷ b ∷ []) e l = absurd (omega arith)
    at_three (a ∷ b ∷ c ∷ s) e l = three a b c s e

    at_four : (s : List ℕ) → utf8_len s ≡ 4 → 4 ≤ length s → IsChar (take 4 s)
    at_four [] e l = absurd (omega arith)
    at_four (a ∷ []) e l = absurd (omega arith)
    at_four (a ∷ b ∷ []) e l = absurd (omega arith)
    at_four (a ∷ b ∷ c ∷ []) e l = absurd (omega arith)
    at_four (a ∷ b ∷ c ∷ d ∷ s) e l = four a b c d s e

Round-IsText :
    {used : ℕ} {from out left : List ℕ} (rest : List ℕ)
    → Round used from out left
    → IsText rest
    → IsText (out ++ rest)
Round-IsText rest (dropped left h) t = t
Round-IsText rest (blank c left e) t = char (32 ∷ []) rest (omega arith, omega arith) t
Round-IsText rest (plain c left e h k) t = char (c ∷ []) rest (h, omega arith) t
Round-IsText rest (replaced c left e) t = char (b'?' ∷ []) rest (omega arith, omega arith) t
Round-IsText {from} rest (whole h k) t =
    char (take (utf8_len from) from) rest (take-IsChar from h) t

clean-IsText : (fuel used : ℕ) (s : List ℕ) → IsText (clean fuel used s)
clean-IsText fuel used [] = unfold clean in nil
clean-IsText zero used (c ∷ s) = unfold clean in nil
clean-IsText (suc fuel) used (c ∷ s) = all (clean-Loop fuel used c s) (clean-IsText fuel)
  where
    all :
        {r : List ℕ}
        → Loop fuel used (c ∷ s) r
        → ((used' : ℕ) (left : List ℕ) → IsText (clean fuel used' left))
        → IsText r
    all stops ih = nil
    all (goes_on out left used' r room e) ih = Round-IsText _ r (ih used' left)

IsText-append : {a : List ℕ} (b : List ℕ) → IsText a → IsText b → IsText (a ++ b)
IsText-append b nil t = t
IsText-append b (char c rest k s) t = rw append_assoc (char c (rest ++ b) k (IsText-append b s t))

-- Whatever bytes `append_clean` is given, the line stays printable, well-formed UTF-8 and, with its
-- NUL, inside its 180 bytes, if it was so before.
pub append_clean-IsText :
    (dst src : List ℕ)
    → IsText dst
    → length dst ≤ text_size - 1
    → IsText (append_clean dst src) × (length (append_clean dst src) ≤ text_size - 1)
append_clean-IsText dst src t h = (
  unfold append_clean in IsText-append _ t (clean-IsText (length src) (length dst) src),
  unfold append_clean in
      omega (
        arith,
        length-append dst (clean (length src) (length dst) src),
        clean-fits (length src) (length dst) src h,
      ),
)

-- More fuel than the length of the source changes nothing.
clean-fuel :
    (f g used : ℕ) (s : List ℕ) → length s ≤ f → length s ≤ g → clean f used s ≡ clean g used s
unfolding clean
clean-fuel f g used [] h k = refl
clean-fuel zero g used (c ∷ s) h k = absurd (omega arith)
clean-fuel (suc f) zero used (c ∷ s) h k = absurd (omega arith)
clean-fuel (suc f) (suc g) used (c ∷ s) h k = ground (
  arith,
  clean-fuel f g used (skip_escape s),
  clean-fuel f g used s,
  clean-fuel f g (used + 1) s,
  clean-fuel f g (used + utf8_len (c ∷ s)) (drop (utf8_len (c ∷ s)) (c ∷ s)),
  length-skip_escape s,
  length-drop (utf8_len (c ∷ s)) (c ∷ s),
  utf8_len-le (c ∷ s),
)

take-room :
    (used c : ℕ) (s : List ℕ)
    → used < text_size - 1
    → take (text_size - 1 - used) (c ∷ s) ≡ c ∷ take (text_size - 1 - (used + 1)) s
take-room used c s h =
    let e : text_size - 1 - used ≡ suc (text_size - 1 - (used + 1)) = omega arith in rw e

take-none : (used : ℕ) (s : List ℕ) → text_size - 1 ≤ used → take (text_size - 1 - used) s ≡ []
take-none used s h = let e : text_size - 1 - used ≡ 0 = omega arith in rw e

take-nil : (n : ℕ) → take {A = ℕ} n [] ≡ []
take-nil zero = refl
take-nil (suc n) = refl

clean-printable :
    (fuel used : ℕ) (s : List ℕ)
    → All (Within 0x20 0x7e) s
    → length s ≤ fuel
    → clean fuel used s ≡ take (text_size - 1 - used) s
unfolding clean
clean-printable fuel used [] p l = sym (take-nil (text_size - 1 - used))
clean-printable zero used (c ∷ s) p l = absurd (omega arith)
clean-printable (suc fuel) used (c ∷ s) p l =
    ground (
      arith,
      take-room used c s,
      take-none used (c ∷ s),
      p.0,
      clean-printable fuel (used + 1) s p.1,
    )

-- Printable ASCII is appended as it is, up to the 179 bytes that a line has room for.
pub append_clean-printable :
    (dst src : List ℕ)
    → All (Within 0x20 0x7e) src
    → append_clean dst src ≡ dst ++ take (text_size - 1 - length dst) src
unfolding append_clean
append_clean-printable dst src p =
    ap (λ s. dst ++ s) (clean-printable (length src) (length dst) src p (omega arith))
