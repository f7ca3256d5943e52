-- ===== src/Base/Checked.antt =====
-- Code that reads memory through a pointer: a result, an access outside the buffer, or a loop
-- that used up its fuel.
use Prim.Native.Nat.{ℕ, zero, suc, ◌+◌, ◌≤◌, ◌<◌}
use mathlib.Core.Path.{◌≡◌, refl, ap}
use mathlib.Core.Bool.{Bool, true, false}
use cores3_epskc_commissione.Base.Tests.{if◌then◌else◌}
use mathlib.Core.List.{List, [], ◌∷◌, ◌++◌}
use native.Mathlib.Omega.{arith}
use cores3_epskc_commissione.Base.Lists.{length, get_or, drop, take, Bytes}

pub data Checked {ℓ} (A : Type ℓ) : Type ℓ where
  ok : A → Checked A
  oob : Checked A
  stuck : Checked A

infixl 5 ◌>>=◌ ◌>>◌
abbrev pub ◌>>=◌ {ℓ κ} : {A : Type ℓ} {B : Type κ} → Checked A → (A → Checked B) → Checked B
ok a >>= f = f a
oob >>= f = oob
stuck >>= f = stuck

abbrev pub ◌>>◌ {ℓ} : {B : Type ℓ} → Checked (Unit {0}) → Checked B → Checked B
m >> k = m >>= λ _. k

-- A pointer into a buffer is the list of the bytes from it to the buffer's end; `*p`, `p[i]` and
-- `p + n` fault outside.
abbrev pub byte_at : ℕ → List ℕ → Checked ℕ
byte_at i [] = oob
byte_at zero (x ∷ xs) = ok x
byte_at (suc i) (x ∷ xs) = byte_at i xs

abbrev pub advance : ℕ → List ℕ → Checked (List ℕ)
advance zero xs = ok xs
advance (suc n) [] = oob
advance (suc n) (x ∷ xs) = advance n xs

pub byte_at-lt : (i : ℕ) (xs : List ℕ) → i < length xs → byte_at i xs ≡ ok (get_or xs i 0)
byte_at-lt i [] h = absurd (omega arith)
byte_at-lt zero (x ∷ xs) h = refl
byte_at-lt (suc i) (x ∷ xs) h = byte_at-lt i xs (omega arith)

pub advance-le : (n : ℕ) (xs : List ℕ) → n ≤ length xs → advance n xs ≡ ok (drop n xs)
advance-le zero xs h = refl
advance-le (suc n) [] h = absurd (omega arith)
advance-le (suc n) (x ∷ xs) h = advance-le n xs (omega arith)

pub advance-append : (n : ℕ) (xs ys : List ℕ) → length xs ≡ n → advance n (xs ++ ys) ≡ ok ys
advance-append zero [] ys h = refl
advance-append zero (x ∷ xs) ys h = absurd (omega arith)
advance-append (suc n) [] ys h = absurd (omega arith)
advance-append (suc n) (x ∷ xs) ys h = advance-append n xs ys (omega arith)

pub length-drop : (n : ℕ) (xs : List ℕ) → n ≤ length xs → length (drop n xs) + n ≡ length xs
length-drop zero xs h = omega arith
length-drop (suc n) [] h = absurd (omega arith)
length-drop (suc n) (x ∷ xs) h = omega (arith, length-drop n xs)

pub Bytes-drop : (n : ℕ) (xs : List ℕ) → Bytes xs → Bytes (drop n xs)
Bytes-drop zero xs h = h
Bytes-drop (suc n) [] h = tt
Bytes-drop (suc n) (x ∷ xs) h = Bytes-drop n xs h.1

pub length-take_le : (n : ℕ) (xs : List ℕ) → n ≤ length xs → length (take n xs) ≡ n
length-take_le zero xs h = refl
length-take_le (suc n) [] h = absurd (omega arith)
length-take_le (suc n) (x ∷ xs) h = ap suc (length-take_le n xs (omega arith))

pub drop-append : (xs ys : List ℕ) → drop (length xs) (xs ++ ys) ≡ ys
drop-append [] ys = refl
drop-append (x ∷ xs) ys = drop-append xs ys

-- The computation gives a result: it neither leaves the buffer nor runs out of fuel.
abbrev pub Returns {ℓ} : {A : Type ℓ} → Checked A → Type ℓ
Returns {A} m = (a : A) × (m ≡ ok a)

pub Returns-bind {ℓ κ} :
    {A : Type ℓ} {B : Type κ} (m : Checked A) (f : A → Checked B)
    → Returns m
    → ((a : A) → m ≡ ok a → Returns (f a))
    → Returns (m >>= f)
Returns-bind (ok a) f r k = k a refl
Returns-bind oob f (a, e) k = cc
Returns-bind stuck f (a, e) k = cc

pub Returns-if {ℓ} :
    {A : Type ℓ} (b : Bool) {x y : Checked A} → Returns x → Returns y → Returns (if b then x else y)
Returns-if true r s = r
Returns-if false r s = s
