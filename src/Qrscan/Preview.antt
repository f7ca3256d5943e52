-- ===== src/Qrscan/Preview.antt =====
-- main/qrscan.c: the preview's pixels, read out of the grey plane.
use cores3_epskc_commissione.Base.{
  ℕ, ◌+◌, ◌-◌, ◌*◌, ◌/◌, ◌≤◌, ◌<◌, bit_or, ◌≡◌, refl, Bool, true, false, not, ◌&&◌, List, ltb,
  if◌then◌else◌, length, get_or, arith,
}
use cores3_epskc_commissione.Base.Checked.{
  Checked, ok, byte_at, byte_at-lt, ◌>>=◌, Returns, Returns-bind,
}
use native.Mathlib.Nat.{mul-le-mul_right, mul-lt-mul_of_pos_left, div-lt_iff_lt-mul}

abbrev pub preview_w : ℕ
preview_w = 320

abbrev pub preview_h : ℕ
preview_h = 150

-- The width of the picture in the preview, and its left edge.
abbrev pub picture_w : ℕ → ℕ → ℕ
picture_w w h = w * preview_h / h

abbrev pub left_edge : ℕ → ℕ → ℕ
left_edge w h = (preview_w - picture_w w h) / 2

-- A grey byte as an RGB565 pixel.
unfoldable pub grey_pixel : ℕ → ℕ
grey_pixel g = bit_or (bit_or (g / 8 * 2048) (g / 4 * 32)) (g / 8)

-- The pixel at `x` in row `y` of the preview, with the read of the grey plane that it needs.
unfoldable pub preview_pixel : ℕ → ℕ → List ℕ → ℕ → ℕ → Checked ℕ
unfolding grey_pixel
preview_pixel w h grey y x =
    if not (ltb x (left_edge w h)) && ltb x (left_edge w h + picture_w w h)
    then byte_at (y * h / preview_h * w + (x - left_edge w h) * w / picture_w w h) grey
      >>= (λ g. ok (grey_pixel g))
    else ok 0

source-lt :
    (y x w h n : ℕ)
    → y * h / preview_h < h
    → x * w / n < w
    → y * h / preview_h * w + x * w / n < h * w
source-lt y x w h n a b =
    omega (arith, mul-le-mul_right {m = y * h / preview_h + 1} {n = h} w (omega arith))

scaled-lt : (i n k : ℕ) → i < n → 0 < k → i * k / n < k
scaled-lt i n k a b =
    (div-lt_iff_lt-mul (omega arith)).1 (omega (arith, mul-lt-mul_of_pos_left {k = k} a b))

inside :
    (w h : ℕ) (grey : List ℕ) (y x : ℕ)
    → 0 < w
    → 0 < h
    → length grey ≡ w * h
    → y < preview_h
    → left_edge w h ≤ x
    → x < left_edge w h + picture_w w h
    → y * h / preview_h * w + (x - left_edge w h) * w / picture_w w h < length grey
inside w h grey y x p q size below from to =
    let bound =
      source-lt y (x - left_edge w h) w h (picture_w w h) (scaled-lt y preview_h h below q)
        (scaled-lt (x - left_edge w h) (picture_w w h) w (omega arith) p) in
    omega (arith, bound, size)

-- For a frame of any size whose picture is at most as wide as the preview, the picture lies in the
-- preview's rows, and every pixel of the preview is made without a read outside the frame's grey plane.
pub preview_pixel-Returns :
    (w h : ℕ) (grey : List ℕ) (y x : ℕ)
    → 0 < w
    → 0 < h
    → picture_w w h ≤ preview_w
    → length grey ≡ w * h
    → y < preview_h
    → (left_edge w h + picture_w w h ≤ preview_w) × Returns (preview_pixel w h grey y x)
unfolding preview_pixel
preview_pixel-Returns w h grey y x p q narrow size below =
    (omega arith, read (not (ltb x (left_edge w h)) && ltb x (left_edge w h + picture_w w h)) refl)
  where
    at : ℕ
    at = y * h / preview_h * w + (x - left_edge w h) * w / picture_w w h

    read :
        (b : Bool)
        → not (ltb x (left_edge w h)) && ltb x (left_edge w h + picture_w w h) ≡ b
        → Returns (if b then byte_at at grey >>= (λ g. ok (grey_pixel g)) else ok 0)
    read false e = (0, refl)
    read true e =
        let lt = inside w h grey y x p q size below (ground arith) (ground arith) in
        Returns-bind (byte_at at grey) (λ g. ok (grey_pixel g))
          (get_or grey at 0, byte_at-lt at grey lt) (λ g f. (grey_pixel g, refl))
