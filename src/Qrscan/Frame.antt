-- ===== src/Qrscan/Frame.antt =====
-- main/qrscan.c: a frame's grey plane, its statistics and the decoded payload.
use cores3_epskc_commissione.Base.{
  ℕ, zero, suc, ◌+◌, ◌-◌, ◌*◌, ◌/◌, ◌%◌, ◌≤◌, min, Bool, true, false, not, ◌||◌, Option, none, some,
  List, [], ◌∷◌, ◌++◌, ltb, ◌==◌, if◌then◌else◌, length, take, arith,
}

-- `rgb565_luma`
unfoldable pub rgb565_luma : ℕ → ℕ
rgb565_luma p = (77 * (p / 2048 % 32 * 8) + 151 * (p / 32 % 64 * 4) + 28 * (p % 32 * 8)) / 256 % 256

pub data Fourcc : Type 0 where
  grey yuyv rgb565 rgb565x : Fourcc

-- Two bytes as a pixel, for a little-endian host: the source's `p16[i]`, swapped or not.
unfoldable pub pixel : Bool → ℕ → ℕ → ℕ
pixel swap first second = if swap then first * 256 + second else second * 256 + first

unfoldable pub every_other : List ℕ → List ℕ
every_other [] = []
every_other (y ∷ []) = y ∷ []
every_other (y ∷ c ∷ src) = y ∷ every_other src

unfoldable pub luma_of : Bool → List ℕ → List ℕ
luma_of swap [] = []
luma_of swap (b ∷ []) = []
luma_of swap (b ∷ c ∷ src) = rgb565_luma (pixel swap b c) ∷ luma_of swap src

-- The conversion in `qrscan_poll`: `px` grey bytes.
unfoldable pub to_grey : Fourcc → ℕ → List ℕ → List ℕ
unfolding every_other luma_of
to_grey grey px src = take px src
to_grey yuyv px src = take px (every_other src)
to_grey rgb565 px src = take px (luma_of false src)
to_grey rgb565x px src = take px (luma_of true src)

-- The statistics over the pixels 0, 7, 14 and so on: the sum and number of those seen, the least and
-- the greatest.
pub record Stats : Type 0 where
  pub sum : ℕ
  pub seen : ℕ
  pub lo : ℕ
  pub hi : ℕ

unfoldable pub add_pixel : ℕ → Stats → Stats
add_pixel g s = record {
  sum = s.sum + g;
  seen = s.seen + 1;
  lo = if ltb g s.lo then g else s.lo;
  hi = if ltb s.hi g then g else s.hi;
}

-- The loop; `skip` pixels come before the next that counts.
unfoldable pub sample : ℕ → List ℕ → Stats → Stats
unfolding add_pixel
sample skip [] s = s
sample zero (g ∷ gs) s = sample 6 gs (add_pixel g s)
sample (suc skip) (g ∷ gs) s = sample skip gs s

abbrev pub no_pixels : Stats
no_pixels = record { sum = 0; seen = 0; lo = 255; hi = 0 }

-- `s_min`, `s_max` and `s_mean` of a frame.
unfoldable pub frame_stats : List ℕ → ℕ × (ℕ × ℕ)
unfolding sample
frame_stats gs =
    let s = sample 0 gs no_pixels in (s.lo, (s.hi, s.sum / ((length gs + 6) / 7) % 256))

-- The payload of the first candidate that decodes, as `qrscan_poll` writes it into `cap` bytes.
unfoldable pub first_payload : ℕ → List (Option (List ℕ)) → Option (List ℕ)
first_payload size [] = none
first_payload size (none ∷ codes) = first_payload size codes
first_payload size (some payload ∷ codes) =
    some (take (min (length payload) (size - 1)) payload ++ (0 ∷ []))

-- `qrscan_poll`, with whether a buffer is dequeued, its bytes, and what quirc makes of each candidate:
-- what is written, and the statistics it leaves, if it reads a frame.
unfoldable pub poll :
    Bool
    → Option ℕ
    → Option (List ℕ)
    → Fourcc
    → ℕ
    → List (Option (List ℕ))
    → Option (List ℕ) × Option ((ℕ × (ℕ × ℕ)) × ℕ)
unfolding to_grey frame_stats first_payload
poll running none src fourcc px codes = (none, none)
poll running (some size) none fourcc px codes = (none, none)
poll running (some size) (some src) fourcc px codes =
    if not running || (size == 0)
    then (none, none)
    else (first_payload size codes, some (frame_stats (to_grey fourcc px src), length codes))

luma-le :
    (p : ℕ) → (77 * (p / 2048 % 32 * 8) + 151 * (p / 32 % 64 * 4) + 28 * (p % 32 * 8)) / 256 ≤ 250
luma-le p = omega arith
