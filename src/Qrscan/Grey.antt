-- ===== src/Qrscan/Grey.antt =====
-- main/qrscan.c: the statistics of a frame against its pixels.
use cores3_epskc_commissione.Base.{
  ℕ, zero, suc, ◌+◌, ◌-◌, ◌*◌, ◌/◌, ◌≤◌, ◌<◌, ◌≡◌, List, [], ◌∷◌, subst, ltb, if◌then◌else◌, length,
  Bytes, arith,
}
use native.Mathlib.Nat.{mul-le-mul_right, le-div_iff_mul-le, div-lt_iff_lt-mul}
use cores3_epskc_commissione.Qrscan.Frame.{Stats, add_pixel, sample, no_pixels, frame_stats}

-- The sum lies between the least and the greatest pixel, times their number, and these are octets.
record Within (s : Stats) : Type 0 where
  low : s.lo * s.seen ≤ s.sum
  high : s.sum ≤ s.hi * s.seen
  octet : s.hi ≤ 255

low_step : (l lo n sum g : ℕ) → l ≤ lo → l ≤ g → lo * n ≤ sum → l * (n + 1) ≤ sum + g
low_step l lo n sum g a b c = omega (arith, mul-le-mul_right n a)

high_step : (u hi n sum g : ℕ) → hi ≤ u → g ≤ u → sum ≤ hi * n → sum + g ≤ u * (n + 1)
high_step u hi n sum g a b c = omega (arith, mul-le-mul_right n a)

add_pixel-Within : (g : ℕ) (s : Stats) → g < 256 → Within s → Within (add_pixel g s)
unfolding add_pixel
add_pixel-Within g s b i =
    let oct = i.octet in
    record {
      low =
          low_step (if ltb g s.lo then g else s.lo) s.lo s.seen s.sum g (ground arith)
            (ground arith) i.low;
      high =
          high_step (if ltb s.hi g then g else s.hi) s.hi s.seen s.sum g (ground arith)
            (ground arith) i.high;
      octet = ground arith;
    }

sample-Within :
    (skip : ℕ) (gs : List ℕ) (s : Stats) → Bytes gs → Within s → Within (sample skip gs s)
unfolding sample
sample-Within skip [] s b i = i
sample-Within zero (g ∷ gs) s b i =
    sample-Within 6 gs (add_pixel g s) b.1 (add_pixel-Within g s b.0 i)
sample-Within (suc skip) (g ∷ gs) s b i = sample-Within skip gs s b.1 i

sample-seen :
    (skip : ℕ) (gs : List ℕ) (s : Stats)
    → skip ≤ 6
    → (sample skip gs s).seen ≡ s.seen + (length gs + 6 - skip) / 7
unfolding sample add_pixel
sample-seen skip [] s h = omega arith
sample-seen zero (g ∷ gs) s h = omega (arith, sample-seen 6 gs (add_pixel g s) (omega arith))
sample-seen (suc skip) (g ∷ gs) s h = omega (arith, sample-seen skip gs s (omega arith))

-- Of a frame with pixels, the least sampled pixel is at most the mean and the mean at most the
-- greatest, an octet, so that no conversion to 8 bits changes any of them.
pub frame_stats-ordered :
    (gs : List ℕ)
    → Bytes gs
    → 0 < length gs
    → ((frame_stats gs).0 ≤ (frame_stats gs).1.1)
      × ((frame_stats gs).1.1 ≤ (frame_stats gs).1.0)
      × ((frame_stats gs).1.0 ≤ 255)
unfolding frame_stats
frame_stats-ordered gs b p =
    let s = sample 0 gs no_pixels in
    let i =
      sample-Within 0 gs no_pixels b
        (record { low = omega arith; high = omega arith; octet = omega arith }) in
    let seen : s.seen ≡ (length gs + 6) / 7 =
      omega (arith, sample-seen 0 gs no_pixels (omega arith)) in
    let some_seen : 0 < (length gs + 6) / 7 = omega arith in
    let low : s.lo ≤ s.sum / ((length gs + 6) / 7) =
      (le-div_iff_mul-le some_seen).1 (subst (λ n. s.lo * n ≤ s.sum) seen i.low) in
    let high : s.sum / ((length gs + 6) / 7) < s.hi + 1 = (div-lt_iff_lt-mul some_seen).1 (
      above s.hi ((length gs + 6) / 7) s.sum some_seen
        (subst (λ n. s.sum ≤ s.hi * n) seen i.high)) in
    let top = i.octet in (omega arith, omega arith, top)
  where
    above : (u n sum : ℕ) → 0 < n → sum ≤ u * n → sum < (u + 1) * n
    above u n sum a b = omega arith
