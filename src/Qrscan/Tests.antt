-- ===== src/Qrscan/Tests.antt =====
-- main/qrscan.c: runs of the scanner and of its frames.
use cores3_epskc_commissione.Base.{
  ℕ, zero, suc, ◌+◌, ◌≤◌, refl, Bool, true, false, none, some, List, [], ◌∷◌, arith,
}
use cores3_epskc_commissione.Base.Checked.{Returns}
use cores3_epskc_commissione.Qrscan.Camera.{Camera, Answers, start, here, next, starts}
use cores3_epskc_commissione.Qrscan.Cycle.{IsCamera, Reach-IsCamera}
use cores3_epskc_commissione.Qrscan.Outcome.{Outcome, start-Outcome}
use cores3_epskc_commissione.Qrscan.Frame.{frame_stats}
use cores3_epskc_commissione.Qrscan.Grey.{frame_stats-ordered}
use cores3_epskc_commissione.Qrscan.Preview.{
  preview_w, picture_w, left_edge, preview_pixel, preview_pixel-Returns,
}

abbrev closed : Camera
closed = record {
  opened = false;
  mapped = 0;
  width = 0;
  height = 0;
  quirc = false;
  running = false;
  video_inited = false;
  last_grey = none;
}

-- A driver that fails to queue the last buffer.
abbrev answers : Answers
answers = record {
  camera_started = true;
  opens = true;
  format = some (4, 3);
  requested = true;
  buffers = λ n. record { queried = true; maps = true; queues = queues n };
  streams = true;
  decoder = true;
  grey_allocated = true;
}
  where
    queues : ℕ → Bool
    queues zero = true
    queues (suc zero) = false
    queues (suc (suc n)) = true

Reach-IsCamera_example : IsCamera 4 3 (start answers closed).1
Reach-IsCamera_example =
    Reach-IsCamera 4 3 closed (start answers closed).1 (next here (starts answers closed refl))
      (record { pipeline = (refl, refl, refl); grey = tt })

start-Outcome_example : Outcome (start answers closed)
start-Outcome_example = start-Outcome answers closed

abbrev grey : List ℕ
grey = 9 ∷ 10 ∷ 250 ∷ 7 ∷ 9 ∷ 9 ∷ 9 ∷ 200 ∷ 9 ∷ 9 ∷ 9 ∷ 9 ∷ []

frame_stats-ordered_example :
    ((frame_stats grey).0 ≤ (frame_stats grey).1.1)
    × ((frame_stats grey).1.1 ≤ (frame_stats grey).1.0)
    × ((frame_stats grey).1.0 ≤ 255)
frame_stats-ordered_example =
    frame_stats-ordered grey
      (
        omega arith,
        (
          omega arith,
          (
            omega arith,
            (
              omega arith,
              (
                omega arith,
                (
                  omega arith,
                  (
                    omega arith,
                    (omega arith, (omega arith, (omega arith, (omega arith, (omega arith, tt))))),
                  ),
                ),
              ),
            ),
          ),
        ),
      )
      (omega arith)

preview_pixel-Returns_example :
    (left_edge 4 3 + picture_w 4 3 ≤ preview_w) × Returns (preview_pixel 4 3 grey 149 200)
preview_pixel-Returns_example =
    preview_pixel-Returns 4 3 grey 149 200 (omega arith) (omega arith) (omega arith) (omega arith)
      (omega arith)
