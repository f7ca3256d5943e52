-- ===== src/Qrscan/Outcome.antt =====
-- main/qrscan.c: the results of qrscan_start.
use cores3_epskc_commissione.Base.{
  ℕ, ◌≡◌, ◌≢◌, refl, ◌⊎◌, inl, inr, Bool, true, false, not, ◌&&◌, ◌||◌, Option, none, some,
  if◌then◌else◌, arith,
}
use cores3_epskc_commissione.Qrscan.Camera.{
  Camera, Answers, EspErr, esp_ok, esp_fail, camera_error, teardown, requeue, warm_start,
  map_buffers, start_decoder, set_up_format, set_up, cold_start, start,
}

-- A success with the scanner running, or an error with the pipeline closed and nothing running.
abbrev pub Outcome : EspErr × Camera → Type 0
Outcome (err, c) =
    ((err ≡ esp_ok) × (c.running ≡ true))
    ⊎ ((err ≢ esp_ok) × (c.opened ≡ false) × (c.running ≡ false))

fails :
    (e : EspErr) (c : Camera) → e ≢ esp_ok → c.opened ≡ false → c.running ≡ false → Outcome (e, c)
fails e c n o r = inr (n, o, r)

fail_ne : esp_fail ≢ esp_ok
fail_ne e = ground arith

error_ne : camera_error ≢ esp_ok
error_ne e = ground arith

Outcome-if :
    (b : Bool) (x y : EspErr × Camera)
    → (b ≡ true → Outcome x)
    → (b ≡ false → Outcome y)
    → Outcome (if b then x else y)
Outcome-if true x y f g = f refl
Outcome-if false x y f g = g refl

teardown-Outcome : (c : Camera) → Outcome (esp_fail, teardown c)
unfolding teardown
teardown-Outcome c = fails esp_fail (teardown c) fail_ne refl refl

start_decoder-Outcome : (a : Answers) (c : Camera) → Outcome (start_decoder a c)
unfolding start_decoder
start_decoder-Outcome a c =
    Outcome-if (not a.streams || not a.decoder) _ _ (λ e. teardown-Outcome c)
      (λ e. inl (refl, refl))

set_up_format-Outcome :
    (a : Answers) (f : Option (ℕ × ℕ)) (c : Camera) → Outcome (set_up_format a f c)
unfolding set_up_format
set_up_format-Outcome a none c = teardown-Outcome c
set_up_format-Outcome a (some (w, h)) c =
    let c' = record c { width = w; height = h } in
    Outcome-if (not a.requested) _ _ (λ f. teardown-Outcome c')
      (λ f.
        Outcome-if (map_buffers a.buffers 3 c').0 _ _
          (λ k. start_decoder-Outcome a (map_buffers a.buffers 3 c').1)
          (λ k. teardown-Outcome (map_buffers a.buffers 3 c').1))

warm_start-Outcome : (a : Answers) (c : Camera) → Outcome (warm_start a c)
unfolding warm_start
warm_start-Outcome a c =
    Outcome-if (not (requeue a.buffers 3) || not a.streams) _ _ (λ e. teardown-Outcome c)
      (λ e. inl (refl, refl))

-- `qrscan_start` either returns ESP_OK with the scanner running, or an error with the device closed and
-- nothing running, so that a later start begins anew.
pub start-Outcome : (a : Answers) (c : Camera) → Outcome (start a c)
unfolding start cold_start set_up
start-Outcome a c =
    Outcome-if c.running _ _ (λ e. inl (refl, e))
      (λ r.
        Outcome-if c.opened _ _ (λ o. warm_start-Outcome a c)
          (λ o.
            Outcome-if (not c.video_inited && not a.camera_started) _ _
              (λ e. fails camera_error c error_ne o r)
              (λ e.
                Outcome-if (not a.opens) _ _
                  (λ k. fails esp_fail (record c { video_inited = true }) fail_ne o r)
                  (λ k. set_up_format-Outcome a a.format _))))
