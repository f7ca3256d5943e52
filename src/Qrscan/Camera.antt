-- ===== src/Qrscan/Camera.antt =====
-- main/qrscan.c: qrscan_start, qrscan_stop and qrscan_teardown.
use cores3_epskc_commissione.Base.{
  ℕ, zero, suc, ◌+◌, ◌*◌, ◌≡◌, Bool, true, false, not, ◌&&◌, ◌||◌, Option, none, some,
  if◌then◌else◌,
}

-- `s_fd` (open or not), the buffers mapped, `s_w` and `s_h`, `s_quirc`, `s_running`,
-- `s_video_inited`, and the bytes of `s_last_grey`.
pub record Camera : Type 0 where
  pub opened : Bool
  pub mapped : ℕ
  pub width : ℕ
  pub height : ℕ
  pub quirc : Bool
  pub running : Bool
  pub video_inited : Bool
  pub last_grey : Option ℕ

-- The answers for one buffer: VIDIOC_QUERYBUF, mmap and VIDIOC_QBUF.
pub record Buffer : Type 0 where
  pub queried : Bool
  pub maps : Bool
  pub queues : Bool

-- The driver's and the allocators' answers during a start.
pub record Answers : Type 0 where
  pub camera_started : Bool
  pub opens : Bool
  pub format : Option (ℕ × ℕ)
  pub requested : Bool
  pub buffers : ℕ → Buffer
  pub streams : Bool
  pub decoder : Bool
  pub grey_allocated : Bool

pub data EspErr : Type 0 where
  esp_ok esp_fail camera_error : EspErr

-- `qrscan_teardown`
unfoldable pub teardown : Camera → Camera
teardown c = record c { opened = false; quirc = false; mapped = 0; running = false }

-- `qrscan_stop`
unfoldable pub stop : Camera → Camera
stop c = if c.running then record c { running = false } else c

-- The loop that queues the `n` last of the three buffers again.
unfoldable pub requeue : (ℕ → Buffer) → ℕ → Bool
requeue buffers zero = true
requeue buffers (suc n) = let rest = requeue buffers n in (buffers (suc n)).queues && rest

-- A start over a pipeline that a stop has left.
unfoldable pub warm_start : Answers → Camera → EspErr × Camera
unfolding requeue teardown
warm_start a c =
    if not (requeue a.buffers 3) || not a.streams
    then (esp_fail, teardown c)
    else (esp_ok, record c { running = true })

-- The loop over the `n` last of the buffers: whether all are mapped and queued, and how many are mapped.
unfoldable pub map_buffers : (ℕ → Buffer) → ℕ → Camera → Bool × Camera
map_buffers buffers zero c = (true, c)
map_buffers buffers (suc n) c =
    let b = buffers (suc n) in
    let mapped = record c { mapped = 1 + c.mapped } in
    let rest = map_buffers buffers n mapped in
    if not b.queried || not b.maps
    then (false, c)
    else if not b.queues
    then (false, mapped)
    else rest

-- The last part of a cold start: the decoder and the copy for the dump.
unfoldable pub start_decoder : Answers → Camera → EspErr × Camera
unfolding teardown
start_decoder a c = if not a.streams || not a.decoder then (esp_fail, teardown c) else (
  esp_ok,
  record c {
    quirc = true;
    running = true;
    last_grey = elim (c.last_grey) [
      | some n ↦ some n
      | none ↦ if a.grey_allocated then some (c.width * c.height) else none
    ];
  },
)

-- A cold start from the open device on, with the format that it reads.
unfoldable pub set_up_format : Answers → Option (ℕ × ℕ) → Camera → EspErr × Camera
unfolding teardown map_buffers start_decoder
set_up_format a none c = (esp_fail, teardown c)
set_up_format a (some (w, h)) c =
    let c' = record c { width = w; height = h } in
    if not a.requested
    then (esp_fail, teardown c')
    else let (good, c'') = map_buffers a.buffers 3 c' in
      if good then start_decoder a c'' else (esp_fail, teardown c'')

unfoldable pub set_up : Answers → Camera → EspErr × Camera
unfolding set_up_format
set_up a c = set_up_format a a.format c

-- The driver's registration, once in the life of the process, and the device's opening.
unfoldable pub cold_start : Answers → Camera → EspErr × Camera
unfolding set_up
cold_start a c =
    if not c.video_inited && not a.camera_started
    then (camera_error, c)
    else let c' = record c { video_inited = true } in
      if not a.opens then (esp_fail, c') else set_up a (record c' { opened = true })

-- `qrscan_start`
unfoldable pub start : Answers → Camera → EspErr × Camera
unfolding warm_start cold_start
start a c = if c.running then (esp_ok, c) else if c.opened then warm_start a c else cold_start a c

-- Starts and stops in any order, on a driver whose frames have these sizes.
pub data Step (w h : ℕ) : Camera → Camera → Type 0 where
  starts : (a : Answers) (c : Camera) → a.format ≡ some (w, h) → Step w h c (start a c).1
  unreadable : (a : Answers) (c : Camera) → a.format ≡ none → Step w h c (start a c).1
  stops : (c : Camera) → Step w h c (stop c)

pub data Reach (w h : ℕ) (c : Camera) : Camera → Type 0 where
  here : Reach w h c c
  next : {d e : Camera} → Reach w h c d → Step w h d e → Reach w h c e
