-- ===== src/Server/Tests.antt =====
-- main/otbr_rest.c: runs of the handlers, the pages, the batches and the routes.
use cores3_epskc_commissione.Base.{
  ℕ, suc, ◌+◌, ◌-◌, ◌≤◌, ◌<◌, max, ◌≡◌, ◌↔◌, refl, Bool, true, false, Option, none, some, List, [],
  ◌∷◌, ◌++◌, ltb, if◌then◌else◌, length, take, All, arith,
}
use cores3_epskc_commissione.Rest.Wire.{terminate_body, has_byte, skip_spaces, is_space}
use cores3_epskc_commissione.Rest.Options.{
  parse_epskc_options, open_options, options_loop, after_member, close_options,
}
use cores3_epskc_commissione.Rest.Bodies.{IsToggle}
use cores3_epskc_commissione.Thread.Dataset.{
  Tlvs, running, Stack, thread_join, hex_digit, bytes_to_hex, dataset_hex, set_dataset_hex,
}
use cores3_epskc_commissione.Thread.Share.{disabled}
use cores3_epskc_commissione.Server.Body.{recv_body, recv_loop, join, arrived, closed}
use cores3_epskc_commissione.Server.Handlers.{
  read_checked, key_plan, key_options, key_start, get, put, post, plain, Request, set_enabled,
  set_dataset, share_start, reply, refused, bad_request, unread_body, h_state, h_epskc_key,
  h_dataset_active,
}
use cores3_epskc_commissione.Server.Jobs.{
  request, job_of, h_state-IsToggle, h_epskc_key-bounds, h_epskc_key-cut,
}
use cores3_epskc_commissione.Server.DatasetBody.{h_dataset_active-dataset_hex}
use cores3_epskc_commissione.Server.Paging.{page, present, range}
use cores3_epskc_commissione.Server.Pages.{page-present}
use cores3_epskc_commissione.Server.Batch.{log_body, flat}
use cores3_epskc_commissione.Server.Logs.{IsChunk, body_of, log_body-flat}
use cores3_epskc_commissione.Server.Routes.{
  Answer, accepted, Served, replay, apply_routes, apply_routes-Served,
}
use cores3_epskc_commissione.Server.Control.{running_to, State, request_control, here, next, asks}
use cores3_epskc_commissione.Server.Lifecycle.{IsControl, Reach-IsControl}

abbrev toggle_pieces : List (List ℕ)
toggle_pieces = (b'e' ∷ b'n' ∷ b'a' ∷ []) ∷ (b'b' ∷ b'l' ∷ b'e' ∷ []) ∷ []

h_state-IsToggle_example :
    (job_of (h_state [] (request put (length (join toggle_pieces)) (arrived toggle_pieces ++ [])))
      ≡ some (set_enabled true))
    ↔ ((on : Bool) × (set_enabled true ≡ set_enabled on) × IsToggle on (join toggle_pieces))
h_state-IsToggle_example =
    h_state-IsToggle [] put toggle_pieces [] (set_enabled true) refl
      (omega arith, (omega arith, tt)) (omega arith) (omega arith)

abbrev options : List (Option (List ℕ))
options = some (b'{' ∷ b'}' ∷ []) ∷ []

abbrev key_request : Request
key_request = request post 2 options

starts : job_of (h_epskc_key 5 disabled 0 key_request) ≡ some (share_start 300000 0)
unfolding h_epskc_key read_checked recv_body recv_loop terminate_body has_byte key_plan key_options
    parse_epskc_options open_options skip_spaces is_space options_loop after_member key_start
    close_options
starts = refl

h_epskc_key-bounds_example :
    (key_request.method ≡ post)
    × (key_request.content_len < 96)
    × (1 ≤ 300000)
    × (300000 ≤ 600000)
    × (0 ≤ 65535)
h_epskc_key-bounds_example = h_epskc_key-bounds 5 disabled 0 key_request 300000 0 starts

h_epskc_key-cut_example :
    h_epskc_key 5 disabled 0 (request post 3 (arrived ((b'{' ∷ []) ∷ []) ++ (some [] ∷ [])))
    ≡ reply (refused bad_request unread_body)
h_epskc_key-cut_example =
    h_epskc_key-cut 5 disabled 0 ((b'{' ∷ []) ∷ []) (some []) [] 3 (omega arith, tt) closed
      (omega arith) (omega arith)

abbrev dataset : Tlvs
dataset = 3 ∷ 1 ∷ 65 ∷ []

abbrev stack : Stack
stack = record {
  ready = true;
  parse = λ t. none;
  active = some dataset;
  erased = true;
  started = running;
  restarted = running;
  erased_again = true;
}

hex : dataset_hex stack 540 ≡ some (b'0' ∷ b'3' ∷ b'0' ∷ b'1' ∷ b'4' ∷ b'1' ∷ [])
unfolding dataset_hex bytes_to_hex hex_digit
hex = refl

abbrev hex_pieces : List (List ℕ)
hex_pieces = (b'"' ∷ b'0' ∷ b'3' ∷ []) ∷ (b'0' ∷ b'1' ∷ b'4' ∷ b'1' ∷ b'"' ∷ []) ∷ []

abbrev served : Request
served = record (request get 0 []) { text_plain = true }

h_dataset_active-dataset_hex_example :
    (h_dataset_active (dataset_hex stack 540) [] [] served
      ≡ reply (plain (b'0' ∷ b'3' ∷ b'0' ∷ b'1' ∷ b'4' ∷ b'1' ∷ [])))
    × (job_of (
          h_dataset_active none [] []
            (request put (length (join hex_pieces)) (arrived hex_pieces ++ [])))
        ≡ some (set_dataset (b'0' ∷ b'3' ∷ b'0' ∷ b'1' ∷ b'4' ∷ b'1' ∷ [])))
    × (set_dataset_hex stack (b'0' ∷ b'3' ∷ b'0' ∷ b'1' ∷ b'4' ∷ b'1' ∷ [])
        ≡ thread_join stack dataset)
h_dataset_active-dataset_hex_example =
    h_dataset_active-dataset_hex stack stack dataset (b'0' ∷ b'3' ∷ b'0' ∷ b'1' ∷ b'4' ∷ b'1' ∷ [])
      [] [] true hex_pieces [] served none (omega arith, (omega arith, (omega arith, tt)))
      (omega arith) refl hex (omega arith, (omega arith, tt)) refl refl refl

abbrev even : ℕ → Option ℕ
even n = if ltb 4 n then some n else none

page-present_example :
    page even 2 3 2 9 ≡ take 3 (present even (range (max (2 + 1) 2) (suc 9 - max (2 + 1) 2)))
page-present_example = page-present even 2 3 2 9 (omega arith) (omega arith)

abbrev row : List ℕ
row = b'r' ∷ []

log_body-flat_example :
    ((log_body (λ c. true) false (some row) (row ∷ row ∷ [])).0 ≡ true)
    × (flat (log_body (λ c. true) false (some row) (row ∷ row ∷ [])).1.sent
        ≡ body_of false row (row ∷ row ∷ []))
    × All IsChunk (log_body (λ c. true) false (some row) (row ∷ row ∷ [])).1.sent
log_body-flat_example = log_body-flat (λ c. true) (λ c. refl) false row (row ∷ row ∷ []) refl

abbrev full_table : ℕ → Answer
full_table n = if ltb n 3 then accepted else cores3_epskc_commissione.Server.Routes.refused

apply_routes-Served_example :
    Served
      (0 ∷ 1 ∷ 4 ∷ [])
      (replay (apply_routes true full_table (0 ∷ 1 ∷ 4 ∷ []) true false).0 (λ n. false))
      (apply_routes true full_table (0 ∷ 1 ∷ 4 ∷ []) true false).1
apply_routes-Served_example =
    apply_routes-Served true full_table (0 ∷ 1 ∷ 4 ∷ []) true false (λ n. false)
      (refl, (refl, (refl, tt)))

abbrev ready : State
ready = record {
  server = false;
  epskc_registered = false;
  logs_registered = false;
  work = [];
  queue = some [];
  task = true;
  start_failed = false;
  feature = false;
}

Reach-IsControl_example : IsControl (request_control (running_to true) ready).1
Reach-IsControl_example =
    Reach-IsControl ready (request_control (running_to true) ready).1
      (next here (asks (running_to true) ready))
      (record { down = refl; bounded = omega arith; queued = refl })
