-- ===== src/Server/Handlers.antt =====
-- main/otbr_rest.c: the handlers that read a body or change the Thread stack.
use cores3_epskc_commissione.Base.{
  ℕ, ◌*◌, Bool, true, false, ◌&&◌, Option, none, some, List, [], ◌∷◌, ℤ, pos, negsuc, leb, ◌==◌,
  if◌then◌else◌, length, take,
}
use cores3_epskc_commissione.Base.Checked.{ok, oob, stuck}
use cores3_epskc_commissione.Rest.Wire.{quote_json_string, parse_dataset_hex_body, parse_toggle}
use cores3_epskc_commissione.Rest.Options.{Seen, parse_epskc_options}
use cores3_epskc_commissione.Thread.Share.{KeyState, share_state_rest, Word}
use cores3_epskc_commissione.Server.Body.{recv_body}

pub data Method : Type 0 where
  get put post delete : Method

-- What the handlers read of `httpd_req_t`; `answers` are those of `httpd_req_recv`, `text_plain` is
-- whether the Accept header names text/plain.
pub record Request : Type 0 where
  pub method : Method
  pub content_len : ℕ
  pub answers : List (Option (List ℕ))
  pub text_plain : Bool

pub data Status : Type 0 where
  bad_request not_found not_allowed conflict too_large : Status

-- The text sent with an error.
pub data Reason : Type 0 where
  body_too_long unread_body not_toggle not_changed malformed_dataset json_dataset not_hex : Reason
  bad_options bad_lifetime bad_port not_activated not_stopped unavailable no_active_dataset
        no_pending_dataset no_reset :
      Reason

pub data Response : Type 0 where
  -- `send_json` of a string.
  json : (text : List ℕ) → Response
  plain : (text : List ℕ) → Response
  number : ℕ → Response
  dataset_view : (name ext_panid : List ℕ) → Response
  key_started : (code : List ℕ) (port : ℕ) → Response
  key_state : (word : Word) (port : ℕ) → Response
  node_view : (role name ext_address ext_panid : List ℕ) (rloc16 : ℕ) (ba_id : List ℕ) → Response
  refused : Status → Reason → Response
  -- A handler that returns an error, after which the server closes the connection.
  closed : Response

-- The jobs that the UI worker runs: `do_set_enabled`, `do_set_dataset`, `do_share_start`,
-- `do_share_stop` and `do_epskc_enable`.
pub data Job : Type 0 where
  set_enabled epskc_enable : (on : Bool) → Job
  set_dataset : (hex : List ℕ) → Job
  share_start : (lifetime_ms port : ℕ) → Job
  share_stop : Job

-- What a handler does: it answers, or runs a job and answers by whether that ended well, with the
-- passcode if the job makes one.
pub data Plan : Type 0 where
  reply : Response → Plan
  run : Job → (List ℕ → Response) → Response → Plan

unfoldable pub send_quoted : List ℕ → Response
send_quoted value = elim (quote_json_string (some value) true 128) [
  | none ↦ closed
  | some text ↦ json text
]

unfoldable pub err_404 : Reason → Response
err_404 why = refused not_found why

abbrev pub text_enabled : List ℕ
text_enabled = b'e' ∷ b'n' ∷ b'a' ∷ b'b' ∷ b'l' ∷ b'e' ∷ b'd' ∷ []

abbrev pub text_disabled : List ℕ
text_disabled = b'd' ∷ b'i' ∷ b's' ∷ b'a' ∷ b'b' ∷ b'l' ∷ b'e' ∷ b'd' ∷ []

abbrev text_applied : List ℕ
text_applied = b'a' ∷ b'p' ∷ b'p' ∷ b'l' ∷ b'i' ∷ b'e' ∷ b'd' ∷ []

abbrev text_stopped : List ℕ
text_stopped = b's' ∷ b't' ∷ b'o' ∷ b'p' ∷ b'p' ∷ b'e' ∷ b'd' ∷ []

-- `h_ba_id`, `h_ext_address` and `h_ext_panid`, with what the getter writes.
unfoldable pub h_hex : Option (List ℕ) → Response
unfolding err_404
h_hex none = err_404 unavailable
h_hex (some hex) = send_quoted hex

unfoldable pub h_network_name : List ℕ → Response
h_network_name name = send_quoted name

unfoldable pub h_rloc16 : ℕ → Response
h_rloc16 rloc16 = number rloc16

-- The checks that the handlers with a body share: its length against the buffer, and the read.
unfoldable pub read_checked : ℕ → Request → (List ℕ → Plan) → Plan
read_checked size r use_body =
    if leb size r.content_len
    then reply (refused too_large body_too_long)
    else elim (recv_body r.content_len size r.answers) [
      | none ↦ reply (refused bad_request unread_body)
      | some body ↦ use_body body
    ]

-- A body that is a toggle, for a job.
unfoldable pub toggle_plan : (Bool → Job) → List ℕ → Plan
toggle_plan job body =
    if length body == 0 then reply (refused bad_request unread_body) else elim (parse_toggle body) [
      | none ↦ reply (refused bad_request not_toggle)
      | some on ↦
          run (job on) (λ (code : List ℕ). send_quoted (if on then text_enabled else text_disabled))
            (refused conflict not_changed)
    ]

abbrev pub is_write : Method → Bool
is_write get = false
is_write put = true
is_write post = true
is_write delete = false

abbrev pub is_put : Method → Bool
is_put get = false
is_put put = true
is_put post = false
is_put delete = false

unfoldable pub h_state : List ℕ → Request → Plan
h_state role r =
    if is_write r.method
    then read_checked 16 r (toggle_plan set_enabled)
    else reply (send_quoted role)

unfoldable pub h_epskc_state : Bool → Request → Plan
h_epskc_state enabled r =
    if is_put r.method
    then read_checked 24 r (toggle_plan epskc_enable)
    else reply (send_quoted (if enabled then text_enabled else text_disabled))

-- A dataset body: hexadecimal digits, bare or as a JSON string.
unfoldable pub dataset_plan : List ℕ → Plan
dataset_plan body =
    if length body == 0
    then reply (refused bad_request unread_body)
    else elim (parse_dataset_hex_body body) [
      | none ↦ reply (refused bad_request malformed_dataset)
      | some [] ↦ reply (refused bad_request malformed_dataset)
      | some (c ∷ p) ↦
          if c == b'{'
          then reply (refused bad_request json_dataset)
          else run (set_dataset (c ∷ p)) (λ (code : List ℕ). send_quoted text_applied)
              (refused bad_request not_hex)
    ]

-- The JSON view of a dataset: the extended PAN id as its getter leaves it, and the network name.
unfoldable pub dataset_json : List ℕ → List ℕ → Response
dataset_json pan name = elim (quote_json_string (some (take 19 name)) true 128) [
  | none ↦ closed
  | some quoted_name ↦ dataset_view quoted_name pan
]

-- `h_dataset_active`, with what `thread_dataset_hex` writes.
unfoldable pub h_dataset_active : Option (List ℕ) → List ℕ → List ℕ → Request → Plan
h_dataset_active hex pan name r =
    if is_put r.method then read_checked 540 r dataset_plan else elim hex [
      | none ↦ reply (err_404 no_active_dataset)
      | some h ↦ reply (if r.text_plain then plain h else dataset_json pan name)
    ]

unfoldable pub h_node_delete : Response
h_node_delete = refused not_allowed no_reset

unfoldable pub h_dataset_pending : Response
unfolding err_404
h_dataset_pending = err_404 no_pending_dataset

-- The options of a key body, and none where it has no such form.
unfoldable pub key_options : List ℕ → Option Seen
key_options body = elim (parse_epskc_options body) [ ok seen ↦ seen | oob ↦ none | stuck ↦ none ]

abbrev pub given : Option ℤ → ℤ → ℤ
given none z = z
given (some z) d = z

-- A number from `low` to `high`.
abbrev pub between : ℕ → ℕ → ℤ → Option ℕ
between low high (negsuc n) = none
between low high (pos n) = if leb low n && leb n high then some n else none

-- The range checks of a key's lifetime and port, and the job.
unfoldable pub key_start : ℕ → Option ℕ → Option ℕ → Plan
key_start port none asked = reply (refused bad_request bad_lifetime)
key_start port (some lifetime) none = reply (refused bad_request bad_port)
key_start port (some lifetime) (some asked) =
    run (share_start lifetime asked) (λ (code : List ℕ). key_started code port)
      (refused conflict not_activated)

-- The job of a key body, with the lifetime of the settings and the port that the stack reports.
unfoldable pub key_plan : ℕ → ℕ → List ℕ → Plan
key_plan share_minutes port body = elim (key_options body) [
  | none ↦ reply (refused bad_request bad_options)
  | some seen ↦
      key_start port (between 1 600000 (given seen.lifetime (pos (share_minutes * 60000))))
        (between 0 65535 (given seen.port (pos 0)))
]

unfoldable pub h_epskc_key : ℕ → KeyState → ℕ → Request → Plan
h_epskc_key share_minutes st port r = elim (r.method) [
  | post ↦ read_checked 96 r (key_plan share_minutes port)
  | delete ↦
      run share_stop (λ (code : List ℕ). send_quoted text_stopped) (refused conflict not_stopped)
  | get ↦ reply (key_state (share_state_rest st) port)
  | put ↦ reply (key_state (share_state_rest st) port)
]

-- `h_node`, with what the getters leave in their buffers.
unfoldable pub h_node : List ℕ → List ℕ → List ℕ → List ℕ → ℕ → List ℕ → Response
h_node role name ext pan rloc16 ba = elim (quote_json_string (some name) true 128) [
  | none ↦ closed
  | some quoted_name ↦ node_view role quoted_name ext pan rloc16 ba
]
