-- ===== src/MeshCop/Client.antt =====
-- main/meshcop.c: the exchange with the border agent. mbedTLS and the network are a parameter:
-- what each call returns, in the order of the calls.
use cores3_epskc_commissione.Base.{
  ℕ, zero, suc, ◌+◌, ◌/◌, ◌%◌, Bool, true, false, not, ◌||◌, Option, none, some, List, [], ◌∷◌,
  ◌++◌, ltb, ◌==◌, if◌then◌else◌, length,
}
use cores3_epskc_commissione.Base.Checked.{Checked, ok, stuck, ◌>>=◌}
use cores3_epskc_commissione.MeshCop.Codec.{
  coap_is_empty_ack, coap_is_success, coap_payload, petition_was_accepted,
}

-- A pointer with a length, of which the code tests both: `payload && payload_len`.
unfoldable pub payload_field : List ℕ → List ℕ
payload_field [] = []
payload_field (b ∷ bs) = 0xff ∷ b ∷ bs

-- `coap_post` with the message ID before it; the ID after it is `next_msgid`.
unfoldable pub coap_post : ℕ → List ℕ → List ℕ → List ℕ
unfolding payload_field
coap_post mid uri payload =
    0x40
    ∷ 0x02
    ∷ (mid / 256)
    ∷ (mid % 256)
    ∷ 0xb1
    ∷ b'c'
    ∷ (length uri % 256)
    ∷ (uri ++ payload_field payload)

unfoldable pub next_msgid : ℕ → ℕ
next_msgid mid = (mid + 1) % 65536

-- What `mbedtls_ssl_read` or `mbedtls_ssl_write` returns: an error or end of stream (`-code`, zero
-- included), or the bytes of a message.
pub data Io : Type 0 where
  failed : ℕ → Io
  received : List ℕ → Io

-- `read_real_response`: the attempts left, and the replies that `mbedtls_ssl_read` will give. The
-- replies not yet read are returned too. No read timeout is set: a peer that is silent after its last
-- reply keeps the read waiting.
unfoldable pub read_real_response : ℕ → List Io → Checked (Io × List Io)
read_real_response zero replies = ok (failed 1, replies)
read_real_response (suc attempts) [] = stuck
read_real_response (suc attempts) (failed code ∷ replies) = ok (failed code, replies)
read_real_response (suc attempts) (received [] ∷ replies) = ok (failed 0, replies)
read_real_response (suc attempts) (received (b ∷ bs) ∷ replies) =
    coap_is_empty_ack (some (b ∷ bs)) >>= λ empty. elim empty [
      | false ↦ ok (received (b ∷ bs), replies)
      | true ↦ read_real_response attempts replies
    ]

pub data HandshakeReason : Type 0 where
  unreachable timed_out wrong_passcode unexpected : HandshakeReason

-- One return of `mbedtls_ssl_handshake`.
pub data Handshake : Type 0 where
  done want_read want_write send_failed recv_failed conn_reset : Handshake
  ssl_timeout handshake_failure fatal_alert : Handshake
  other : ℕ → Handshake

-- The text of `s_last_error`.
pub data LastError : Type 0 where
  no_error invalid_details : LastError
  could_not_reach petition_send_failed no_petition_reply : ℕ → LastError
  handshake_failed : HandshakeReason → LastError
  rejected_petition declined_petition : LastError
  request_failed no_dataset_reply : ℕ → LastError
  rejected_request no_dataset dataset_too_large : LastError

unfoldable pub handshake_reason : Handshake → HandshakeReason
handshake_reason send_failed = unreachable
handshake_reason recv_failed = unreachable
handshake_reason conn_reset = unreachable
handshake_reason ssl_timeout = timed_out
handshake_reason handshake_failure = wrong_passcode
handshake_reason fatal_alert = wrong_passcode
handshake_reason _ = unexpected

-- The `while` around `mbedtls_ssl_handshake`, over what it returns; `none` once it is done. A list
-- that ends without an answer stands for a loop that is still waiting.
unfoldable pub handshake_loop : List Handshake → Checked (Option LastError)
handshake_loop [] = stuck
handshake_loop (done ∷ rest) = ok none
handshake_loop (want_read ∷ rest) = handshake_loop rest
handshake_loop (want_write ∷ rest) = handshake_loop rest
handshake_loop (h ∷ rest) = ok (some (handshake_failed (handshake_reason h)))

-- The arguments: `addr` and `passcode` are NULL or a string, `dataset` and `dataset_len` are NULL
-- or not.
pub record FetchArgs : Type 0 where
  pub addr : Option (List ℕ)
  pub port : ℕ
  pub passcode : Option (List ℕ)
  pub dataset : Bool
  pub dataset_cap : ℕ
  pub dataset_len : Bool

-- What mbedTLS returns: zero (`none`) or an error for each call of the set-up, the returns of the
-- handshake, and those of the two writes and of the reads.
pub record Peer : Type 0 where
  pub seed : Option ℕ
  pub connect : Option ℕ
  pub config_defaults : Option ℕ
  pub setup : Option ℕ
  pub password : Option ℕ
  pub handshakes : List Handshake
  pub petition_write : Option ℕ
  pub request_write : Option ℕ
  pub replies : List Io

pub data EspErr : Type 0 where
  esp_ok esp_fail invalid_arg : EspErr

-- What the call leaves: its result, `s_last_error`, and the bytes of `dataset` up to
-- `*dataset_len` (none where the code did not write the length).
pub record Fetched : Type 0 where
  pub err : EspErr
  pub last_error : LastError
  pub dataset : Option (List ℕ)

abbrev pub fail : LastError → Checked Fetched
fail e = ok (record { err = esp_fail; last_error = e; dataset = some [] })

abbrev is_empty : Option (List ℕ) → Bool
is_empty none = true
is_empty (some []) = true
is_empty (some (_ ∷ _)) = false

unfoldable pub invalid_args : FetchArgs → Bool
invalid_args a =
    is_empty a.addr
    || (a.port == 0)
    || is_empty a.passcode
    || not a.dataset
    || not a.dataset_len
    || (a.dataset_cap == 0)

-- The second half: the answer to MGMT_ACTIVE_GET.
unfoldable pub take_payload : ℕ → Option (List ℕ) → Checked Fetched
take_payload cap none = fail no_dataset
take_payload cap (some p) =
    if length p == 0
    then fail no_dataset
    else if ltb cap (length p)
    then fail dataset_too_large
    else ok (record { err = esp_ok; last_error = no_error; dataset = some p })

unfoldable pub take_dataset : ℕ → List ℕ → Checked Fetched
unfolding take_payload
take_dataset cap reply = do
  success ← coap_is_success (some reply)
  if not success
      then fail rejected_request
      else do payload ← coap_payload (some reply) true; take_payload cap payload

unfoldable pub dataset_reply : ℕ → Io → Checked Fetched
dataset_reply cap (failed code) = fail (no_dataset_reply code)
dataset_reply cap (received r) = take_dataset cap r

unfoldable pub request_dataset : ℕ → Peer → List Io → Checked Fetched
unfolding dataset_reply
request_dataset cap peer replies = elim (peer.request_write) [
  | some code ↦ fail (request_failed code)
  | none ↦ do (reply, rest) ← read_real_response 4 replies; dataset_reply cap reply
]

-- The answer to the petition, and on its acceptance the rest.
unfoldable pub petition_reply : ℕ → Peer → Io → List Io → Checked Fetched
petition_reply cap peer (failed code) rest = fail (no_petition_reply code)
petition_reply cap peer (received r) rest = do
  success ← coap_is_success (some r)
  if not success then fail rejected_petition else do
    accept ← petition_was_accepted (some r)
    if not accept then fail declined_petition else request_dataset cap peer rest

unfoldable pub petition : ℕ → Peer → Checked Fetched
unfolding petition_reply
petition cap peer = elim (peer.petition_write) [
  | some code ↦ fail (petition_send_failed code)
  | none ↦ do (reply, rest) ← read_real_response 4 peer.replies; petition_reply cap peer reply rest
]

unfoldable pub after_handshake : ℕ → Peer → Option LastError → Checked Fetched
after_handshake cap peer (some e) = fail e
after_handshake cap peer none = petition cap peer

-- A set-up call: on an error `goto done`, with the text that the code has set by then.
abbrev pub setup_step : Option ℕ → (ℕ → LastError) → Checked Fetched → Checked Fetched
setup_step (some code) e next = fail (e code)
setup_step none e next = next

unfoldable pub fetch_dataset : FetchArgs → Peer → Checked Fetched
unfolding after_handshake
fetch_dataset a peer =
    if invalid_args a
    then ok (record { err = invalid_arg; last_error = invalid_details; dataset = none })
    else setup_step peer.seed (λ _. no_error)
        (setup_step peer.connect could_not_reach (
          setup_step peer.config_defaults (λ _. no_error)
            (setup_step peer.setup (λ _. no_error)
              (setup_step peer.password (λ _. no_error)
                (handshake_loop peer.handshakes >>= after_handshake a.dataset_cap peer)))))
