-- ===== src/MeshCop/Tests.antt =====
-- main/meshcop_codec.h and main/meshcop.c: runs on the messages of tools/test_meshcop_codec.c and on
-- one exchange.
use cores3_epskc_commissione.Base.{
  ℕ, ◌≡◌, refl, ◌↔◌, true, false, none, some, List, [], ◌∷◌, All, arith,
}
use cores3_epskc_commissione.Base.Checked.{ok, Returns}
use cores3_epskc_commissione.MeshCop.Format.{Message, IsMessage, encode, Tlv, encode_tlvs}
use cores3_epskc_commissione.MeshCop.Codec.{
  coap_is_empty_ack, coap_is_success, coap_payload, petition_was_accepted, walk_options,
  petition_loop, petition_step, tlv_length, petition_value,
}
use cores3_epskc_commissione.MeshCop.Message.{coap_payload_iff}
use cores3_epskc_commissione.MeshCop.Petition.{Accepts, petition_was_accepted_iff}
use cores3_epskc_commissione.MeshCop.Client.{
  Io, failed, received, read_real_response, done, want_read, FetchArgs, Peer, Fetched,
  handshake_loop, invalid_args, petition, request_dataset, take_dataset, esp_ok, no_error,
  fetch_dataset,
}
use cores3_epskc_commissione.MeshCop.Fetch.{Obtains, fetch_dataset_ok}
use cores3_epskc_commissione.MeshCop.Replies.{fetch_dataset_total}
use cores3_epskc_commissione.MeshCop.Dataset.{Wanted, Line, print_tlvs, summarize}
use cores3_epskc_commissione.MeshCop.Dump.{Masked, print_tlvs-Masked}
use cores3_epskc_commissione.MeshCop.Decode.{summary_of, summarize-encode}

-- The messages of the test.
abbrev success : List ℕ
success = 0x61 ∷ 0x44 ∷ 0 ∷ 1 ∷ 0xaa ∷ 0xff ∷ 1 ∷ 2 ∷ []

abbrev petition_accept : List ℕ
petition_accept = 0x60 ∷ 0x44 ∷ 0 ∷ 1 ∷ 0xff ∷ 16 ∷ 1 ∷ 1 ∷ []

coap_payload_iff_example :
    (coap_payload (some success) true ≡ ok (some (1 ∷ 2 ∷ [])))
    ↔ ((m : Message) × IsMessage m × (success ≡ encode m (1 ∷ 2 ∷ [])))
coap_payload_iff_example = coap_payload_iff success (1 ∷ 2 ∷ []) (ground arith)

petition_was_accepted_iff_example : (petition_was_accepted (some petition_accept) ≡ ok true) ↔ (
    (m : Message) × (payload : List ℕ) × IsMessage m
    × (petition_accept ≡ encode m payload)
    × Accepts payload)
petition_was_accepted_iff_example = petition_was_accepted_iff petition_accept (ground arith)

-- One exchange: an empty ACK, the accepted petition, and a dataset of two bytes.
abbrev args : FetchArgs
args = record {
  addr = some (b'a' ∷ []);
  port = 49191;
  passcode = some (b'p' ∷ []);
  dataset = true;
  dataset_cap = 254;
  dataset_len = true;
}

abbrev peer_of : List Io → Peer
peer_of replies = record {
  seed = none;
  connect = none;
  config_defaults = none;
  setup = none;
  password = none;
  handshakes = want_read ∷ done ∷ [];
  petition_write = none;
  request_write = none;
  replies = replies;
}

-- The reads after the peer has closed the session.
abbrev closed : List Io
closed = failed 1 ∷ failed 1 ∷ failed 1 ∷ failed 1 ∷ failed 1 ∷ []

abbrev peer : Peer
peer =
    peer_of
      (received (0x60 ∷ 0 ∷ 0 ∷ 1 ∷ []) ∷ received petition_accept ∷ received success ∷ closed)

abbrev obtained : Fetched
obtained = record { err = esp_ok; last_error = no_error; dataset = some (1 ∷ 2 ∷ []) }

fetch_dataset_ok_example :
    (d : List ℕ) × (obtained.dataset ≡ some d)
    × (obtained.last_error ≡ no_error)
    × Obtains args peer d
unfolding fetch_dataset invalid_args handshake_loop petition read_real_response coap_is_empty_ack
    coap_is_success petition_was_accepted coap_payload walk_options petition_loop petition_step
    tlv_length petition_value request_dataset take_dataset
fetch_dataset_ok_example = fetch_dataset_ok args peer obtained refl refl

fetch_dataset_total_example : Returns (fetch_dataset args peer)
unfolding handshake_loop
fetch_dataset_total_example =
    fetch_dataset_total args peer (ground arith) (omega arith) (none, refl)

-- A dataset: a channel, a name and the network key.
abbrev dataset : List Tlv
dataset =
    record { kind = 0; extended = false; value = 0 ∷ 0 ∷ 15 ∷ [] }
    ∷ record { kind = 3; extended = false; value = b'h' ∷ b'i' ∷ [] }
    ∷ record { kind = 5; extended = true; value = 1 ∷ 2 ∷ 3 ∷ [] }
    ∷ []

abbrev wanted : Wanted
wanted = record { name_cap = 17; channel = true; panid = true }

print_tlvs-Masked_example :
    (lines : List Line) × (print_tlvs false (encode_tlvs dataset) ≡ ok lines) × All Masked lines
print_tlvs-Masked_example = print_tlvs-Masked (encode_tlvs dataset)

summarize-encode_example :
    summarize wanted (encode_tlvs dataset)
    ≡ ok (summary_of wanted dataset (record { name = []; channel = 0; panid = 0 }))
summarize-encode_example = summarize-encode wanted dataset (ground arith)
