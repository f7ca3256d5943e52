-- ===== src/MeshCop/Replies.antt =====
-- main/meshcop.c: the replies of the peer, and the empty ACKs in front of a response.
use cores3_epskc_commissione.Base.{
  ℕ, zero, suc, ◌+◌, ◌/◌, ◌<◌, ◌≤◌, ◌≡◌, refl, ◌∙◌, inl, inr, true, false, ◌&&◌, not, Option, none,
  some, List, [], ◌∷◌, ltb, ◌==◌, length, All, Bytes, arith, Bool-cases,
}
use cores3_epskc_commissione.Base.Checked.{Checked, ok, Returns, Returns-bind, Returns-if}
use cores3_epskc_commissione.MeshCop.Codec.{
  coap_payload, coap_is_success, coap_is_empty_ack, petition_was_accepted,
}
use cores3_epskc_commissione.MeshCop.Message.{coap_payload_total}
use cores3_epskc_commissione.MeshCop.Petition.{petition_was_accepted_total}
use cores3_epskc_commissione.MeshCop.Client.{
  Io, failed, received, read_real_response, LastError, FetchArgs, Peer, Fetched, invalid_args,
  take_payload, take_dataset, dataset_reply, request_dataset, petition_reply, petition,
  handshake_loop, after_handshake, setup_step, fetch_dataset,
}

coap_is_empty_ack_total : (buf : List ℕ) → Returns (coap_is_empty_ack (some buf))
unfolding coap_is_empty_ack
coap_is_empty_ack_total [] = (false, refl)
coap_is_empty_ack_total (a ∷ []) = (false, refl)
coap_is_empty_ack_total (a ∷ b ∷ rest) = elim (Bool-cases (length (a ∷ b ∷ rest) == 4)) [
  | inl e ↦ ((a == 0x60) && (b == 0), rw e)
  | inr e ↦ (false, rw e)
]

coap_is_success_total : (buf : List ℕ) → Returns (coap_is_success (some buf))
unfolding coap_is_success
coap_is_success_total [] = (false, refl)
coap_is_success_total (a ∷ []) = (false, refl)
coap_is_success_total (a ∷ b ∷ rest) =
    Returns-if (ltb (length (a ∷ b ∷ rest)) 4) (false, refl)
      (Returns-if (not (a / 64 == 1)) (false, refl) (_, refl))

abbrev pub IoBytes : Io → Type 0
IoBytes (failed code) = Unit
IoBytes (received bs) = Bytes bs

-- What is read is one of the replies.
abbrev ReadBytes : Io × List Io → Type 0
ReadBytes r = IoBytes r.0 × All IoBytes r.1

-- A read that ends, having taken at most so many replies.
abbrev Read : ℕ → List Io → Checked (Io × List Io) → Type 0
Read attempts replies c =
    (r : Io × List Io) × (c ≡ ok r) × ReadBytes r × (length replies ≤ length r.1 + attempts)

read_real_response-Bytes :
    (attempts : ℕ) (replies : List Io)
    → All IoBytes replies
    → attempts ≤ length replies
    → Read attempts replies (read_real_response attempts replies)
read_real_response-Bytes zero replies h l =
    ((failed 1, replies), unfold read_real_response in refl, (tt, h), omega arith)
read_real_response-Bytes (suc attempts) [] h l = absurd (omega arith)
read_real_response-Bytes (suc attempts) (failed code ∷ replies) h l =
    ((failed code, replies), unfold read_real_response in refl, (tt, h.1), omega arith)
read_real_response-Bytes (suc attempts) (received [] ∷ replies) h l =
    ((failed 0, replies), unfold read_real_response in refl, (tt, h.1), omega arith)
read_real_response-Bytes (suc attempts) (received (b ∷ bs) ∷ replies) h l =
    go (coap_is_empty_ack_total (b ∷ bs))
      (read_real_response-Bytes attempts replies h.1 (omega arith))
  where
    go :
        Returns (coap_is_empty_ack (some (b ∷ bs)))
        → Read attempts replies (read_real_response attempts replies)
        → Read
            (suc attempts)
            (received (b ∷ bs) ∷ replies)
            (read_real_response (suc attempts) (received (b ∷ bs) ∷ replies))
    go (true, e) (r, e2, k, m) =
        (r, unfold read_real_response in rw (e, read_real_response) e2, k, omega arith)
    go (false, e) rest = (
      (received (b ∷ bs), replies),
      unfold read_real_response in rw (e, read_real_response),
      h,
      omega arith,
    )

take_payload_total : (cap : ℕ) (o : Option (List ℕ)) → Returns (take_payload cap o)
unfolding take_payload
take_payload_total cap none = (_, refl)
take_payload_total cap (some p) =
    Returns-if (length p == 0) (_, refl) (Returns-if (ltb cap (length p)) (_, refl) (_, refl))

take_dataset_total : (cap : ℕ) (reply : List ℕ) → Bytes reply → Returns (take_dataset cap reply)
unfolding take_dataset
take_dataset_total cap reply h =
    Returns-bind (coap_is_success (some reply)) _ (coap_is_success_total reply) λ s _.
      Returns-if (not s) (_, refl)
        (Returns-bind (coap_payload (some reply) true) _ (coap_payload_total reply h)
          λ o _. take_payload_total cap o)

dataset_reply_total : (cap : ℕ) (reply : Io) → IoBytes reply → Returns (dataset_reply cap reply)
unfolding dataset_reply
dataset_reply_total cap (failed code) h = (_, refl)
dataset_reply_total cap (received r) h = take_dataset_total cap r h

request_dataset_total :
    (cap : ℕ) (peer : Peer) (replies : List Io)
    → All IoBytes replies
    → 4 ≤ length replies
    → (w : Option ℕ) → peer.request_write ≡ w
    → Returns (request_dataset cap peer replies)
unfolding request_dataset
request_dataset_total cap peer replies h l (some code) e = rw e (_, refl)
request_dataset_total cap peer replies h l none e =
    let (r, e2, k, m) = read_real_response-Bytes 4 replies h l in
    rw (e, e2) (dataset_reply_total cap r.0 k.0)

petition_reply_total :
    (cap : ℕ) (peer : Peer) (reply : Io) (rest : List Io)
    → IoBytes reply
    → All IoBytes rest
    → 4 ≤ length rest
    → Returns (petition_reply cap peer reply rest)
unfolding petition_reply
petition_reply_total cap peer (failed code) rest h k l = (_, refl)
petition_reply_total cap peer (received r) rest h k l =
    Returns-bind (coap_is_success (some r)) _ (coap_is_success_total r) λ s _.
      Returns-if (not s) (_, refl)
        (Returns-bind (petition_was_accepted (some r)) _ (petition_was_accepted_total r h)
          λ a _. Returns-if (not a) (_, refl) (request_dataset_total cap peer rest k l _ refl))

petition_total :
    (cap : ℕ) (peer : Peer)
    → All IoBytes peer.replies
    → 8 ≤ length peer.replies
    → (w : Option ℕ) → peer.petition_write ≡ w
    → Returns (petition cap peer)
unfolding petition
petition_total cap peer h l (some code) e = rw e (_, refl)
petition_total cap peer h l none e =
    let (r, e2, k, m) = read_real_response-Bytes 4 peer.replies h (omega arith) in
    simp (petition, e, e2) (petition_reply_total cap peer r.0 r.1 k.0 k.1 (omega arith))

setup_total :
    (o : Option ℕ) (e : ℕ → LastError) {next : Checked Fetched}
    → Returns next
    → Returns (setup_step o e next)
setup_total (some code) e r = (_, refl)
setup_total none e r = r

shaken_total :
    (cap : ℕ) (peer : Peer)
    → All IoBytes peer.replies
    → 8 ≤ length peer.replies
    → (o : Option LastError) → Returns (after_handshake cap peer o)
unfolding after_handshake
shaken_total cap peer h l (some e) = (_, refl)
shaken_total cap peer h l none = petition_total cap peer h l _ refl

-- `meshcop_fetch_dataset` returns if the peer's messages are bytes, the handshake comes to an end, and
-- eight reads after it are answered, by a message or an error: it makes no more reads than these, and
-- no parser reads outside a message or loops. A peer that stays silent keeps it waiting.
pub fetch_dataset_total :
    (a : FetchArgs) (peer : Peer)
    → All IoBytes peer.replies
    → 8 ≤ length peer.replies
    → Returns (handshake_loop peer.handshakes)
    → Returns (fetch_dataset a peer)
unfolding fetch_dataset
fetch_dataset_total a peer h l (o, e) =
    Returns-if (invalid_args a) (_, refl)
      (setup_total peer.seed _ (
        setup_total peer.connect _ (
          setup_total peer.config_defaults _ (
            setup_total peer.setup _ (
              setup_total peer.password _ (
                Returns-bind (handshake_loop peer.handshakes) _ (o, e)
                  λ s _. shaken_total a.dataset_cap peer h l s))))))

abbrev pub acks : ℕ → List ℕ → List Io → List Io
acks zero ack rest = rest
acks (suc n) ack rest = received ack ∷ acks n ack rest

read_message :
    (attempts b : ℕ) (bs : List ℕ) (rest : List Io)
    → coap_is_empty_ack (some (b ∷ bs)) ≡ ok false
    → read_real_response (suc attempts) (received (b ∷ bs) ∷ rest) ≡ ok (received (b ∷ bs), rest)
unfolding read_real_response
read_message attempts b bs rest e = rw (e, read_real_response)

read_ack :
    (attempts id_hi id_lo : ℕ) (rest : List Io)
    → read_real_response (suc attempts) (received (0x60 ∷ 0 ∷ id_hi ∷ id_lo ∷ []) ∷ rest)
      ≡ read_real_response attempts rest
unfolding read_real_response coap_is_empty_ack
read_ack attempts id_hi id_lo rest = refl

skip_acks :
    (n attempts id_hi id_lo b : ℕ) (bs : List ℕ) (rest : List Io)
    → n < attempts
    → coap_is_empty_ack (some (b ∷ bs)) ≡ ok false
    → read_real_response attempts
        (acks n (0x60 ∷ 0 ∷ id_hi ∷ id_lo ∷ []) (received (b ∷ bs) ∷ rest))
      ≡ ok (received (b ∷ bs), rest)
skip_acks n zero id_hi id_lo b bs rest l e = absurd (omega arith)
skip_acks zero (suc attempts) id_hi id_lo b bs rest l e = read_message attempts b bs rest e
skip_acks (suc n) (suc attempts) id_hi id_lo b bs rest l e =
    read_ack attempts id_hi id_lo _ ∙ skip_acks n attempts id_hi id_lo b bs rest (omega arith) e

-- `read_real_response` skips up to three empty ACKs and returns the message behind them, where
-- that is not empty and no empty ACK; and four empty ACKs in a row are an error.
pub read_real_response-acks :
    (n id_hi id_lo b : ℕ) (bs : List ℕ) (rest : List Io)
    → n < 4
    → coap_is_empty_ack (some (b ∷ bs)) ≡ ok false
    → (read_real_response 4 (acks n (0x60 ∷ 0 ∷ id_hi ∷ id_lo ∷ []) (received (b ∷ bs) ∷ rest))
        ≡ ok (received (b ∷ bs), rest))
      × (read_real_response 4 (acks 4 (0x60 ∷ 0 ∷ id_hi ∷ id_lo ∷ []) rest) ≡ ok (failed 1, rest))
read_real_response-acks n id_hi id_lo b bs rest l e =
    (skip_acks n 4 id_hi id_lo b bs rest l e, unfold read_real_response coap_is_empty_ack in refl)
