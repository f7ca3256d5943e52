-- ===== src/MeshCop/Fetch.antt =====
-- main/meshcop.c: how `meshcop_fetch_dataset` may end.
use cores3_epskc_commissione.Base.{
  ℕ, ◌<◌, ◌≤◌, ◌≡◌, refl, ◌≢◌, ◌⊎◌, inl, inr, Bool, true, false, Option, none, some, List, [], ltb,
  ◌==◌, length, arith, Bool-cases, ltb→le,
}
use cores3_epskc_commissione.Base.Checked.{Checked, ok, oob, stuck}
use cores3_epskc_commissione.MeshCop.Codec.{coap_payload, coap_is_success, petition_was_accepted}
use cores3_epskc_commissione.MeshCop.Client.{
  Io, failed, received, read_real_response, LastError, no_error, FetchArgs, Peer, esp_ok,
  invalid_arg, Fetched, fail, invalid_args, take_dataset, request_dataset, petition, handshake_loop,
  fetch_dataset,
}

-- The peer accepted the petition, and answered the request with the dataset `d`.
pub record Exchange (peer : Peer) (d : List ℕ) : Type 0 where
  pub petition_reply : List ℕ
  pub between : List Io
  pub dataset_reply : List ℕ
  pub after : List Io
  pub petition_read : read_real_response 4 peer.replies ≡ ok (received petition_reply, between)
  pub petition_success : coap_is_success (some petition_reply) ≡ ok true
  pub petition_accepted : petition_was_accepted (some petition_reply) ≡ ok true
  pub dataset_read : read_real_response 4 between ≡ ok (received dataset_reply, after)
  pub dataset_success : coap_is_success (some dataset_reply) ≡ ok true
  pub payload : coap_payload (some dataset_reply) true ≡ ok (some d)

-- How a call may end.
pub data Ends (P : List ℕ → Type 0) : Checked Fetched → Type 0 where
  fault : Ends P oob
  waits : Ends P stuck
  fails : (e : LastError) → Ends P (fail e)
  refuses :
      (e : LastError) → Ends P (ok (record { err = invalid_arg; last_error = e; dataset = none }))
  succeeds :
      (d : List ℕ)
      → P d
      → Ends P (ok (record { err = esp_ok; last_error = no_error; dataset = some d }))

abbrev Fits : ℕ → List ℕ → List ℕ → Type 0
Fits cap reply d =
    (0 < length d)
    × (length d ≤ cap)
    × (coap_is_success (some reply) ≡ ok true)
    × (coap_payload (some reply) true ≡ ok (some d))

take_payload-Ends :
    (cap : ℕ) (reply : List ℕ) (o : Option (List ℕ))
    → coap_is_success (some reply) ≡ ok true
    → coap_payload (some reply) true ≡ ok o
    → Ends (Fits cap reply) (take_dataset cap reply)
unfolding take_dataset
take_payload-Ends cap reply none s e = rw (s, e) (fails _)
take_payload-Ends cap reply (some p) s e =
    rw (s, e)
      (elim (Bool-cases (length p == 0)) [
        | inl z ↦ rw z (fails _)
        | inr z ↦ elim (Bool-cases (ltb cap (length p))) [
          | inl l ↦ rw (z, l) (fails _)
          | inr l ↦ rw (z, l) (succeeds p (ground arith, ltb→le _ _ l, s, e))
        ]
      ])

take_success-Ends :
    (cap : ℕ) (reply : List ℕ) (r : Checked (Option (List ℕ)))
    → coap_is_success (some reply) ≡ ok true
    → coap_payload (some reply) true ≡ r
    → Ends (Fits cap reply) (take_dataset cap reply)
unfolding take_dataset
take_success-Ends cap reply (ok o) s e = take_payload-Ends cap reply o s e
take_success-Ends cap reply oob s e = rw (s, e) fault
take_success-Ends cap reply stuck s e = rw (s, e) waits

take_dataset-Ends :
    (cap : ℕ) (reply : List ℕ) (r : Checked Bool)
    → coap_is_success (some reply) ≡ r
    → Ends (Fits cap reply) (take_dataset cap reply)
unfolding take_dataset
take_dataset-Ends cap reply (ok true) s = take_success-Ends cap reply _ s refl
take_dataset-Ends cap reply (ok false) s = rw s (fails _)
take_dataset-Ends cap reply oob s = rw s fault
take_dataset-Ends cap reply stuck s = rw s waits

abbrev Answers : ℕ → List Io → List ℕ → Type 0
Answers cap replies d =
    (reply : List ℕ) × (after : List Io) × (read_real_response 4 replies
      ≡ ok (received reply, after))
    × Fits cap reply d

Ends-map :
    {P Q : List ℕ → Type 0} {r : Checked Fetched} → ((d : List ℕ) → P d → Q d) → Ends P r → Ends Q r
Ends-map f fault = fault
Ends-map f waits = waits
Ends-map f (fails e) = fails e
Ends-map f (refuses e) = refuses e
Ends-map f (succeeds d p) = succeeds d (f d p)

module _ (cap : ℕ) (peer : Peer) where
  request_read-Ends :
      (replies : List Io) (r : Checked (Io × List Io))
      → peer.request_write ≡ none
      → read_real_response 4 replies ≡ r
      → Ends (Answers cap replies) (request_dataset cap peer replies)
  unfolding request_dataset
  request_read-Ends replies (ok (failed code, rest)) w e = rw (w, e) (fails _)
  request_read-Ends replies (ok (received reply, rest)) w e =
      rw (w, e) (Ends-map (λ d f. (reply, rest, e, f)) (take_dataset-Ends cap reply _ refl))
  request_read-Ends replies oob w e = rw (w, e) fault
  request_read-Ends replies stuck w e = rw (w, e) waits

  request_dataset-Ends :
      (replies : List Io) (w : Option ℕ)
      → peer.request_write ≡ w
      → Ends (Answers cap replies) (request_dataset cap peer replies)
  unfolding request_dataset
  request_dataset-Ends replies (some code) e = rw e (fails _)
  request_dataset-Ends replies none e = request_read-Ends replies _ e refl

  abbrev Fetches : List ℕ → Type 0
  Fetches d = (0 < length d) × (length d ≤ cap) × Exchange peer d

  -- The petition was written and answered by `reply`.
  module _ (reply : List ℕ) (rest : List Io) (w : peer.petition_write ≡ none)
      (e : read_real_response 4 peer.replies ≡ ok (received reply, rest)) where
    petition_judge-Ends :
        (r : Checked Bool)
        → coap_is_success (some reply) ≡ ok true
        → petition_was_accepted (some reply) ≡ r
        → Ends Fetches (petition cap peer)
    unfolding petition
    petition_judge-Ends (ok true) s a =
        simp (petition, w, e, s, a)
          (Ends-map
            (λ d f.
              let (reply', after, e', (small, fits, s', p)) = f in
              (
                small,
                fits,
                record {
                  petition_reply = reply;
                  between = rest;
                  dataset_reply = reply';
                  after = after;
                  petition_read = e;
                  petition_success = s;
                  petition_accepted = a;
                  dataset_read = e';
                  dataset_success = s';
                  payload = p;
                },
              ))
            (request_dataset-Ends rest _ refl))
    petition_judge-Ends (ok false) s a = rw (w, e, s, a) (fails _)
    petition_judge-Ends oob s a = rw (w, e, s, a) fault
    petition_judge-Ends stuck s a = rw (w, e, s, a) waits

    petition_success-Ends :
        (r : Checked Bool) → coap_is_success (some reply) ≡ r → Ends Fetches (petition cap peer)
    unfolding petition
    petition_success-Ends (ok true) s = petition_judge-Ends _ s refl
    petition_success-Ends (ok false) s = rw (w, e, s) (fails _)
    petition_success-Ends oob s = rw (w, e, s) fault
    petition_success-Ends stuck s = rw (w, e, s) waits

  petition_read-Ends :
      (r : Checked (Io × List Io))
      → peer.petition_write ≡ none
      → read_real_response 4 peer.replies ≡ r
      → Ends Fetches (petition cap peer)
  unfolding petition
  petition_read-Ends (ok (failed code, rest)) w e = rw (w, e) (fails _)
  petition_read-Ends (ok (received reply, rest)) w e = petition_success-Ends reply rest w e _ refl
  petition_read-Ends oob w e = rw (w, e) fault
  petition_read-Ends stuck w e = rw (w, e) waits

  petition-Ends : (w : Option ℕ) → peer.petition_write ≡ w → Ends Fetches (petition cap peer)
  unfolding petition
  petition-Ends (some code) e = rw e (fails _)
  petition-Ends none e = petition_read-Ends _ e refl

-- The set-up calls and the handshake, in front of the petition.
module _ (a : FetchArgs) (peer : Peer) where
  abbrev pub Obtains : List ℕ → Type 0
  Obtains d =
      (handshake_loop peer.handshakes ≡ ok none)
      × (invalid_args a ≡ false)
      × Fetches a.dataset_cap peer d

  fetch-Ends :
      (b : Bool) (s c d u p : Option ℕ) (h : Checked (Option LastError))
      → invalid_args a ≡ b
      → peer.seed ≡ s
      → peer.connect ≡ c
      → peer.config_defaults ≡ d
      → peer.setup ≡ u
      → peer.password ≡ p
      → handshake_loop peer.handshakes ≡ h
      → Ends Obtains (fetch_dataset a peer)
  unfolding fetch_dataset
  fetch-Ends true s c d u p h i is ic id iu ip ih = rw i (refuses _)
  fetch-Ends false (some _) c d u p h i is ic id iu ip ih = rw (i, is) (fails _)
  fetch-Ends false none (some _) d u p h i is ic id iu ip ih = rw (i, is, ic) (fails _)
  fetch-Ends false none none (some _) u p h i is ic id iu ip ih = rw (i, is, ic, id) (fails _)
  fetch-Ends false none none none (some _) p h i is ic id iu ip ih =
      rw (i, is, ic, id, iu) (fails _)
  fetch-Ends false none none none none (some _) h i is ic id iu ip ih =
      rw (i, is, ic, id, iu, ip) (fails _)
  fetch-Ends false none none none none none (ok (some e)) i is ic id iu ip ih =
      rw (i, is, ic, id, iu, ip, ih) (fails _)
  fetch-Ends false none none none none none oob i is ic id iu ip ih =
      rw (i, is, ic, id, iu, ip, ih) fault
  fetch-Ends false none none none none none stuck i is ic id iu ip ih =
      rw (i, is, ic, id, iu, ip, ih) waits
  fetch-Ends false none none none none none (ok none) i is ic id iu ip ih =
      simp (i, is, ic, id, iu, ip, ih)
        (Ends-map (λ d f. (ih, i, f)) (petition-Ends a.dataset_cap peer _ refl))

Ends-ok :
    {P : List ℕ → Type 0} {r : Checked Fetched}
    → Ends P r
    → (f : Fetched) → r ≡ ok f
    → f.err ≡ esp_ok
    → (d : List ℕ) × (f.dataset ≡ some d) × (f.last_error ≡ no_error) × P d
Ends-ok fault f e k = cc
Ends-ok waits f e k = cc
Ends-ok (fails x) f e k = ground arith
Ends-ok (refuses x) f e k = ground arith
Ends-ok (succeeds d p) f e k = (d, ground arith, ground arith, p)

Ends-error :
    {P : List ℕ → Type 0} {r : Checked Fetched}
    → Ends P r
    → (f : Fetched) → r ≡ ok f
    → f.err ≢ esp_ok
    → (f.dataset ≡ none) ⊎ (f.dataset ≡ some [])
Ends-error fault f e k = cc
Ends-error waits f e k = cc
Ends-error (fails x) f e k = ground arith
Ends-error (refuses x) f e k = ground arith
Ends-error (succeeds d p) f e k = ground arith

-- If `meshcop_fetch_dataset` returns ESP_OK, it leaves a dataset `d`, not empty and no longer than
-- the caller's buffer, and no error text; its arguments were valid, the handshake finished, the
-- border agent answered the petition with a CoAP success that accepts it, and the reply after that
-- was a CoAP success whose payload is `d`.
pub fetch_dataset_ok :
    (a : FetchArgs) (peer : Peer) (f : Fetched)
    → fetch_dataset a peer ≡ ok f
    → f.err ≡ esp_ok
    → (d : List ℕ) × (f.dataset ≡ some d) × (f.last_error ≡ no_error) × Obtains a peer d
fetch_dataset_ok a peer f e k =
    Ends-ok (fetch-Ends a peer _ _ _ _ _ _ _ refl refl refl refl refl refl refl) f e k

-- If `meshcop_fetch_dataset` returns an error, it has written no dataset: the length is zero, or
-- was not written at all.
pub fetch_dataset_error :
    (a : FetchArgs) (peer : Peer) (f : Fetched)
    → fetch_dataset a peer ≡ ok f
    → f.err ≢ esp_ok
    → (f.dataset ≡ none) ⊎ (f.dataset ≡ some [])
fetch_dataset_error a peer f e k =
    Ends-error (fetch-Ends a peer _ _ _ _ _ _ _ refl refl refl refl refl refl refl) f e k
