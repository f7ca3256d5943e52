-- ===== src/MeshCop/Petition.antt =====
-- main/meshcop_codec.h: `meshcop_petition_was_accepted` and the encoder of TLVs.
use cores3_epskc_commissione.Base.{
  ℕ, zero, suc, ◌/◌, ◌%◌, ◌<◌, ◌≤◌, ◌≡◌, refl, sym, ap, subst, ◌∙◌, ◌≢◌, ◌↔◌, Bool, true, false,
  Option, some, List, [], ◌∷◌, ◌++◌, append_assoc, length, All, Bytes, IsByte, length-append, arith,
  All-append_right,
}
use cores3_epskc_commissione.Base.Checked.{Checked, ok}
use cores3_epskc_commissione.MeshCop.Codec.{
  word16, coap_payload, state_tlv, state_accept, TlvStep, answer, further, petition_value,
  petition_step, petition_loop, petition_was_accepted,
}
use cores3_epskc_commissione.MeshCop.Format.{
  Tlv, TlvFits, encode_tlv, encode_tlvs, Message, IsMessage, encode, encode_options,
}
use cores3_epskc_commissione.MeshCop.Tlvs.{
  Stepped, declined, accepted, passed, petition_step-Stepped, petition_step-short,
  petition_step-long, petition_value-accept, petition_value-skip,
}
use cores3_epskc_commissione.MeshCop.Message.{
  Parsed, rejected, message, coap_payload-Parsed, coap_payload_iff,
}

abbrev pub IsOther : Tlv → Type 0
IsOther t = TlvFits t × (t.kind ≢ state_tlv)

-- A payload in which the first State TLV says Accept, and every TLV before it is whole.
pub record Accepts (payload : List ℕ) : Type 0 where
  pub before : List Tlv
  pub state : Tlv
  pub after : List ℕ
  pub others : All IsOther before
  pub fits : TlvFits state
  pub is_state : state.kind ≡ state_tlv
  pub accept : state.value ≡ state_accept ∷ []
  pub split : payload ≡ encode_tlvs before ++ (encode_tlv state ++ after)

abbrev continue : ℕ → TlvStep → Checked Bool
continue fuel (answer b) = ok b
continue fuel (further after) = petition_loop fuel after

petition_loop-step :
    (fuel kind len : ℕ) (rest : List ℕ) (s : TlvStep)
    → petition_step kind len rest ≡ ok s
    → petition_loop (suc fuel) (kind ∷ len ∷ rest) ≡ continue fuel s
unfolding petition_loop
petition_loop-step fuel kind len rest (answer b) e = rw (e, petition_loop)
petition_loop-step fuel kind len rest (further a) e = rw (e, petition_loop)

petition_loop-encode :
    (fuel kind : ℕ) (extended : Bool) (v after : List ℕ) (s : TlvStep)
    → TlvFits (record { kind = kind; extended = extended; value = v })
    → petition_value kind (length v) (v ++ after) ≡ ok s
    → petition_loop
        (suc fuel)
        (encode_tlv (record { kind = kind; extended = extended; value = v }) ++ after)
      ≡ continue fuel s
unfolding encode_tlv
petition_loop-encode fuel kind false v after s h e =
    petition_loop-step fuel kind (length v) (v ++ after) s
      (petition_step-short kind (length v) (v ++ after) (ground arith) ∙ e)
petition_loop-encode fuel kind true v after s h e = petition_loop-step fuel kind 0xff _ s (
    petition_step-long kind (length v / 256) (length v % 256) (v ++ after) ∙ rw (join (length v)) e)
  where
    join : (n : ℕ) → word16 (n / 256) (n % 256) ≡ n
    join n = omega arith

petition_loop-Accepts :
    (fuel : ℕ) (before : List Tlv) (t : Tlv) (after : List ℕ)
    → length before < fuel
    → All IsOther before
    → TlvFits t
    → t.kind ≡ state_tlv
    → t.value ≡ state_accept ∷ []
    → petition_loop fuel (encode_tlvs before ++ (encode_tlv t ++ after)) ≡ ok true
unfolding encode_tlvs
petition_loop-Accepts zero before t after l o h k v = absurd (omega arith)
petition_loop-Accepts (suc fuel) [] t after l o h k v =
    petition_loop-encode fuel t.kind t.extended t.value after (answer true) h
      (rw v (petition_value-accept t.kind after k))
petition_loop-Accepts (suc fuel) (b ∷ before) t after l o h k v = rw append_assoc (
    petition_loop-encode fuel b.kind b.extended b.value _ (further _) o.0.0
      (petition_value-skip b.kind b.value _ o.0.1)
    ∙ petition_loop-Accepts fuel before t after (omega arith) o.1 h k v)

-- What the loop answers.
pub data Answered (payload : List ℕ) : Checked Bool → Type 0 where
  refused : Answered payload (ok false)
  granted : Accepts payload → Answered payload (ok true)

length-encode_tlv : (t : Tlv) → 2 ≤ length (encode_tlv t)
unfolding encode_tlv
length-encode_tlv t = ground arith

Answered-passed :
    (t : Tlv) (after : List ℕ)
    → IsOther t
    → (r : Checked Bool) → Answered after r
    → Answered (encode_tlv t ++ after) r
Answered-passed t after o _ refused = refused
Answered-passed t after o _ (granted a) = granted (record {
  before = t ∷ a.before;
  state = a.state;
  after = a.after;
  others = (o, a.others);
  fits = a.fits;
  is_state = a.is_state;
  accept = a.accept;
  split = unfold encode_tlvs in rw (append_assoc, ← a.split);
})

module _ (fuel kind len : ℕ) (rest : List ℕ) (h : Bytes (kind ∷ len ∷ rest))
    (l : length (kind ∷ len ∷ rest) ≤ suc fuel)
    (loop : (after : List ℕ)
      → Bytes after
      → length after ≤ fuel
      → Answered after (petition_loop fuel after)) where
  Answered-step :
      (r : Checked TlvStep)
      → petition_step kind len rest ≡ r
      → Stepped (kind ∷ len ∷ rest) r
      → Answered (kind ∷ len ∷ rest) (petition_loop (suc fuel) (kind ∷ len ∷ rest))
  Answered-step _ e declined = rw (petition_loop-step fuel kind len rest _ e) refused
  Answered-step _ e (accepted t after f k v s) = rw (petition_loop-step fuel kind len rest _ e) (
      granted (record {
        before = [];
        state = t;
        after = after;
        others = tt;
        fits = f;
        is_state = k;
        accept = v;
        split = unfold encode_tlvs in s;
      }))
  Answered-step _ e (passed t after f k s) = rw (petition_loop-step fuel kind len rest _ e) (
      subst (λ from. Answered from (petition_loop fuel after)) (sym s)
        (Answered-passed t after (f, k) _
          (loop after (All-append_right IsByte (encode_tlv t) after (subst Bytes s h))
            (omega (arith, ap length s, length-append (encode_tlv t) after, length-encode_tlv t)))))

pub petition_loop-Answered :
    (fuel : ℕ) (payload : List ℕ)
    → Bytes payload
    → length payload ≤ fuel
    → Answered payload (petition_loop fuel payload)
petition_loop-Answered fuel [] h l = unfold petition_loop in refused
petition_loop-Answered fuel (kind ∷ []) h l = unfold petition_loop in refused
petition_loop-Answered zero (kind ∷ len ∷ rest) h l = absurd (omega arith)
petition_loop-Answered (suc fuel) (kind ∷ len ∷ rest) h l =
    Answered-step fuel kind len rest h l (petition_loop-Answered fuel) _ refl
      (petition_step-Stepped kind len rest h.1.0 h.1.1)

-- What `meshcop_petition_was_accepted` says of a response.
pub data Judged (buf : List ℕ) : Checked Bool → Type 0 where
  no_accept : Judged buf (ok false)
  accept :
      (m : Message) (payload : List ℕ)
      → IsMessage m
      → buf ≡ encode m payload
      → Accepts payload
      → Judged buf (ok true)

Judged-payload :
    (buf : List ℕ) (m : Message) (payload : List ℕ)
    → IsMessage m
    → buf ≡ encode m payload
    → (r : Checked Bool) → Answered payload r
    → Judged buf r
Judged-payload buf m payload w e _ refused = no_accept
Judged-payload buf m payload w e _ (granted a) = accept m payload w e a

Bytes-payload : (m : Message) (payload : List ℕ) → Bytes (encode m payload) → Bytes payload
unfolding encode
Bytes-payload m payload h =
    (All-append_right IsByte (encode_options m.options) _
      (All-append_right IsByte m.token _ h.1.1.1.1)).1

Judged-Parsed :
    (buf : List ℕ)
    → Bytes buf
    → (r : Checked (Option (List ℕ))) → coap_payload (some buf) true ≡ r
    → Parsed buf r
    → Judged buf (petition_was_accepted (some buf))
unfolding petition_was_accepted
Judged-Parsed buf h _ e rejected = rw (e, petition_was_accepted) no_accept
Judged-Parsed buf h _ e (message m payload w s) =
    rw (e, petition_was_accepted)
      (Judged-payload buf m payload w s _ (
        petition_loop-Answered (length payload) payload (Bytes-payload m payload (subst Bytes s h))
          (omega arith)))

pub petition-Judged : (buf : List ℕ) → Bytes buf → Judged buf (petition_was_accepted (some buf))
petition-Judged buf h = Judged-Parsed buf h _ refl (coap_payload-Parsed buf h)

Judged-total : {buf : List ℕ} {r : Checked Bool} → Judged buf r → (b : Bool) × (r ≡ ok b)
Judged-total no_accept = (false, refl)
Judged-total (accept m p w e a) = (true, refl)

Judged-true :
    {buf : List ℕ} {r : Checked Bool}
    → Judged buf r
    → r ≡ ok true
    → (m : Message) × (payload : List ℕ) × IsMessage m × (buf ≡ encode m payload) × Accepts payload
Judged-true no_accept e = absurd (ok_ne e)
  where
    ok_ne : ◌≡◌ {A = Checked Bool} (ok false) (ok true) → ⊥
    ok_ne e = cc
Judged-true (accept m p w e a) e2 = (m, p, w, e, a)

length-encode_tlvs : (ts : List Tlv) (rest : List ℕ) → length ts ≤ length (encode_tlvs ts ++ rest)
unfolding encode_tlvs
length-encode_tlvs [] rest = omega arith
length-encode_tlvs (t ∷ ts) rest = rw append_assoc (
    omega (
      arith,
      length-append (encode_tlv t) (encode_tlvs ts ++ rest),
      length-encode_tlv t,
      length-encode_tlvs ts rest,
    ))

Accepts-loop :
    (payload : List ℕ) → Accepts payload → petition_loop (length payload) payload ≡ ok true
Accepts-loop payload a =
    subst (λ p. petition_loop (length p) p ≡ ok true) (sym a.split)
      (petition_loop-Accepts _ a.before a.state a.after
        (omega (
          arith,
          length-append (encode_tlvs a.before) (encode_tlv a.state ++ a.after),
          length-encode_tlvs a.before [],
          length-append (encode_tlv a.state) a.after,
          length-encode_tlv a.state,
          length-append (encode_tlvs a.before) [],
        ))
        a.others a.fits a.is_state a.accept)

petition-accept :
    (buf payload : List ℕ)
    → coap_payload (some buf) true ≡ ok (some payload)
    → Accepts payload
    → petition_was_accepted (some buf) ≡ ok true
unfolding petition_was_accepted
petition-accept buf payload e a = rw (e, petition_was_accepted) (Accepts-loop payload a)

-- On every response of bytes `meshcop_petition_was_accepted` answers: no read goes past the end
-- of the response or of its payload, and both loops end.
pub petition_was_accepted_total :
    (buf : List ℕ) → Bytes buf → (b : Bool) × (petition_was_accepted (some buf) ≡ ok b)
petition_was_accepted_total buf h = Judged-total (petition-Judged buf h)

-- For every response of bytes, `meshcop_petition_was_accepted` returns true exactly when the
-- response is a CoAP message with a payload that starts with whole TLVs of other types and then
-- has a State TLV whose value is the one byte Accept.
pub petition_was_accepted_iff :
    (buf : List ℕ)
    → Bytes buf
    → (petition_was_accepted (some buf) ≡ ok true) ↔ (
        (m : Message) × (payload : List ℕ) × IsMessage m
        × (buf ≡ encode m payload)
        × Accepts payload)
petition_was_accepted_iff buf h = (
  λ e. Judged-true (petition-Judged buf h) e,
  λ (m, payload, w, e, a).
      petition-accept buf payload ((coap_payload_iff buf payload h).1 (m, w, e)) a,
)
