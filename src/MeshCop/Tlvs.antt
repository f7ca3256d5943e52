-- ===== src/MeshCop/Tlvs.antt =====
-- main/meshcop_codec.h: one round of the loop of `meshcop_petition_was_accepted`.
use cores3_epskc_commissione.Base.{
  ℕ, ◌/◌, ◌%◌, ◌<◌, ◌≤◌, ◌≡◌, refl, sym, ap, ◌≢◌, inl, inr, true, false, List, [], ◌∷◌, ◌++◌, ltb,
  ◌==◌, length, Bytes, take, drop, take-append-drop, length-append, arith, Bool-cases, le→ltb,
  ltb→le, ==_iff,
}
use cores3_epskc_commissione.Base.Checked.{
  Checked, ok, ◌>>=◌, byte_at, advance-le, drop-append, length-take_le,
}
use cores3_epskc_commissione.MeshCop.Codec.{
  word16, tlv_length, state_tlv, state_accept, TlvStep, answer, further, petition_value,
  petition_step,
}
use cores3_epskc_commissione.MeshCop.Format.{Tlv, TlvFits, encode_tlv}

-- What the round does behind the length.
pub data ValueStep (kind len : ℕ) (value : List ℕ) : Checked TlvStep → Type 0 where
  declined : ValueStep kind len value (ok (answer false))
  accepted :
      (after : List ℕ)
      → kind ≡ state_tlv
      → len ≡ 1
      → value ≡ state_accept ∷ after
      → ValueStep kind len value (ok (answer true))
  passed :
      (v after : List ℕ)
      → kind ≢ state_tlv
      → length v ≡ len
      → value ≡ v ++ after
      → ValueStep kind len value (ok (further after))

abbrev one_byte : (kind : ℕ) (value : List ℕ) → Checked TlvStep
one_byte kind value = do v ← byte_at 0 value; ok (answer (v == state_accept))

one_byte-ValueStep :
    (kind : ℕ) (value : List ℕ)
    → kind ≡ state_tlv
    → 1 ≤ length value
    → ValueStep kind 1 value (one_byte kind value)
one_byte-ValueStep kind [] e l = absurd (omega arith)
one_byte-ValueStep kind (v ∷ after) e l = elim (Bool-cases (v == state_accept)) [
  | inl s ↦ rw s (accepted after e refl (ap (λ x. x ∷ after) ((==_iff v state_accept).0 s)))
  | inr s ↦ rw s declined
]

module _ (kind len : ℕ) (value : List ℕ) where
  petition_value-short :
      ltb (length value) len ≡ true → petition_value kind len value ≡ ok (answer false)
  unfolding petition_value
  petition_value-short e = rw e

  petition_value-one :
      ltb (length value) len ≡ false
      → (kind == state_tlv) ≡ true
      → (len == 1) ≡ true
      → petition_value kind len value ≡ one_byte kind value
  unfolding petition_value
  petition_value-one e f g = rw (e, f, g)

  petition_value-long :
      ltb (length value) len ≡ false
      → (kind == state_tlv) ≡ true
      → (len == 1) ≡ false
      → petition_value kind len value ≡ ok (answer false)
  unfolding petition_value
  petition_value-long e f g = rw (e, f, g)

  petition_value-other :
      ltb (length value) len ≡ false
      → (kind == state_tlv) ≡ false
      → petition_value kind len value ≡ ok (further (drop len value))
  unfolding petition_value
  petition_value-other e f = rw (e, f, advance-le len value (ltb→le _ _ e))

pub petition_value-ValueStep :
    (kind len : ℕ) (value : List ℕ) → ValueStep kind len value (petition_value kind len value)
petition_value-ValueStep kind len value = elim (Bool-cases (ltb (length value) len)) [
  | inl e ↦ rw (petition_value-short kind len value e) declined
  | inr e ↦ elim (Bool-cases (kind == state_tlv)) [
    | inr f ↦ rw (petition_value-other kind len value e f) (
        passed (take len value) (drop len value) (λ k. cc (f, (==_iff kind state_tlv).1 k))
          (length-take_le len value (ltb→le _ _ e)) (sym (take-append-drop len value)))
    | inl f ↦ elim (Bool-cases (len == 1)) [
      | inr g ↦ rw (petition_value-long kind len value e f g) declined
      | inl g ↦
          let one : len ≡ 1 = (==_iff len 1).0 g in
          rw (petition_value-one kind len value e f g, one)
            (one_byte-ValueStep kind value ((==_iff kind state_tlv).0 f)
              (omega (arith, ltb→le _ _ e)))
    ]
  ]
]

-- What the round does with the TLV at the pointer.
pub data Stepped (from : List ℕ) : Checked TlvStep → Type 0 where
  declined : Stepped from (ok (answer false))
  accepted :
      (t : Tlv) (after : List ℕ)
      → TlvFits t
      → t.kind ≡ state_tlv
      → t.value ≡ state_accept ∷ []
      → from ≡ encode_tlv t ++ after
      → Stepped from (ok (answer true))
  passed :
      (t : Tlv) (after : List ℕ)
      → TlvFits t
      → t.kind ≢ state_tlv
      → from ≡ encode_tlv t ++ after
      → Stepped from (ok (further after))

Stepped-short :
    (kind len : ℕ) (rest : List ℕ)
    → len < 255
    → (r : Checked TlvStep) → ValueStep kind len rest r
    → Stepped (kind ∷ len ∷ rest) r
unfolding encode_tlv
Stepped-short kind len rest h _ declined = declined
Stepped-short kind len rest h _ (accepted after k one e) =
    accepted (record { kind = kind; extended = false; value = state_accept ∷ [] }) after
      (omega arith) k refl (rw (one, e))
Stepped-short kind len rest h _ (passed v after k l e) =
    passed (record { kind = kind; extended = false; value = v }) after (omega arith) k (rw (l, e))

Stepped-long :
    (kind hi lo : ℕ) (rest : List ℕ)
    → hi < 256
    → lo < 256
    → (r : Checked TlvStep) → ValueStep kind (word16 hi lo) rest r
    → Stepped (kind ∷ 0xff ∷ hi ∷ lo ∷ rest) r
unfolding encode_tlv
Stepped-long kind hi lo rest h k _ declined = declined
Stepped-long kind hi lo rest h k _ (accepted after s one e) =
    let a : hi ≡ 0 = omega arith in
    let b : lo ≡ 1 = omega arith in
    accepted (record { kind = kind; extended = true; value = state_accept ∷ [] }) after
      (omega arith) s refl (rw (a, b, e))
Stepped-long kind hi lo rest h k _ (passed v after s l e) =
    let a : length v / 256 ≡ hi = omega arith in
    let b : length v % 256 ≡ lo = omega arith in
    passed (record { kind = kind; extended = true; value = v }) after (omega arith) s (rw (a, b, e))

pub petition_step-short :
    (kind len : ℕ) (rest : List ℕ)
    → (len == 255) ≡ false
    → petition_step kind len rest ≡ petition_value kind len rest
unfolding petition_step tlv_length
petition_step-short kind len rest e = rw e

pub petition_step-long :
    (kind hi lo : ℕ) (rest : List ℕ)
    → petition_step kind 0xff (hi ∷ lo ∷ rest) ≡ petition_value kind (word16 hi lo) rest
unfolding petition_step tlv_length
petition_step-long kind hi lo rest = rw (le→ltb (length (hi ∷ lo ∷ rest)) 2 (omega arith))

petition_step-Stepped_long :
    (kind : ℕ) (rest : List ℕ)
    → Bytes rest
    → Stepped (kind ∷ 0xff ∷ rest) (petition_step kind 0xff rest)
petition_step-Stepped_long kind [] b = unfold petition_step tlv_length in declined
petition_step-Stepped_long kind (hi ∷ []) b = unfold petition_step tlv_length in declined
petition_step-Stepped_long kind (hi ∷ lo ∷ rest) b =
    rw (petition_step-long kind hi lo rest)
      (Stepped-long kind hi lo rest b.0 b.1.0 _ (petition_value-ValueStep kind (word16 hi lo) rest))

pub petition_step-Stepped :
    (kind len : ℕ) (rest : List ℕ)
    → len < 256
    → Bytes rest
    → Stepped (kind ∷ len ∷ rest) (petition_step kind len rest)
petition_step-Stepped kind len rest h b = elim (Bool-cases (len == 255)) [
  | inl e ↦
      let full : len ≡ 255 = (==_iff len 255).0 e in
      rw full (petition_step-Stepped_long kind rest b)
  | inr e ↦
      rw (petition_step-short kind len rest e)
        (Stepped-short kind len rest (ground arith) _ (petition_value-ValueStep kind len rest))
]

-- The round on an encoded TLV.
pub petition_value-accept :
    (kind : ℕ) (after : List ℕ)
    → kind ≡ state_tlv
    → petition_value kind 1 (state_accept ∷ after) ≡ ok (answer true)
petition_value-accept kind after k =
    petition_value-one kind 1 (state_accept ∷ after) (le→ltb _ 1 (omega arith)) ((==_iff _ _).1 k)
      refl

pub petition_value-skip :
    (kind : ℕ) (v after : List ℕ)
    → kind ≢ state_tlv
    → petition_value kind (length v) (v ++ after) ≡ ok (further after)
petition_value-skip kind v after k = rw (
  petition_value-other kind (length v) (v ++ after)
      (le→ltb _ _ (omega (arith, length-append v after))) (ground (arith, k)),
  drop-append v after,
)
