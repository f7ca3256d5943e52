-- ===== src/MeshCop/Dump.antt =====
-- main/meshcop.c: `meshcop_print_tlvs` and `meshcop_summarize` on a dataset, and on any bytes.
use cores3_epskc_commissione.Base.{
  ℕ, zero, suc, ◌-◌, ◌≤◌, ◌≡◌, refl, ◌⊎◌, inl, inr, Bool, false, ◌&&◌, not, none, some, List, [],
  ◌∷◌, ltb, leb, ◌==◌, if◌then◌else◌, length, get_or, All, take, drop, arith, Bool-cases, ltb→le,
}
use cores3_epskc_commissione.Base.Checked.{
  Checked, ok, Returns, advance-le, byte_at-lt, length-drop,
}
use cores3_epskc_commissione.MeshCop.Codec.{word16}
use cores3_epskc_commissione.MeshCop.Dataset.{
  tlv_network_name, tlv_network_key, tlv_pskc, tlv_channel, tlv_panid, tlv_is_secret, open_tlv,
  hidden, Line, tlv, truncated, print_body, print_step, print_loop, print_tlvs, Summary, Wanted,
  note_tlv, summarize_step, summarize_loop, summarize,
}

-- Opening a TLV gives a length and a pointer that is not before the one given.
pub record Opened (len : ℕ) (rest : List ℕ) : Type 0 where
  pub size : ℕ
  pub value : List ℕ
  pub opens : open_tlv len rest ≡ ok (size, value)
  pub later : length value ≤ length rest

open_tlv-Opened : (len : ℕ) (rest : List ℕ) → Opened len rest
unfolding open_tlv
open_tlv-Opened len [] = record {
  size = len;
  value = [];
  opens = ground arith;
  later = omega arith;
}
open_tlv-Opened len (a ∷ []) = record {
  size = len;
  value = a ∷ [];
  opens = ground arith;
  later = omega arith;
}
open_tlv-Opened len (a ∷ b ∷ rest) = record {
  size = if len == 255 then word16 a b else len;
  value = if len == 255 then rest else a ∷ b ∷ rest;
  opens = ground arith;
  later = ground arith;
}

-- No line shows the value of a secret TLV.
abbrev pub Masked : Line → Type 0
Masked (tlv kind size body) = (kind ≡ tlv_network_key) ⊎ (kind ≡ tlv_pskc) → body ≡ hidden
Masked (truncated kind) = Unit

print_body-Masked :
    (kind size : ℕ) (value : List ℕ) → Masked (tlv kind size (print_body false kind value))
unfolding print_body tlv_is_secret
print_body-Masked kind size value = ground arith

print_step-cases :
    (reveal : Bool) (kind len : ℕ) (rest : List ℕ)
    → (print_step reveal kind len rest ≡ ok (truncated kind, none))
      ⊎ ((size : ℕ) × (value after : List ℕ) × (print_step reveal kind len rest
            ≡ ok (tlv kind size (print_body reveal kind value), some after))
          × (length after ≤ length rest))
print_step-cases reveal kind len rest = elim (Bool-cases (ltb (length o.value) o.size)) [
  | inl e ↦ inl (unfold print_step in rw (o.opens, e))
  | inr e ↦ inr (
    o.size,
    take o.size o.value,
    drop o.size o.value,
    unfold print_step in rw (o.opens, e, advance-le o.size o.value (ltb→le _ _ e)),
    omega (arith, o.later, length-drop o.size o.value (ltb→le _ _ e)),
  )
]
  where
    o : Opened len rest
    o = open_tlv-Opened len rest

abbrev PrintsMasked : Checked (List Line) → Type 0
PrintsMasked r = (lines : List Line) × (r ≡ ok lines) × All Masked lines

print_loop-Masked :
    (fuel : ℕ) (tlvs : List ℕ) → length tlvs ≤ fuel → PrintsMasked (print_loop false fuel tlvs)
unfolding print_loop
print_loop-Masked fuel [] l = ([], refl, tt)
print_loop-Masked fuel (kind ∷ []) l = ([], refl, tt)
print_loop-Masked zero (kind ∷ len ∷ rest) l = absurd (omega arith)
print_loop-Masked (suc fuel) (kind ∷ len ∷ rest) l = elim (print_step-cases false kind len rest) [
  | inl e ↦ (truncated kind ∷ [], rw (e, print_loop), (tt, tt))
  | inr (size, value, after, e, shorter) ↦
      let (lines, e2, m) = print_loop-Masked fuel after (omega arith) in
      (
        tlv kind size (print_body false kind value) ∷ lines,
        rw (e, print_loop) (rw e2),
        (print_body-Masked kind size value, m),
      )
]

-- Without `reveal`, `meshcop_print_tlvs` ends on any bytes without reading behind them, and no line
-- that it prints for a Network Key or PSKc TLV shows the value.
pub print_tlvs-Masked :
    (tlvs : List ℕ) → (lines : List Line) × (print_tlvs false tlvs ≡ ok lines) × All Masked lines
unfolding print_tlvs
print_tlvs-Masked tlvs = print_loop-Masked (length tlvs) tlvs (omega arith)

-- `note_tlv` on a value that is there, with no reads left.
unfoldable pub noted : Wanted → ℕ → ℕ → List ℕ → Summary → Summary
noted w kind len value s =
    if (kind == tlv_network_name) && not (w.name_cap == 0)
    then record s { name = take (if ltb len (w.name_cap - 1) then len else w.name_cap - 1) value }
    else if (kind == tlv_channel) && leb 3 len && w.channel
    then record s { channel = word16 (get_or value 1 0) (get_or value 2 0) }
    else if (kind == tlv_panid) && leb 2 len && w.panid
    then record s { panid = word16 (get_or value 0 0) (get_or value 1 0) }
    else s

pub note_tlv-noted :
    (w : Wanted) (kind len : ℕ) (value : List ℕ) (s : Summary)
    → len ≤ length value
    → note_tlv w kind len value s ≡ ok (noted w kind len value s)
unfolding note_tlv noted
note_tlv-noted w kind len value s l =
    ground (arith, byte_at-lt 0 value, byte_at-lt 1 value, byte_at-lt 2 value)

summarize_step-cases :
    (w : Wanted) (kind len : ℕ) (rest : List ℕ) (s : Summary)
    → (summarize_step w kind len rest s ≡ ok none)
      ⊎ ((s' : Summary) × (after : List ℕ) × (summarize_step w kind len rest s
            ≡ ok (some (s', after)))
          × (length after ≤ length rest))
summarize_step-cases w kind len rest s = elim (Bool-cases (ltb (length o.value) o.size)) [
  | inl e ↦ inl (unfold summarize_step in rw (o.opens, e))
  | inr e ↦ inr (
    noted w kind o.size o.value s,
    drop o.size o.value,
    unfold summarize_step in
        rw (
          o.opens,
          e,
          note_tlv-noted w kind o.size o.value s (ltb→le _ _ e),
          advance-le o.size o.value (ltb→le _ _ e),
        ),
    omega (arith, o.later, length-drop o.size o.value (ltb→le _ _ e)),
  )
]
  where
    o : Opened len rest
    o = open_tlv-Opened len rest

summarize_loop_total :
    (w : Wanted) (fuel : ℕ) (tlvs : List ℕ) (s : Summary)
    → length tlvs ≤ fuel
    → Returns (summarize_loop w fuel tlvs s)
unfolding summarize_loop
summarize_loop_total w fuel [] s l = (s, refl)
summarize_loop_total w fuel (kind ∷ []) s l = (s, refl)
summarize_loop_total w zero (kind ∷ len ∷ rest) s l = absurd (omega arith)
summarize_loop_total w (suc fuel) (kind ∷ len ∷ rest) s l =
    elim (summarize_step-cases w kind len rest s) [
      | inl e ↦ (s, rw (e, summarize_loop))
      | inr (s', after, e, shorter) ↦
          let (r, e2) = summarize_loop_total w fuel after s' (omega arith) in
          (r, rw (e, summarize_loop) e2)
    ]

-- `meshcop_summarize` ends on any bytes without reading behind them.
pub summarize_total : (w : Wanted) (tlvs : List ℕ) → Returns (summarize w tlvs)
unfolding summarize
summarize_total w tlvs = summarize_loop_total w (length tlvs) tlvs _ (omega arith)
