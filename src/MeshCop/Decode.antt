-- ===== src/MeshCop/Decode.antt =====
-- main/meshcop.c: what the readers of a dataset make of whole TLVs.
use cores3_epskc_commissione.Base.{
  ℕ, zero, suc, ◌-◌, ◌/◌, ◌%◌, ◌<◌, ◌≤◌, ◌≡◌, refl, sym, ap, ◌∙◌, inl, inr, Bool, true, false, ◌&&◌,
  Option, none, some, List, [], ◌∷◌, ◌++◌, append-nil, ltb, leb, ◌==◌, if◌then◌else◌, length,
  get_or, All, take, length-append, arith, Bool-cases, le→ltb, ltb→le, ltb→lt, map,
}
use cores3_epskc_commissione.Base.Checked.{ok, ◌>>=◌, advance-append}
use cores3_epskc_commissione.MeshCop.Codec.{word16}
use cores3_epskc_commissione.MeshCop.Format.{Tlv, TlvFits, encode_tlv, encode_tlvs}
use cores3_epskc_commissione.MeshCop.Dataset.{
  tlv_network_name, tlv_channel, tlv_panid, open_tlv, Line, tlv, print_body, print_step, print_loop,
  print_tlvs, Summary, Wanted, summarize_step, summarize_loop, summarize,
}
use cores3_epskc_commissione.MeshCop.Dump.{noted, note_tlv-noted}

-- The TLV behind its type byte.
abbrev tlv_tail : Bool → List ℕ → List ℕ
tlv_tail false v = length v ∷ v
tlv_tail true v = 0xff ∷ (length v / 256) ∷ (length v % 256) ∷ v

encode_tlv-tail :
    (t : Tlv) (rest : List ℕ)
    → encode_tlv t ++ rest ≡ t.kind ∷ (tlv_tail t.extended t.value ++ rest)
unfolding encode_tlv
encode_tlv-tail t rest = ground arith

open_tlv-short : (n : ℕ) (rest : List ℕ) → n < 255 → open_tlv n rest ≡ ok (n, rest)
unfolding open_tlv
open_tlv-short n rest h = ground arith

open_tlv-long :
    (n : ℕ) (rest : List ℕ)
    → n < 65536
    → open_tlv 0xff ((n / 256) ∷ (n % 256) ∷ rest) ≡ ok (n, rest)
unfolding open_tlv
open_tlv-long n rest h = ground arith

take-append : (xs ys : List ℕ) → take (length xs) (xs ++ ys) ≡ xs
take-append [] ys = refl
take-append (x ∷ xs) ys = ap (λ zs. x ∷ zs) (take-append xs ys)

room : (v rest : List ℕ) → ltb (length (v ++ rest)) (length v) ≡ false
room v rest = le→ltb _ _ (omega (arith, length-append v rest))

print_step-encode :
    (reveal : Bool) (kind : ℕ) (extended : Bool) (v rest : List ℕ) (fuel : ℕ)
    → TlvFits (record { kind = kind; extended = extended; value = v })
    → print_loop reveal (suc fuel) (kind ∷ (tlv_tail extended v ++ rest)) ≡ (
        print_loop reveal fuel rest >>= λ lines.
        ok (tlv kind (length v) (print_body reveal kind v) ∷ lines))
unfolding print_loop print_step
print_step-encode reveal kind false v rest fuel h = rw (
  open_tlv-short (length v) (v ++ rest) h,
  room v rest,
  advance-append (length v) v rest refl,
  take-append v rest,
  print_loop,
)
print_step-encode reveal kind true v rest fuel h = rw (
  open_tlv-long (length v) (v ++ rest) h,
  room v rest,
  advance-append (length v) v rest refl,
  take-append v rest,
  print_loop,
)

abbrev pub line_of : Bool → Tlv → Line
line_of reveal t = tlv t.kind (length t.value) (print_body reveal t.kind t.value)

print_loop-encode :
    (reveal : Bool) (ts : List Tlv) (fuel : ℕ)
    → length ts ≤ fuel
    → All TlvFits ts
    → print_loop reveal fuel (encode_tlvs ts) ≡ ok (map (line_of reveal) ts)
unfolding encode_tlvs
print_loop-encode reveal [] fuel l h = unfold print_loop in refl
print_loop-encode reveal (t ∷ ts) zero l h = absurd (omega arith)
print_loop-encode reveal (t ∷ ts) (suc fuel) l h = rw (
  encode_tlv-tail t (encode_tlvs ts),
  print_step-encode reveal t.kind t.extended t.value (encode_tlvs ts) fuel h.0,
  print_loop-encode reveal ts fuel (omega arith) h.1,
)

pub length-encode_tlvs : (ts : List Tlv) → length ts ≤ length (encode_tlvs ts)
unfolding encode_tlvs
length-encode_tlvs [] = omega arith
length-encode_tlvs (t ∷ ts) = rw (encode_tlv-tail t (encode_tlvs ts)) (
    omega
      (arith, length-append (tlv_tail t.extended t.value) (encode_tlvs ts), length-encode_tlvs ts))

-- On a list of whole TLVs, `meshcop_print_tlvs` prints one line for each, in order, with its type,
-- its length and its value as `print_body` shows it.
pub print_tlvs-encode :
    (reveal : Bool) (ts : List Tlv)
    → All TlvFits ts
    → print_tlvs reveal (encode_tlvs ts) ≡ ok (map (line_of reveal) ts)
unfolding print_tlvs
print_tlvs-encode reveal ts h = print_loop-encode reveal ts _ (length-encode_tlvs ts) h

-- The value of the last TLV of a type that has at least `n` bytes.
abbrev pub last_value : ℕ → ℕ → List Tlv → Option (List ℕ)
last_value kind n [] = none
last_value kind n (t ∷ ts) = elim (last_value kind n ts) [
  | some v ↦ some v
  | none ↦ if (t.kind == kind) && leb n (length t.value) then some t.value else none
]

abbrev pub map_or {ℓ} : {A : Type ℓ} → A → (List ℕ → A) → Option (List ℕ) → A
map_or a f none = a
map_or a f (some v) = f v

-- The fields that the pointers ask for, each from the last TLV that has it, over those before.
abbrev pub summary_of : Wanted → List Tlv → Summary → Summary
summary_of w ts s = record {
  name =
      if w.name_cap == 0
      then s.name
      else map_or s.name (take (w.name_cap - 1)) (last_value tlv_network_name 0 ts);
  channel =
      if w.channel
      then map_or s.channel (λ v. word16 (get_or v 1 0) (get_or v 2 0))
          (last_value tlv_channel 3 ts)
      else s.channel;
  panid =
      if w.panid
      then map_or s.panid (λ v. word16 (get_or v 0 0) (get_or v 1 0)) (last_value tlv_panid 2 ts)
      else s.panid;
}

take-all : (k : ℕ) (v : List ℕ) → length v ≤ k → take k v ≡ v
take-all zero [] h = refl
take-all zero (x ∷ v) h = absurd (omega arith)
take-all (suc k) [] h = refl
take-all (suc k) (x ∷ v) h = ap (λ zs. x ∷ zs) (take-all k v (omega arith))

take-within : (k : ℕ) (v rest : List ℕ) → k ≤ length v → take k (v ++ rest) ≡ take k v
take-within zero v rest h = refl
take-within (suc k) [] rest h = absurd (omega arith)
take-within (suc k) (x ∷ v) rest h = ap (λ zs. x ∷ zs) (take-within k v rest (omega arith))

get_or-within : (i : ℕ) (v rest : List ℕ) → i < length v → get_or (v ++ rest) i 0 ≡ get_or v i 0
get_or-within i [] rest h = absurd (omega arith)
get_or-within zero (x ∷ v) rest h = refl
get_or-within (suc i) (x ∷ v) rest h = get_or-within i v rest (omega arith)

take-min :
    (k : ℕ) (v rest : List ℕ)
    → take (if ltb (length v) k then length v else k) (v ++ rest) ≡ take k v
take-min k v rest = elim (Bool-cases (ltb (length v) k)) [
  | inl e ↦ rw e (take-append v rest ∙ sym (take-all k v (omega (arith, ltb→lt _ _ e))))
  | inr e ↦ rw e (take-within k v rest (ltb→le _ _ e))
]

take-min_self : (k : ℕ) (v : List ℕ) → take (if ltb (length v) k then length v else k) v ≡ take k v
take-min_self k v = rw append-nil at (take-min k v [])

noted-value :
    (w : Wanted) (kind : ℕ) (v rest : List ℕ) (s : Summary)
    → noted w kind (length v) (v ++ rest) s ≡ noted w kind (length v) v s
unfolding noted
noted-value w kind v rest s = ground (
  arith,
  take-min (w.name_cap - 1) v rest,
  take-min_self (w.name_cap - 1) v,
  get_or-within 0 v rest,
  get_or-within 1 v rest,
  get_or-within 2 v rest,
)

summary_of-noted :
    (w : Wanted) (t : Tlv) (ts : List Tlv) (s : Summary)
    → summary_of w ts (noted w t.kind (length t.value) t.value s) ≡ summary_of w (t ∷ ts) s
unfolding noted
summary_of-noted w t ts s = ground (arith, take-min_self (w.name_cap - 1) t.value)

summarize_loop-tlv :
    (w : Wanted) (kind : ℕ) (extended : Bool) (v rest : List ℕ) (fuel : ℕ) (s : Summary)
    → TlvFits (record { kind = kind; extended = extended; value = v })
    → summarize_loop w (suc fuel) (kind ∷ (tlv_tail extended v ++ rest)) s
      ≡ summarize_loop w fuel rest (noted w kind (length v) v s)
unfolding summarize_loop summarize_step
summarize_loop-tlv w kind false v rest fuel s h = rw (
  open_tlv-short (length v) (v ++ rest) h,
  room v rest,
  note_tlv-noted w kind (length v) (v ++ rest) s (ltb→le _ _ (room v rest)),
  advance-append (length v) v rest refl,
  noted-value w kind v rest s,
  summarize_loop,
)
summarize_loop-tlv w kind true v rest fuel s h = rw (
  open_tlv-long (length v) (v ++ rest) h,
  room v rest,
  note_tlv-noted w kind (length v) (v ++ rest) s (ltb→le _ _ (room v rest)),
  advance-append (length v) v rest refl,
  noted-value w kind v rest s,
  summarize_loop,
)

summarize_loop-encode :
    (w : Wanted) (ts : List Tlv) (fuel : ℕ) (s : Summary)
    → length ts ≤ fuel
    → All TlvFits ts
    → summarize_loop w fuel (encode_tlvs ts) s ≡ ok (summary_of w ts s)
unfolding encode_tlvs
summarize_loop-encode w [] fuel s l h = unfold summarize_loop in ground arith
summarize_loop-encode w (t ∷ ts) zero s l h = absurd (omega arith)
summarize_loop-encode w (t ∷ ts) (suc fuel) s l h =
    rw
      (
        encode_tlv-tail t (encode_tlvs ts),
        summarize_loop-tlv w t.kind t.extended t.value (encode_tlvs ts) fuel s h.0,
      )
      (summarize_loop-encode w ts fuel (noted w t.kind (length t.value) t.value s) (omega arith) h.1
        ∙ ap ok (summary_of-noted w t ts s))

-- On a list of whole TLVs, `meshcop_summarize` gives the name from the last Network Name TLV, cut
-- to the buffer, the channel from the last Channel TLV of three bytes or more and the PAN ID from
-- the last PAN ID TLV of two or more; what is missing or not asked for stays empty or zero.
pub summarize-encode :
    (w : Wanted) (ts : List Tlv)
    → All TlvFits ts
    → summarize w (encode_tlvs ts)
      ≡ ok (summary_of w ts (record { name = []; channel = 0; panid = 0 }))
unfolding summarize
summarize-encode w ts h =
    summarize_loop-encode w ts _ (record { name = []; channel = 0; panid = 0 })
      (length-encode_tlvs ts) h
