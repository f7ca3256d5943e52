-- ===== src/MeshCop/Dataset.antt =====
-- main/meshcop.c: reading a dataset, `meshcop_summarize` and `meshcop_print_tlvs`.
use cores3_epskc_commissione.Base.{
  ℕ, zero, suc, ◌-◌, Bool, not, ◌&&◌, ◌||◌, Option, none, some, List, [], ◌∷◌, ltb, leb, ◌==◌,
  if◌then◌else◌, length, take,
}
use cores3_epskc_commissione.Base.Checked.{Checked, ok, stuck, ◌>>=◌, byte_at, advance}
use cores3_epskc_commissione.MeshCop.Codec.{word16}

-- `TLV_CHANNEL` and its fellows of main/meshcop.h.
abbrev pub tlv_channel : ℕ
tlv_channel = 0

abbrev pub tlv_panid : ℕ
tlv_panid = 1

abbrev pub tlv_network_name : ℕ
tlv_network_name = 3

abbrev pub tlv_pskc : ℕ
tlv_pskc = 4

abbrev pub tlv_network_key : ℕ
tlv_network_key = 5

unfoldable pub tlv_is_secret : ℕ → Bool
tlv_is_secret kind = (kind == tlv_network_key) || (kind == tlv_pskc)

-- A TLV's length and the pointer to its value: three-byte lengths, where two bytes are left.
unfoldable pub open_tlv : ℕ → List ℕ → Checked (ℕ × List ℕ)
open_tlv len rest =
    if (len == 255) && leb 2 (length rest)
    then (do
      hi ← byte_at 0 rest
      lo ← byte_at 1 rest
      value ← advance 2 rest
      ok (word16 hi lo, value))
    else ok (len, rest)

-- The values that `meshcop_summarize` fills in; the name is the bytes before its NUL.
pub record Summary : Type 0 where
  pub name : List ℕ
  pub channel : ℕ
  pub panid : ℕ

-- Which of the pointers are given; a `name_cap` of zero also stands for no name.
pub record Wanted : Type 0 where
  pub name_cap : ℕ
  pub channel : Bool
  pub panid : Bool

unfoldable pub note_tlv : Wanted → ℕ → ℕ → List ℕ → Summary → Checked Summary
note_tlv w kind len value s =
    if (kind == tlv_network_name) && not (w.name_cap == 0)
    then ok
        (record s { name = take (if ltb len (w.name_cap - 1) then len else w.name_cap - 1) value })
    else if (kind == tlv_channel) && leb 3 len && w.channel
    then (do hi ← byte_at 1 value; lo ← byte_at 2 value; ok (record s { channel = word16 hi lo }))
    else if (kind == tlv_panid) && leb 2 len && w.panid
    then (do hi ← byte_at 0 value; lo ← byte_at 1 value; ok (record s { panid = word16 hi lo }))
    else ok s

-- One round of the loop: `none` for a truncated TLV, else the summary and the pointer behind it.
unfoldable pub summarize_step :
    Wanted → ℕ → ℕ → List ℕ → Summary → Checked (Option (Summary × List ℕ))
summarize_step w kind len rest s = do
  (size, value) ← open_tlv len rest
  if ltb (length value) size
      then ok none
      else do s' ← note_tlv w kind size value s; after ← advance size value; ok (some (s', after))

unfoldable pub summarize_loop : Wanted → ℕ → List ℕ → Summary → Checked Summary
summarize_loop w fuel [] s = ok s
summarize_loop w fuel (kind ∷ []) s = ok s
summarize_loop w zero (kind ∷ len ∷ rest) s = stuck
summarize_loop w (suc fuel) (kind ∷ len ∷ rest) s = summarize_step w kind len rest s >>= λ o.
    elim o [ none ↦ ok s | some (s', after) ↦ summarize_loop w fuel after s' ]

unfoldable pub summarize : Wanted → List ℕ → Checked Summary
unfolding summarize_loop summarize_step note_tlv open_tlv
summarize w tlvs =
    summarize_loop w (length tlvs) tlvs (record { name = []; channel = 0; panid = 0 })

-- What `meshcop_print_tlvs` prints of one TLV.
pub data Body : Type 0 where
  hidden : Body
  text : List ℕ → Body
  hex : List ℕ → Body

pub data Line : Type 0 where
  tlv : ℕ → ℕ → Body → Line
  truncated : ℕ → Line

unfoldable pub print_body : Bool → ℕ → List ℕ → Body
print_body reveal kind value =
    if kind == tlv_network_name
    then text value
    else if tlv_is_secret kind && not reveal
    then hidden
    else hex value

unfoldable pub print_step : Bool → ℕ → ℕ → List ℕ → Checked (Line × Option (List ℕ))
print_step reveal kind len rest = do
  (size, value) ← open_tlv len rest
  if ltb (length value) size then ok (truncated kind, none) else do
    after ← advance size value
    ok (tlv kind size (print_body reveal kind (take size value)), some after)

unfoldable pub print_loop : Bool → ℕ → List ℕ → Checked (List Line)
print_loop reveal fuel [] = ok []
print_loop reveal fuel (kind ∷ []) = ok []
print_loop reveal zero (kind ∷ len ∷ rest) = stuck
print_loop reveal (suc fuel) (kind ∷ len ∷ rest) =
    print_step reveal kind len rest >>= λ (line, next). elim next [
      | none ↦ ok (line ∷ [])
      | some after ↦ print_loop reveal fuel after >>= λ lines. ok (line ∷ lines)
    ]

unfoldable pub print_tlvs : Bool → List ℕ → Checked (List Line)
unfolding print_loop print_step print_body open_tlv
print_tlvs reveal tlvs = print_loop reveal (length tlvs) tlvs
