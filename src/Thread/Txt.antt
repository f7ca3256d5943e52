-- ===== src/Thread/Txt.antt =====
-- main/thread.c: meshcop_txt_apply_locked, the entries of a TXT record handed to the mDNS responder.
use cores3_epskc_commissione.Base.{
  ℕ, zero, suc, ◌+◌, ◌%◌, ◌^◌, Bool, true, false, not, ◌||◌, Option, none, some, List, [], ◌∷◌,
  ◌++◌, ltb, leb, ◌==◌, if◌then◌else◌, length, take, drop,
}
use cores3_epskc_commissione.Base.Checked.{Checked, ok, oob, stuck, ◌>>=◌}

-- A key and its value.
pub record Item : Type 0 where
  pub key : List ℕ
  pub value : List ℕ

-- `memchr(entry, '=', entry_len)`, with the bytes before the sign and those after it.
unfoldable pub split_eq : List ℕ → Option Item
split_eq [] = none
split_eq (b ∷ bs) =
    let later = split_eq bs in
    if b == b'='
    then some (record { key = []; value = bs })
    else elim later [ none ↦ none | some i ↦ some (record { key = b ∷ i.key; value = i.value }) ]

-- The item of an entry: a key of 1 to 15 bytes.
unfoldable pub txt_item : List ℕ → Option Item
unfolding split_eq
txt_item entry = elim (split_eq entry) [
  | none ↦ none
  | some i ↦ if (length i.key == 0) || leb 16 (length i.key) then none else some i
]

-- The item in front of those of the rest.
abbrev pub with_item : Item → Checked (Bool × List Item) → Checked (Bool × List Item)
with_item i later = later >>= λ (r : Bool × List Item). ok (r.0, i ∷ r.1)

-- The loop from the offset `at` on, a `uint16_t`, with the answers of the responder: whether it ran to
-- the end, and the items handed over. An entry behind an offset that wraps may reach out of the record.
unfoldable pub txt_loop : ℕ → (Item → Bool) → List ℕ → ℕ → Checked (Bool × List Item)
unfolding txt_item
txt_loop zero set_ok txt at = stuck
txt_loop (suc fuel) set_ok txt at = elim (drop at txt) [
  | [] ↦ ok (true, [])
  | entry_len ∷ bytes ↦
      let next = (at + 1 + entry_len) % 2 ^ 16 in
      let later = txt_loop fuel set_ok txt next in
      if ltb (length txt) next
      then ok (true, [])
      else if ltb (length bytes) entry_len
      then oob
      else elim (txt_item (take entry_len bytes)) [
        | none ↦ later
        | some i ↦ if set_ok i then with_item i later else ok (false, i ∷ [])
      ]
]

-- `THREAD_MESHCOP_MODEL_NAME` under its key.
abbrev pub model_item : List ℕ → Item
model_item model_name = record { key = b'm' ∷ b'n' ∷ []; value = model_name }

-- `meshcop_txt_apply_locked`: the items handed to the responder, in order. The record of OpenThread is
-- absent where it cannot be read. The fuel is enough for a record in which the offset does not wrap.
unfoldable pub meshcop_txt_apply :
    Bool → Bool → (Item → Bool) → List ℕ → Option (List ℕ) → Checked (List Item)
unfolding txt_loop
meshcop_txt_apply active published set_ok model_name none = ok []
meshcop_txt_apply active published set_ok model_name (some txt) =
    if not active || not published
    then ok []
    else txt_loop (suc (length txt)) set_ok txt 0 >>= λ (r : Bool × List Item).
        ok (if r.0 then r.1 ++ (model_item model_name ∷ []) else r.1)
