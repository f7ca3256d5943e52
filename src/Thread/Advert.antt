-- ===== src/Thread/Advert.antt =====
-- main/thread.c: the service record of a share across state callbacks and renames.
use cores3_epskc_commissione.Base.{
  ℕ, ◌≤◌, ◌<◌, ◌≡◌, ◌↔◌, Bool, true, false, not, ◌&&◌, ◌||◌, Option, none, some, List, [], ◌∷◌,
  ◌++◌, if◌then◌else◌, length, arith,
}
use cores3_epskc_commissione.Thread.Share.{
  KeyState, is_active, Call, add_share, remove_share, remove_meshcop, set_cb, set_name, publish,
  set_port, apply_txt, apply_share_txt, enable_key, start_key, stop_key, State, share_state_cb,
  esp_ok, Answers, publish_name, set_border_router_name,
}

-- A change of the key's state, and a rename.
pub data Event : Type 0 where
  changed : (st : KeyState) (port : ℕ) (added removed : Bool) → Event
  renamed : (a : Answers) (name : Option (List ℕ)) → Event

abbrev handle : Event → State → List Call × State
handle (changed st port added removed) s = share_state_cb st port added removed s
handle (renamed a name) s = (set_border_router_name a name s).1

-- The calls of a sequence of events, and the state after them.
abbrev pub run : List Event → State → List Call × State
run [] s = ([], s)
run (e ∷ es) s =
    let (calls, s') = handle e s in let (later, s'') = run es s' in (calls ++ later, s'')

-- The responder's record of the share: absent, present, or left behind by a removal that failed.
pub data Advertised : Type 0 where
  absent present left : Advertised

abbrev pub is_present : Advertised → Bool
is_present absent = false
is_present present = true
is_present left = false

abbrev pub after_add : Advertised → Bool → Option Advertised
after_add absent added = some (if added then present else absent)
after_add present added = none
after_add left added = some (if added then present else left)

abbrev pub after_remove : Advertised → Bool → Option Advertised
after_remove absent removed = none
after_remove present removed = some (if removed then absent else left)
after_remove left removed = none

-- The record through a list of calls: none when one adds a record while the one added before is there,
-- or removes one when none is there but what a failed removal left.
abbrev pub replay : Advertised → List Call → Option Advertised
replay r [] = some r
replay r (add_share port added ∷ calls) = elim (after_add r added) [
  | none ↦ none
  | some r' ↦ replay r' calls
]
replay r (remove_share removed ∷ calls) = elim (after_remove r removed) [
  | none ↦ none
  | some r' ↦ replay r' calls
]
replay r (remove_meshcop ∷ calls) = replay r calls
replay r (set_cb ∷ calls) = replay r calls
replay r (set_name name ∷ calls) = replay r calls
replay r (publish name ∷ calls) = replay r calls
replay r (set_port ∷ calls) = replay r calls
replay r (apply_txt ∷ calls) = replay r calls
replay r (apply_share_txt ∷ calls) = replay r calls
replay r (enable_key b ∷ calls) = replay r calls
replay r (start_key tap lifetime_ms port ∷ calls) = replay r calls
replay r (stop_key ∷ calls) = replay r calls

-- What the code's flag should be.
abbrev pub flag : Option Advertised → Option Bool
flag none = none
flag (some r) = some (is_present r)

share_state_cb-published :
    (st : KeyState) (port : ℕ) (added removed : Bool) (s : State)
    → s.published ≡ false
    → (share_state_cb st port added removed s).1.published ≡ is_active st && added
unfolding share_state_cb
share_state_cb-published st port added removed s e = ground arith

-- The record after the withdrawal at the start of a rename.
abbrev withdrawn : Bool → Advertised → Advertised
withdrawn removed absent = absent
withdrawn removed present = if removed then absent else left
withdrawn removed left = left

-- A name of 1 to 32 bytes set while the border router runs is kept; afterwards a share is advertised
-- exactly when its key is active and the responder takes the service; and the call succeeds exactly
-- when the stack takes the name and, while attached, the publication.
pub set_border_router_name-published :
    (a : Answers) (name : List ℕ) (s : State)
    → 0 < length name
    → length name ≤ 32
    → s.ready ≡ true
    → s.br_started ≡ true
    → ((set_border_router_name a (some name) s).1.1.name ≡ name)
      × ((set_border_router_name a (some name) s).1.1.published ≡ is_active a.key && a.added)
      × (((set_border_router_name a (some name) s).0 ≡ esp_ok)
          ↔ (a.name_set && (not a.attached || a.publish_ok) ≡ true))
unfolding set_border_router_name share_state_cb publish_name
set_border_router_name-published a name s p l r b = ground arith
