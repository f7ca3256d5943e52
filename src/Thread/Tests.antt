-- ===== src/Thread/Tests.antt =====
-- main/thread.c: runs of a join, a scan, the starts and the service record.
use cores3_epskc_commissione.Base.{
  ℕ, ◌+◌, ◌<◌, ◌≡◌, ◌≢◌, refl, true, false, not, ◌||◌, ◌==◌, none, some, List, [], ◌∷◌, ◌++◌, ltb,
  if◌then◌else◌, length, arith,
}
use cores3_epskc_commissione.Thread.Dataset.{
  Tlvs, Components, running, failing, is_running, Stack, is_complete, previous_of, max_length,
  thread_join, bytes_to_hex, dataset_hex, set_dataset_hex,
}
use cores3_epskc_commissione.Thread.Rollback.{stored, left_by, thread_join-stored}
use cores3_epskc_commissione.Thread.Hex.{set_dataset_hex-dataset_hex}
use cores3_epskc_commissione.Thread.Topology.{Router, no_error, u16}
use cores3_epskc_commissione.Thread.Totals.{distinct, total_children, total_borders, found_self}
use cores3_epskc_commissione.Thread.Scan.{scanned, with_last, outcome, scanned-distinct}
use cores3_epskc_commissione.Thread.Start.{not_started, claim, Promotion}
use cores3_epskc_commissione.Thread.Router.{
  World, claims, here, next, IsWorld, Reach-IsWorld, Call, apply, set,
}
use cores3_epskc_commissione.Base.Checked.{ok}
use cores3_epskc_commissione.Thread.Txt.{model_item, meshcop_txt_apply}
use cores3_epskc_commissione.Thread.Entries.{
  no_sign, no_key, Entry, item, skipped, encode_entries, items_of, handed,
  meshcop_txt_apply-encode_entries,
}
use cores3_epskc_commissione.Thread.Share.{started, stopped}
use cores3_epskc_commissione.Thread.Advert.{Event, changed, renamed}

abbrev full : Components
full = record {
  active_timestamp = true;
  channel = true;
  channel_mask = true;
  extended_pan_id = true;
  mesh_local_prefix = true;
  network_key = true;
  network_name = true;
  pan_id = true;
  pskc = true;
  security_policy = true;
}

abbrev old : Tlvs
old = 3 ∷ 1 ∷ 65 ∷ []

abbrev candidate : Tlvs
candidate = 0 ∷ 3 ∷ 0 ∷ 0 ∷ 15 ∷ []

-- A stack on a network that erases and then fails to start the candidate.
abbrev failing_stack : Stack
failing_stack = record {
  ready = true;
  parse = λ t. some full;
  active = some old;
  erased = true;
  started = failing true;
  restarted = running;
  erased_again = true;
}

thread_join-stored_example :
    stored (previous_of failing_stack.active) (thread_join failing_stack candidate).1 ≡ (
      if not failing_stack.ready
        || ((length candidate == 0) || ltb max_length (length candidate))
        || not (is_complete (failing_stack.parse candidate))
        || not failing_stack.erased
      then previous_of failing_stack.active
      else if is_running failing_stack.started
      then some candidate
      else left_by failing_stack candidate (previous_of failing_stack.active))
thread_join-stored_example = thread_join-stored failing_stack candidate

old_hex : dataset_hex failing_stack 540 ≡ some (bytes_to_hex old)
unfolding dataset_hex bytes_to_hex
old_hex = refl

set_dataset_hex-dataset_hex_example :
    set_dataset_hex failing_stack (bytes_to_hex old) ≡ thread_join failing_stack old
set_dataset_hex-dataset_hex_example =
    set_dataset_hex-dataset_hex failing_stack failing_stack old 540 (bytes_to_hex old)
      (omega arith, (omega arith, (omega arith, tt))) (omega arith) refl old_hex

abbrev routers : List Router
routers =
    record {
      id = 5;
      children = some (record { border_router = true; this_device = false } ∷ []);
      border_router = true;
      this_device = true;
    }
    ∷ record { id = 5; children = some []; border_router = true; this_device = true }
    ∷ []

abbrev last_router : Router
last_router = record { id = 7; children = none; border_router = false; this_device = false }

scanned-distinct_example :
    let seen = distinct (λ i. false) (with_last routers (some last_router)) in
    let t = scanned routers (some last_router) no_error 700 in
    (t.status ≡ outcome seen no_error)
    × (t.routers_seen ≡ u16 (length seen))
    × (t.children_seen ≡ u16 (total_children seen))
    × (t.border_routers_seen ≡ u16 (total_borders seen))
    × (t.includes_self ≡ found_self seen)
scanned-distinct_example = scanned-distinct routers (some last_router) no_error 700

abbrev at_boot : World
at_boot = record {
  state = record { started = false; starting = false; share_cb_set = false; status = not_started };
  under_way = 0;
  initialised = 0;
}

abbrev claimed : World
claimed = record {
  state = (claim at_boot.state).1;
  under_way = (if (claim at_boot.state).0 then 1 else 0) + at_boot.under_way;
  initialised = at_boot.initialised;
}

Reach-IsWorld_example : IsWorld claimed
Reach-IsWorld_example =
    Reach-IsWorld at_boot claimed (next here (claims at_boot))
      (record { counted = refl; exclusive = refl; once = refl })

abbrev preference : Promotion
preference = record { prefer = true; last_us = 0 }

-- A request after the boot, one too early, the preference turned on again, and one that follows.
abbrev calls : List Call
calls =
    apply true 40000000 ∷ apply true 50000000 ∷ set true true 60000000 ∷ apply true 90000000 ∷ []

over_ne : {a c : ℕ} → c < a → a ≢ c
over_ne h e = omega arith

-- An item, an entry with no sign, one with no key, and an item without a value.
abbrev entries : List Entry
entries =
    item (record { key = b'r' ∷ b'v' ∷ []; value = b'1' ∷ [] })
      (record {
        keyed = omega arith;
        key_short = omega arith;
        no_sign = (over_ne (omega arith), (over_ne (omega arith), tt));
        fits = omega arith;
      })
    ∷ skipped (b'x' ∷ []) (no_sign (b'x' ∷ []) (over_ne (omega arith), tt)) (omega arith)
    ∷ skipped (b'=' ∷ b'y' ∷ []) (no_key (b'y' ∷ [])) (omega arith)
    ∷ item (record { key = b'd' ∷ b'n' ∷ []; value = [] })
        (record {
          keyed = omega arith;
          key_short = omega arith;
          no_sign = (over_ne (omega arith), (over_ne (omega arith), tt));
          fits = omega arith;
        })
    ∷ []

meshcop_txt_apply-encode_entries_example :
    meshcop_txt_apply true true
      (λ i. true)
      (b'M' ∷ [])
      (some (encode_entries entries ++ (9 ∷ b'x' ∷ [])))
    ≡ ok (
        if (handed (λ i. true) (items_of entries)).0
        then (handed (λ i. true) (items_of entries)).1 ++ (model_item (b'M' ∷ []) ∷ [])
        else (handed (λ i. true) (items_of entries)).1)
meshcop_txt_apply-encode_entries_example =
    meshcop_txt_apply-encode_entries (λ i. true) (b'M' ∷ []) entries (9 ∷ b'x' ∷ [])
      (omega arith, omega arith) (omega arith)

abbrev sharing : cores3_epskc_commissione.Thread.Share.State
sharing = record {
  ready = true;
  br_started = true;
  name = b'A' ∷ [];
  cb_set = true;
  published = false;
}

abbrev events : List Event
events =
    changed started 49155 true true
    ∷ renamed
        (record {
          name_set = true;
          attached = true;
          publish_ok = true;
          key = started;
          port = 49155;
          added = true;
          removed = false;
        })
        (some (b'B' ∷ []))
    ∷ changed stopped 0 true false
    ∷ []
