-- ===== src/Thread/Dataset.antt =====
-- main/thread.c: applying, forming, exporting and forgetting a dataset. OpenThread is a parameter:
-- what it answers is an argument, and what is asked of it is the list of the calls with the answers.
use cores3_epskc_commissione.Base.{
  ℕ, ◌+◌, ◌-◌, ◌*◌, ◌/◌, ◌%◌, Bool, true, false, not, ◌&&◌, ◌||◌, Option, none, some, List, [], ◌∷◌,
  ◌++◌, ltb, leb, ◌==◌, if◌then◌else◌, length,
}

-- The TLVs of a dataset.
abbrev pub Tlvs : Type 0
Tlvs = List ℕ

-- What `esp_openthread_auto_start` comes to. A start that fails may have stored its dataset before the
-- step that failed, which its answer does not say.
pub data Start : Type 0 where
  running : Start
  failing : (stored : Bool) → Start

-- The answer that the code sees: `err == ESP_OK`.
abbrev pub is_running : Start → Bool
is_running running = true
is_running (failing stored) = false

-- A call of OpenThread with its answer, or the reset of the topology between them.
pub data Asked : Type 0 where
  diag_cancel reset_topology : Asked
  thread_enabled ip6_enabled : Bool → Asked
  erase_info : Bool → Asked
  auto_start : Tlvs → Start → Asked

pub data EspErr : Type 0 where
  esp_ok esp_fail invalid_arg invalid_state : EspErr

-- The components of a parsed dataset that must be present.
pub record Components : Type 0 where
  pub active_timestamp : Bool
  pub channel : Bool
  pub channel_mask : Bool
  pub extended_pan_id : Bool
  pub mesh_local_prefix : Bool
  pub network_key : Bool
  pub network_name : Bool
  pub pan_id : Bool
  pub pskc : Bool
  pub security_policy : Bool

-- What OpenThread answers around one join: `otDatasetParseTlvs`, `otDatasetGetActiveTlvs`, and the
-- erasures and starts in the order of the code. `ready` is `s_ready`.
pub record Stack : Type 0 where
  pub ready : Bool
  pub parse : Tlvs → Option Components
  pub active : Option Tlvs
  pub erased : Bool
  pub started : Start
  pub restarted : Start
  pub erased_again : Bool

unfoldable pub is_complete : Option Components → Bool
is_complete none = false
is_complete (some c) =
    c.active_timestamp && c.channel && c.channel_mask && c.extended_pan_id && c.mesh_local_prefix
    && c.network_key && c.network_name && c.pan_id && c.pskc && c.security_policy

-- `previous`, if `had_previous`.
unfoldable pub previous_of : Option Tlvs → Option Tlvs
previous_of none = none
previous_of (some ds) = if length ds == 0 then none else some ds

abbrev pub Done : Type 0
Done = EspErr × List Asked

-- `otThreadSetEnabled(ins, false); otIp6SetEnabled(ins, false)`
abbrev pub shut_down : List Asked
shut_down = thread_enabled false ∷ ip6_enabled false ∷ []

-- The previous dataset's start, if there was one.
unfoldable pub resume_previous : Option Tlvs → Start → List Asked
resume_previous none restarted = []
resume_previous (some previous) restarted = auto_start previous restarted ∷ []

-- After a failed start of the candidate.
unfoldable pub undo_start : Stack → Option Tlvs → List Asked
undo_start st none = shut_down ++ (erase_info st.erased_again ∷ [])
undo_start st (some previous) = auto_start previous st.restarted ∷ []

-- `thread_join` from the cancelled scan on.
unfoldable pub apply_dataset : Stack → Tlvs → Done
unfolding resume_previous undo_start
apply_dataset st tlvs =
    let previous = previous_of st.active in
    let asked = (diag_cancel ∷ reset_topology ∷ shut_down) ++ (erase_info st.erased ∷ []) in
    if not st.erased
    then (esp_fail, asked ++ resume_previous previous st.restarted)
    else let asked' = asked ++ (auto_start tlvs st.started ∷ []) in
      if is_running st.started
      then (esp_ok, asked')
      else (esp_fail, asked' ++ undo_start st previous)

-- OT_OPERATIONAL_DATASET_MAX_LENGTH
abbrev pub max_length : ℕ
max_length = 254

unfoldable pub thread_join : Stack → Tlvs → Done
unfolding apply_dataset
thread_join st tlvs =
    if not st.ready
    then (esp_fail, [])
    else if (length tlvs == 0) || ltb max_length (length tlvs)
    then (invalid_arg, [])
    else if not (is_complete (st.parse tlvs))
    then (invalid_arg, [])
    else apply_dataset st tlvs

-- `hex_nibble`, -1 being `none`.
unfoldable pub hex_nibble : ℕ → Option ℕ
hex_nibble c =
    if leb 48 c && leb c 57
    then some (c - 48)
    else if leb 97 c && leb c 102
    then some (c - 97 + 10)
    else if leb 65 c && leb c 70
    then some (c - 65 + 10)
    else none

abbrev pub join_nibbles : Option ℕ → Option ℕ → Option ℕ
join_nibbles none lo = none
join_nibbles (some hi) none = none
join_nibbles (some hi) (some lo) = some (hi * 16 + lo)

-- The loop of `thread_set_dataset_hex` over pairs of digits; `none` is `ESP_ERR_INVALID_ARG`.
unfoldable pub hex_loop : List ℕ → Option Tlvs
hex_loop [] = some []
hex_loop (a ∷ []) = some []
hex_loop (a ∷ b ∷ s) = elim (join_nibbles (hex_nibble a) (hex_nibble b)) [
  | none ↦ none
  | some tlv ↦ elim (hex_loop s) [ none ↦ none | some tlvs ↦ some (tlv ∷ tlvs) ]
]

-- `thread_set_dataset_hex`
unfoldable pub set_dataset_hex : Stack → List ℕ → Done
unfolding hex_loop
set_dataset_hex st hex =
    if (length hex == 0) || not (length hex % 2 == 0) || ltb max_length (length hex / 2)
    then (invalid_arg, [])
    else elim (hex_loop hex) [ none ↦ (invalid_arg, []) | some tlvs ↦ thread_join st tlvs ]

-- `"0123456789abcdef"[n]`, the digits of `%02x` and of `bytes_to_hex`.
unfoldable pub hex_digit : ℕ → ℕ
hex_digit n = if ltb n 10 then 48 + n else 87 + n

unfoldable pub bytes_to_hex : List ℕ → List ℕ
bytes_to_hex [] = []
bytes_to_hex (b ∷ bs) = hex_digit (b / 16) ∷ hex_digit (b % 16) ∷ bytes_to_hex bs

-- `thread_dataset_hex` into `cap` bytes.
unfoldable pub dataset_hex : Stack → ℕ → Option (List ℕ)
dataset_hex st cap = if not st.ready then none else elim (st.active) [
  | none ↦ none
  | some ds ↦
      if (length ds == 0) || ltb cap (length ds * 2 + 1) then none else some (bytes_to_hex ds)
]

-- `thread_border_agent_id_hex`, `thread_ext_address_hex` and `thread_ext_panid_hex`: `size` bytes of
-- OpenThread's, if it has them.
unfoldable pub value_hex : Bool → ℕ → Option (List ℕ) → ℕ → Option (List ℕ)
value_hex ready size value cap =
    if not ready || ltb cap (size * 2 + 1)
    then none
    else elim value [ none ↦ none | some bytes ↦ some (bytes_to_hex bytes) ]

-- The dataset that `otDatasetCreateNewNetwork` gives: the channel, the last two bytes of the extended
-- PAN ID, and the PAN ID.
pub record NewNetwork : Type 0 where
  pub channel : ℕ
  pub ext6 : ℕ
  pub ext7 : ℕ
  pub panid : ℕ

-- The digits of `%02X`.
unfoldable pub upper_digit : ℕ → ℕ
upper_digit n = if ltb n 10 then 48 + n else 55 + n

-- "CoreS3-%02X%02X"
unfoldable pub network_name : NewNetwork → List ℕ
unfolding upper_digit
network_name n =
    b'C'
    ∷ b'o'
    ∷ b'r'
    ∷ b'e'
    ∷ b'S'
    ∷ b'3'
    ∷ b'-'
    ∷ upper_digit (n.ext6 / 16)
    ∷ upper_digit (n.ext6 % 16)
    ∷ upper_digit (n.ext7 / 16)
    ∷ upper_digit (n.ext7 % 16)
    ∷ []

-- The generated dataset with the wished channel, if it is one.
unfoldable pub with_channel : ℕ → NewNetwork → NewNetwork
with_channel channel n =
    if leb 11 channel && leb channel 26 then record n { channel = channel } else n

-- `thread_form_network`: its result, and the name (before its cut to the caller's buffer), the channel
-- and the PAN ID that it gives. `create`
-- is `otDatasetCreateNewNetwork`'s answer and `to_tlvs` is `otDatasetConvertToTlvs` with the name.
unfoldable pub form_network :
    Stack → Option NewNetwork → (NewNetwork → List ℕ → Tlvs) → ℕ → Done × Option (List ℕ × (ℕ × ℕ))
unfolding with_channel
form_network st create to_tlvs channel =
    if not st.ready then ((esp_fail, []), none) else elim create [
      | none ↦ ((esp_fail, []), none)
      | some fresh ↦
          let n = with_channel channel fresh in
          (thread_join st (to_tlvs n (network_name n)), some (network_name n, (n.channel, n.panid)))
    ]

-- What `thread_forget` answers offline: the calls of NVS, `none` being `ESP_OK`.
pub record Offline : Type 0 where
  pub open_nvs : Option ℕ
  pub erase_all : Option ℕ
  pub commit : Option ℕ

pub data Forgot : Type 0 where
  forgot forget_failed : Forgot
  nvs_failed : ℕ → Forgot

-- `thread_forget`: its result, the calls of OpenThread, and whether the topology was reset.
-- `initialized` is `otInstanceIsInitialized`.
unfoldable pub thread_forget : Bool → Offline → Bool → Forgot × (List Asked × Bool)
thread_forget false o erased = elim (o.open_nvs) [
  | some e ↦ (nvs_failed e, ([], false))
  | none ↦ elim (o.erase_all) [
    | some e ↦ (nvs_failed e, ([], false))
    | none ↦ elim (o.commit) [ some e ↦ (nvs_failed e, ([], false)) | none ↦ (forgot, ([], true)) ]
  ]
]
thread_forget true o erased = (
  if erased then forgot else forget_failed,
  ((diag_cancel ∷ shut_down) ++ (erase_info erased ∷ []), true),
)

-- `thread_set_enabled`; `ip6_ok` and `thread_ok` are OpenThread's answers.
unfoldable pub set_enabled : Bool → Bool → Bool → Bool → EspErr × List Asked
set_enabled ready on ip6_ok thread_ok =
    if not ready
    then (invalid_state, [])
    else let cancelled = if on then [] else diag_cancel ∷ reset_topology ∷ [] in
      if not ip6_ok then (esp_fail, cancelled ++ (ip6_enabled on ∷ [])) else (
        if thread_ok then esp_ok else esp_fail,
        cancelled ++ (ip6_enabled on ∷ thread_enabled on ∷ []),
      )
