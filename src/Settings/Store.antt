-- ===== src/Settings/Store.antt =====
-- main/settings.c: loading, saving and naming. NVS is a parameter: what it answers is an argument,
-- and what is handed to it is a result.
use cores3_epskc_commissione.Base.{
  ℕ, ◌+◌, Bool, true, false, not, ◌&&◌, ◌||◌, Option, none, some, List, [], ◌∷◌, ltb, leb, ◌==◌,
  if◌then◌else◌, length,
}

-- The keys of the namespace.
pub data Key : Type 0 where
  bright sleep router channel sharemin keepawake restapi restepskc restlogs : Key

pub record Settings : Type 0 where
  pub brightness : ℕ
  pub sleep_idx : ℕ
  pub prefer_router : Bool
  pub new_net_channel : ℕ
  pub share_minutes : ℕ
  pub keep_awake_powered : Bool
  pub rest_api : Bool
  pub rest_epskc : Bool
  pub rest_logs : Bool

-- `s_cfg`'s initialiser.
unfoldable pub defaults : Settings
defaults = record {
  brightness = 100;
  sleep_idx = 1;
  prefer_router = false;
  new_net_channel = 0;
  share_minutes = 5;
  keep_awake_powered = true;
  rest_api = true;
  rest_epskc = true;
  rest_logs = true;
}

-- What `nvs_get_u8` answers under a key, `none` being an error.
abbrev pub Saved : Type 0
Saved = Key → Option ℕ

-- `settings_load_bool`
unfoldable pub load_bool : Option ℕ → Bool → Bool
load_bool none out = out
load_bool (some value) out = if leb value 1 then not (value == 0) else out

unfoldable pub load_brightness : Option ℕ → ℕ → ℕ
load_brightness none out = out
load_brightness (some v) out = if leb 10 v && leb v 100 then v else out

unfoldable pub load_sleep : Option ℕ → ℕ → ℕ
load_sleep none out = out
load_sleep (some v) out = if ltb v 4 then v else out

unfoldable pub load_channel : Option ℕ → ℕ → ℕ
load_channel none out = out
load_channel (some v) out = if (v == 0) || (leb 11 v && leb v 26) then v else out

unfoldable pub load_share : Option ℕ → ℕ → ℕ
load_share none out = out
load_share (some v) out = if (v == 2) || (v == 5) || (v == 10) then v else out

-- `settings_load`; `opened` is whether `nvs_open` succeeds.
unfoldable pub settings_load : Bool → Saved → Settings → Settings
settings_load opened nvs s = if not opened then s else record {
  brightness = load_brightness (nvs bright) s.brightness;
  sleep_idx = load_sleep (nvs sleep) s.sleep_idx;
  prefer_router = load_bool (nvs router) s.prefer_router;
  new_net_channel = load_channel (nvs channel) s.new_net_channel;
  share_minutes = load_share (nvs sharemin) s.share_minutes;
  keep_awake_powered = load_bool (nvs keepawake) s.keep_awake_powered;
  rest_api = load_bool (nvs restapi) s.rest_api;
  rest_epskc = load_bool (nvs restepskc) s.rest_epskc;
  rest_logs = load_bool (nvs restlogs) s.rest_logs;
}

abbrev pub bit : Bool → ℕ
bit b = if b then 1 else 0

-- The pairs that `settings_save` sets, in its order.
unfoldable pub pairs : Settings → List (Key × ℕ)
pairs s =
    (bright, s.brightness)
    ∷ (sleep, s.sleep_idx)
    ∷ (router, bit s.prefer_router)
    ∷ (channel, s.new_net_channel)
    ∷ (sharemin, s.share_minutes)
    ∷ (keepawake, bit s.keep_awake_powered)
    ∷ (restapi, bit s.rest_api)
    ∷ (restepskc, bit s.rest_epskc)
    ∷ (restlogs, bit s.rest_logs)
    ∷ []

-- The chain of `if (err == ESP_OK)`: the pairs that were set, and whether all were. `ok` is what
-- `nvs_set_u8` answers under a key.
unfoldable pub set_all : (Key → Bool) → List (Key × ℕ) → List (Key × ℕ) × Bool
set_all ok [] = ([], true)
set_all ok ((k, v) ∷ ps) =
    let (done, all) = set_all ok ps in if ok k then ((k, v) ∷ done, all) else ([], false)

-- `settings_save`: the pairs that were set, and whether `nvs_commit` was called.
unfoldable pub settings_save : Bool → (Key → Bool) → Settings → List (Key × ℕ) × Bool
unfolding set_all pairs
settings_save opened ok s = if not opened then ([], false) else set_all ok (pairs s)

-- `settings_erase`: its error, `none` being `ESP_OK`; the answers of `nvs_open`, `nvs_erase_all` and
-- `nvs_commit`.
unfoldable pub settings_erase : Option ℕ → Option ℕ → Option ℕ → Option ℕ
settings_erase (some e) erased committed = some e
settings_erase none (some e) committed = some e
settings_erase none none committed = committed

pub data NameErr : Type 0 where
  name_ok invalid_arg invalid_size : NameErr
  nvs_error : ℕ → NameErr

-- What an NVS call answers: `ESP_OK`, `ESP_ERR_NVS_NOT_FOUND` or another error.
pub data Nvs : Type 0 where
  nvs_ok nvs_not_found : Nvs
  nvs_err : ℕ → Nvs

-- "cores3-thread-br"
abbrev pub default_name : List ℕ
default_name =
    b'c' ∷ b'o' ∷ b'r' ∷ b'e' ∷ b's' ∷ b'3' ∷ b'-' ∷ b't' ∷ b'h' ∷ b'r' ∷ b'e' ∷ b'a' ∷ b'd' ∷ b'-'
    ∷ b'b' ∷ b'r' ∷ []

abbrev pub name_max : ℕ
name_max = 32

-- `settings_get_device_name` on a buffer of `size` (NULL is `false`): the error and the name in the
-- buffer, `none` when it was not written. `nvs_get_str` answers with the string and with the size,
-- which counts the NUL.
unfoldable pub get_device_name : Bool → ℕ → Nvs → Nvs → List ℕ → ℕ → NameErr × Option (List ℕ)
get_device_name buffer size opened answer stored stored_size =
    if not buffer || ltb size (length default_name + 1) then (invalid_arg, none) else elim opened [
      | nvs_not_found ↦ (name_ok, some default_name)
      | nvs_err e ↦ (nvs_error e, some default_name)
      | nvs_ok ↦ elim answer [
        | nvs_not_found ↦ (name_ok, some default_name)
        | nvs_err e ↦ (nvs_error e, some default_name)
        | nvs_ok ↦
            if leb stored_size 1 || ltb (name_max + 1) stored_size || ltb size stored_size
            then (invalid_size, some default_name)
            else (name_ok, some stored)
      ]
    ]

-- `settings_set_device_name` (NULL is `none`): the error and whether `nvs_set_str` was called.
unfoldable pub set_device_name : Option (List ℕ) → Option ℕ → Option ℕ → Option ℕ → NameErr × Bool
set_device_name none opened set committed = (invalid_arg, false)
set_device_name (some name) opened set committed =
    if (length name == 0) || ltb name_max (length name) then (invalid_arg, false) else elim opened [
      | some e ↦ (nvs_error e, false)
      | none ↦ elim set [
        | some e ↦ (nvs_error e, true)
        | none ↦ elim committed [ some e ↦ (nvs_error e, true) | none ↦ (name_ok, true) ]
      ]
    ]
