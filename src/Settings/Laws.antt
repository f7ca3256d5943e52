-- ===== src/Settings/Laws.antt =====
-- main/settings.c: the ranges of the settings, and saving and loading.
use cores3_epskc_commissione.Base.{
  ℕ, ◌+◌, ◌≤◌, ◌<◌, ◌≡◌, refl, subst, ◌⊎◌, Bool, true, some, List, [], ◌∷◌, length, arith, All,
}
use cores3_epskc_commissione.Settings.Store.{
  Key, Settings, defaults, Saved, load_bool, load_brightness, load_sleep, load_channel, load_share,
  settings_load, bit, pairs, set_all, settings_save, name_ok, Nvs, name_max, get_device_name,
}

-- The ranges that the fields' comments state.
pub record IsSettings (s : Settings) : Type 0 where
  pub brightness_low : 10 ≤ s.brightness
  pub brightness_high : s.brightness ≤ 100
  pub sleep_idx : s.sleep_idx < 4
  pub channel : (s.new_net_channel ≡ 0) ⊎ ((11 ≤ s.new_net_channel) × (s.new_net_channel ≤ 26))
  pub share : (s.share_minutes ≡ 2) ⊎ (s.share_minutes ≡ 5) ⊎ (s.share_minutes ≡ 10)

defaults-IsSettings : IsSettings defaults
unfolding defaults
defaults-IsSettings = ground arith

settings_load-step :
    (opened : Bool) (nvs : Saved) (s : Settings)
    → IsSettings s
    → IsSettings (settings_load opened nvs s)
unfolding settings_load load_brightness load_sleep load_channel load_share
settings_load-step opened nvs s r = ground arith

-- The settings after a number of loads.
abbrev pub loads : List (Bool × Saved) → Settings → Settings
loads [] s = s
loads ((opened, nvs) ∷ ls) s = loads ls (settings_load opened nvs s)

loads-step : (ls : List (Bool × Saved)) (s : Settings) → IsSettings s → IsSettings (loads ls s)
loads-step [] s r = r
loads-step ((opened, nvs) ∷ ls) s r =
    loads-step ls (settings_load opened nvs s) (settings_load-step opened nvs s r)

-- Whatever NVS answers at any number of loads, from the defaults on every setting stays in the range
-- that its comment states.
pub loads-IsSettings : (ls : List (Bool × Saved)) → IsSettings (loads ls defaults)
loads-IsSettings ls = loads-step ls defaults defaults-IsSettings

-- NVS answers under every key that was set what was set.
abbrev pub Answers : Saved → List (Key × ℕ) → Type 0
Answers nvs = All (λ p. nvs p.0 ≡ some p.1)

set_all_complete :
    (ok : Key → Bool) (ps : List (Key × ℕ)) → (set_all ok ps).1 ≡ true → (set_all ok ps).0 ≡ ps
unfolding set_all
set_all_complete ok [] e = refl
set_all_complete ok ((k, v) ∷ ps) e = ground (arith, set_all_complete ok ps)

settings_save_complete :
    (s : Settings) (opened : Bool) (ok : Key → Bool)
    → (settings_save opened ok s).1 ≡ true
    → (settings_save opened ok s).0 ≡ pairs s
unfolding settings_save
settings_save_complete s opened ok e = ground (arith, set_all_complete ok (pairs s))

load_bool-bit : (b out : Bool) → load_bool (some (bit b)) out ≡ b
unfolding load_bool
load_bool-bit b out = ground arith

load_brightness-some : (v out : ℕ) → 10 ≤ v → v ≤ 100 → load_brightness (some v) out ≡ v
unfolding load_brightness
load_brightness-some v out h l = ground arith

load_sleep-some : (v out : ℕ) → v < 4 → load_sleep (some v) out ≡ v
unfolding load_sleep
load_sleep-some v out l = ground arith

load_channel-some : (v out : ℕ) → (v ≡ 0) ⊎ ((11 ≤ v) × (v ≤ 26)) → load_channel (some v) out ≡ v
unfolding load_channel
load_channel-some v out h = ground arith

load_share-some : (v out : ℕ) → (v ≡ 2) ⊎ (v ≡ 5) ⊎ (v ≡ 10) → load_share (some v) out ≡ v
unfolding load_share
load_share-some v out h = ground arith

settings_load-pairs :
    (s t : Settings) (nvs : Saved)
    → IsSettings s
    → Answers nvs (pairs s)
    → settings_load true nvs t ≡ s
unfolding settings_load pairs
settings_load-pairs s t nvs r (e, (e1, (e2, (e3, (e4, (e5, (e6, (e7, (e8, u))))))))) = rw (
  e,
  e1,
  e2,
  e3,
  e4,
  e5,
  e6,
  e7,
  e8,
  load_bool-bit s.prefer_router t.prefer_router,
  load_bool-bit s.keep_awake_powered t.keep_awake_powered,
  load_bool-bit s.rest_api t.rest_api,
  load_bool-bit s.rest_epskc t.rest_epskc,
  load_bool-bit s.rest_logs t.rest_logs,
  load_brightness-some s.brightness t.brightness r.brightness_low r.brightness_high,
  load_sleep-some s.sleep_idx t.sleep_idx r.sleep_idx,
  load_channel-some s.new_net_channel t.new_net_channel r.channel,
  load_share-some s.share_minutes t.share_minutes r.share,
)

-- After a save, that reached its commit, of settings in their ranges (a brightness of 10 to 100, a sleep
-- index below 4, no channel or one from 11 to 26, and 2, 5 or 10 minutes), a load from an NVS that
-- answers what was set gives back the saved settings exactly, whatever was in memory before.
pub settings_load-settings_save :
    (s t : Settings) (opened : Bool) (ok : Key → Bool) (nvs : Saved)
    → IsSettings s
    → (settings_save opened ok s).1 ≡ true
    → Answers nvs (settings_save opened ok s).0
    → settings_load true nvs t ≡ s
settings_load-settings_save s t opened ok nvs r c a =
    settings_load-pairs s t nvs r (subst (Answers nvs) (settings_save_complete s opened ok c) a)

-- `settings_get_device_name` answers `ESP_OK` with a name that is not empty and fits both the buffer
-- and 32 characters, provided that NVS reports a string with its length and its NUL.
pub get_device_name-fits :
    (buffer : Bool) (size : ℕ) (opened answer : Nvs) (stored : List ℕ) (stored_size : ℕ)
    (name : List ℕ)
    → stored_size ≡ length stored + 1
    → get_device_name buffer size opened answer stored stored_size ≡ (name_ok, some name)
    → (0 < length name) × (length name < size) × (length name ≤ name_max)
unfolding get_device_name
get_device_name-fits buffer size opened answer stored stored_size name l e = ground arith
