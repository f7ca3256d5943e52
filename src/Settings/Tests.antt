-- ===== src/Settings/Tests.antt =====
-- main/settings.c: runs of loading, saving and naming.
use cores3_epskc_commissione.Base.{◌≡◌, refl, true, false, some, arith}
use cores3_epskc_commissione.Settings.Store.{
  bright, sleep, router, channel, sharemin, keepawake, restapi, restepskc, restlogs, Settings,
  defaults, Saved, settings_load, settings_save,
}
use cores3_epskc_commissione.Settings.Laws.{settings_load-settings_save}

abbrev custom : Settings
custom = record {
  brightness = 40;
  sleep_idx = 3;
  prefer_router = true;
  new_net_channel = 15;
  share_minutes = 10;
  keep_awake_powered = false;
  rest_api = true;
  rest_epskc = false;
  rest_logs = true;
}

-- An NVS that holds `custom`.
abbrev saved : Saved
saved bright = some 40
saved sleep = some 3
saved router = some 1
saved channel = some 15
saved sharemin = some 10
saved keepawake = some 0
saved restapi = some 1
saved restepskc = some 0
saved restlogs = some 1

settings_load-settings_save_example : settings_load true saved defaults ≡ custom
unfolding settings_save
settings_load-settings_save_example =
    settings_load-settings_save custom defaults true (λ k. true) saved (ground arith) refl
      (refl, (refl, (refl, (refl, (refl, (refl, (refl, (refl, (refl, tt)))))))))
