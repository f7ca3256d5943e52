-- ===== src/Battery/Tests.antt =====
-- main/matter_battery.cpp: a run of the publisher.
use cores3_epskc_commissione.Base.{refl, true, false, none}
use cores3_epskc_commissione.Battery.Publisher.{unsent, no_sample, note_power}
use cores3_epskc_commissione.Battery.Wakeup.{
  World, refused, here, next, notes, IsAwake, Reach-IsAwake,
}

abbrev idle : World
idle = record {
  state = record {
    sample = no_sample 0;
    ready = true;
    pending = false;
    scheduled = 0;
    copying = false;
    caches = record {
      percent_half = unsent;
      millivolts = unsent;
      status = unsent;
      charge = unsent;
      level = unsent;
      voltage_at = 0;
    };
  };
  fresh = false;
  dropped = false;
}

abbrev noted : World
noted = record {
  state = note_power none true 50 true idle.state;
  fresh = true;
  dropped = refused true idle.state;
}

Reach-IsAwake_example : IsAwake noted
Reach-IsAwake_example =
    Reach-IsAwake idle noted (next here (notes idle none true 50 true))
      (record { one = refl; awake = refl })
