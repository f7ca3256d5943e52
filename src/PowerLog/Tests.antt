-- ===== src/PowerLog/Tests.antt =====
-- main/power_log.c: runs of the log and of the number reader.
use cores3_epskc_commissione.Base.{ℕ, ◌≡◌, refl, true, false, some, [], ◌∷◌, arith}
use cores3_epskc_commissione.Power.Gauge.{no_status}
use cores3_epskc_commissione.PowerLog.Samples.{Samples, row_of, get}
use cores3_epskc_commissione.PowerLog.Refine.{Noted, notes, noted, recent, get-notes}

abbrev allocated : Samples
allocated = record { at = λ i. row_of no_status false 0 0; boot_id = 5; latest = 0; count = 0 }

abbrev reading : ℕ → Noted
reading t = record { status = no_status; valid = true; screen = 120; now = t }

get-notes_example :
    get (notes (some allocated) (reading 10 ∷ reading 20 ∷ [])) 2
    ≡ recent (noted [] (reading 10 ∷ reading 20 ∷ [])) 2
get-notes_example = get-notes allocated (reading 10 ∷ reading 20 ∷ []) 2 refl refl (omega arith)
