-- ===== src/PowerLog/Info.antt =====
-- main/power_log.c: what `power_log_info` announces and what `power_log_get` finds.
use cores3_epskc_commissione.Base.{ℕ, ◌^◌, ◌≤◌, ◌<◌, ◌≡◌, ◌≢◌, ◌↔◌, none, some, arith}
use cores3_epskc_commissione.PowerLog.Samples.{Samples, Info, info, get}

-- In a log with a count of at least one and at most the latest number, which is below 2^32,
-- `power_log_get` finds a sample exactly for the numbers from the oldest to the latest one that
-- `power_log_info` announces.
pub get-info_iff :
    (s : Samples) (i : Info) (seq : ℕ)
    → s.count ≤ s.latest
    → s.latest < 2 ^ 32
    → 0 < s.count
    → info (some s) ≡ some i
    → (get (some s) seq ≢ none) ↔ ((i.oldest_seq ≤ seq) × (seq ≤ i.latest_seq))
unfolding info get
get-info_iff s i seq l m c e = ground arith
