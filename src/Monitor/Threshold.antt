-- ===== src/Monitor/Threshold.antt =====
-- The threshold that the checker and the dashboard use, from the interval in monitor.toml.
use heartpost.Common.{ℕ, ◌*◌, ◌≡◌, ◌≤◌, ◌<◌, ◌↔◌, refl, true, none, arith}
use heartpost.Common.Text.{Text, codes, is_empty, trim_space}
use heartpost.Common.Assoc.{lookup}
use heartpost.Common.Int.{pos, max_int64, wrap_int64, of_bits}
use heartpost.Clock.{Duration, minute}
use heartpost.Receiver.Liveness.{Thresholds, threshold_for, threshold_default}
use heartpost.Monitor.{FileConfig, loaded, Reader, parse_duration, default_threshold, triple}
use heartpost.Monitor.Steps.{loaded_injective}

parse_duration_blank :
    (r : Reader) (key raw : Text) (default : Duration)
    → is_empty (trim_space raw) ≡ true
    → parse_duration r key raw default ≡ loaded default
unfolding parse_duration
parse_duration_blank r key raw default e = rw e refl

default_threshold-triple :
    (r : Reader) (f : FileConfig) (d : Duration) (n : ℕ)
    → parse_duration r (codes "liveness.agent_interval") f.agent_interval (pos (5 * minute))
      ≡ loaded (pos n)
    → is_empty (trim_space f.down_threshold) ≡ true
    → default_threshold r f ≡ loaded d
    → d ≡ triple (pos n)
unfolding default_threshold
default_threshold-triple r f d n interval unset h =
    let blank =
      parse_duration_blank r (codes "liveness.down_threshold") f.down_threshold (triple (pos n))
        unset in
    loaded_injective d (triple (pos n))
      (let k : default_threshold r f ≡ loaded (triple (pos n)) = rw (interval) blank in cc)

threshold-triple :
    (t : Thresholds) (id : Text) (n : ℕ)
    → 0 < n
    → n ≤ max_int64
    → t.default ≡ triple (pos n)
    → lookup id t.per_agent ≡ none
    → (threshold_for t id ≡ pos (3 * n)) ↔ (3 * n ≤ max_int64)
unfolding threshold_for threshold_default triple wrap_int64 of_bits
threshold-triple t id n p fits e free = ground arith

-- Where monitor.toml sets an interval but no threshold, the threshold of an agent without one of its
-- own is three intervals exactly when three intervals fit in 64 bits.
pub three_intervals_iff :
    (r : Reader) (f : FileConfig) (t : Thresholds) (id : Text) (n : ℕ)
    → 0 < n
    → n ≤ max_int64
    → parse_duration r (codes "liveness.agent_interval") f.agent_interval (pos (5 * minute))
      ≡ loaded (pos n)
    → is_empty (trim_space f.down_threshold) ≡ true
    → default_threshold r f ≡ loaded t.default
    → lookup id t.per_agent ≡ none
    → (threshold_for t id ≡ pos (3 * n)) ↔ (3 * n ≤ max_int64)
three_intervals_iff r f t id n p fits interval unset h free =
    threshold-triple t id n p fits (default_threshold-triple r f t.default n interval unset h) free
