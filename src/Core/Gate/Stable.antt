-- ===== src/Core/Gate/Stable.antt =====
-- A sensor that sends its packets evenly, at its expected rate, is stable at the startup gate.
use Prim.Native.Nat.{◌≤◌, ◌<◌}
use nexus_n3_core.Prelude.{
  ℕ, zero, suc, ◌+◌, ◌*◌, ◌/◌, Bool, true, false, some, List, [], ◌∷◌, ◌≡◌, refl, ap, ◌∙◌, arith,
  ltb, le→leb,
}
use native.Mathlib.Nat.{le-div_iff_mul-le, le_of_mul-le-mul_right, add-sub_cancel_left}
use nexus_n3_core.Core.Gate.Stats.{
  Packet, StartupGateSensorStats, default_policy, reset_for_attempt, known_rate, count_packet,
  record_gap_if_needed, missing_packets, record_sample, startup_duration, required_startup_packets,
  below_rate, rate_too_low, is_sensor_startup_stable,
}
use nexus_n3_core.Core.Gate.Samples.{record_all}

-- The packets of a sensor that sends one every `d` microseconds, the first with the timestamp `t`,
-- and reports a rate with each.
abbrev pub even_packets : (reported n : ℕ) (d t now : ℕ) → List (Packet × ℕ)
even_packets reported zero d t now = []
even_packets reported (suc n) d t now =
    (record { timestamp = some t; sampling_rate = some reported }, now)
    ∷ even_packets reported n d (t + d) (now + d)

-- The measures after `k + 1` packets without a gap, the first at `first` and the last at `now`.
abbrev steady : StartupGateSensorStats → (rate k t first now : ℕ) → StartupGateSensorStats
steady s rate k t first now = record s {
  expected_rate_hz = some rate;
  first_packet_time = some first;
  startup_last_sensor_timestamp = some t;
  startup_first_wall_time = some first;
  startup_last_wall_time = some now;
  startup_packets_received = k + 1;
  startup_gap_events = 0;
  startup_estimated_dropped_packets = 0;
}

rate_pos : (rate d : ℕ) → d * rate ≡ 1000000 → zero < rate
rate_pos rate d h = grind (arith, h)

missing_packets-period : (rate d : ℕ) → d * rate ≡ 1000000 → missing_packets rate d ≡ 0
unfolding missing_packets
missing_packets-period rate d h =
    rw (le→leb d (1500000 / rate) (short_enough (omega (arith, h)))) refl
  where
    short_enough : d * rate ≤ 1500000 → d ≤ 1500000 / rate
    short_enough = (le-div_iff_mul-le {k = rate} {x = d} {y = 1500000} (rate_pos rate d h)).1

known_rate-steady :
    (s : StartupGateSensorStats) (rate k t first now : ℕ)
    → zero < rate
    → known_rate (steady s rate k t first now) ≡ some rate
unfolding known_rate
known_rate-steady s rate k t first now h = ground arith

record_gap_if_needed-steady :
    (s : StartupGateSensorStats) (rate d k t first now : ℕ)
    → d * rate ≡ 1000000
    → record_gap_if_needed (some (t + d)) (steady s rate k t first now)
      ≡ steady s rate k t first now
unfolding record_gap_if_needed
record_gap_if_needed-steady s rate d k t first now h = ground (
  arith,
  known_rate-steady s rate k t first now (rate_pos rate d h),
  add-sub_cancel_left t d,
  missing_packets-period rate d h,
)

record_sample-steady :
    (s : StartupGateSensorStats) (reported rate d k t first now : ℕ)
    → d * rate ≡ 1000000
    → record_sample
        record { timestamp = some (t + d); sampling_rate = some reported }
        (now + d)
        (steady s rate k t first now)
      ≡ steady s rate (k + 1) (t + d) first (now + d)
unfolding record_sample
record_sample-steady s reported rate d k t first now h =
    ap (count_packet (some (t + d)) (now + d))
      (record_gap_if_needed-steady s rate d k t first now h)

same_steady :
    (s : StartupGateSensorStats) (rate first : ℕ) {k k' t t' now now' : ℕ}
    → k ≡ k'
    → t ≡ t'
    → now ≡ now'
    → steady s rate k t first now ≡ steady s rate k' t' first now'
same_steady s rate first a b c = rw (a, b, c) refl

record_all-steady :
    (n : ℕ) (s : StartupGateSensorStats) (reported rate d k t first now : ℕ)
    → d * rate ≡ 1000000
    → record_all (even_packets reported n d (t + d) (now + d)) (steady s rate k t first now)
      ≡ steady s rate (k + n) (t + n * d) first (now + n * d)
record_all-steady zero s reported rate d k t first now h =
    same_steady s rate first (omega arith) (omega arith) (omega arith)
record_all-steady (suc n) s reported rate d k t first now h =
    ap (record_all (even_packets reported n d (t + d + d) (now + d + d)))
      (record_sample-steady s reported rate d k t first now h)
    ∙ record_all-steady n s reported rate d (k + 1) (t + d) first (now + d) h
    ∙ same_steady s rate first (omega arith) (ground arith) (ground arith)

first_sample-steady :
    (s : StartupGateSensorStats) (reported rate start t now : ℕ)
    → s.expected_rate_hz ≡ some rate
    → record_sample
        record { timestamp = some t; sampling_rate = some reported }
        now
        (reset_for_attempt start s)
      ≡ steady (reset_for_attempt start s) rate 0 t now now
unfolding record_sample reset_for_attempt
first_sample-steady s reported rate start t now e = ground (arith, e)

enough_periods : (rate d n : ℕ) → d * rate ≡ 1000000 → 2000000 ≤ n * d → 2 * rate ≤ n
enough_periods rate d n h q =
    le_of_mul-le-mul_right {m = 2 * rate} {n = n} {k = d} (grind (arith, h)) (grind (arith, h, q))

required-few :
    (s : StartupGateSensorStats) (rate k n t first now : ℕ)
    → zero < rate
    → 2 * rate ≤ n
    → ltb (n + 1) (required_startup_packets default_policy (steady s rate k t first now)) ≡ false
unfolding required_startup_packets
required-few s rate k n t first now p q = ground (arith, known_rate-steady s rate k t first now p)

startup_duration-steady :
    (s : StartupGateSensorStats) (rate n t first took : ℕ)
    → startup_duration (steady s rate n t first (first + took)) ≡ took
unfolding startup_duration
startup_duration-steady s rate n t first took = omega arith

in_proportion : (rate d n : ℕ) → d * rate ≡ 1000000 → rate * 95 * (n * d) ≡ n * 95000000
in_proportion rate d n h = reordered ∙ ap (λ p. p * (n * 95)) h ∙ omega arith
  where
    reordered : rate * 95 * (n * d) ≡ d * rate * (n * 95)
    reordered = grind arith

below_rate-steady :
    (s : StartupGateSensorStats) (rate d n t first : ℕ)
    → d * rate ≡ 1000000
    → 2000000 ≤ n * d
    → below_rate default_policy (steady s rate n t first (first + n * d)) rate ≡ false
unfolding below_rate
below_rate-steady s rate d n t first h q = ground (
  arith,
  startup_duration-steady s rate n t first (n * d),
  enough_periods rate d n h q,
  rate_pos rate d h,
  in_proportion rate d n h,
)

rate_too_low-steady :
    (s : StartupGateSensorStats) (rate d n t first : ℕ)
    → d * rate ≡ 1000000
    → 2000000 ≤ n * d
    → rate_too_low default_policy (steady s rate n t first (first + n * d)) ≡ false
unfolding rate_too_low
rate_too_low-steady s rate d n t first h q = ground (
  arith,
  known_rate-steady s rate n t first (first + n * d) (rate_pos rate d h),
  below_rate-steady s rate d n t first h q,
)

stable-steady :
    (s : StartupGateSensorStats) (rate d n t first : ℕ)
    → d * rate ≡ 1000000
    → 2000000 ≤ n * d
    → is_sensor_startup_stable default_policy (steady s rate n t first (first + n * d)) ≡ true
unfolding is_sensor_startup_stable
stable-steady s rate d n t first h q = ground (
  arith,
  startup_duration-steady s rate n t first (n * d),
  rate_too_low-steady s rate d n t first h q,
  required-few s rate n n t first (first + n * d) (rate_pos rate d h) (enough_periods rate d n h q),
)

-- A sensor that sends `n + 1` packets at its expected rate, one every `d` microseconds, each with any
-- sampling rate in it, and whose first and last packets are at least the minimum observation apart,
-- is stable at the gate, however slow it is: the gate lets sensors of every rate that divides a second
-- into microseconds pass.
pub is_sensor_startup_stable-steady :
    (s : StartupGateSensorStats) (reported rate d n start t now : ℕ)
    → s.expected_rate_hz ≡ some rate
    → d * rate ≡ 1000000
    → default_policy.min_observation ≤ n * d
    → is_sensor_startup_stable default_policy
        (record_all (even_packets reported (suc n) d t now) (reset_for_attempt start s))
      ≡ true
is_sensor_startup_stable-steady s reported rate d n start t now e h q =
    ap is_stable (
      ap (record_all (even_packets reported n d (t + d) (now + d)))
        (first_sample-steady s reported rate start t now e)
      ∙ record_all-steady n (reset_for_attempt start s) reported rate d 0 t now now h)
    ∙ ap (λ k. is_stable (steady (reset_for_attempt start s) rate k (t + n * d) now (now + n * d)))
        (omega arith)
    ∙ stable-steady (reset_for_attempt start s) rate d n (t + n * d) now h q
  where
    is_stable : StartupGateSensorStats → Bool
    is_stable = is_sensor_startup_stable default_policy
