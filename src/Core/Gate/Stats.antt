-- ===== src/Core/Gate/Stats.antt =====
-- nexus_n3/core/startup_gate.py and the thresholds of nexus_n3/core/core.py: what the gate measures
-- of a sensor. Times are whole microseconds and a ratio is a percentage, with exact arithmetic where
-- the source computes with floats.
use nexus_n3_core.Prelude.{
  ℕ, ◌+◌, ◌-◌, ◌*◌, ◌/◌, ◌%◌, String, Bool, false, not, ◌||◌, Option, none, some, if◌then◌else◌,
  leb, ltb, ◌==◌,
}

pub record Packet : Type 0 where
  pub timestamp : Option ℕ
  pub sampling_rate : Option ℕ

pub record StartupGateSensorStats : Type 0 where
  pub address : String
  pub location : Option String
  pub expected_rate_hz : Option ℕ
  pub stream_start_command_time : Option ℕ
  pub first_packet_time : Option ℕ
  pub startup_last_sensor_timestamp : Option ℕ
  pub startup_first_wall_time : Option ℕ
  pub startup_last_wall_time : Option ℕ
  pub startup_packets_received : ℕ
  pub startup_gap_events : ℕ
  pub startup_estimated_dropped_packets : ℕ

unfoldable pub new_stats : String → Option String → Option ℕ → StartupGateSensorStats
new_stats address location rate = record {
  address = address;
  location = location;
  expected_rate_hz = rate;
  stream_start_command_time = none;
  first_packet_time = none;
  startup_last_sensor_timestamp = none;
  startup_first_wall_time = none;
  startup_last_wall_time = none;
  startup_packets_received = 0;
  startup_gap_events = 0;
  startup_estimated_dropped_packets = 0;
}

unfoldable pub reset_for_attempt : ℕ → StartupGateSensorStats → StartupGateSensorStats
reset_for_attempt now s = record s {
  stream_start_command_time = some now;
  first_packet_time = none;
  startup_last_sensor_timestamp = none;
  startup_first_wall_time = none;
  startup_last_wall_time = none;
  startup_packets_received = 0;
  startup_gap_events = 0;
  startup_estimated_dropped_packets = 0;
}

-- `round` of n / d: to the nearest whole number, and halves to the even one.
unfoldable pub rounded : ℕ → ℕ → ℕ
rounded n d =
    let q = n / d in
    let r = 2 * (n % d) in
    if ltb r d then q else if ltb d r then q + 1 else if q % 2 == 0 then q else q + 1

-- The number of packets that a step of `delta` microseconds at `rate` leaves out, when the step is
-- longer than one and a half periods.
unfoldable pub missing_packets : (rate delta : ℕ) → ℕ
missing_packets rate delta =
    if leb delta (1500000 / rate) then 0 else rounded (delta * rate) 1000000 - 1

unfoldable pub count_missing : ℕ → StartupGateSensorStats → StartupGateSensorStats
count_missing n s = if n == 0 then s else record s {
  startup_gap_events = s.startup_gap_events + 1;
  startup_estimated_dropped_packets = s.startup_estimated_dropped_packets + n;
}

-- A rate that is missing or 0 counts as unknown.
unfoldable pub known_rate : StartupGateSensorStats → Option ℕ
known_rate s = elim s.expected_rate_hz [ none ↦ none | some r ↦ if r == 0 then none else some r ]

-- `_record_gap_if_needed`; a timestamp that is not later counts as a step of 0.
unfoldable pub record_gap_if_needed : Option ℕ → StartupGateSensorStats → StartupGateSensorStats
unfolding known_rate missing_packets count_missing
record_gap_if_needed none s = s
record_gap_if_needed (some t) s = elim s.startup_last_sensor_timestamp [
  | none ↦ s
  | some last ↦ elim (known_rate s) [
    | none ↦ s
    | some rate ↦ count_missing (missing_packets rate (t - last)) s
  ]
]

unfoldable pub learn_rate : Option ℕ → StartupGateSensorStats → StartupGateSensorStats
learn_rate none s = s
learn_rate (some r) s = elim s.expected_rate_hz [
  | none ↦ if r == 0 then s else record s { expected_rate_hz = some r }
  | some _ ↦ s
]

unfoldable pub or_now : Option ℕ → ℕ → Option ℕ
or_now none now = some now
or_now (some t) now = some t

unfoldable pub see_first : Option ℕ → ℕ → StartupGateSensorStats → StartupGateSensorStats
unfolding or_now record_gap_if_needed
see_first t now s =
    let seen = record s { first_packet_time = or_now s.first_packet_time now } in
    elim s.startup_first_wall_time [
      | none ↦ record seen { startup_first_wall_time = some now }
      | some _ ↦ record_gap_if_needed t seen
    ]

unfoldable pub count_packet : Option ℕ → ℕ → StartupGateSensorStats → StartupGateSensorStats
count_packet t now s = record s {
  startup_last_sensor_timestamp = t;
  startup_last_wall_time = some now;
  startup_packets_received = s.startup_packets_received + 1;
}

unfoldable pub record_sample :
    Packet → (wall_time : ℕ) → StartupGateSensorStats → StartupGateSensorStats
unfolding learn_rate see_first count_packet
record_sample p now s =
    count_packet p.timestamp now (see_first p.timestamp now (learn_rate p.sampling_rate s))

unfoldable pub startup_duration : StartupGateSensorStats → ℕ
startup_duration s = elim s.startup_first_wall_time [
  | none ↦ 0
  | some a ↦ elim s.startup_last_wall_time [ none ↦ 0 | some b ↦ b - a ]
]

pub record Policy : Type 0 where
  pub packets_required : ℕ
  pub min_packets_required : ℕ
  pub min_rate_percent : ℕ
  pub min_observation : ℕ
  pub max_attempts : ℕ

-- The constants of `Core.__init__`.
abbrev pub default_policy : Policy
default_policy = record {
  packets_required = 60;
  min_packets_required = 3;
  min_rate_percent = 95;
  min_observation = 2000000;
  max_attempts = 1;
}

abbrev pub min : ℕ → ℕ → ℕ
min a b = if leb a b then a else b

abbrev pub max : ℕ → ℕ → ℕ
max a b = if leb a b then b else a

-- `_required_startup_packets`
unfoldable pub required_startup_packets : Policy → StartupGateSensorStats → ℕ
unfolding known_rate
required_startup_packets p s = elim (known_rate s) [
  | none ↦ p.packets_required
  | some rate ↦
      let expected = (rate * p.min_observation + 999999) / 1000000 in
      max p.min_packets_required (min p.packets_required expected)
]

-- The observed rate is below the percentage of the expected one. Without two packets and a time
-- between them the observed rate is 0.
unfoldable pub below_rate : Policy → StartupGateSensorStats → ℕ → Bool
unfolding startup_duration
below_rate p s rate =
    let threshold = rate * p.min_rate_percent in
    if startup_duration s == 0 || ltb s.startup_packets_received 2
    then ltb 0 threshold
    else ltb ((s.startup_packets_received - 1) * 1000000 * 100) (threshold * startup_duration s)

unfoldable pub rate_too_low : Policy → StartupGateSensorStats → Bool
unfolding known_rate below_rate
rate_too_low p s = elim (known_rate s) [ none ↦ false | some rate ↦ below_rate p s rate ]

-- `_is_sensor_startup_stable`
unfoldable pub is_sensor_startup_stable : Policy → StartupGateSensorStats → Bool
unfolding required_startup_packets startup_duration rate_too_low
is_sensor_startup_stable p s = elim s.first_packet_time [
  | none ↦ false
  | some _ ↦
      if ltb s.startup_packets_received (required_startup_packets p s)
      then false
      else if ltb (startup_duration s) p.min_observation
      then false
      else if rate_too_low p s
      then false
      else not (ltb 0 s.startup_gap_events || ltb 0 s.startup_estimated_dropped_packets)
]
