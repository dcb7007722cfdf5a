-- ===== src/Core/Gate/Samples.antt =====
-- What the measures of a sensor amount to after a sequence of its packets.
use Prim.Native.Nat.{◌≤◌}
use nexus_n3_core.Prelude.{ℕ, ◌+◌, List, [], ◌∷◌, ◌≡◌, arith, length}
use nexus_n3_core.Core.Gate.Stats.{Packet, StartupGateSensorStats, reset_for_attempt, record_sample}

abbrev pub record_all : List (Packet × ℕ) → StartupGateSensorStats → StartupGateSensorStats
record_all [] s = s
record_all ((p, now) ∷ ps) s = record_all ps (record_sample p now s)

-- Every gap is among the packets, and every gap misses a packet.
pub record GapsCounted (s : StartupGateSensorStats) : Type 0 where
  gaps_among_packets : s.startup_gap_events ≤ s.startup_packets_received
  gaps_miss_packets : s.startup_gap_events ≤ s.startup_estimated_dropped_packets

record_sample-GapsCounted :
    (p : Packet) (now : ℕ) (s : StartupGateSensorStats)
    → GapsCounted s
    → GapsCounted (record_sample p now s)
unfolding record_sample
record_sample-GapsCounted p now s v = record {
  gaps_among_packets = ground (arith, v.gaps_among_packets);
  gaps_miss_packets = ground (arith, v.gaps_miss_packets);
}

record_sample-counted :
    (p : Packet) (now : ℕ) (s : StartupGateSensorStats)
    → (record_sample p now s).startup_packets_received ≡ s.startup_packets_received + 1
unfolding record_sample
record_sample-counted p now s = ground arith

record_all-GapsCounted :
    (ps : List (Packet × ℕ)) (s : StartupGateSensorStats)
    → GapsCounted s
    → GapsCounted (record_all ps s)
record_all-GapsCounted [] s v = v
record_all-GapsCounted ((p, now) ∷ ps) s v =
    record_all-GapsCounted ps (record_sample p now s) (record_sample-GapsCounted p now s v)

record_all-counted :
    (ps : List (Packet × ℕ)) (s : StartupGateSensorStats)
    → (record_all ps s).startup_packets_received ≡ s.startup_packets_received + length ps
record_all-counted [] s = omega arith
record_all-counted ((p, now) ∷ ps) s =
    omega (arith, record_all-counted ps (record_sample p now s), record_sample-counted p now s)

-- From the start of an attempt on, the gate counts every packet that it is given, each gap is one of
-- these packets, and each gap misses at least one packet.
pub attempt-GapsCounted :
    (ps : List (Packet × ℕ)) (start : ℕ) (s : StartupGateSensorStats)
    → ((record_all ps (reset_for_attempt start s)).startup_packets_received ≡ length ps)
      × GapsCounted (record_all ps (reset_for_attempt start s))
unfolding reset_for_attempt
attempt-GapsCounted ps start s = (
  omega (arith, record_all-counted ps (reset_for_attempt start s)),
  record_all-GapsCounted ps (reset_for_attempt start s)
      record { gaps_among_packets = omega arith; gaps_miss_packets = omega arith },
)
