-- ===== src/Sensors/Gateway/Tests.antt =====
-- A frame of three bytes, with noise before it, and the theorems on the parser at it.
use nexus_n3_core.Prelude.{
  ℕ, String, Option, none, some, List, [], ◌∷◌, ◌++◌, ◌≡◌, ◌≢◌, refl, arith, length,
}
use nexus_n3_core.Sensors.Gateway.{
  StreamFrame, json, stream_frame, Parser, found, unfinished, clear_partial_block, extract_item,
  extract_round, json_round, find_byte, first_object,
}
use nexus_n3_core.Sensors.Gateway.Rounds.{extract_item-ends}
use nexus_n3_core.Sensors.Gateway.Frames.{sent_before, extract_item-sent}
use nexus_n3_core.Sensors.Gateway.Noise.{resynced, extract_item-noise}

abbrev empty : Parser
empty = record {
  buf = [];
  checksum_failures = 0;
  resync_drop_bytes = 0;
  resync_events = 0;
  partial_json_waits = 0;
  partial_frame_waits = 0;
  partial_block = none;
}

abbrev decode : List ℕ → Option String
decode bs = some "object"

abbrev frame : StreamFrame
frame = record { sensor_id = 7; gateway_timestamp_us = 123; payload = 1 ∷ 2 ∷ 3 ∷ [] }

abbrev noise : List ℕ
noise = 120 ∷ 120 ∷ []

abbrev object : List ℕ
object = 123 ∷ 125 ∷ 10 ∷ []

object_is_read :
    extract_item 1 decode (record empty { buf = object ++ 165 ∷ [] })
    ≡ (record empty { buf = 165 ∷ [] }, found (json "object"))
unfolding extract_item extract_round json_round find_byte first_object
object_is_read = refl

extract_item-sent_example :
    extract_item 1 decode (record empty { buf = sent_before frame object })
    ≡ (clear_partial_block (record empty { buf = object }), found (stream_frame frame))
extract_item-sent_example = extract_item-sent 0 decode empty frame object (omega arith)

extract_item-noise_example :
    extract_item 2 decode (record empty { buf = noise ++ sent_before frame object })
    ≡ (record (resynced (length noise) empty) { buf = object }, found (stream_frame frame))
extract_item-noise_example =
    extract_item-noise 0 decode empty 120 (120 ∷ []) frame object refl (omega arith)

extract_item-ends_example : (extract_item 4 decode (record empty { buf = object })).1 ≢ unfinished
extract_item-ends_example = extract_item-ends decode 4 (record empty { buf = object }) (omega arith)
