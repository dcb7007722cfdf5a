-- ===== src/Sensors/Gateway.antt =====
-- The parser of the gateway's serial stream in
-- nexus_n3/sensor_manager/adapters/gateway_ble_client.py: `_extract_item` with `_drop_and_resync`
-- and the counters of partial blocks. Bytes are natural numbers; decoding a JSON object from the
-- bytes that begin with its brace is a parameter. The log of recent reads is left out.
pub mod Rounds
pub mod Frames
pub mod Noise
mod Tests
use nexus_n3_core.Prelude.{
  ℕ, zero, suc, ◌+◌, ◌-◌, ◌*◌, ◌%◌, String, Bool, true, false, not, ◌&&◌, ◌||◌, Option, none, some,
  List, [], ◌∷◌, ◌++◌, if◌then◌else◌, ◌==◌, ltb, leb, length, take, drop,
}

pub record StreamFrame : Type 0 where
  pub sensor_id : ℕ
  pub gateway_timestamp_us : ℕ
  pub payload : List ℕ

pub data Item : Type 0 where
  json : String → Item
  stream_frame : StreamFrame → Item

pub data Block : Type 0 where
  json_block : Block
  frame_block : Block

pub record Parser : Type 0 where
  pub buf : List ℕ
  pub checksum_failures : ℕ
  pub resync_drop_bytes : ℕ
  pub resync_events : ℕ
  pub partial_json_waits : ℕ
  pub partial_frame_waits : ℕ
  -- the kind and the length of the block that is waited for
  pub partial_block : Option (Block × ℕ)

pub data Found : Type 0 where
  found : Item → Found
  nothing : Found
  -- the fuel is used up
  unfinished : Found

-- What one round of the loop comes to.
pub data Round : Type 0 where
  ends : Parser → Option Item → Round
  again : Parser → Round

abbrev pub same_block : Block → Block → Bool
same_block json_block json_block = true
same_block frame_block frame_block = true
same_block json_block frame_block = false
same_block frame_block json_block = false

abbrev pub count_wait : Block → Parser → Parser
count_wait json_block p = record p { partial_json_waits = p.partial_json_waits + 1 }
count_wait frame_block p = record p { partial_frame_waits = p.partial_frame_waits + 1 }

abbrev pub already_waits : Block → ℕ → Option (Block × ℕ) → Bool
already_waits kind n none = false
already_waits kind n (some w) = same_block (w.0) kind && (w.1 == n)

unfoldable pub record_partial_block : Block → Parser → Parser
record_partial_block kind p =
    if already_waits kind (length p.buf) p.partial_block
    then p
    else count_wait kind (record p { partial_block = some (kind, length p.buf) })

abbrev pub clear_partial_block : Parser → Parser
clear_partial_block p = record p { partial_block = none }

unfoldable pub drop_and_resync : ℕ → Parser → Parser
drop_and_resync n p =
    if n == 0
    then clear_partial_block p
    else clear_partial_block (record p {
      resync_drop_bytes = p.resync_drop_bytes + n;
      resync_events = p.resync_events + 1;
      buf = drop n p.buf;
    })

-- `bytes.find` of a byte, and of the two bytes of STREAM_FRAME_MAGIC.
unfoldable pub find_byte : ℕ → List ℕ → Option ℕ
find_byte x [] = none
find_byte x (b ∷ bs) =
    let rest = find_byte x bs in
    if b == x then some 0 else elim rest [ none ↦ none | some k ↦ some (suc k) ]

abbrev pub at_magic : List ℕ → Bool
at_magic [] = false
at_magic (a ∷ []) = false
at_magic (a ∷ b ∷ bs) = (a == 165) && (b == 90)

unfoldable pub find_magic : List ℕ → Option ℕ
find_magic [] = none
find_magic (b ∷ bs) =
    let rest = find_magic bs in
    if at_magic (b ∷ bs) then some 0 else elim rest [ none ↦ none | some k ↦ some (suc k) ]

-- The first object that `json_objects_from_line` yields.
unfoldable pub first_object : (List ℕ → Option String) → List ℕ → Option String
first_object decode [] = none
first_object decode (b ∷ bs) =
    let rest = first_object decode bs in
    if b == 123 then (elim (decode (b ∷ bs)) [ none ↦ rest | some o ↦ some o ]) else rest

abbrev pub byte_at : ℕ → List ℕ → ℕ
byte_at n [] = 0
byte_at zero (b ∷ bs) = b
byte_at (suc n) (b ∷ bs) = byte_at n bs

-- `int.from_bytes(..., "little")`, and `sum`.
abbrev pub from_little : List ℕ → ℕ
from_little [] = 0
from_little (b ∷ bs) = b + 256 * from_little bs

abbrev pub sum_of : List ℕ → ℕ
sum_of [] = 0
sum_of (b ∷ bs) = b + sum_of bs

unfoldable pub json_round : (List ℕ → Option String) → Parser → Round
unfolding find_byte first_object record_partial_block
json_round decode p = elim (find_byte 10 p.buf) [
  | none ↦ ends (record_partial_block json_block p) none
  | some k ↦
      let rest = clear_partial_block (record p { buf = drop (k + 1) p.buf }) in
      elim (first_object decode (take k p.buf)) [
        | none ↦ again rest
        | some o ↦ ends rest (some (json o))
      ]
]

abbrev pub frame_of : List ℕ → StreamFrame
frame_of buf = record {
  sensor_id = byte_at 3 buf;
  gateway_timestamp_us = from_little (take 8 (drop 4 buf));
  payload = take (byte_at 12 buf) (drop 13 buf);
}

unfoldable pub frame_round : Parser → Round
unfolding record_partial_block drop_and_resync
frame_round p =
    let size = byte_at 12 p.buf in
    let total = 13 + size + 1 in
    if ltb (length p.buf) 14
    then ends (record_partial_block frame_block p) none
    else if not (byte_at 2 p.buf == 1)
    then again (drop_and_resync 1 p)
    else if ltb (length p.buf) total
    then ends (record_partial_block frame_block p) none
    else if byte_at (13 + size) p.buf == sum_of (take (11 + size) (drop 2 p.buf)) % 256
    then ends (clear_partial_block (record p { buf = drop total p.buf }))
        (some (stream_frame (frame_of p.buf)))
    else again (drop_and_resync 1 (record p { checksum_failures = p.checksum_failures + 1 }))

abbrev pub nearest : Option ℕ → Option ℕ → Option ℕ
nearest none n = n
nearest (some m) none = some m
nearest (some m) (some n) = some (if leb m n then m else n)

abbrev pub last_byte : List ℕ → ℕ
last_byte [] = 0
last_byte (b ∷ []) = b
last_byte (b ∷ c ∷ bs) = last_byte (c ∷ bs)

unfoldable pub resync_round : Parser → Round
unfolding find_byte find_magic drop_and_resync
resync_round p = elim (nearest (find_byte 123 p.buf) (find_magic p.buf)) [
  | none ↦
      let kept = if last_byte p.buf == 165 then 1 else 0 in
      ends (drop_and_resync (length p.buf - kept) p) none
  | some n ↦ if n == 0 then again (clear_partial_block p) else again (drop_and_resync n p)
]

abbrev pub head_is : ℕ → List ℕ → Bool
head_is x [] = false
head_is x (b ∷ bs) = b == x

unfoldable pub extract_round : (List ℕ → Option String) → Parser → Round
unfolding json_round frame_round resync_round
extract_round decode p = elim p.buf [
  | [] ↦ ends p none
  | b ∷ bs ↦
      if head_is 123 p.buf
      then json_round decode p
      else if at_magic p.buf
      then frame_round p
      else resync_round p
]

-- `_extract_item`, round after round.
unfoldable pub extract_item : (fuel : ℕ) → (List ℕ → Option String) → Parser → Parser × Found
unfolding extract_round
extract_item zero decode p = (p, unfinished)
extract_item (suc fuel) decode p = elim (extract_round decode p) [
  | ends q i ↦ (q, elim i [ none ↦ nothing | some x ↦ found x ])
  | again q ↦ extract_item fuel decode q
]
