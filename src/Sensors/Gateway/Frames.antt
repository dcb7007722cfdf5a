-- ===== src/Sensors/Gateway/Frames.antt =====
-- A frame that the gateway sends is what its parser gets, and the bytes after it stay in the buffer.
use nexus_n3_core.Prelude.{
  ℕ, zero, suc, ◌+◌, ◌/◌, ◌%◌, ◌^◌, ◌≤◌, ◌<◌, String, Option, some, List, [], ◌∷◌, ◌++◌, length,
  take, drop, length-append, ◌≡◌, refl, sym, ap, ◌∙◌, arith,
}
use mathlib.Core.Path.{ap₂}
use native.Mathlib.Nat.{pow-succ'}
use nexus_n3_core.Sensors.Gateway.{
  StreamFrame, Item, stream_frame, Parser, found, clear_partial_block, byte_at, from_little, sum_of,
  frame_of, ends, frame_round, extract_round, extract_item,
}

abbrev pub to_little : (size n : ℕ) → List ℕ
to_little zero n = []
to_little (suc size) n = n % 256 ∷ to_little size (n / 256)

-- What the checksum is taken over: the version, the sensor, the timestamp, the size and the payload.
abbrev pub frame_body : StreamFrame → List ℕ
frame_body f = 1 ∷ f.sensor_id ∷ to_little 8 f.gateway_timestamp_us ++ length f.payload ∷ f.payload

-- The bytes of a frame on the wire, before the others.
abbrev pub sent_before : StreamFrame → List ℕ → List ℕ
sent_before f rest = 165 ∷ 90 ∷ frame_body f ++ sum_of (frame_body f) % 256 ∷ rest

from_little-to_little : (size n : ℕ) → n < 256 ^ size → from_little (to_little size n) ≡ n
from_little-to_little zero n h = omega (arith, h)
from_little-to_little (suc size) n h =
    omega (arith, from_little-to_little size (n / 256) (omega (arith, h, pow-succ' 256 size)))

take-append {ℓ} : {A : Type ℓ} (xs ys : List A) → take (length xs) (xs ++ ys) ≡ xs
take-append [] ys = refl
take-append (x ∷ xs) ys = ap (λ zs. x ∷ zs) (take-append xs ys)

drop_one-append {ℓ} :
    {A : Type ℓ} (xs : List A) (y : A) (ys : List A) → drop (suc (length xs)) (xs ++ y ∷ ys) ≡ ys
drop_one-append [] y ys = refl
drop_one-append (x ∷ xs) y ys = drop_one-append xs y ys

byte_at-append : (xs : List ℕ) (c : ℕ) (ys : List ℕ) → byte_at (length xs) (xs ++ c ∷ ys) ≡ c
byte_at-append [] c ys = refl
byte_at-append (x ∷ xs) c ys = byte_at-append xs c ys

length-frame_body : (f : StreamFrame) → length (frame_body f) ≡ 11 + length f.payload
length-frame_body f = omega arith

frame_round-good :
    (p : Parser) (size : ℕ)
    → byte_at 12 p.buf ≡ size
    → byte_at 2 p.buf ≡ 1
    → 14 + size ≤ length p.buf
    → byte_at (13 + size) p.buf ≡ sum_of (take (11 + size) (drop 2 p.buf)) % 256
    → frame_round p
      ≡ ends
          (clear_partial_block (record p { buf = drop (13 + size + 1) p.buf }))
          (some (stream_frame (frame_of p.buf)))
unfolding frame_round
frame_round-good p size e one long same = ground (arith, e, one, long, same)

-- Bytes of the frame with the others behind it.
module _ (f : StreamFrame) (rest : List ℕ) where
  checksum_sum :
      sum_of (take (11 + length f.payload) (drop 2 (sent_before f rest))) ≡ sum_of (frame_body f)
  checksum_sum =
      ap (λ n. sum_of (take n (drop 2 (sent_before f rest)))) (sym (length-frame_body f))
      ∙ ap sum_of (take-append (frame_body f) (sum_of (frame_body f) % 256 ∷ rest))

  checksum_byte : byte_at (13 + length f.payload) (sent_before f rest) ≡ sum_of (frame_body f) % 256
  checksum_byte =
      ap (λ n. byte_at n (sent_before f rest)) same
      ∙ byte_at-append (165 ∷ 90 ∷ frame_body f) (sum_of (frame_body f) % 256) rest
    where
      same : 13 + length f.payload ≡ length (165 ∷ 90 ∷ frame_body f)
      same = omega arith

  left_bytes : drop (13 + length f.payload + 1) (sent_before f rest) ≡ rest
  left_bytes =
      ap (λ n. drop n (sent_before f rest)) same
      ∙ drop_one-append (165 ∷ 90 ∷ frame_body f) (sum_of (frame_body f) % 256) rest
    where
      same : 13 + length f.payload + 1 ≡ suc (length (165 ∷ 90 ∷ frame_body f))
      same = omega arith

  all_bytes : length (sent_before f rest) ≡ 14 + length f.payload + length rest
  all_bytes = omega (arith, length-append (frame_body f) (sum_of (frame_body f) % 256 ∷ rest))

  sent_payload : take (length f.payload) (drop 13 (sent_before f rest)) ≡ f.payload
  sent_payload = take-append f.payload (sum_of (frame_body f) % 256 ∷ rest)

  sent_frame : f.gateway_timestamp_us < 256 ^ 8 → frame_of (sent_before f rest) ≡ f
  sent_frame h =
      ap₂ (λ t b. record f { gateway_timestamp_us = t; payload = b })
        (from_little-to_little 8 f.gateway_timestamp_us h) sent_payload

  frame_round-sent :
      (p : Parser)
      → f.gateway_timestamp_us < 256 ^ 8
      → frame_round (record p { buf = sent_before f rest })
        ≡ ends (clear_partial_block (record p { buf = rest })) (some (stream_frame f))
  frame_round-sent p h =
      frame_round-good (record p { buf = sent_before f rest }) (length f.payload) refl refl
        (omega (arith, all_bytes)) (checksum_byte ∙ ap (λ n. n % 256) (sym checksum_sum))
      ∙ ap₂ (λ b x. ends (clear_partial_block (record p { buf = b })) (some (stream_frame x)))
          left_bytes (sent_frame h)

extract_item-found :
    (fuel : ℕ) (decode : List ℕ → Option String) (p q : Parser) (i : Item)
    → extract_round decode p ≡ ends q (some i)
    → extract_item (suc fuel) decode p ≡ (q, found i)
unfolding extract_item
extract_item-found fuel decode p q i e = ground (arith, e)

extract_round-sent :
    (decode : List ℕ → Option String) (p : Parser) (f : StreamFrame) (rest : List ℕ)
    → extract_round decode (record p { buf = sent_before f rest })
      ≡ frame_round (record p { buf = sent_before f rest })
unfolding extract_round
extract_round-sent decode p f rest = refl

-- Whatever the parser has counted, when its buffer begins with a frame of the protocol it takes off
-- exactly this frame: it gets the sensor, the timestamp of up to 64 bits and the payload that were
-- sent, and the bytes after the frame stay.
pub extract_item-sent :
    (fuel : ℕ) (decode : List ℕ → Option String) (p : Parser) (f : StreamFrame) (rest : List ℕ)
    → f.gateway_timestamp_us < 256 ^ 8
    → extract_item (suc fuel) decode (record p { buf = sent_before f rest })
      ≡ (clear_partial_block (record p { buf = rest }), found (stream_frame f))
extract_item-sent fuel decode p f rest h =
    extract_item-found fuel decode (record p { buf = sent_before f rest })
      (clear_partial_block (record p { buf = rest })) (stream_frame f)
      (extract_round-sent decode p f rest ∙ frame_round-sent f rest p h)
