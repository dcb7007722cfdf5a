-- ===== src/Sensors/Gateway/Noise.antt =====
-- Bytes that cannot begin a frame or an object are dropped up to the next frame, which is then found.
use nexus_n3_core.Prelude.{
  ℕ, zero, suc, ◌+◌, ◌^◌, ◌≤◌, ◌<◌, String, Bool, true, false, not, ◌&&◌, Option, none, some, List,
  [], ◌∷◌, ◌++◌, ◌==◌, length, drop, ◌≡◌, refl, ap, ◌∙◌, arith,
}
use nexus_n3_core.Sensors.Gateway.{
  StreamFrame, stream_frame, Parser, found, clear_partial_block, at_magic, extract_round,
  extract_item,
}
use nexus_n3_core.Sensors.Gateway.{
  find_byte, find_magic, nearest, resync_round, drop_and_resync, again,
}
use nexus_n3_core.Sensors.Gateway.Frames.{sent_before, extract_item-sent}

-- No byte is an opening brace or the first byte of a frame.
abbrev pub all_noise : List ℕ → Bool
all_noise [] = true
all_noise (b ∷ bs) = not (b == 123) && (not (b == 165) && all_noise bs)

at_magic-noise : (b : ℕ) (bs : List ℕ) → (b == 165) ≡ false → at_magic (b ∷ bs) ≡ false
at_magic-noise b [] h = refl
at_magic-noise b (c ∷ bs) h = ground (arith, h)

find_magic-noise :
    (xs ys : List ℕ) → all_noise xs ≡ true → find_magic (xs ++ 165 ∷ 90 ∷ ys) ≡ some (length xs)
unfolding find_magic
find_magic-noise [] ys h = refl
find_magic-noise (x ∷ xs) ys h =
    ground (arith, h, find_magic-noise xs ys, at_magic-noise x (xs ++ 165 ∷ 90 ∷ ys))

find_byte-noise :
    (xs ys : List ℕ) (k : ℕ)
    → all_noise xs ≡ true
    → find_byte 123 (xs ++ 165 ∷ ys) ≡ some k
    → length xs ≤ k
unfolding find_byte
find_byte-noise [] ys k h e = omega arith
find_byte-noise (x ∷ xs) ys zero h e = ground (arith, h, e)
find_byte-noise (x ∷ xs) ys (suc k) h e = ground (arith, h, e, find_byte-noise xs ys k)

nearest-least :
    (o : Option ℕ) (n : ℕ) → ((k : ℕ) → o ≡ some k → n ≤ k) → nearest o (some n) ≡ some n
nearest-least none n h = refl
nearest-least (some k) n h = ground (arith, h k refl)

drop-append {ℓ} : {A : Type ℓ} (xs ys : List A) → drop (length xs) (xs ++ ys) ≡ ys
drop-append [] ys = refl
drop-append (x ∷ xs) ys = drop-append xs ys

abbrev pub resynced : ℕ → Parser → Parser
resynced n p =
    clear_partial_block (record p {
      resync_drop_bytes = p.resync_drop_bytes + n;
      resync_events = p.resync_events + 1;
    })

resync_round-near :
    (p : Parser) (n : ℕ)
    → nearest (find_byte 123 p.buf) (find_magic p.buf) ≡ some (suc n)
    → resync_round p ≡ again (record (resynced (suc n) p) { buf = drop (suc n) p.buf })
unfolding resync_round drop_and_resync
resync_round-near p n h = ground (arith, h)

-- Noise of at least one byte, and a frame behind it.
module _ (x : ℕ) (xs ys : List ℕ) (h : all_noise (x ∷ xs) ≡ true) where
  abbrev noisy : List ℕ
  noisy = x ∷ xs ++ 165 ∷ 90 ∷ ys

  frame_is_nearest : nearest (find_byte 123 noisy) (find_magic noisy) ≡ some (suc (length xs))
  frame_is_nearest =
      ap (nearest (find_byte 123 noisy)) (find_magic-noise (x ∷ xs) ys h)
      ∙ nearest-least (find_byte 123 noisy) (suc (length xs))
          (λ k. find_byte-noise (x ∷ xs) (90 ∷ ys) k h)

  resync_round-noise :
      (p : Parser)
      → resync_round (record p { buf = noisy })
        ≡ again (record (resynced (suc (length xs)) p) { buf = 165 ∷ 90 ∷ ys })
  resync_round-noise p =
      resync_round-near (record p { buf = noisy }) (length xs) frame_is_nearest
      ∙ ap (λ b. again (record (resynced (suc (length xs)) p) { buf = b }))
          (drop-append (x ∷ xs) (165 ∷ 90 ∷ ys))

  extract_round-noise :
      (decode : List ℕ → Option String) (p : Parser)
      → extract_round decode (record p { buf = noisy }) ≡ resync_round (record p { buf = noisy })
  unfolding extract_round
  extract_round-noise decode p = ground (arith, h, at_magic-noise x (xs ++ 165 ∷ 90 ∷ ys))

extract_item-again :
    (fuel : ℕ) (decode : List ℕ → Option String) (p q : Parser)
    → extract_round decode p ≡ again q
    → extract_item (suc fuel) decode p ≡ extract_item fuel decode q
unfolding extract_item
extract_item-again fuel decode p q e = ground (arith, e)

-- When bytes are in the buffer of which none can begin a frame or an object, and a frame comes behind
-- them, the parser drops exactly these bytes in one resynchronisation, gets the frame as it was sent
-- and keeps what follows it.
pub extract_item-noise :
    (fuel : ℕ) (decode : List ℕ → Option String) (p : Parser) (x : ℕ) (xs : List ℕ)
    (f : StreamFrame) (rest : List ℕ)
    → all_noise (x ∷ xs) ≡ true
    → f.gateway_timestamp_us < 256 ^ 8
    → extract_item (suc (suc fuel)) decode (record p { buf = x ∷ xs ++ sent_before f rest })
      ≡ (record (resynced (length (x ∷ xs)) p) { buf = rest }, found (stream_frame f))
extract_item-noise fuel decode p x xs f rest h small =
    extract_item-again (suc fuel) decode (record p { buf = x ∷ xs ++ sent_before f rest })
      (record (resynced (length (x ∷ xs)) p) { buf = sent_before f rest })
      (extract_round-noise x xs _ h decode p ∙ resync_round-noise x xs _ h p)
    ∙ extract_item-sent fuel decode (resynced (length (x ∷ xs)) p) f rest small
