-- ===== src/Sensors/Gateway/Rounds.antt =====
-- The loop of the gateway's parser ends: every round that goes on takes bytes off the buffer.
use nexus_n3_core.Prelude.{
  ℕ, zero, suc, ◌+◌, ◌<◌, String, Bool, true, false, Option, some, List, [], ◌∷◌, ltb, length,
  length-drop, ◌≡◌, ◌≢◌, refl, arith, Option-cases, inl, inr,
}
use nexus_n3_core.Sensors.Gateway.{
  Parser, unfinished, Round, ends, again, find_byte, find_magic, at_magic, head_is, nearest,
  drop_and_resync, json_round, frame_round, resync_round, extract_round, extract_item,
}

abbrev shortens : Parser → Round → Bool
shortens p (ends q f) = true
shortens p (again q) = ltb (length q.buf) (length p.buf)

json_round-shortens :
    (decode : List ℕ → Option String) (p : Parser)
    → 0 < length p.buf
    → shortens p (json_round decode p) ≡ true
unfolding json_round
json_round-shortens decode p h = elim (Option-cases (find_byte 10 p.buf)) [
  | inl e ↦ rw (e, json_round) refl
  | inr (k, e) ↦ ground (arith, e, h, length-drop (k + 1) p.buf)
]

drop_and_resync-shortens :
    (n : ℕ) (p : Parser)
    → 0 < length p.buf
    → 0 < n
    → ltb (length (drop_and_resync n p).buf) (length p.buf) ≡ true
unfolding drop_and_resync
drop_and_resync-shortens n p h m = ground (arith, h, m, length-drop n p.buf)

frame_round-shortens : (p : Parser) → 0 < length p.buf → shortens p (frame_round p) ≡ true
unfolding frame_round
frame_round-shortens p h = ground (
  arith,
  drop_and_resync-shortens 1 p h (omega arith),
  drop_and_resync-shortens 1 (record p { checksum_failures = p.checksum_failures + 1 }) h
      (omega arith),
)

find_byte-head : (x : ℕ) (bs : List ℕ) → head_is x bs ≡ false → find_byte x bs ≢ some 0
unfolding find_byte
find_byte-head x [] h e = ground (arith, e)
find_byte-head x (b ∷ bs) h e = ground (arith, e, h)

find_magic-head : (bs : List ℕ) → at_magic bs ≡ false → find_magic bs ≢ some 0
unfolding find_magic
find_magic-head [] h e = ground (arith, e)
find_magic-head (b ∷ bs) h e = ground (arith, e, h)

nearest-head : (a b : Option ℕ) → nearest a b ≡ some 0 → a ≢ some 0 → b ≢ some 0 → ⊥
nearest-head a b e f g = ground (arith, e, f, g)

resync_round-shortens :
    (p : Parser)
    → 0 < length p.buf
    → head_is 123 p.buf ≡ false
    → at_magic p.buf ≡ false
    → shortens p (resync_round p) ≡ true
unfolding resync_round
resync_round-shortens p h a m =
    elim (Option-cases (nearest (find_byte 123 p.buf) (find_magic p.buf))) [
      | inl e ↦ rw (e, resync_round) refl
      | inr (zero, e) ↦ absurd (
          nearest-head (find_byte 123 p.buf) (find_magic p.buf) e (find_byte-head 123 p.buf a)
            (find_magic-head p.buf m))
      | inr (suc n, e) ↦ ground (arith, e, drop_and_resync-shortens (suc n) p h (omega arith))
    ]

length_of_cons : (b : ℕ) (bs cs : List ℕ) → cs ≡ b ∷ bs → 0 < length cs
length_of_cons b bs cs e = rw e (omega arith)

extract_round-shortens :
    (decode : List ℕ → Option String) (p : Parser) → shortens p (extract_round decode p) ≡ true
unfolding extract_round
extract_round-shortens decode p = by_buffer p.buf refl
  where
    by_buffer : (bs : List ℕ) → p.buf ≡ bs → shortens p (extract_round decode p) ≡ true
    by_buffer [] e = ground (arith, e)
    by_buffer (b ∷ bs) e = ground (
      arith,
      e,
      json_round-shortens decode p (length_of_cons b bs p.buf e),
      frame_round-shortens p (length_of_cons b bs p.buf e),
      resync_round-shortens p (length_of_cons b bs p.buf e),
    )

-- With as much fuel as the buffer has bytes, and one more, the parser does not run out of fuel: the
-- loop of `_extract_item` ends on every buffer.
pub extract_item-ends :
    (decode : List ℕ → Option String) (n : ℕ) (p : Parser)
    → length p.buf < n
    → (extract_item n decode p).1 ≢ unfinished
unfolding extract_item
extract_item-ends decode zero p h = absurd (omega (arith, h))
extract_item-ends decode (suc n) p h =
    by_round (extract_item-ends decode n) (extract_round decode p) refl
  where
    by_round :
        ((q : Parser) → length q.buf < n → (extract_item n decode q).1 ≢ unfinished)
        → (r : Round) → extract_round decode p ≡ r
        → (extract_item (suc n) decode p).1 ≢ unfinished
    by_round later (ends q i) e u = ground (arith, e, u)
    by_round later (again q) e u = ground (arith, e, u, h, extract_round-shortens decode p, later q)
