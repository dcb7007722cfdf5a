-- ===== src/Core/Subject/Stored.antt =====
-- Every sample of a sensor is stored once and in order: in the blocks that the file manager has, or
-- in the buffer.
use text.Mathlib.TextPositions.{eq_refl}
use mathlib.Core.List.{append_assoc, append-nil}
use nexus_n3_core.Prelude.{
  ◌+◌, ◌<◌, String, ◌≡◌, refl, sym, ap, ◌∙◌, inl, inr, Bool, ◌&&◌, true, false, Option, none, some,
  List, [], ◌∷◌, ◌++◌, map, if◌then◌else◌, arith, ltb, ltb→lt, length, Bool-cases, eq_iff,
}
use nexus_n3_core.Core.Subject.{
  Sample, SensorEntry, Subject, same_address, block_size, ingest_entry, ingested, ingest_entries,
  ingest_sample, has_address,
}
use nexus_n3_core.Core.Subject.Blocks.{flatten, split-IsSplit}

-- The samples in the blocks for an address.
unfoldable pub written : Option String → List (Option String × List Sample) → List Sample
written a [] = []
written a ((k, b) ∷ bs) = if same_address k a then b ++ written a bs else written a bs

-- The buffer of the first entry with an address.
unfoldable pub buffered : Option String → List SensorEntry → List Sample
buffered a [] = []
buffered a (e ∷ es) = if same_address e.address a then e.raw_data else buffered a es

-- The samples of an address that a subject holds, oldest first.
unfoldable pub stored : Option String → Subject → List Sample
unfolding written buffered
stored a s = written a s.enqueued ++ buffered a s.sensors

-- The sensors have positive block sizes.
unfoldable pub positive : List SensorEntry → Bool
positive [] = true
positive (e ∷ es) = ltb 0 (block_size e) && positive es

same_address_refl : (a : Option String) → same_address a a ≡ true
same_address_refl none = refl
same_address_refl (some a) = eq_refl a

-- The entry hands out blocks and keeps a rest, which continue what it had.
ingest_entry-parts :
    (x : Sample) (e : SensorEntry)
    → 0 < block_size e
    → (r : SensorEntry × List (List Sample)) × (ingest_entry x e ≡ some r)
      × (flatten r.1 ++ r.0.raw_data ≡ e.raw_data ++ x ∷ [])
      × (r.0.address ≡ e.address)
      × (block_size r.0 ≡ block_size e)
unfolding ingest_entry
ingest_entry-parts x e pos =
    let raw = e.raw_data ++ x ∷ [] in
    let (r, found, h) = split-IsSplit (length raw) (block_size e) raw pos (omega arith) in
    ((record e { raw_data = r.1 }, r.0), rw (found, ingest_entry) refl, h.parts, refl, refl)

-- What the entries become: the blocks and the new buffer continue the old one, and other addresses
-- keep theirs.
record IsTaken (x : Sample) (es : List SensorEntry) (a : Option String)
    (r : List SensorEntry × List (List Sample)) : Type 0 where
  own : same_address x.address a ≡ true → flatten r.1 ++ buffered a r.0 ≡ buffered a es ++ x ∷ []
  other : same_address x.address a ≡ false → buffered a r.0 ≡ buffered a es

same_address-eq : (a b : Option String) → same_address a b ≡ true → a ≡ b
same_address-eq none none h = refl
same_address-eq none (some b) h = absurd (ground arith)
same_address-eq (some a) none h = absurd (ground arith)
same_address-eq (some a) (some b) h = ap some ((eq_iff a b).0 h)

here-IsTaken :
    (x : Sample) (e : SensorEntry) (es : List SensorEntry) (a : Option String)
    (r : SensorEntry × List (List Sample))
    → same_address e.address x.address ≡ true
    → flatten r.1 ++ r.0.raw_data ≡ e.raw_data ++ x ∷ []
    → r.0.address ≡ e.address
    → IsTaken x (e ∷ es) a (r.0 ∷ es, r.1)
unfolding buffered
here-IsTaken x e es a r here parts same =
    let old = ap (λ q. same_address q a) (same_address-eq e.address x.address here) in
    let new = ap (λ q. same_address q a) same ∙ old in
    record {
      own = λ k. rw (old ∙ k, new ∙ k, buffered) parts;
      other = λ k. rw (old ∙ k, new ∙ k, buffered) refl;
    }

later-IsTaken :
    (x : Sample) (e : SensorEntry) (es : List SensorEntry) (a : Option String)
    (r : List SensorEntry × List (List Sample))
    → same_address e.address x.address ≡ false
    → IsTaken x es a r
    → IsTaken x (e ∷ es) a (e ∷ r.0, r.1)
unfolding buffered
later-IsTaken x e es a r elsewhere h = record {
  own = λ k.
      let apart : same_address e.address a ≡ false =
        rw (same_address-eq x.address a k) at elsewhere in
      rw (apart, buffered) (h.own k);
  other = λ k. elim (Bool-cases (same_address e.address a)) [
    | inl mine ↦ rw (mine, buffered) refl
    | inr theirs ↦ rw (theirs, buffered) (h.other k)
  ];
}

ingest_entries-IsTaken :
    (x : Sample) (es : List SensorEntry) (a : Option String)
    → positive es ≡ true
    → has_address es x.address ≡ true
    → (r : List SensorEntry × List (List Sample)) × (ingest_entries x es ≡ ingested r)
      × IsTaken x es a r
unfolding ingest_entries has_address positive
ingest_entries-IsTaken x [] a pos has = absurd (ground arith)
ingest_entries-IsTaken x (e ∷ es) a pos has = elim (Bool-cases (same_address e.address x.address)) [
  | inl here ↦
      let (r, found, parts, same, size) =
        ingest_entry-parts x e (ltb→lt 0 (block_size e) (ground arith)) in
      (
        (r.0 ∷ es, r.1),
        rw (here, found, ingest_entries) refl,
        here-IsTaken x e es a r here parts same,
      )
  | inr elsewhere ↦
      let (r, found, h) = ingest_entries-IsTaken x es a (ground arith) (ground arith) in
      (
        (e ∷ r.0, r.1),
        rw (elsewhere, found, ingest_entries) refl,
        later-IsTaken x e es a r elsewhere h,
      )
]

written-append :
    (a : Option String) (bs cs : List (Option String × List Sample))
    → written a (bs ++ cs) ≡ written a bs ++ written a cs
unfolding written
written-append a [] cs = refl
written-append a ((k, b) ∷ bs) cs = elim (Bool-cases (same_address k a)) [
  | inl mine ↦
      rw (mine, written)
        (ap (λ q. b ++ q) (written-append a bs cs)
          ∙ sym (append_assoc b (written a bs) (written a cs)))
  | inr theirs ↦ rw (theirs, written) (written-append a bs cs)
]

written-map :
    (a k : Option String) (bs : List (List Sample))
    → written a (map (λ b. (k, b)) bs) ≡ (if same_address k a then flatten bs else [])
unfolding written flatten
written-map a k [] = ground arith
written-map a k (b ∷ bs) = elim (Bool-cases (same_address k a)) [
  | inl mine ↦ rw (mine, written) (ap (λ q. b ++ q) (written-map a k bs ∙ rw mine refl))
  | inr theirs ↦ rw (theirs, written) (written-map a k bs ∙ rw theirs refl)
]

taken-stored :
    (x : Sample) (s : Subject) (a : Option String) (r : List SensorEntry × List (List Sample))
    → IsTaken x s.sensors a r
    → written a (s.enqueued ++ map (λ b. (x.address, b)) r.1) ++ buffered a r.0
      ≡ (if same_address x.address a then stored a s ++ x ∷ [] else stored a s)
unfolding stored
taken-stored x s a r h =
    ap (λ q. q ++ buffered a r.0)
      (written-append a s.enqueued (map (λ b. (x.address, b)) r.1)
        ∙ ap (λ q. written a s.enqueued ++ q) (written-map a x.address r.1))
    ∙ (elim (Bool-cases (same_address x.address a)) [
      | inl mine ↦ rw mine (
          append_assoc (written a s.enqueued) (flatten r.1) (buffered a r.0)
          ∙ ap (λ q. written a s.enqueued ++ q) (h.own mine)
          ∙ sym (append_assoc (written a s.enqueued) (buffered a s.sensors) (x ∷ [])))
      | inr theirs ↦
          rw theirs (rw append-nil (ap (λ q. written a s.enqueued ++ q) (h.other theirs)))
    ])

-- A sample for a sensor of the subject is taken, if every block size is positive: the loop ends, and
-- what the subject holds for the sample's address, in blocks and buffer, is what it held followed by
-- the sample; what it holds for any other address is unchanged.
pub ingest_sample-stored :
    (x : Sample) (s : Subject) (a : Option String)
    → positive s.sensors ≡ true
    → has_address s.sensors x.address ≡ true
    → (t : Subject) × (ingest_sample x s ≡ ingested (t, true))
      × (stored a t ≡ (if same_address x.address a then stored a s ++ x ∷ [] else stored a s))
unfolding ingest_sample stored
ingest_sample-stored x s a pos has =
    let (r, found, h) = ingest_entries-IsTaken x s.sensors a pos has in
    (
      record s {
        sample_count = s.sample_count + 1;
        sensors = r.0;
        enqueued = s.enqueued ++ map (λ b. (x.address, b)) r.1;
      },
      rw (found, ingest_sample) refl,
      taken-stored x s a r h,
    )
