-- ===== src/Core/Subject/Tests.antt =====
-- Samples of one sensor with blocks of two, and the theorem about stored samples applied to them.
use nexus_n3_core.Prelude.{String, ◌≡◌, refl, true, some, [], ◌∷◌, ◌++◌, if◌then◌else◌}
use nexus_n3_core.Core.Subject.{Sample, Subject, ingested, ingest_sample, has_address, same_address}
use nexus_n3_core.Core.Subject.Stored.{stored, positive, written, buffered, ingest_sample-stored}

abbrev sample : String → Sample
sample content = record { address = some "AA:01"; content = content }

-- One sample is waiting.
abbrev waiting : Subject
waiting = record {
  subject_id = "s";
  sensors =
      record {
        address = some "AA:01";
        location = some "wrist";
        f_block_size = some 2;
        raw_data = sample "1" ∷ [];
      }
      ∷ [];
  sample_count = 1;
  enqueued = [];
  computed = [];
  intermediate = [];
}

ingest_sample-stored_example :
    (t : Subject) × (ingest_sample (sample "2") waiting ≡ ingested (t, true))
    × (stored (some "AA:01") t ≡ (
        if same_address (some "AA:01") (some "AA:01")
        then stored (some "AA:01") waiting ++ sample "2" ∷ []
        else stored (some "AA:01") waiting))
unfolding positive has_address
ingest_sample-stored_example = ingest_sample-stored (sample "2") waiting (some "AA:01") refl refl

-- The second sample completes a block.
stored-waiting : stored (some "AA:01") waiting ≡ sample "1" ∷ []
unfolding stored written buffered
stored-waiting = refl
