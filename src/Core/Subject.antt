-- ===== src/Core/Subject.antt =====
-- nexus_n3/core/subject.py: the sensors of a subject, the samples that they buffer and the blocks
-- that go to the file manager. Of a sample only its address is read; what the file manager receives
-- is appended to lists. The diagnostics counters are left out.
pub mod Blocks
pub mod Stored
mod Tests
use nexus_n3_core.Prelude.{
  ℕ, zero, suc, ◌+◌, String, Bool, true, false, ◌&&◌, ◌||◌, Option, none, some, List, [], ◌∷◌, ◌++◌,
  map, if◌then◌else◌, leb, str_eq, contains, truthy, length, take, drop,
}

pub record Sample : Type 0 where
  pub address : Option String
  pub content : String

-- An entry of `sensors`, with `raw_data` of its sensor.
pub record SensorEntry : Type 0 where
  pub address : Option String
  pub location : Option String
  pub f_block_size : Option ℕ
  pub raw_data : List Sample

pub record IntermediateEntry : Type 0 where
  pub address : Option String
  pub subject_id : Option String
  pub content : String

pub record IntermediateResult : Type 0 where
  pub algorithm_name : Option String
  pub stage : Option String
  pub results : List IntermediateEntry

pub record Subject : Type 0 where
  pub subject_id : String
  pub sensors : List SensorEntry
  pub sample_count : ℕ
  -- the blocks given to `enqueue_block`, with the address of their entry
  pub enqueued : List (Option String × List Sample)
  -- the results given to `write_computed_json`, with the address of their entry
  pub computed : List (Option String × String)
  -- the results given to `write_intermediate_json`
  pub intermediate : List IntermediateResult

abbrev pub same_address : Option String → Option String → Bool
same_address none none = true
same_address none (some b) = false
same_address (some a) none = false
same_address (some a) (some b) = str_eq a b

-- `Subject.__init__`
unfoldable pub new_subject : String → Subject
new_subject id = record {
  subject_id = id;
  sensors = [];
  sample_count = 0;
  enqueued = [];
  computed = [];
  intermediate = [];
}

-- `add_sensor`
unfoldable pub add_sensor :
    (address location : Option String) (f_block_size : Option ℕ) → Subject → Subject
add_sensor address location f_block_size s = record s {
  sensors =
      s.sensors
      ++ record {
        address = address;
        location = location;
        f_block_size = f_block_size;
        raw_data = [];
      }
        ∷ [];
}

-- The loop that hands out complete blocks; `none` when the fuel is used up.
pub split : (fuel block_size : ℕ) → List Sample → Option (List (List Sample) × List Sample)
split zero b xs = if leb b (length xs) then none else some ([], xs)
split (suc fuel) b xs =
    let rest = split fuel b (drop b xs) in
    if leb b (length xs)
    then (elim rest [ none ↦ none | some r ↦ some (take b xs ∷ r.0, r.1) ])
    else some ([], xs)

abbrev pub block_size : SensorEntry → ℕ
block_size e = elim e.f_block_size [ none ↦ 300 | some n ↦ n ]

-- The entry with a sample, and the blocks that it hands out.
pub ingest_entry : Sample → SensorEntry → Option (SensorEntry × List (List Sample))
unfolding split
ingest_entry x e =
    let raw = e.raw_data ++ x ∷ [] in
    elim (split (length raw) (block_size e) raw) [
      | none ↦ none
      | some r ↦ some (record e { raw_data = r.1 }, r.0)
    ]

pub data Ingested (A : Type 0) : Type 0 where
  -- the loop does not end
  stuck : Ingested A
  not_found : Ingested A
  ingested : A → Ingested A

-- The first entry with the sample's address takes it.
pub ingest_entries : Sample → List SensorEntry → Ingested (List SensorEntry × List (List Sample))
unfolding ingest_entry
ingest_entries x [] = not_found
ingest_entries x (e ∷ es) =
    if same_address e.address x.address
    then (elim (ingest_entry x e) [ none ↦ stuck | some r ↦ ingested (r.0 ∷ es, r.1) ])
    else (elim (ingest_entries x es) [
      | stuck ↦ stuck
      | not_found ↦ not_found
      | ingested r ↦ ingested (e ∷ r.0, r.1)
    ])

-- `ingest_sample`: the subject and the returned Boolean.
pub ingest_sample : Sample → Subject → Ingested (Subject × Bool)
unfolding ingest_entries
ingest_sample x s =
    let counted = record s { sample_count = s.sample_count + 1 } in
    elim (ingest_entries x s.sensors) [
      | stuck ↦ stuck
      | not_found ↦ ingested (counted, false)
      | ingested r ↦ ingested (
        record counted { sensors = r.0; enqueued = s.enqueued ++ map (λ b. (x.address, b)) r.1 },
        true,
      )
    ]

pub has_address : List SensorEntry → Option String → Bool
has_address [] a = false
has_address (e ∷ es) a = same_address e.address a || has_address es a

-- `ingest_result`
pub ingest_result : (address : Option String) (result : String) → Subject → Subject × Bool
unfolding has_address
ingest_result a r s =
    if has_address s.sensors a
    then (record s { computed = s.computed ++ (a, r) ∷ [] }, true)
    else (s, false)

abbrev pub is_true : Option String → Bool
is_true a = elim (truthy a) [ none ↦ false | some _ ↦ true ]

-- The entries of a result that are about the subject.
pub own_results : Subject → List IntermediateEntry → List IntermediateEntry
unfolding has_address
own_results s [] = []
own_results s (r ∷ rs) =
    if (is_true r.address && has_address s.sensors r.address)
      || same_address r.subject_id (some s.subject_id)
    then r ∷ own_results s rs
    else own_results s rs

-- `ingest_intermediate_result`
pub ingest_intermediate_result : IntermediateResult → Subject → Subject × Bool
unfolding own_results
ingest_intermediate_result r s = elim (own_results s r.results) [
  | [] ↦ (s, false)
  | o ∷ os ↦
      if is_true r.algorithm_name
      then (record s { intermediate = s.intermediate ++ record r { results = o ∷ os } ∷ [] }, true)
      else (s, false)
]

-- `set_location`; `none` where it raises a ValueError.
pub set_location : (address location : Option String) → List SensorEntry → Option (List SensorEntry)
set_location a l [] = none
set_location a l (e ∷ es) =
    if same_address e.address a
    then some (record e { location = l } ∷ es)
    else (elim (set_location a l es) [ none ↦ none | some r ↦ some (e ∷ r) ])
