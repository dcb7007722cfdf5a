-- ===== src/Connect/State.antt =====
-- nexus_n3/core/subject_connection_sequence.py: the state of SubjectConnectionSequence and the
-- helpers that its methods share. The lock makes each method one step. What `emit` and `dispatch`
-- receive is appended to `outputs`.
use nexus_n3_core.Prelude.{
  ℕ, String, Bool, true, false, Option, none, some, List, [], ◌∷◌, ◌++◌, if◌then◌else◌, str_eq,
  contains, lookup, sorted, add, strip, upper,
}

pub record Subject : Type 0 where
  pub subject_id : String
  pub node_id : String
  pub locations : List String

pub data Operation : Type 0 where
  discovering connecting : Operation

pub record Pending : Type 0 where
  pub token : String
  pub subject : Subject
  pub operation : Operation

pub data Phase : Type 0 where
  discovering_phase connecting_phase subject_connected completed_phase failed : Phase

-- The payload of EVT_SUBJECT_CONNECTION_PROGRESS.
pub record Progress : Type 0 where
  pub correlation_id : Option String
  pub sequence_id : Option String
  pub subject_id : Option String
  pub node_id : Option String
  pub phase : Phase
  pub operation_correlation_id : Option String
  pub completed_subject_ids : List String
  pub skipped : Bool
  pub operation : Option Operation
  pub message : Option String
  pub selected_addresses : List String

pub data Command : Type 0 where
  -- node, token, sequence, subject and the excluded addresses
  discover_command :
      (node token : String) (sequence : Option String) (subject : String)
      → (excluded : List String) → Command
  -- node, token, sequence, subject and the selected addresses
  connect_command :
      (node token : String) (sequence : Option String) (subject : String)
      → (selected : List String) → Command
  identify_command : (node subject token : String) (sequence correlation : Option String) → Command

pub data Output : Type 0 where
  progress : Progress → Output
  dispatched : Command → Output
  -- The answer to a start while busy.
  rejected : (correlation_id subject_id node_id : Option String) → Output
  identify_warning : (correlation_id : Option String) (subject_id node_id message : String) → Output

pub record Timer : Type 0 where
  pub token : String
  pub seconds : ℕ

pub record Sequence : Type 0 where
  pub subjects : List Subject
  pub selected : List (String × List String)
  pub completed : List String
  pub discovered : List String
  pub active : Bool
  pub pending : Option Pending
  pub timer : Option Timer
  pub correlation_id : Option String
  pub sequence_id : Option String
  pub index : ℕ
  -- how many identifiers `uuid4` has given
  pub drawn : ℕ
  -- a KeyError or StopIteration left a method
  pub crashed : Bool
  pub outputs : List Output

-- `uuid.uuid4().hex`, and what `dispatch` raises on a command.
pub record Env : Type 0 where
  pub uuid : ℕ → String
  pub raises : Command → Option String

unfoldable pub init : Sequence
init = record {
  subjects = [];
  selected = [];
  completed = [];
  discovered = [];
  active = false;
  pending = none;
  timer = none;
  correlation_id = none;
  sequence_id = none;
  index = 0;
  drawn = 0;
  crashed = false;
  outputs = [];
}

-- `normalized`
unfoldable pub normalized : Option String → String
normalized none = ""
normalized (some a) = upper (strip a)

abbrev pub emit : Output → Sequence → Sequence
emit o s = record s { outputs = s.outputs ++ o ∷ [] }

abbrev pub is_some {ℓ} : {A : Type ℓ} → Option A → Bool
is_some none = false
is_some (some a) = true

-- `self.active or self.pending is not None`
abbrev pub busy : Sequence → Bool
busy s = if s.active then true else is_some s.pending

-- The addresses selected for other subjects, `{a for owner, values in selected.items() if ...}`.
unfoldable pub addresses_of_others : String → List (String × List String) → List String
addresses_of_others sid [] = []
addresses_of_others sid ((owner, values) ∷ m) =
    if str_eq owner sid then addresses_of_others sid m else values ++ addresses_of_others sid m

unfoldable pub dedup : List String → List String
dedup [] = []
dedup (x ∷ xs) = add x (dedup xs)

-- The addresses selected for subjects that are not listed.
addresses_outside : List String → List (String × List String) → List String
addresses_outside ids [] = []
addresses_outside ids ((owner, values) ∷ m) =
    if contains ids owner then addresses_outside ids m else values ++ addresses_outside ids m

-- `exclusions`
unfoldable pub exclusions : List String → List (String × List String) → List String
unfolding dedup addresses_outside
exclusions ids selected = sorted (dedup (addresses_outside ids selected))

-- The completed subjects in the order of the configuration.
completed_ids : List Subject → List String → List String
completed_ids [] completed = []
completed_ids (s ∷ ss) completed =
    if contains completed s.subject_id
    then s.subject_id ∷ completed_ids ss completed
    else completed_ids ss completed

abbrev pub pending_token : Option Pending → Option String
pending_token none = none
pending_token (some p) = some p.token

abbrev pub pending_subject : Option Pending → Option Subject
pending_subject none = none
pending_subject (some p) = some p.subject

abbrev pub pending_operation : Option Pending → Option Operation
pending_operation none = none
pending_operation (some p) = some p.operation

abbrev pub id_of : Option Subject → Option String
id_of none = none
id_of (some s) = some s.subject_id

abbrev pub node_of : Option Subject → Option String
node_of none = none
node_of (some s) = some s.node_id

-- `_progress`, with the fields that callers add.
unfoldable pub emit_progress :
    Phase
    → Option Subject
    → (skipped : Bool) → Option Operation
    → Option String
    → List String
    → Sequence
    → Sequence
unfolding completed_ids
emit_progress phase subject skipped operation message addresses s =
    emit
      (progress (record {
        correlation_id = s.correlation_id;
        sequence_id = s.sequence_id;
        subject_id = id_of subject;
        node_id = node_of subject;
        phase = phase;
        operation_correlation_id = pending_token s.pending;
        completed_subject_ids = completed_ids s.subjects s.completed;
        skipped = skipped;
        operation = operation;
        message = message;
        selected_addresses = addresses;
      }))
      s

abbrev pub or_else {ℓ} : {A : Type ℓ} → Option A → Option A → Option A
or_else none d = d
or_else (some a) d = some a

abbrev pub selected_for : Option Subject → List (String × List String) → List String
selected_for none m = []
selected_for (some s) m = elim (lookup s.subject_id m) [ none ↦ [] | some l ↦ l ]

-- `_fail`: the timer is cancelled and the workflow stops; the pending step stays.
unfoldable pub fail : String → Option Subject → Option Operation → Sequence → Sequence
unfolding emit_progress
fail message subject operation s =
    emit_progress failed (or_else subject (pending_subject s.pending)) false
      (or_else operation (pending_operation s.pending)) (some message)
      (selected_for (or_else subject (pending_subject s.pending)) s.selected)
      (record s { timer = none; active = false })
