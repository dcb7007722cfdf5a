-- ===== src/Connect/Replies.antt =====
-- nexus_n3/core/subject_connection_sequence.py: the payload of an event, and how `on_event` judges
-- the result of a step. A field that the payload lacks is `none`.
use nexus_n3_core.Prelude.{
  ℕ, suc, String, Bool, true, false, Option, none, some, List, [], ◌∷◌, ◌++◌, map, if◌then◌else◌,
  ◌&&◌, ◌==◌, not, str_eq, contains, same_set, length,
}
use nexus_n3_core.Connect.State.{Subject, normalized, addresses_of_others, dedup, selected_for}

pub record SensorReply : Type 0 where
  pub address : Option String
  pub location : Option String
  pub status : Option String
  -- `s.get("setup_complete") is True`
  pub setup_complete : Bool

pub record SubjectReply : Type 0 where
  pub subject_id : Option String
  pub discovered_sensors : List (Option String)
  pub connected_sensors : List SensorReply

pub record ReplyPayload : Type 0 where
  pub correlation_id : Option String
  pub connection_sequence_id : Option String
  -- `none` where the key is absent, `some none` where its value is None
  pub node_id : Option (Option String)
  -- `payload.get("operation_complete") is True`
  pub operation_complete : Bool
  pub selected_addresses : List (Option String)
  pub subjects : List SubjectReply
  pub disconnected_sensors : List (Option String)
  pub recover_session : Bool
  pub core_ready_for_configuration : Bool
  pub message : Option String

pub data EventKind : Type 0 where
  cleanup_started cleanup_complete sensor_disconnected : EventKind
  sensors_discovered sensor_connected error other_kind : EventKind

pub record Event : Type 0 where
  pub kind : EventKind
  pub node_id : Option String
  -- `none` where the payload is not a dict
  pub payload : Option ReplyPayload

-- `payload.get("node_id", event.get("node_id"))`
abbrev pub sender : Event → ReplyPayload → Option String
sender e p = elim p.node_id [ none ↦ e.node_id | some n ↦ n ]

abbrev pub opt_eq : Option String → Option String → Bool
opt_eq none none = true
opt_eq none (some b) = false
opt_eq (some a) none = false
opt_eq (some a) (some b) = str_eq a b

-- The results for one subject.
unfoldable pub results_for : String → List SubjectReply → List SubjectReply
results_for sid [] = []
results_for sid (r ∷ rs) =
    if opt_eq r.subject_id (some sid) then r ∷ results_for sid rs else results_for sid rs

unfoldable pub intersects : List String → List String → Bool
intersects xs [] = false
intersects xs (y ∷ ys) = if contains xs y then true else intersects xs ys

-- `all(addresses)`
unfoldable pub all_nonempty : List String → Bool
all_nonempty [] = true
all_nonempty (a ∷ rest) = not (str_eq a "") && all_nonempty rest

-- `len(set(addresses)) == len(addresses)`
unfoldable pub distinct : List String → Bool
unfolding dedup
distinct xs = length (dedup xs) == length xs

-- The sensors of the first result.
unfoldable pub first_discovered : List SubjectReply → List String
unfolding normalized
first_discovered [] = []
first_discovered (r ∷ rs) = map normalized r.discovered_sensors

unfoldable pub first_connected : List SubjectReply → List SensorReply
first_connected [] = []
first_connected (r ∷ rs) = r.connected_sensors

-- The number of results is one, and the operation is complete.
unfoldable pub is_terminal : ReplyPayload → List SubjectReply → Bool
is_terminal p results = length results == 1 && p.operation_complete

unfoldable pub valid_discovery : ReplyPayload → Subject → List (String × List String) → Bool
unfolding results_for is_terminal first_discovered all_nonempty distinct intersects
    addresses_of_others
valid_discovery p subject selected =
    let results = results_for subject.subject_id p.subjects in
    let addresses = first_discovered results in
    is_terminal p results
    && length addresses == length subject.locations
    && all_nonempty addresses
    && distinct addresses
    && not (intersects (addresses_of_others subject.subject_id selected) addresses)

-- A pair of an address and a location, as `Counter` counts it.
abbrev pub pair_eq : String × Option String → String × Option String → Bool
pair_eq (a, l) (b, k) = str_eq a b && opt_eq l k

unfoldable pub count : String × Option String → List (String × Option String) → ℕ
count x [] = 0
count x (y ∷ ys) = if pair_eq x y then suc (count x ys) else count x ys

-- Every listed pair has the same count in two lists.
unfoldable pub counts_agree :
    List (String × Option String)
    → List (String × Option String)
    → List (String × Option String)
    → Bool
unfolding count
counts_agree [] xs ys = true
counts_agree (p ∷ ps) xs ys = count p xs == count p ys && counts_agree ps xs ys

-- `Counter(xs) == Counter(ys)`
unfoldable pub same_counts : List (String × Option String) → List (String × Option String) → Bool
unfolding counts_agree
same_counts xs ys = counts_agree (xs ++ ys) xs ys

abbrev pub address_at : SensorReply → String × Option String
unfolding normalized
address_at s = (normalized s.address, s.location)

-- `zip(selected, locations)`
unfoldable pub zip : List String → List String → List (String × Option String)
zip [] ls = []
zip (a ∷ rest) [] = []
zip (a ∷ rest) (l ∷ ls) = (a, some l) ∷ zip rest ls

unfoldable pub all_set_up : List SensorReply → Bool
all_set_up [] = true
all_set_up (s ∷ ss) = (opt_eq s.status (some "CONNECTED") && s.setup_complete) && all_set_up ss

abbrev pub address_of : SensorReply → String
unfolding normalized
address_of s = normalized s.address

unfoldable pub valid_connection : ReplyPayload → Subject → List (String × List String) → Bool
unfolding results_for is_terminal first_connected distinct same_set same_counts zip all_set_up
valid_connection p subject selected =
    let results = results_for subject.subject_id p.subjects in
    let sensors = first_connected results in
    let addresses = map address_of sensors in
    let chosen = selected_for (some subject) selected in
    is_terminal p results
    && length addresses == length subject.locations
    && distinct addresses
    && same_set addresses chosen
    && same_counts (map address_at sensors) (zip chosen subject.locations)
    && all_set_up sensors
