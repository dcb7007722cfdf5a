-- ===== src/Distributed/OfficialStart/Reports.antt =====
-- What one event of a node does to the record of an official start.
use nexus_n3_core.Prelude.{
  ℕ, suc, ◌+◌, String, ◌≡◌, refl, inl, inr, true, false, ◌&&◌, Option, none, some, List, [], ◌∷◌,
  ◌++◌, arith, if◌then◌else◌, str_eq, contains, add, lookup, insert, truthy, str_of, Bool-cases,
  Option-cases, eq_iff,
}
use nexus_n3_core.Distributed.OfficialStart.{
  StartRecord, Tracking, EventType, stream_ready_for_official, stream_official_started, other_event,
  Payload, Event, Effect, emit_ready, dispatch_commit, payload_or_empty, admits, mark_ready,
  publish, record_official_start_event,
}

-- The node that an event reports ready for the start `id` at the given timestamp.
ready_node : String → Option String → EventType → Option String → Payload → Option String
ready_node id ts stream_ready_for_official sender p = elim (truthy p.start_session_id) [
  | none ↦ none
  | some i ↦
      if str_eq id i && str_eq (str_of p.session_timestamp) (str_of ts) then truthy sender else none
]
ready_node id ts stream_official_started sender p = none
ready_node id ts (other_event _) sender p = none

unfoldable pub report : String → Option String → Event → Option String
unfolding ready_node
report id ts e = ready_node id ts e.type e.node_id (payload_or_empty e.payload)

-- Every node that reported ready, in the order of the events.
unfoldable pub reported : String → Option String → List Event → List String
unfolding report
reported id ts [] = []
reported id ts (e ∷ es) = elim (report id ts e) [
  | none ↦ reported id ts es
  | some node ↦ node ∷ reported id ts es
]

-- How many commits were dispatched.
unfoldable pub commits : List Effect → ℕ
commits [] = 0
commits (emit_ready _ ∷ es) = commits es
commits (dispatch_commit _ _ ∷ es) = suc (commits es)

pub commits-append : (xs ys : List Effect) → commits (xs ++ ys) ≡ commits xs + commits ys
unfolding commits
commits-append [] ys = omega arith
commits-append (emit_ready _ ∷ xs) ys = commits-append xs ys
commits-append (dispatch_commit _ _ ∷ xs) ys = omega (arith, commits-append xs ys)

-- What the barrier's decision reads of a record.
pub record SameCore (r s : StartRecord) : Type 0 where
  pub ready : r.ready_nodes ≡ s.ready_nodes
  pub announced : r.ready_announced ≡ s.ready_announced
  pub expected : r.expected_nodes ≡ s.expected_nodes
  pub timestamp : r.session_timestamp ≡ s.session_timestamp

-- One event on the only record: it counts for a node, or changes nothing that matters.
pub data Outcome (id : String) (r : StartRecord) (e : Event) (out : Tracking × List Effect)
    : Type 0 where
  counted :
      (node : String)
      → report id r.session_timestamp e ≡ some node
      → contains r.expected_nodes node ≡ true
      → out ≡ ((id, (mark_ready id node r).0) ∷ [], publish true true (mark_ready id node r).1)
      → Outcome id r e out
  quiet :
      (s : StartRecord)
      → SameCore s r
      → ((node : String)
          → report id r.session_timestamp e ≡ some node
          → contains r.expected_nodes node ≡ false)
      → out ≡ ((id, s) ∷ [], [])
      → Outcome id r e out

SameCore-refl : (r : StartRecord) → SameCore r r
SameCore-refl r = record { ready = refl; announced = refl; expected = refl; timestamp = refl }

module _ (id : String) (r : StartRecord) (e : Event) where
  -- The event reports no node.
  unreported :
      report id r.session_timestamp e ≡ none
      → (s : StartRecord) → SameCore s r
      → record_official_start_event true true e ((id, r) ∷ []) ≡ ((id, s) ∷ [], [])
      → Outcome id r e (record_official_start_event true true e ((id, r) ∷ []))
  unreported h s same out = quiet s same (λ node k. cc) out

-- The event carries this start's identifier and a node.
module _ (id : String) (r : StartRecord) (e : Event) (node start : String)
    (n : truthy e.node_id ≡ some node)
    (i : truthy (payload_or_empty e.payload).start_session_id ≡ some start)
    (same : str_eq id start ≡ true) where
  rejected :
      admits (payload_or_empty e.payload) node r ≡ false
      → Outcome id r e (record_official_start_event true true e ((id, r) ∷ []))
  unfolding report ready_node record_official_start_event lookup insert
  rejected a = quiet r (SameCore-refl r) (λ m h. ground arith) (ground (arith, eq_iff id start))

  admitted :
      (t : EventType)
      → e.type ≡ t
      → admits (payload_or_empty e.payload) node r ≡ true
      → Outcome id r e (record_official_start_event true true e ((id, r) ∷ []))
  unfolding report ready_node record_official_start_event lookup insert
  admitted stream_ready_for_official k a =
      counted node (ground arith) (ground arith) (ground (arith, eq_iff id start))
  admitted stream_official_started k a =
      quiet (record r { official_nodes = add node r.official_nodes })
        (record { ready = refl; announced = refl; expected = refl; timestamp = refl })
        (λ m h. ground arith) (ground (arith, eq_iff id start))
  admitted (other_event x) k a =
      quiet r (SameCore-refl r) (λ m h. ground arith) (ground (arith, eq_iff id start))

pub outcome :
    (id : String) (r : StartRecord) (e : Event)
    → Outcome id r e (record_official_start_event true true e ((id, r) ∷ []))
unfolding report ready_node record_official_start_event lookup insert
outcome id r e = elim (Option-cases (truthy e.node_id)) [
  | inl n ↦ unreported id r e (ground (arith)) r (SameCore-refl r) (ground arith)
  | inr (node, n) ↦ elim (Option-cases (truthy (payload_or_empty e.payload).start_session_id)) [
    | inl i ↦ unreported id r e (ground (arith)) r (SameCore-refl r) (ground arith)
    | inr (start, i) ↦ elim (Bool-cases (str_eq id start)) [
      | inl same ↦ elim (Bool-cases (admits (payload_or_empty e.payload) node r)) [
        | inl a ↦ admitted id r e node start n i same e.type refl a
        | inr a ↦ rejected id r e node start n i same a
      ]
      | inr other ↦ unreported id r e (ground (arith)) r (SameCore-refl r) (ground arith)
    ]
  ]
]
