-- ===== src/Distributed/OfficialStart/Commit.antt =====
-- The command that commits a distributed start: when it is accepted, and where it goes.
use text.Mathlib.TextPositions.{eq_refl}
use nexus_n3_core.Prelude.{
  String, ◌≡◌, refl, ◌∙◌, ◌⊎◌, inl, inr, Bool, true, false, ◌&&◌, ◌||◌, Option, none, some, List,
  [], ◌∷◌, ◌++◌, arith, if◌then◌else◌, str_eq, contains, add, subset, same_set, lookup, sorted,
  Option-cases, eq_iff, discard, contains-add, contains-append, contains-discard, contains-sorted,
  contains→subset, lookup-insert, lookup_self, subset-congr_on,
}
use nexus_n3_core.Distributed.OfficialStart.{
  StartRecord, Tracking, Event, dedup, create_official_start_record, mark_ready, run, Effect,
  record_official_start_event, CommitReply, unknown_start, not_ready, committed, master_id,
  dispatch_order, start_official,
}
use nexus_n3_core.Distributed.OfficialStart.Reports.{
  report, reported, SameCore, counted, quiet, outcome,
}
use nexus_n3_core.Distributed.OfficialStart.Barrier.{subset-dedup}

-- What a run leaves: the record of the start, with the expected nodes that reported.
record After (id : String) (r : StartRecord) (es : List Event) (t : Tracking) : Type 0 where
  last : StartRecord
  only : t ≡ (id, last) ∷ []
  expected : last.expected_nodes ≡ r.expected_nodes
  ready :
      (a : String)
      → contains last.ready_nodes a ≡ (
          contains r.ready_nodes a
          || (contains (reported id r.session_timestamp es) a && contains r.expected_nodes a))

step-run :
    (id : String) (r s : StartRecord) (e : Event) (es : List Event) (out : List Effect)
    → record_official_start_event true true e ((id, r) ∷ []) ≡ ((id, s) ∷ [], out)
    → (run true true (e ∷ es) ((id, r) ∷ [])).0 ≡ (run true true es ((id, s) ∷ [])).0
unfolding run
step-run id r s e es out h = rw (h, run) refl

-- One counted report, then the rest.
module _ (id : String) (r : StartRecord) (e : Event) (es : List Event) (node : String)
    (k : report id r.session_timestamp e ≡ some node)
    (c : contains r.expected_nodes node ≡ true) where
  marked : StartRecord
  marked = (mark_ready id node r).0

  marked-core :
      (marked.ready_nodes ≡ add node r.ready_nodes)
      × (marked.expected_nodes ≡ r.expected_nodes)
      × (marked.session_timestamp ≡ r.session_timestamp)
  unfolding marked mark_ready
  marked-core = (ground arith, ground arith, ground arith)

  After-counted : {t u : Tracking} → t ≡ u → After id marked es u → After id r (e ∷ es) t
  unfolding reported contains
  After-counted h rest = record {
    last = rest.last;
    only = h ∙ rest.only;
    expected = rest.expected ∙ marked-core.1;
    ready = λ a.
        ground (arith, rest.ready a, marked-core, contains-add node a r.ready_nodes, eq_iff node a);
  }

After-quiet :
    {t u : Tracking} (id : String) (r q : StartRecord) (e : Event) (es : List Event)
    → SameCore q r
    → ((node : String)
        → report id r.session_timestamp e ≡ some node
        → contains r.expected_nodes node ≡ false)
    → t ≡ u
    → After id q es u
    → After id r (e ∷ es) t
unfolding reported contains
After-quiet id r q e es same k h rest = record {
  last = rest.last;
  only = h ∙ rest.only;
  expected = rest.expected ∙ same.expected;
  ready = λ a. ready_at a (Option-cases (report id r.session_timestamp e));
}
  where
    ready_at :
        (a : String)
        → (report id r.session_timestamp e ≡ none)
          ⊎ ((n : String) × (report id r.session_timestamp e ≡ some n))
        → contains rest.last.ready_nodes a ≡ (
            contains r.ready_nodes a
            || (contains (reported id r.session_timestamp (e ∷ es)) a
                && contains r.expected_nodes a))
    ready_at a (inl m) = ground (arith, rest.ready a, m)
    ready_at a (inr (n, m)) = ground (arith, rest.ready a, m, k n m, eq_iff n a)

after :
    (id : String) (es : List Event) (r : StartRecord)
    → After id r es (run true true es ((id, r) ∷ [])).0
unfolding run reported contains marked same_set
after id [] r = record { last = r; only = refl; expected = refl; ready = λ a. ground arith }
after id (e ∷ es) r = elim (outcome id r e) [
  | counted node k c h ↦
      After-counted id r e es node k c (step-run id r (mark_ready id node r).0 e es _ h)
        (after id es (mark_ready id node r).0)
  | quiet q same k h ↦ After-quiet id r q e es same k (step-run id r q e es [] h) (after id es q)
]

pub is_committed : CommitReply → Bool
is_committed (committed nodes) = true
is_committed unknown_start = false
is_committed (not_ready missing) = false

-- The reply on a record that a run left.
reply-record :
    (id : String) (r : StartRecord)
    → is_committed (start_official (some id) ((id, r) ∷ [])).1
      ≡ same_set r.ready_nodes r.expected_nodes
unfolding start_official is_committed
reply-record id r = ground (arith, lookup_self id r [])

module _ (id : String) (r : StartRecord) (es : List Event) (t : Tracking) (h : After id r es t)
    (empty : r.ready_nodes ≡ []) where
  abbrev reports : List String
  reports = reported id r.session_timestamp es

  ready-contains :
      (a : String)
      → contains h.last.ready_nodes a ≡ (contains reports a && contains r.expected_nodes a)
  unfolding contains
  ready-contains a = ground (arith, h.ready a)

  same_set-reports :
      same_set h.last.ready_nodes h.last.expected_nodes ≡ subset r.expected_nodes reports
  unfolding same_set
  same_set-reports = ground (
    arith,
    h.expected,
    contains→subset h.last.ready_nodes r.expected_nodes (λ a m. ground (arith, ready-contains a)),
    subset-congr_on r.expected_nodes h.last.ready_nodes reports
        (λ a m. ground (arith, ready-contains a)),
  )

-- After any events, the commit command for the current start is accepted exactly when every
-- expected node has reported ready for this start with its timestamp.
pub is_committed-run :
    (id : String) (timestamp : Option String) (subject_ids nodes : List String) (es : List Event)
    → is_committed
        (start_official
          (some id)
          (run true true es (create_official_start_record id timestamp subject_ids nodes)).0).1
      ≡ subset nodes (reported id timestamp es)
unfolding create_official_start_record
is_committed-run id timestamp subject_ids nodes es =
    let h = after id es fresh in
    rw h.only (
      reply-record id h.last
      ∙ same_set-reports id fresh es _ h refl
      ∙ subset-dedup nodes (reported id timestamp es))
  where
    fresh : StartRecord
    fresh = record {
      session_timestamp = timestamp;
      subject_ids = subject_ids;
      expected_nodes = dedup nodes;
      ready_nodes = [];
      official_nodes = [];
      ready_announced = false;
      commit_dispatched = false;
    }

-- The nodes of an accepted commit.
abbrev pub nodes_of : CommitReply → List String
nodes_of (committed nodes) = nodes
nodes_of unknown_start = []
nodes_of (not_ready missing) = []

contains-master :
    (b : Bool) (a : String)
    → contains (if b then master_id ∷ [] else []) a ≡ (b && str_eq master_id a)
unfolding contains
contains-master b a = ground arith

contains-dispatch_order :
    (nodes : List String) (a : String) → contains (dispatch_order nodes) a ≡ contains nodes a
unfolding dispatch_order
contains-dispatch_order nodes a = ground (
  arith,
  contains-append (discard master_id nodes)
      (if contains nodes master_id then master_id ∷ [] else []) a,
  contains-master (contains nodes master_id) a,
  contains-discard master_id a nodes,
  eq_iff master_id a,
)

-- An accepted commit reaches exactly the expected nodes, and is recorded as dispatched; the nodes
-- other than the master come first, and the master last if it is expected.
pub start_official-nodes :
    (id : String) (r : StartRecord) (t : Tracking) (a : String)
    → lookup id t ≡ some r
    → same_set r.ready_nodes r.expected_nodes ≡ true
    → let (t', reply) = start_official (some id) t in
      (contains (nodes_of reply) a ≡ contains r.expected_nodes a)
      × (lookup id t' ≡ some (record r { commit_dispatched = true }))
      × (remote : List String) × (contains remote master_id ≡ false)
      × (nodes_of reply
          ≡ remote ++ (if contains r.expected_nodes master_id then master_id ∷ [] else []))
unfolding start_official
start_official-nodes id r t a found full =
    rw (found, full, start_official)
      (
        contains-dispatch_order (sorted r.expected_nodes) a ∙ contains-sorted r.expected_nodes a,
        lookup-insert id id _ t ∙ rw (eq_refl id) refl,
        discard master_id (sorted r.expected_nodes),
        contains-discard master_id master_id (sorted r.expected_nodes),
        unfold dispatch_order in rw (contains-sorted r.expected_nodes master_id) refl,
      )
