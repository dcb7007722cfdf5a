-- ===== src/Distributed/Planner/Choice.antt =====
-- Where the planner puts a subject: on a node that can run it.
use mathlib.Core.Path.{subst}
use nexus_n3_core.Prelude.{
  String, ◌≡◌, sym, inl, inr, Bool, true, ◌&&◌, List, [], ◌∷◌, ◌++◌, map, arith, str_eq, contains,
  lookup, insert, keys, All, All-append, All-map, Bool-cases, Option-cases, eq_iff, contains_self,
}
use nexus_n3_core.Distributed.Registry.{Node, NodeRegistry, filter_nodes}
use nexus_n3_core.Distributed.Planner.{
  SubjectConfig, Submitted, ok, Plan, Counts, subjects_of, node_supports, can_host, eligible,
  select_node, assign_all, executes, plan_subject_assignments,
}
use nexus_n3_core.Distributed.Planner.Capacity.{
  select_node-All, ok-injective, not-err-ok, plan_subject_assignments-Planned,
}
use nexus_n3_core.Distributed.Planner.Complete.{subjects_of-head, subjects_of-tail}

abbrev Item : Type 0
Item = String × Node

module _ (test : Node → Bool) where
  abbrev Kept : List Item → Item → Type 0
  Kept m (k, n) = test n ≡ true → contains (keys (filter_nodes test m)) k ≡ true

  Kept-cons : (y : Item) (m : List Item) (x : Item) → Kept m x → Kept (y ∷ m) x
  unfolding filter_nodes contains
  Kept-cons (j, o) m (k, n) h = λ t. ground (arith, h t)

  Kept-head : (k : String) (n : Node) (m : List Item) → Kept ((k, n) ∷ m) (k, n)
  unfolding filter_nodes
  Kept-head k n m t = rw (t, filter_nodes) (contains_self k _)

  -- Every item that passes the test is kept.
  All-Kept : (m : List Item) → All (Kept m) m
  All-Kept [] = tt
  All-Kept ((k, n) ∷ m) =
      (Kept-head k n m, All-map (Kept m) (Kept ((k, n) ∷ m)) m (Kept-cons (k, n) m) (All-Kept m))

  All-filter_nodes :
      (P : Item → Type 0) (m : List Item)
      → All P m
      → All (λ x. P x × (test x.1 ≡ true)) (filter_nodes test m)
  unfolding filter_nodes
  All-filter_nodes P [] h = tt
  All-filter_nodes P ((k, n) ∷ m) h = elim (Bool-cases (test n)) [
    | inl e ↦ rw (e, filter_nodes) ((h.0, e), All-filter_nodes P m h.1)
    | inr e ↦ rw (e, filter_nodes) (All-filter_nodes P m h.1)
  ]

-- Some registered node of this identifier is a master or worker that supports the subject's sensors
-- and algorithms.
pub can_run : NodeRegistry → SubjectConfig → String → Bool
can_run g sub k =
    contains (keys (filter_nodes (λ n. executes n && node_supports n sub.sensors) g.nodes)) k

eligible-All :
    (P : String → Type 0) (counts : Counts) (sub : SubjectConfig) (m : List Item)
    → All (λ x. can_host counts sub x.0 x.1 ≡ true → P x.0) m
    → All P (eligible counts sub m)
unfolding eligible
eligible-All P counts sub [] h = tt
eligible-All P counts sub ((k, n) ∷ m) h = elim (Bool-cases (can_host counts sub k n)) [
  | inl e ↦ rw (e, eligible) (h.0 e, eligible-All P counts sub m h.1)
  | inr e ↦ rw (e, eligible) (eligible-All P counts sub m h.1)
]

eligible-can_run :
    (g : NodeRegistry) (counts : Counts) (sub : SubjectConfig)
    → All (λ k. can_run g sub k ≡ true) (eligible counts sub (filter_nodes executes g.nodes))
unfolding can_run can_host
eligible-can_run g counts sub =
    eligible-All (λ k. can_run g sub k ≡ true) counts sub (filter_nodes executes g.nodes)
      (All-map _ _ (filter_nodes executes g.nodes) (λ x h t. h.0 (ground (arith, h.1)))
        (All-filter_nodes executes _ g.nodes
          (All-Kept (λ n. executes n && node_supports n sub.sensors) g.nodes)))

-- Each subject of the entry can run on its node.
abbrev pub Runs : NodeRegistry → String × List SubjectConfig → Type 0
Runs g (k, subs) = All (λ s. can_run g s k ≡ true) subs

Runs-subjects_of :
    (g : NodeRegistry) (k : String) (m : Plan) → All (Runs g) m → Runs g (k, subjects_of k m)
unfolding lookup
Runs-subjects_of g k [] h = tt
Runs-subjects_of g k ((j, subs) ∷ m) h = elim (Bool-cases (str_eq j k)) [
  | inl e ↦
      rw (subjects_of-head k j subs m e) (subst (λ i. Runs g (i, subs)) ((eq_iff j k).0 e) h.0)
  | inr e ↦ rw (subjects_of-tail k j subs m e) (Runs-subjects_of g k m h.1)
]

Runs-insert :
    (g : NodeRegistry) (k : String) (v : List SubjectConfig) (m : Plan)
    → Runs g (k, v)
    → All (Runs g) m
    → All (Runs g) (insert k v m)
unfolding insert
Runs-insert g k v [] p h = (p, tt)
Runs-insert g k v ((j, w) ∷ m) p h = elim (Bool-cases (str_eq j k)) [
  | inl e ↦ rw (e, insert) (subst (λ i. Runs g (i, v)) (sym ((eq_iff j k).0 e)) p, h.1)
  | inr e ↦ rw (e, insert) (h.0, Runs-insert g k v m p h.1)
]

assign_all-Runs :
    (g : NodeRegistry) (subs : List SubjectConfig) (counts : Counts) (plan p : Plan)
    → All (Runs g) plan
    → assign_all (filter_nodes executes g.nodes) counts plan subs ≡ ok p
    → All (Runs g) p
unfolding assign_all
assign_all-Runs g [] counts plan p a h = subst (All (Runs g)) (ok-injective h) a
assign_all-Runs g (sub ∷ subs) counts plan p a h =
    let found = eligible counts sub (filter_nodes executes g.nodes) in
    elim (Option-cases (select_node counts found)) [
      | inl e ↦ absurd (not-err-ok (rw (e, assign_all) at h))
      | inr (k, e) ↦
          assign_all-Runs g subs _ _ p
            (Runs-insert g k (subjects_of k plan ++ sub ∷ []) plan
              (All-append (λ s. can_run g s k ≡ true) (subjects_of k plan) (sub ∷ [])
                (Runs-subjects_of g k plan a)
                (
                  select_node-All (λ x. can_run g sub x ≡ true) counts found k e
                      (eligible-can_run g counts sub),
                  tt,
                ))
              a)
            (rw (e, assign_all) at h)
    ]

Runs-start : (g : NodeRegistry) (m : List Item) → All (Runs g) (map (λ x. (x.0, [])) m)
Runs-start g [] = tt
Runs-start g (x ∷ m) = (tt, Runs-start g m)

-- In every plan that is returned, each subject stands on a registered master or worker whose
-- capabilities name all the sensors and algorithms that the subject needs.
pub plan-Runs :
    (g : NodeRegistry) (submitted : Submitted) (p : Plan)
    → plan_subject_assignments g submitted ≡ ok p
    → All (Runs g) p
plan-Runs g submitted p h =
    let q = plan_subject_assignments-Planned g submitted p h in
    assign_all-Runs g q.subs _ _ p (Runs-start g (filter_nodes executes g.nodes)) q.planned
