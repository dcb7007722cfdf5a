-- ===== src/Distributed/Planner/Complete.antt =====
-- A plan holds every submitted subject once, on a node that can run it.
use mathlib.Core.Path.{subst}
use mathlib.Core.List.{Perm, append-nil, append_assoc, perm_middle}
use mathlib.Core.List.Perm
use nexus_n3_core.Prelude.{
  String, ◌≡◌, refl, ◌∙◌, inl, inr, true, false, some, List, [], ◌∷◌, ◌++◌, map, arith, str_eq,
  lookup, insert, Bool-cases, Option-cases,
}
use nexus_n3_core.Distributed.Registry.{Node, NodeRegistry, filter_nodes}
use nexus_n3_core.Distributed.Planner.{
  SubjectConfig, Entry, entries, all_subjects, ok, Plan, Counts, subjects_of, eligible, select_node,
  assign_all, executes, plan_subject_assignments,
}
use nexus_n3_core.Distributed.Planner.Capacity.{
  ok-injective, not-err-ok, Planned, plan_subject_assignments-Planned,
}

-- Every subject of a plan, node by node.
pub hosted : Plan → List SubjectConfig
hosted [] = []
hosted ((k, subs) ∷ m) = subs ++ hosted m

snoc-perm :
    (xs ys : List SubjectConfig) (x : SubjectConfig) → Perm ((xs ++ x ∷ []) ++ ys) (x ∷ (xs ++ ys))
snoc-perm xs ys x = rw append_assoc (perm_middle xs ys)

pub subjects_of-head :
    (k j : String) (subs : List SubjectConfig) (m : Plan)
    → str_eq j k ≡ true
    → subjects_of k ((j, subs) ∷ m) ≡ subs
unfolding lookup
subjects_of-head k j subs m e = ground arith

pub subjects_of-tail :
    (k j : String) (subs : List SubjectConfig) (m : Plan)
    → str_eq j k ≡ false
    → subjects_of k ((j, subs) ∷ m) ≡ subjects_of k m
unfolding lookup
subjects_of-tail k j subs m e = ground arith

insert-perm :
    (k : String) (v : List SubjectConfig) (x : SubjectConfig) (p : Plan)
    → v ≡ subjects_of k p
    → Perm (hosted (insert k (v ++ x ∷ []) p)) (x ∷ hosted p)
unfolding hosted insert lookup
insert-perm k v x [] h = rw h (Perm.refl _)
insert-perm k v x ((j, subs) ∷ m) h = elim (Bool-cases (str_eq j k)) [
  | inl e ↦ rw (h ∙ subjects_of-head k j subs m e) (rw (e, insert) (snoc-perm subs (hosted m) x))
  | inr e ↦
      rw (e, insert)
        (Perm.trans
          (Perm.append_left subs (insert-perm k v x m (h ∙ subjects_of-tail k j subs m e)))
          (perm_middle subs (hosted m)))
]

assign_all-perm :
    (nodes : List (String × Node)) (subs : List SubjectConfig) (counts : Counts) (plan p : Plan)
    → assign_all nodes counts plan subs ≡ ok p
    → Perm (hosted p) (subs ++ hosted plan)
unfolding assign_all
assign_all-perm nodes [] counts plan p h =
    subst (λ x. Perm (hosted x) (hosted plan)) (ok-injective h) (Perm.refl _)
assign_all-perm nodes (sub ∷ subs) counts plan p h =
    elim (Option-cases (select_node counts (eligible counts sub nodes))) [
      | inl e ↦ absurd (not-err-ok (rw (e, assign_all) at h))
      | inr (k, e) ↦ Perm.trans (assign_all-perm nodes subs _ _ p (rw (e, assign_all) at h)) (
          Perm.trans (Perm.append_left subs (insert-perm k (subjects_of k plan) sub plan refl))
            (perm_middle subs (hosted plan)))
    ]

hosted-start : (nodes : List (String × Node)) → hosted (map (λ x. (x.0, [])) nodes) ≡ []
unfolding hosted
hosted-start [] = refl
hosted-start (n ∷ m) = hosted-start m

all_subjects-eq :
    (es : List Entry) (subs subs' : List SubjectConfig)
    → all_subjects es ≡ some subs
    → all_subjects es ≡ some subs'
    → subs ≡ subs'
all_subjects-eq es subs subs' h k = cc

-- Every plan that is returned for a list of dictionaries holds exactly the submitted subjects,
-- each as often as it was submitted.
pub plan-perm :
    (g : NodeRegistry) (es : List Entry) (subs : List SubjectConfig) (p : Plan)
    → all_subjects es ≡ some subs
    → plan_subject_assignments g (entries es) ≡ ok p
    → Perm (hosted p) subs
plan-perm g es subs p s h =
    let q = plan_subject_assignments-Planned g (entries es) p h in
    let nodes = filter_nodes executes g.nodes in
    rw (all_subjects-eq es subs q.subs s (same es q)) (
      Perm.trans (assign_all-perm nodes q.subs _ _ p q.planned)
        (rw (hosted-start nodes) (rw append-nil (Perm.refl _))))
  where
    same : (es : List Entry) → (q : Planned g (entries es) p) → all_subjects es ≡ some q.subs
    same es q = ground (arith, q.listed)
