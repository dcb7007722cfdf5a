-- ===== src/Distributed/Planner/Greedy.antt =====
-- The planner as a greedy assignment that looks only at the plan, without the counts beside it.
use mathlib.Core.Path.{subst}
use nexus_n3_core.Prelude.{
  ◌+◌, ◌≤◌, ℕ, String, ◌≡◌, sym, refl, inl, inr, Bool, true, false, ◌&&◌, ◌||◌, some, List, [], ◌∷◌,
  ◌++◌, map, arith, leb, str_eq, insert, All, All-map, Bool-cases, Option-cases, eq_iff,
}
use nexus_n3_core.Distributed.Registry.{Node, NodeRegistry, filter_nodes}
use nexus_n3_core.Distributed.Planner.{
  SubjectConfig, Submitted, Entry, entries, ok, Plan, Counts, sensor_count, total_sensors, count_of,
  subjects_of, node_supports, can_host, eligible, key_le, least, select_node, assign_all, executes,
  all_subjects, plan_subject_assignments,
}
use nexus_n3_core.Distributed.Planner.Capacity.{
  some_injective, select_node-All, ok-injective, not-err-ok, plan_subject_assignments-Planned,
  IsSound, selected-IsSound, start-IsSound,
}

-- The sensors of the subjects that the plan gives a node.
pub load : String → Plan → ℕ
load k plan = total_sensors (subjects_of k plan)

-- The node supports the subject, and has room for it beside what the plan gives it.
pub takes : Plan → SubjectConfig → String × Node → Bool
unfolding load
takes plan sub (k, n) =
    node_supports n sub.sensors && leb (load k plan + sensor_count sub.sensors) 8

-- A node of the identifier takes the subject.
pub some_takes : Plan → SubjectConfig → List (String × Node) → String → Bool
unfolding takes
some_takes plan sub [] k = false
some_takes plan sub (x ∷ m) k = (str_eq x.0 k && takes plan sub x) || some_takes plan sub m k

-- One subject after the other goes to a node that takes it, with no more sensors by then than any
-- other node that takes it.
pub data Greedy (nodes : List (String × Node)) : Plan → List SubjectConfig → Plan → Type 0 where
  done : {p : Plan} → Greedy nodes p [] p
  place :
      {plan p : Plan} {sub : SubjectConfig} {subs : List SubjectConfig} (k : String)
      → some_takes plan sub nodes k ≡ true
      → All (λ x. takes plan sub x ≡ true → load k plan ≤ load x.0 plan) nodes
      → Greedy nodes (insert k (subjects_of k plan ++ sub ∷ []) plan) subs p
      → Greedy nodes plan (sub ∷ subs) p

key_le-le :
    (counts : Counts) (a b : String)
    → key_le counts a b ≡ true
    → count_of a counts ≤ count_of b counts
unfolding key_le
key_le-le counts a b h = ground arith

key_le-gt :
    (counts : Counts) (a b : String)
    → key_le counts a b ≡ false
    → count_of b counts ≤ count_of a counts
unfolding key_le
key_le-gt counts a b h = ground arith

-- The number is at most the counts of all these nodes.
abbrev AtMost : Counts → ℕ → List String → Type 0
AtMost counts v ks = All (λ k. v ≤ count_of k counts) ks

least-first :
    (counts : Counts) (best k : String) (ks : List String)
    → key_le counts best k ≡ true
    → least counts best (k ∷ ks) ≡ least counts best ks
unfolding least
least-first counts best k ks e = rw e refl

least-second :
    (counts : Counts) (best k : String) (ks : List String)
    → key_le counts best k ≡ false
    → least counts best (k ∷ ks) ≡ least counts k ks
unfolding least
least-second counts best k ks e = rw e refl

least-le :
    (counts : Counts) (best : String) (ks : List String)
    → AtMost counts (count_of (least counts best ks) counts) (best ∷ ks)
unfolding least
least-le counts best [] = (omega arith, tt)
least-le counts best (k ∷ ks) = elim (Bool-cases (key_le counts best k)) [
  | inl e ↦
      let rest = least-le counts best ks in
      subst (λ w. AtMost counts (count_of w counts) (best ∷ k ∷ ks))
        (sym (least-first counts best k ks e))
        (rest.0, (omega (arith, rest.0, key_le-le counts best k e), rest.1))
  | inr e ↦
      let rest = least-le counts k ks in
      subst (λ w. AtMost counts (count_of w counts) (best ∷ k ∷ ks))
        (sym (least-second counts best k ks e))
        (omega (arith, rest.0, key_le-gt counts best k e), (rest.0, rest.1))
]

select-least :
    (counts : Counts) (ks : List String) (k : String)
    → select_node counts ks ≡ some k
    → AtMost counts (count_of k counts) ks
unfolding select_node
select-least counts [] k h = tt
select-least counts (x ∷ xs) k h =
    subst (λ b. AtMost counts (count_of b counts) (x ∷ xs)) (some_injective h)
      (least-le counts x xs)

module _ (counts : Counts) (plan : Plan) (sub : SubjectConfig) (s : IsSound counts plan) where
  can_host-takes : (x : String × Node) → can_host counts sub x.0 x.1 ≡ takes plan sub x
  unfolding can_host takes load
  can_host-takes (k, n) = rw (s.counted k) refl

  -- What holds of the eligible nodes holds of those that take the subject.
  All-takes :
      (P : String → Type 0) (m : List (String × Node))
      → All P (eligible counts sub m)
      → All (λ x. takes plan sub x ≡ true → P x.0) m
  unfolding eligible
  All-takes P [] h = tt
  All-takes P ((k, n) ∷ m) h = elim (Bool-cases (can_host counts sub k n)) [
    | inl e ↦ let both = rw (e, eligible) at h in (λ t. both.0, All-takes P m both.1)
    | inr e ↦ (
      λ t. absurd (ground (arith, e, t, can_host-takes (k, n))),
      All-takes P m (rw (e, eligible) at h),
    )
  ]

  least-load :
      (m : List (String × Node)) (k : String)
      → select_node counts (eligible counts sub m) ≡ some k
      → All (λ x. takes plan sub x ≡ true → load k plan ≤ load x.0 plan) m
  unfolding load
  least-load m k h =
      All-map _ _ m (λ x r t. omega (arith, r t, s.counted k, s.counted x.0))
        (All-takes (λ j. count_of k counts ≤ count_of j counts) m
          (select-least counts (eligible counts sub m) k h))

  All-some_takes :
      (m : List (String × Node)) → All (λ k. some_takes plan sub m k ≡ true) (eligible counts sub m)
  unfolding eligible some_takes
  All-some_takes [] = tt
  All-some_takes ((k, n) ∷ m) = elim (Bool-cases (can_host counts sub k n)) [
    | inl e ↦
        rw (e, eligible)
          (
            ground (arith, e, can_host-takes (k, n), eq_iff k k),
            All-map _ _ (eligible counts sub m) (λ j h. ground (arith, h)) (All-some_takes m),
          )
    | inr e ↦
        rw (e, eligible)
          (All-map _ _ (eligible counts sub m) (λ j h. ground (arith, h)) (All-some_takes m))
  ]

assign_all-Greedy :
    (nodes : List (String × Node)) (subs : List SubjectConfig) (counts : Counts) (plan p : Plan)
    → IsSound counts plan
    → assign_all nodes counts plan subs ≡ ok p
    → Greedy nodes plan subs p
unfolding assign_all
assign_all-Greedy nodes [] counts plan p s h =
    subst (λ q. Greedy nodes plan [] q) (ok-injective h) done
assign_all-Greedy nodes (sub ∷ subs) counts plan p s h =
    elim (Option-cases (select_node counts (eligible counts sub nodes))) [
      | inl e ↦ absurd (not-err-ok (rw (e, assign_all) at h))
      | inr (k, e) ↦
          let host =
            select_node-All (λ x. some_takes plan sub nodes x ≡ true) counts
              (eligible counts sub nodes) k e (All-some_takes counts plan sub s nodes) in
          place k host (least-load counts plan sub s nodes k e) (
            assign_all-Greedy nodes subs _ _ p (selected-IsSound counts plan sub k nodes s e)
              (rw (e, assign_all) at h))
    ]

-- Every plan that is returned is a greedy one: the submitted subjects, in their order, go one after
-- the other to a master or worker that supports the subject and has room for it, and that by then
-- carries no more sensors than any other such node.
pub plan-Greedy :
    (g : NodeRegistry) (submitted : Submitted) (p : Plan)
    → plan_subject_assignments g submitted ≡ ok p
    → (es : List Entry) × (subs : List SubjectConfig) × (submitted ≡ entries es)
      × (all_subjects es ≡ some subs)
      × Greedy
          (filter_nodes executes g.nodes)
          (map (λ x. (x.0, [])) (filter_nodes executes g.nodes))
          subs
          p
plan-Greedy g submitted p h =
    let q = plan_subject_assignments-Planned g submitted p h in
    (
      q.listed.0,
      q.subs,
      q.listed.1,
      q.listed.2,
      assign_all-Greedy (filter_nodes executes g.nodes) q.subs _ _ p
          (start-IsSound (filter_nodes executes g.nodes)) q.planned,
    )
