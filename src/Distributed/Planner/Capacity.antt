-- ===== src/Distributed/Planner/Capacity.antt =====
-- No plan puts more sensors on a node than it can take.
use mathlib.Core.Path.{subst}
use nexus_n3_core.Prelude.{
  ◌+◌, ◌≤◌, String, ◌≡◌, ◌≢◌, refl, ◌⊎◌, inl, inr, true, some, List, [], ◌∷◌, ◌++◌, map, arith,
  if◌then◌else◌, str_eq, lookup, insert, All, Bool-cases, Option-cases, lookup-insert,
}
use nexus_n3_core.Distributed.Registry.{Node, NodeRegistry, filter_nodes}
use nexus_n3_core.Distributed.Planner.{
  SubjectConfig, Submitted, not_list, entries, PlanError, Entry, bad_subject_ids, no_nodes,
  overloaded, no_host, Result, ok, err, Plan, Counts, sensor_count, total_sensors, count_of,
  subjects_of, can_host, eligible, key_le, least, select_node, assign_all, validate, all_subjects,
  unique_ids, is_empty, executes, plan_checked, plan_subject_assignments,
}

pub some_injective {ℓ} : {A : Type ℓ} {a b : A} → some a ≡ some b → a ≡ b
some_injective e = cc

pub Result-cases {ℓ} :
    {A : Type ℓ} (r : Result A) → ((a : A) × (r ≡ ok a)) ⊎ ((e : PlanError) × (r ≡ err e))
Result-cases (ok a) = inl (a, refl)
Result-cases (err e) = inr (e, refl)

pub ok-injective {ℓ} : {A : Type ℓ} {a b : A} → ok a ≡ ok b → a ≡ b
ok-injective e = cc

pub not-err-ok {ℓ} : {A : Type ℓ} {a : A} {x : PlanError} → ¬ (err x ≡ ok a)
not-err-ok e = cc

total_sensors-append :
    (xs ys : List SubjectConfig) → total_sensors (xs ++ ys) ≡ total_sensors xs + total_sensors ys
unfolding total_sensors
total_sensors-append [] ys = omega arith
total_sensors-append (x ∷ xs) ys = omega (arith, total_sensors-append xs ys)

total_sensors-snoc :
    (xs : List SubjectConfig) (x : SubjectConfig)
    → total_sensors (xs ++ x ∷ []) ≡ total_sensors xs + sensor_count x.sensors
unfolding total_sensors
total_sensors-snoc xs x = omega (arith, total_sensors-append xs (x ∷ []))

-- Properties that every eligible node has, the selected node has.
pub eligible-All {ℓ} :
    (P : String → Type ℓ) (counts : Counts) (sub : SubjectConfig) (nodes : List (String × Node))
    → ((k : String) (n : Node) → can_host counts sub k n ≡ true → P k)
    → All P (eligible counts sub nodes)
unfolding eligible
eligible-All P counts sub [] h = tt
eligible-All P counts sub ((k, n) ∷ m) h = elim (Bool-cases (can_host counts sub k n)) [
  | inl e ↦ rw (e, eligible) (h k n e, eligible-All P counts sub m h)
  | inr e ↦ rw (e, eligible) (eligible-All P counts sub m h)
]

least-All {ℓ} :
    (P : String → Type ℓ) (counts : Counts) (best : String) (ks : List String)
    → P best
    → All P ks
    → P (least counts best ks)
unfolding least
least-All P counts best [] p h = p
least-All P counts best (k ∷ ks) p h = elim (Bool-cases (key_le counts best k)) [
  | inl e ↦ rw (e, least) (least-All P counts best ks p h.1)
  | inr e ↦ rw (e, least) (least-All P counts k ks h.0 h.1)
]

pub select_node-All {ℓ} :
    (P : String → Type ℓ) (counts : Counts) (ks : List String) (k : String)
    → select_node counts ks ≡ some k
    → All P ks
    → P k
unfolding select_node
select_node-All P counts [] k e h = cc
select_node-All P counts (x ∷ xs) k e h =
    subst P (some_injective e) (least-All P counts x xs h.0 h.1)

-- The counts are those of the plan, and no entry passes the capacity.
abbrev pub Fits : String × List SubjectConfig → Type 0
Fits (k, subs) = total_sensors subs ≤ 8

pub record IsSound (counts : Counts) (plan : Plan) : Type 0 where
  pub counted : (k : String) → count_of k counts ≡ total_sensors (subjects_of k plan)
  pub fits : All Fits plan

All-insert :
    (k : String) (v : List SubjectConfig) (m : Plan)
    → total_sensors v ≤ 8
    → All Fits m
    → All Fits (insert k v m)
unfolding insert
All-insert k v [] p h = (p, tt)
All-insert k v ((j, w) ∷ m) p h = elim (Bool-cases (str_eq j k)) [
  | inl e ↦ rw (e, insert) (p, h.1)
  | inr e ↦ rw (e, insert) (h.0, All-insert k v m p h.1)
]

room :
    (counts : Counts) (sub : SubjectConfig) (k : String) (n : Node)
    → can_host counts sub k n ≡ true
    → count_of k counts + sensor_count sub.sensors ≤ 8
unfolding can_host
room counts sub k n h = ground (arith)

place-IsSound :
    (counts : Counts) (plan : Plan) (sub : SubjectConfig) (k : String)
    → IsSound counts plan
    → count_of k counts + sensor_count sub.sensors ≤ 8
    → IsSound
        (insert k (count_of k counts + sensor_count sub.sensors) counts)
        (insert k (subjects_of k plan ++ sub ∷ []) plan)
place-IsSound counts plan sub k s h = record {
  counted = λ j. ground (
    arith,
    lookup-insert k j (count_of k counts + sensor_count sub.sensors) counts,
    lookup-insert k j (subjects_of k plan ++ sub ∷ []) plan,
    s.counted j,
    s.counted k,
    total_sensors-snoc (subjects_of k plan) sub,
  );
  fits =
      All-insert k (subjects_of k plan ++ sub ∷ []) plan
        (omega (arith, s.counted k, total_sensors-snoc (subjects_of k plan) sub)) s.fits;
}

pub selected-IsSound :
    (counts : Counts) (plan : Plan) (sub : SubjectConfig) (k : String)
    (nodes : List (String × Node))
    → IsSound counts plan
    → select_node counts (eligible counts sub nodes) ≡ some k
    → IsSound
        (insert k (count_of k counts + sensor_count sub.sensors) counts)
        (insert k (subjects_of k plan ++ sub ∷ []) plan)
selected-IsSound counts plan sub k nodes s e = place-IsSound counts plan sub k s (
    select_node-All (λ x. count_of x counts + sensor_count sub.sensors ≤ 8) counts
      (eligible counts sub nodes) k e
      (eligible-All (λ x. count_of x counts + sensor_count sub.sensors ≤ 8) counts sub nodes
        (room counts sub)))

assign_all-Fits :
    (nodes : List (String × Node)) (subs : List SubjectConfig) (counts : Counts) (plan p : Plan)
    → IsSound counts plan
    → assign_all nodes counts plan subs ≡ ok p
    → All Fits p
unfolding assign_all
assign_all-Fits nodes [] counts plan p s h = subst (All Fits) (ok-injective h) s.fits
assign_all-Fits nodes (sub ∷ subs) counts plan p s h =
    elim (Option-cases (select_node counts (eligible counts sub nodes))) [
      | inl e ↦ absurd (not-err-ok (rw (e, assign_all) at h))
      | inr (k, e) ↦
          assign_all-Fits nodes subs _ _ p (selected-IsSound counts plan sub k nodes s e)
            (rw (e, assign_all) at h)
    ]

validate-Fits : (p : Plan) → All Fits p → validate p ≡ ok p
unfolding validate
validate-Fits [] h = refl
validate-Fits ((k, subs) ∷ m) h = ground (arith, validate-Fits m h.1)

subjects_of-Fits : (k : String) (p : Plan) → All Fits p → total_sensors (subjects_of k p) ≤ 8
unfolding lookup total_sensors
subjects_of-Fits k [] h = omega arith
subjects_of-Fits k ((j, subs) ∷ m) h = ground (arith, subjects_of-Fits k m h.1)

pub start-IsSound :
    (nodes : List (String × Node))
    → IsSound (map (λ x. (x.0, 0)) nodes) (map (λ x. (x.0, [])) nodes)
unfolding lookup total_sensors
start-IsSound [] = record { counted = λ k. refl; fits = tt }
start-IsSound ((k, n) ∷ m) = record {
  counted = λ j. ground (arith, (start-IsSound m).counted j);
  fits = (omega arith, (start-IsSound m).fits);
}

module _ (g : NodeRegistry) (subs : List SubjectConfig) where
  abbrev nodes : List (String × Node)
  nodes = filter_nodes executes g.nodes

  abbrev pub loop : Result Plan
  loop = assign_all nodes (map (λ x. (x.0, 0)) nodes) (map (λ x. (x.0, [])) nodes) subs

  loop-Fits : (p : Plan) → loop ≡ ok p → All Fits p
  loop-Fits p h = assign_all-Fits nodes subs _ _ p (start-IsSound nodes) h

  loop-validate : (p : Plan) → loop ≡ ok p → validate p ≡ ok p
  loop-validate p h = validate-Fits p (loop-Fits p h)

  -- The final validation changes nothing: the plan is what the loop built.
  pub plan_checked_lem : plan_checked g subs ≡ (if is_empty nodes then err no_nodes else loop)
  unfolding plan_checked
  plan_checked_lem = elim (Result-cases loop) [
    | inl (p, e) ↦ rw (e, plan_checked) (ground (arith, loop-validate p e))
    | inr (x, e) ↦ rw (e, plan_checked) refl
  ]

  pub plan_checked-loop : (p : Plan) → plan_checked g subs ≡ ok p → loop ≡ ok p
  plan_checked-loop p h = ground (arith, plan_checked_lem)

not-no_host-overloaded :
    {sub : SubjectConfig} → ¬ (◌≡◌ {A = Result Plan} (err (no_host sub)) (err overloaded))
not-no_host-overloaded e = cc

not-bad-overloaded : ¬ (◌≡◌ {A = Result Plan} (err bad_subject_ids) (err overloaded))
not-bad-overloaded e = cc

assign_all-ne-overloaded :
    (nodes : List (String × Node)) (subs : List SubjectConfig) (counts : Counts) (plan : Plan)
    → assign_all nodes counts plan subs ≢ err overloaded
unfolding assign_all
assign_all-ne-overloaded nodes [] counts plan h = cc
assign_all-ne-overloaded nodes (sub ∷ subs) counts plan h =
    elim (Option-cases (select_node counts (eligible counts sub nodes))) [
      | inl e ↦ not-no_host-overloaded (rw (e, assign_all) at h)
      | inr (k, e) ↦ assign_all-ne-overloaded nodes subs _ _ (rw (e, assign_all) at h)
    ]

plan_checked-ne-overloaded :
    (g : NodeRegistry) (subs : List SubjectConfig) → plan_checked g subs ≢ err overloaded
plan_checked-ne-overloaded g subs h = ground (
  arith,
  plan_checked_lem g subs,
  assign_all-ne-overloaded (nodes g subs) subs (map (λ x. (x.0, 0)) (nodes g subs))
      (map (λ x. (x.0, [])) (nodes g subs)),
)

-- What a successful call gives: the submitted subjects, and the loop's plan for them.
pub record Planned (g : NodeRegistry) (submitted : Submitted) (p : Plan) : Type 0 where
  pub subs : List SubjectConfig
  pub ids : List String
  pub listed : (es : List Entry) × (submitted ≡ entries es) × (all_subjects es ≡ some subs)
  pub unique : unique_ids subs ≡ some ids
  pub planned : loop g subs ≡ ok p

pub plan_subject_assignments-Planned :
    (g : NodeRegistry) (submitted : Submitted) (p : Plan)
    → plan_subject_assignments g submitted ≡ ok p
    → Planned g submitted p
unfolding plan_subject_assignments
plan_subject_assignments-Planned g not_list p h = absurd (not-err-ok h)
plan_subject_assignments-Planned g (entries es) p h = elim (Option-cases (all_subjects es)) [
  | inl e ↦ absurd (not-err-ok (rw (e, plan_subject_assignments) at h))
  | inr (subs, e) ↦ elim (Option-cases (unique_ids subs)) [
    | inl f ↦ absurd (not-err-ok (rw (e, f, plan_subject_assignments) at h))
    | inr (ids, f) ↦ record {
      subs = subs;
      ids = ids;
      listed = (es, refl, e);
      unique = f;
      planned = plan_checked-loop g subs p (rw (e, f, plan_subject_assignments) at h);
    }
  ]
]

-- In every plan that is returned, no node has more than eight sensors.
pub plan-capacity :
    (g : NodeRegistry) (submitted : Submitted) (p : Plan) (k : String)
    → plan_subject_assignments g submitted ≡ ok p
    → total_sensors (subjects_of k p) ≤ 8
plan-capacity g submitted p k h =
    let q = plan_subject_assignments-Planned g submitted p h in
    subjects_of-Fits k p (loop-Fits g q.subs p q.planned)

-- The per-node validation at the end never rejects: no submission is refused as overloaded.
pub plan-ne-overloaded :
    (g : NodeRegistry) (submitted : Submitted)
    → plan_subject_assignments g submitted ≢ err overloaded
unfolding plan_subject_assignments
plan-ne-overloaded g not_list h = cc
plan-ne-overloaded g (entries es) h = elim (Option-cases (all_subjects es)) [
  | inl e ↦ not-bad-overloaded (rw (e, plan_subject_assignments) at h)
  | inr (subs, e) ↦ elim (Option-cases (unique_ids subs)) [
    | inl f ↦ not-bad-overloaded (rw (e, f, plan_subject_assignments) at h)
    | inr (ids, f) ↦ plan_checked-ne-overloaded g subs (rw (e, f, plan_subject_assignments) at h)
  ]
]
