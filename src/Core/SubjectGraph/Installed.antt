-- ===== src/Core/SubjectGraph/Installed.antt =====
-- What a successful initialization of the subjects gives.
use mathlib.Core.Path.{subst}
use mathlib.Core.List.{append_assoc, append-nil}
use nexus_n3_core.Prelude.{
  ℕ, ◌≤◌, String, ◌≡◌, refl, ap, ◌∙◌, inl, inr, ◌⊎◌, true, false, Option, none, some, List, [], ◌∷◌,
  ◌++◌, map, arith, ltb, not, ◌&&◌, length, zero, suc, ◌==◌, ==_iff, Bool, Bool-cases, Option-cases,
}
use nexus_n3_core.Core.Subject.{Subject, SensorEntry, new_subject, add_sensor}
use nexus_n3_core.Core.SubjectGraph.{
  SensorConf, SubjectConf, SensorClass, GraphError, Built, built, failed_with, total_sensors,
  check_sensors, mark_locations, seen_before, folded, number, block_size_of, add_sensors,
  add_all_sensors, build, runs_algorithm, init_each, init_subjects,
}

-- The locations that a configuration names, in order.
pub named : List SensorConf → List (Option String)
named [] = []
named (c ∷ cs) = map some c.locations ++ named cs

pub placed : List SensorEntry → List (Option String)
placed es = map (λ e. e.location) es

-- The sensors of a configuration by name and location, compared as the checks compare them.
pub keys : String → List String → List (String × String)
keys name [] = []
keys name (l ∷ ls) = (name, folded l) ∷ keys name ls

pub keys_of : List SensorConf → List (String × String)
unfolding keys
keys_of [] = []
keys_of (c ∷ cs) = keys (folded c.local_name) c.locations ++ keys_of cs

-- The keys are different from one another and from those that were seen.
pub all_new : List (String × String) → List (String × String) → Bool
all_new [] seen = true
all_new (k ∷ ks) seen = not (seen_before k seen) && all_new ks (k ∷ seen)

-- A subject has one sensor at each location, and no two of the same name at one location.
pub record IsEquipped (c : SubjectConf) (s : Subject) : Type 0 where
  pub same_id : s.subject_id ≡ c.subject_id
  pub places : placed s.sensors ≡ named c.sensors
  pub distinct : all_new (keys_of c.sensors) [] ≡ true

mark_locations-all_new :
    (name : String) (ls : List String) (more seen : List (String × String))
    → (mark_locations name ls seen).1 ≡ none
    → all_new more (mark_locations name ls seen).0 ≡ true
    → all_new (keys name ls ++ more) seen ≡ true
unfolding mark_locations all_new keys
mark_locations-all_new name [] more seen e h = h
mark_locations-all_new name (l ∷ ls) more seen e h =
    ground (arith, e, h, mark_locations-all_new name ls more ((name, folded l) ∷ seen))

pub check_sensors-all_new :
    (id : String) (cs : List SensorConf) (seen : List (String × String))
    → check_sensors id cs seen ≡ none
    → all_new (keys_of cs) seen ≡ true
unfolding check_sensors keys_of all_new
check_sensors-all_new id [] seen e = refl
check_sensors-all_new id (c ∷ cs) seen e =
    let marked = mark_locations (folded c.local_name) c.locations seen in
    mark_locations-all_new (folded c.local_name) c.locations (keys_of cs) seen (ground (arith, e))
      (ground (arith, e, check_sensors-all_new id cs marked.0))

-- Each sensor has as many locations as it is said to be of.
counted : List SensorConf → Bool
counted [] = true
counted (c ∷ cs) = (length c.locations == number c) && counted cs

check_sensors-counted :
    (id : String) (cs : List SensorConf) (seen : List (String × String))
    → check_sensors id cs seen ≡ none
    → counted cs ≡ true
unfolding check_sensors counted
check_sensors-counted id [] seen e = refl
check_sensors-counted id (c ∷ cs) seen e =
    let marked = mark_locations (folded c.local_name) c.locations seen in
    ground (arith, e, check_sensors-counted id cs marked.0)

placed-append : (es ds : List SensorEntry) → placed (es ++ ds) ≡ placed es ++ placed ds
unfolding placed
placed-append [] ds = refl
placed-append (e ∷ es) ds = ap (λ q. e.location ∷ q) (placed-append es ds)

-- The subject with more sensors.
record IsGrown (more : List (Option String)) (s t : Subject) : Type 0 where
  same_id : t.subject_id ≡ s.subject_id
  places : placed t.sensors ≡ placed s.sensors ++ more

IsGrown-trans :
    (a b : List (Option String)) (s t u : Subject)
    → IsGrown a s t
    → IsGrown b t u
    → IsGrown (a ++ b) s u
IsGrown-trans a b s t u g h = record {
  same_id = h.same_id ∙ g.same_id;
  places = h.places ∙ ap (λ q. q ++ b) g.places ∙ append_assoc (placed s.sensors) a b;
}

IsGrown-nil : (s : Subject) → IsGrown [] s s
IsGrown-nil s = record { same_id = refl; places = rw append-nil refl }

IsGrown-add_sensor :
    (size : ℕ) (l : String) (s : Subject)
    → IsGrown (some l ∷ []) s (add_sensor none (some l) (some size) s)
unfolding add_sensor placed
IsGrown-add_sensor size l s = record { same_id = refl; places = placed-append s.sensors _ }

built-injective : (s t : Subject) → built s ≡ built t → s ≡ t
built-injective s t e = cc

not-failed-built : (e : GraphError) (t : Subject) → failed_with e ≡ built t → true ≡ false
not-failed-built e t h = cc

add_sensors-IsGrown :
    (k : SensorClass) (c : SensorConf) (n : ℕ) (ls : List String) (s t : Subject)
    → length ls ≡ n
    → add_sensors k c n ls s ≡ built t
    → IsGrown (map some ls) s t
unfolding add_sensors length
add_sensors-IsGrown k c zero [] s t q e =
    subst (λ u. IsGrown [] s u) (built-injective s t e) (IsGrown-nil s)
add_sensors-IsGrown k c zero (l ∷ ls) s t q e = absurd (omega (arith, q))
add_sensors-IsGrown k c (suc n) [] s t q e = absurd (omega (arith, q))
add_sensors-IsGrown k c (suc n) (l ∷ ls) s t q e = elim (Option-cases k.raises) [
  | inr (m, r) ↦ absurd (ground (arith, not-failed-built _ t (rw (r, add_sensors) at e)))
  | inl quiet ↦
      let u = add_sensor none (some l) (some (block_size_of k c)) s in
      IsGrown-trans (some l ∷ []) (map some ls) s u t (IsGrown-add_sensor (block_size_of k c) l s)
        (add_sensors-IsGrown k c n ls u t (omega (arith, q)) (rw (quiet, add_sensors) at e))
]

add_all_sensors-IsGrown :
    (k : SensorClass) (c : SensorConf) (s t : Subject)
    → length c.locations ≡ number c
    → add_all_sensors k c s ≡ built t
    → IsGrown (map some c.locations) s t
unfolding add_all_sensors
add_all_sensors-IsGrown k c s t q e = add_sensors-IsGrown k c (number c) c.locations s t q e

Built-cases :
    (b : Built) → ((s : Subject) × (b ≡ built s)) ⊎ ((e : GraphError) × (b ≡ failed_with e))
Built-cases (built s) = inl (s, refl)
Built-cases (failed_with e) = inr (e, refl)

module _ (catalog : String → Option SensorClass) where
  build-IsGrown :
      (cs : List SensorConf) (s t : Subject)
      → counted cs ≡ true
      → build catalog cs s ≡ built t
      → IsGrown (named cs) s t
  unfolding build named counted
  build-IsGrown [] s t q e = subst (λ q. IsGrown [] s q) (built-injective s t e) (IsGrown-nil s)
  build-IsGrown (c ∷ cs) s t q e = elim (Option-cases (catalog c.local_name)) [
    | inl absent ↦ absurd (ground (arith, not-failed-built _ t (rw (absent, build) at e)))
    | inr (k, w) ↦ elim (Bool-cases (runs_algorithm k c)) [
      | inr unable ↦ absurd (ground (arith, not-failed-built _ t (rw (w, unable, build) at e)))
      | inl able ↦ elim (Built-cases (add_all_sensors k c s)) [
        | inr (f, g) ↦ absurd (ground (arith, not-failed-built _ t (rw (w, able, g, build) at e)))
        | inl (u, g) ↦
            IsGrown-trans (map some c.locations) (named cs) s u t
              (add_all_sensors-IsGrown k c s u
                (ground (arith, q, ==_iff (length c.locations) (number c))) g)
              (build-IsGrown cs u t (ground (arith, q)) (rw (w, able, g, build) at e))
      ]
    ]
  ]

  build-IsEquipped :
      (c : SubjectConf) (t : Subject)
      → check_sensors c.subject_id c.sensors [] ≡ none
      → build catalog c.sensors (new_subject c.subject_id) ≡ built t
      → IsEquipped c t
  unfolding new_subject placed
  build-IsEquipped c t good e =
      let q = check_sensors-counted c.subject_id c.sensors [] good in
      let g = build-IsGrown c.sensors (new_subject c.subject_id) t q e in
      record {
        same_id = g.same_id;
        places = g.places;
        distinct = check_sensors-all_new c.subject_id c.sensors [] good;
      }

  -- Each subject for its configuration, in order.
  abbrev pub AllEquipped : List SubjectConf → List Subject → Type 0
  AllEquipped [] [] = Unit
  AllEquipped [] (s ∷ ss) = ⊥
  AllEquipped (c ∷ cs) [] = ⊥
  AllEquipped (c ∷ cs) (s ∷ ss) = IsEquipped c s × AllEquipped cs ss

  no_error :
      (a b : List Subject) (e : GraphError)
      → Path (List Subject × Option GraphError) (a, some e) (b, none)
      → true ≡ false
  no_error a b e h = cc

  init_each-AllEquipped :
      (cs : List SubjectConf) (ss : List Subject)
      → init_each catalog cs ≡ (ss, none)
      → AllEquipped cs ss
  unfolding init_each
  init_each-AllEquipped [] ss e = subst (λ q. AllEquipped [] q) (ap (λ q. q.0) e) tt
  init_each-AllEquipped (c ∷ cs) ss e =
      elim (Option-cases (check_sensors c.subject_id c.sensors [])) [
        | inr (f, bad) ↦ absurd (ground (arith, no_error _ ss f (rw (bad, init_each) at e)))
        | inl good ↦ elim (Built-cases (build catalog c.sensors (new_subject c.subject_id))) [
          | inr (f, bad) ↦ absurd (ground (arith, no_error _ ss f (rw (good, bad, init_each) at e)))
          | inl (t, w) ↦
              let eq = rw (good, w, init_each) at e in
              subst (λ q. AllEquipped (c ∷ cs) q) (ap (λ q. q.0) eq)
                (
                  build-IsEquipped c t good w,
                  init_each-AllEquipped cs (init_each catalog cs).0
                      (ap (λ q. ((init_each catalog cs).0, q.1)) eq),
                )
        ]
      ]

  -- When the subjects of a node are initialized without an error: the sensors do not exceed the
  -- node's maximum, and there is a subject for each configuration, in order, with its identifier,
  -- one sensor at each location that it names, and no two sensors of one name at one location.
  pub init_subjects-AllEquipped :
      (max_total : ℕ) (cs : List SubjectConf) (ss : List Subject)
      → init_subjects catalog max_total cs ≡ (ss, none)
      → (total_sensors cs ≤ max_total) × AllEquipped cs ss
  unfolding init_subjects
  init_subjects-AllEquipped max_total cs ss e =
      elim (Bool-cases (ltb max_total (total_sensors cs))) [
        | inl over ↦ absurd (ground (arith, no_error _ ss _ (rw (over, init_subjects) at e)))
        | inr fits ↦ (ground arith, init_each-AllEquipped cs ss (rw (fits, init_subjects) at e))
      ]
