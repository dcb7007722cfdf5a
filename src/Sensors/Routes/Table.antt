-- ===== src/Sensors/Routes/Table.antt =====
-- The routing table of SensorManager has a route exactly for every two sensors that declare something
-- in common.
use nexus_n3_core.Prelude.{
  ℕ, String, Bool, false, not, ◌&&◌, ◌||◌, Option, none, some, List, [], ◌∷◌, ◌==◌, str_eq,
  contains, truthy, ◌≡◌, refl, arith, Option-cases, inl, inr,
}
use nexus_n3_core.Sensors.Routes.{
  Declared, folded, true_names, true_schemas, is_among, routes_compatible, RoutedSensor,
  routing_inputs_for_sensor, routing_outputs_for_sensor, routes_from, routes_of_all,
  build_routing_table,
}

-- A declared value and a wanted one that is not blank have the same normal form.
abbrev pub agree : (declared wanted : Option String) → Bool
agree d w = elim (truthy d) [
  | none ↦ false
  | some s ↦ not (str_eq (folded w) "") && str_eq (folded (some s)) (folded w)
]

abbrev pub shares : Declared → Declared → Bool
shares i o = agree o.name i.name || agree o.schema i.schema

-- Some element has a property.
abbrev pub any {ℓ} : {A : Type ℓ} → (A → Bool) → List A → Bool
any f [] = false
any f (x ∷ xs) = f x || any f xs

is_among_more :
    (s k : String) (ss : List String)
    → is_among (s ∷ ss) k ≡ ((not (str_eq k "") && str_eq s k) || is_among ss k)
unfolding contains
is_among_more s k ss = ground arith

is_among_none : (k : String) → is_among [] k ≡ false
unfolding contains
is_among_none k = ground arith

is_among-true_names :
    (os : List Declared) (w : Option String)
    → is_among (true_names os) (folded w) ≡ any (λ o. agree o.name w) os
is_among-true_names [] w = is_among_none (folded w)
is_among-true_names (o ∷ os) w = elim (Option-cases (truthy o.name)) [
  | inl e ↦ ground (arith, e, is_among-true_names os w)
  | inr (s, e) ↦ ground (
    arith,
    e,
    is_among-true_names os w,
    is_among_more (folded (some s)) (folded w) (true_names os),
  )
]

is_among-true_schemas :
    (os : List Declared) (w : Option String)
    → is_among (true_schemas os) (folded w) ≡ any (λ o. agree o.schema w) os
is_among-true_schemas [] w = is_among_none (folded w)
is_among-true_schemas (o ∷ os) w = elim (Option-cases (truthy o.schema)) [
  | inl e ↦ ground (arith, e, is_among-true_schemas os w)
  | inr (s, e) ↦ ground (
    arith,
    e,
    is_among-true_schemas os w,
    is_among_more (folded (some s)) (folded w) (true_schemas os),
  )
]

any-or {ℓ} :
    {A : Type ℓ} (f g : A → Bool) (xs : List A) → any (λ x. f x || g x) xs ≡ (any f xs || any g xs)
any-or f g [] = refl
any-or f g (x ∷ xs) = ground (arith, any-or f g xs)

-- Outputs and inputs are compatible exactly when some input shares its name or its schema with some
-- output, without regard to case and to the blanks around it; a blank name or schema is shared with
-- none.
pub routes_compatible-any :
    (outputs inputs : List Declared)
    → routes_compatible outputs inputs ≡ any (λ i. any (shares i) outputs) inputs
unfolding routes_compatible
routes_compatible-any outputs [] = refl
routes_compatible-any outputs (i ∷ is') = ground (
  arith,
  is_among-true_names outputs i.name,
  is_among-true_schemas outputs i.schema,
  any-or (λ o. agree o.name i.name) (λ o. agree o.schema i.schema) outputs,
  routes_compatible-any outputs is',
)

-- The table has the target among the routes of the source.
abbrev pub has_id : List ℕ → ℕ → Bool
has_id [] t = false
has_id (x ∷ xs) t = (x == t) || has_id xs t

abbrev pub has_route : List (ℕ × List ℕ) → (source target : ℕ) → Bool
has_route [] s t = false
has_route (e ∷ es) s t = ((e.0 == s) && has_id (e.1) t) || has_route es s t

-- Two different sensors of which the first declares an output that the second takes.
abbrev pub linked : RoutedSensor → RoutedSensor → Bool
linked a b =
    not (b.id == a.id)
    && routes_compatible (routing_outputs_for_sensor a) (routing_inputs_for_sensor b)

has_id-routes_from :
    (a : RoutedSensor) (t : ℕ) (bs : List RoutedSensor)
    → has_id (routes_from a bs) t ≡ any (λ b. (b.id == t) && linked a b) bs
unfolding routes_from
has_id-routes_from a t [] = refl
has_id-routes_from a t (b ∷ bs) = ground (arith, has_id-routes_from a t bs)

abbrev source_routes : ℕ → ℕ → List RoutedSensor → RoutedSensor → Bool
source_routes s t all a = (a.id == s) && any (λ b. (b.id == t) && linked a b) all

has_route-routes_of_all :
    (all : List RoutedSensor) (s t : ℕ) (ss : List RoutedSensor)
    → has_route (routes_of_all all ss) s t ≡ any (source_routes s t all) ss
unfolding routes_of_all
has_route-routes_of_all all s t [] = refl
has_route-routes_of_all all s t (a ∷ as') =
    ground (arith, has_id-routes_from a t all, has_route-routes_of_all all s t as')

-- The routing table leads from one sensor to another exactly when these are two different sensors of
-- the manager and an output of the first is compatible with an input of the second.
pub build_routing_table-links :
    (sensors : List RoutedSensor) (s t : ℕ)
    → has_route (build_routing_table sensors) s t
      ≡ any (λ a. (a.id == s) && any (λ b. (b.id == t) && linked a b) sensors) sensors
unfolding build_routing_table
build_routing_table-links sensors s t = has_route-routes_of_all sensors s t sensors
