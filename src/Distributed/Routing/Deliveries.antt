-- ===== src/Distributed/Routing/Deliveries.antt =====
-- Where a command for subjects goes.
use mathlib.Core.List.{Perm, append-nil, append_assoc, perm_middle, perm_append_comm}
use mathlib.Core.List.Perm
use text.Mathlib.TextPositions.{eq_refl}
use nexus_n3_core.Prelude.{
  String, ◌≡◌, refl, sym, ap, ◌∙◌, inl, inr, Bool, ◌&&◌, true, false, none, some, List, [], ◌∷◌,
  ◌++◌, arith, eq_iff, str_eq, lookup, insert, Bool-cases,
}
use nexus_n3_core.Distributed.Registry.{NodeRegistry}
use nexus_n3_core.Distributed.Routing.{
  CommandKind, start_stream, stop_stream, other_command, StreamCommand, Barriers, Delivery, owner,
  ids_at, group, deliveries_for, delivery, in_order, remote, local, route, identified, self_node,
}

-- Each subject is listed under its owner.
unfoldable pub owned_by : NodeRegistry → String → List String → Bool
unfolding owner
owned_by g n [] = true
owned_by g n (x ∷ xs) = str_eq (owner g x) n && owned_by g n xs

pub all_owned : NodeRegistry → List (String × List String) → Bool
unfolding owned_by
all_owned g [] = true
all_owned g ((n, xs) ∷ m) = owned_by g n xs && all_owned g m

pub spread : List (String × List String) → List String
spread [] = []
spread ((n, xs) ∷ m) = xs ++ spread m

ids_at-head :
    (n j : String) (xs : List String) (m : List (String × List String))
    → str_eq j n ≡ true
    → ids_at n ((j, xs) ∷ m) ≡ xs
unfolding lookup
ids_at-head n j xs m e = ground arith

ids_at-tail :
    (n j : String) (xs : List String) (m : List (String × List String))
    → str_eq j n ≡ false
    → ids_at n ((j, xs) ∷ m) ≡ ids_at n m
unfolding lookup
ids_at-tail n j xs m e = ground arith

insert-perm :
    (n x : String) (v : List String) (m : List (String × List String))
    → v ≡ ids_at n m
    → Perm (spread (insert n (v ++ x ∷ []) m)) (x ∷ spread m)
unfolding spread insert lookup
insert-perm n x v [] h = rw h (Perm.refl _)
insert-perm n x v ((j, xs) ∷ m) h = elim (Bool-cases (str_eq j n)) [
  | inl e ↦
      rw (h ∙ ids_at-head n j xs m e) (rw (e, insert) (rw append_assoc (perm_middle xs (spread m))))
  | inr e ↦
      rw (e, insert)
        (Perm.trans (Perm.append_left xs (insert-perm n x v m (h ∙ ids_at-tail n j xs m e)))
          (perm_middle xs (spread m)))
]

group-perm :
    (g : NodeRegistry) (xs : List String) (m : List (String × List String))
    → Perm (spread (group g xs m)) (xs ++ spread m)
unfolding group
group-perm g [] m = Perm.refl _
group-perm g (x ∷ xs) m = Perm.trans (group-perm g xs _) (
    Perm.trans (Perm.append_left xs (insert-perm (owner g x) x (ids_at (owner g x) m) m refl))
      (perm_middle xs (spread m)))

owned_by-snoc :
    (g : NodeRegistry) (n x : String) (xs : List String)
    → owned_by g n xs ≡ true
    → str_eq (owner g x) n ≡ true
    → owned_by g n (xs ++ x ∷ []) ≡ true
unfolding owned_by
owned_by-snoc g n x [] h k = ground arith
owned_by-snoc g n x (y ∷ ys) h k = ground (arith, owned_by-snoc g n x ys)

owned_by-ids_at :
    (g : NodeRegistry) (n : String) (m : List (String × List String))
    → all_owned g m ≡ true
    → owned_by g n (ids_at n m) ≡ true
unfolding all_owned owned_by lookup
owned_by-ids_at g n [] h = refl
owned_by-ids_at g n ((j, xs) ∷ m) h = ground (arith, eq_iff j n, owned_by-ids_at g n m)

all_owned-insert :
    (g : NodeRegistry) (n : String) (v : List String) (m : List (String × List String))
    → owned_by g n v ≡ true
    → all_owned g m ≡ true
    → all_owned g (insert n v m) ≡ true
unfolding all_owned insert
all_owned-insert g n v [] k h = ground arith
all_owned-insert g n v ((j, xs) ∷ m) k h = ground (arith, eq_iff j n, all_owned-insert g n v m k)

all_owned-group :
    (g : NodeRegistry) (xs : List String) (m : List (String × List String))
    → all_owned g m ≡ true
    → all_owned g (group g xs m) ≡ true
unfolding group
all_owned-group g [] m h = h
all_owned-group g (x ∷ xs) m h = all_owned-group g xs _ (
    all_owned-insert g (owner g x) _ m
      (owned_by-snoc g (owner g x) x (ids_at (owner g x) m) (owned_by-ids_at g (owner g x) m h)
        (eq_refl (owner g x)))
      h)

abbrev ids_of : Delivery → List String
ids_of d = elim d.subject_ids [ none ↦ [] | some ids ↦ ids ]

-- The subjects that deliveries name.
pub carried : List Delivery → List String
carried [] = []
carried (d ∷ ds) = ids_of d ++ carried ds

-- Each delivery names subjects that its node owns.
pub to_owners : NodeRegistry → List Delivery → Bool
unfolding owned_by
to_owners g [] = true
to_owners g (d ∷ ds) = owned_by g d.node (ids_of d) && to_owners g ds

carried-deliveries_for :
    (c : StreamCommand) (m : List (String × List String)) → carried (deliveries_for c m) ≡ spread m
unfolding carried deliveries_for spread delivery
carried-deliveries_for c [] = refl
carried-deliveries_for c ((n, xs) ∷ m) = ap (λ r. xs ++ r) (carried-deliveries_for c m)

to_owners-deliveries_for :
    (g : NodeRegistry) (c : StreamCommand) (m : List (String × List String))
    → to_owners g (deliveries_for c m) ≡ all_owned g m
unfolding to_owners deliveries_for all_owned delivery
to_owners-deliveries_for g c [] = refl
to_owners-deliveries_for g c ((n, xs) ∷ m) =
    ap (λ r. owned_by g n xs && r) (to_owners-deliveries_for g c m)

swap-perm : (a b c : List String) → Perm (a ++ (b ++ c)) (b ++ (a ++ c))
swap-perm a b c =
    rw (append_assoc a b c, append_assoc b a c) at (Perm.append_right c (perm_append_comm a b))

carried-append : (xs ys : List Delivery) → carried (xs ++ ys) ≡ carried xs ++ carried ys
unfolding carried
carried-append [] ys = refl
carried-append (d ∷ ds) ys =
    ap (λ r. ids_of d ++ r) (carried-append ds ys)
    ∙ sym (append_assoc (ids_of d) (carried ds) (carried ys))

remote-perm : (ds : List Delivery) → Perm (carried (remote ds) ++ carried (local ds)) (carried ds)
unfolding carried remote local
remote-perm [] = Perm.refl _
remote-perm (d ∷ ds) = elim (Bool-cases (str_eq d.node self_node)) [
  | inl here ↦
      rw (here, remote, local)
        (Perm.trans (swap-perm (carried (remote ds)) (ids_of d) (carried (local ds)))
          (Perm.append_left (ids_of d) (remote-perm ds)))
  | inr away ↦
      rw (away, remote, local) (rw append_assoc (Perm.append_left (ids_of d) (remote-perm ds)))
]

in_order-perm : (k : CommandKind) (ds : List Delivery) → Perm (carried (in_order k ds)) (carried ds)
unfolding in_order
in_order-perm start_stream ds = Perm.refl _
in_order-perm other_command ds = Perm.refl _
in_order-perm stop_stream ds = rw (carried-append (remote ds) (local ds)) (remote-perm ds)

to_owners-remote :
    (g : NodeRegistry) (ds : List Delivery) → to_owners g ds ≡ true → to_owners g (remote ds) ≡ true
unfolding to_owners remote
to_owners-remote g [] h = refl
to_owners-remote g (d ∷ ds) h = ground (arith, to_owners-remote g ds)

to_owners-local :
    (g : NodeRegistry) (ds : List Delivery) → to_owners g ds ≡ true → to_owners g (local ds) ≡ true
unfolding to_owners local
to_owners-local g [] h = refl
to_owners-local g (d ∷ ds) h = ground (arith, to_owners-local g ds)

to_owners-append :
    (g : NodeRegistry) (xs ys : List Delivery)
    → to_owners g xs ≡ true
    → to_owners g ys ≡ true
    → to_owners g (xs ++ ys) ≡ true
unfolding to_owners
to_owners-append g [] ys h k = k
to_owners-append g (d ∷ xs) ys h k = ground (arith, to_owners-append g xs ys)

to_owners-in_order :
    (g : NodeRegistry) (k : CommandKind) (ds : List Delivery)
    → to_owners g ds ≡ true
    → to_owners g (in_order k ds) ≡ true
unfolding in_order
to_owners-in_order g start_stream ds h = h
to_owners-in_order g other_command ds h = h
to_owners-in_order g stop_stream ds h =
    to_owners-append g (remote ds) (local ds) (to_owners-remote g ds h) (to_owners-local g ds h)

-- A command for subjects reaches each of them exactly as often as it names it, and on its own node:
-- the deliveries name the command's subjects, and each delivery names only subjects that its node
-- owns (the master, where a subject has no owner).
pub route-owners :
    (now fresh : String) (g : NodeRegistry) (c : StreamCommand) (s : Barriers) (x : String)
    (xs : List String)
    → Perm (carried (route now fresh g (record c { subject_ids = x ∷ xs }) s).1) (x ∷ xs)
      × (to_owners g (route now fresh g (record c { subject_ids = x ∷ xs }) s).1 ≡ true)
unfolding route spread all_owned
route-owners now fresh g c s x xs =
    let named = record c { subject_ids = x ∷ xs } in
    let sent = deliveries_for (identified now fresh named) (group g (x ∷ xs) []) in
    (
      Perm.trans (in_order-perm c.kind sent) (
          rw (carried-deliveries_for (identified now fresh named) (group g (x ∷ xs) []))
            (Perm.trans (group-perm g (x ∷ xs) []) (rw append-nil (Perm.refl _)))),
      to_owners-in_order g c.kind sent (
          to_owners-deliveries_for g (identified now fresh named) (group g (x ∷ xs) [])
          ∙ all_owned-group g (x ∷ xs) [] refl),
    )
