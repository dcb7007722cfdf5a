-- ===== src/Prelude/Sorted.antt =====
-- Python's `sorted` on strings, by code points, as insertion sort.
use Prim.Native.Nat.{Ordering}
use Prim.Native.String.{String, compare}
use mathlib.Core.Path.{◌≡◌, refl}
use mathlib.Core.Logic.{inl, inr}
use mathlib.Core.Bool.{Bool, true, false, ◌||◌}
use mathlib.Core.List.{List, [], ◌∷◌, Perm}
use mathlib.Core.List.Perm
use native.Mathlib.Omega.{arith}
use nexus_n3_core.Prelude.Tests.{if◌then◌else◌, Bool-cases}
use nexus_n3_core.Prelude.Keys.{str_eq, contains}

-- `a <= b` on strings
abbrev pub str_le : String → String → Bool
str_le a b = elim (compare a b) [ Ordering.gt ↦ false | _ ↦ true ]

unfoldable pub insert_sorted : String → List String → List String
insert_sorted a [] = a ∷ []
insert_sorted a (x ∷ xs) = if str_le a x then a ∷ x ∷ xs else x ∷ insert_sorted a xs

-- `sorted(xs)`
unfoldable pub sorted : List String → List String
unfolding insert_sorted
sorted [] = []
sorted (x ∷ xs) = insert_sorted x (sorted xs)

insert_sorted-perm : (a : String) (xs : List String) → Perm (insert_sorted a xs) (a ∷ xs)
unfolding insert_sorted
insert_sorted-perm a [] = Perm.refl _
insert_sorted-perm a (x ∷ xs) = elim (Bool-cases (str_le a x)) [
  | inl e ↦ rw e (Perm.refl _)
  | inr e ↦ rw e (Perm.trans (Perm.cons x (insert_sorted-perm a xs)) (Perm.swap a x xs))
]

pub sorted-perm : (xs : List String) → Perm (sorted xs) xs
unfolding sorted
sorted-perm [] = Perm.refl _
sorted-perm (x ∷ xs) = Perm.trans (insert_sorted-perm x (sorted xs)) (Perm.cons x (sorted-perm xs))

contains-insert_sorted :
    (a b : String) (xs : List String)
    → contains (insert_sorted a xs) b ≡ (str_eq a b || contains xs b)
unfolding insert_sorted contains
contains-insert_sorted a b [] = refl
contains-insert_sorted a b (x ∷ xs) = ground (arith, contains-insert_sorted a b xs)

pub contains-sorted : (xs : List String) (b : String) → contains (sorted xs) b ≡ contains xs b
unfolding sorted contains
contains-sorted [] b = refl
contains-sorted (x ∷ xs) b =
    ground (arith, contains-insert_sorted x b (sorted xs), contains-sorted xs b)
