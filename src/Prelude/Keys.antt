-- ===== src/Prelude/Keys.antt =====
-- Python sets and dictionaries whose keys are strings: lists in insertion order, read only
-- through the functions of this file.
use Prim.Native.String.{String}
use mathlib.Core.Path.{◌≡◌, refl}
use mathlib.Core.Logic.{inl, inr}
use mathlib.Core.Bool.{Bool, true, false, not, ◌&&◌, ◌||◌}
use mathlib.Core.Option.{Option, none, some}
use mathlib.Core.List.{List, [], ◌∷◌, ◌++◌}
use native.Mathlib.Omega.{arith}
use text.Mathlib.Text.{◌==◌ as text_eq}
use text.Mathlib.TextEquality.{eq_iff}
use text.Mathlib.TextPositions.{eq_refl}
use nexus_n3_core.Prelude.Tests.{if◌then◌else◌, Bool-cases}

-- Equality of two strings.
abbrev pub str_eq : String → String → Bool
str_eq a b = text_eq a b

-- `a in xs`
unfoldable pub contains : List String → String → Bool
contains [] a = false
contains (x ∷ xs) a = str_eq x a || contains xs a

-- `xs.add(a)`
unfoldable pub add : String → List String → List String
unfolding contains
add a xs = if contains xs a then xs else a ∷ xs

-- `xs.discard(a)`
unfoldable pub discard : String → List String → List String
discard a [] = []
discard a (x ∷ xs) = if str_eq x a then discard a xs else x ∷ discard a xs

-- `xs.issubset(ys)`
unfoldable pub subset : List String → List String → Bool
unfolding contains
subset [] ys = true
subset (x ∷ xs) ys = contains ys x && subset xs ys

-- `xs == ys` of two sets
unfoldable pub same_set : List String → List String → Bool
unfolding subset
same_set xs ys = subset xs ys && subset ys xs

pub contains-add :
    (a b : String) (xs : List String) → contains (add a xs) b ≡ (str_eq a b || contains xs b)
unfolding contains add
contains-add a b xs = elim (Bool-cases (contains xs a)) [
  | inl old ↦ rw (old, contains) (ground (arith, eq_iff a b))
  | inr new ↦ rw (new, contains) refl
]

pub contains-discard :
    (a b : String) (xs : List String)
    → contains (discard a xs) b ≡ (not (str_eq a b) && contains xs b)
unfolding contains discard
contains-discard a b [] = ground arith
contains-discard a b (x ∷ xs) =
    ground (arith, contains-discard a b xs, eq_iff x a, eq_iff x b, eq_iff a b)

pub contains-append :
    (xs ys : List String) (a : String) → contains (xs ++ ys) a ≡ (contains xs a || contains ys a)
unfolding contains
contains-append [] ys a = refl
contains-append (x ∷ xs) ys a = ground (arith, contains-append xs ys a)

pub subset→contains :
    (xs ys : List String) (a : String)
    → subset xs ys ≡ true
    → contains xs a ≡ true
    → contains ys a ≡ true
unfolding contains subset
subset→contains [] ys a s h = cc
subset→contains (x ∷ xs) ys a s h = ground (arith, eq_iff x a, subset→contains xs ys a)

pub contains→subset :
    (xs ys : List String)
    → ((a : String) → contains xs a ≡ true → contains ys a ≡ true)
    → subset xs ys ≡ true
unfolding contains subset
contains→subset [] ys h = refl
contains→subset (x ∷ xs) ys h =
    ground (arith, h x, eq_refl x, contains→subset xs ys (λ a m. h a (ground (arith, eq_iff x a))))

-- A dictionary keyed by strings.
module _ {ℓ} {V : Type ℓ} where
  -- `d.get(k)`
  unfoldable pub lookup : String → List (String × V) → Option V
  lookup k [] = none
  lookup k ((j, v) ∷ m) = if str_eq j k then some v else lookup k m

  -- `d[k] = v`: a key that is there keeps its place.
  unfoldable pub insert : String → V → List (String × V) → List (String × V)
  insert k v [] = (k, v) ∷ []
  insert k v ((j, w) ∷ m) = if str_eq j k then (j, v) ∷ m else (j, w) ∷ insert k v m

  -- `d.pop(k, None)`, for what it leaves.
  unfoldable pub remove : String → List (String × V) → List (String × V)
  remove k [] = []
  remove k ((j, w) ∷ m) = if str_eq j k then remove k m else (j, w) ∷ remove k m

  -- `d.keys()`
  abbrev pub keys : List (String × V) → List String
  keys [] = []
  keys ((k, v) ∷ m) = k ∷ keys m

  pub lookup-insert :
      (key asked : String) (v : V) (m : List (String × V))
      → lookup asked (insert key v m) ≡ (if str_eq key asked then some v else lookup asked m)
  unfolding lookup insert
  lookup-insert key asked v [] = refl
  lookup-insert key asked v ((first, w) ∷ m) =
      ground
        (arith, lookup-insert key asked v m, eq_iff first key, eq_iff first asked, eq_iff key asked)

  pub lookup-remove :
      (k j : String) (m : List (String × V))
      → lookup j (remove k m) ≡ (if str_eq k j then none else lookup j m)
  unfolding lookup remove
  lookup-remove k j [] = ground arith
  lookup-remove k j ((i, w) ∷ m) =
      ground (arith, eq_iff k j, eq_iff i k, eq_iff i j, lookup-remove k j m)

  pub contains-keys-insert :
      (k j : String) (v : V) (m : List (String × V))
      → contains (keys (insert k v m)) j ≡ (str_eq k j || contains (keys m) j)
  unfolding contains insert
  contains-keys-insert k j v [] = refl
  contains-keys-insert k j v ((i, w) ∷ m) =
      ground (arith, eq_iff k j, eq_iff i k, eq_iff i j, contains-keys-insert k j v m)

pub subset-congr :
    (es xs ys : List String)
    → ((a : String) → contains xs a ≡ contains ys a)
    → subset es xs ≡ subset es ys
unfolding subset
subset-congr [] xs ys h = refl
subset-congr (e ∷ es) xs ys h = ground (arith, h e, subset-congr es xs ys h)

pub subset-add :
    (a : String) (xs ys : List String)
    → subset xs ys ≡ true
    → contains ys a ≡ true
    → subset (add a xs) ys ≡ true
unfolding subset add
subset-add a xs ys s h = ground arith

pub subset-append_right :
    (es xs ys : List String) → subset es ys ≡ true → subset es (xs ++ ys) ≡ true
unfolding subset
subset-append_right [] xs ys h = refl
subset-append_right (e ∷ es) xs ys h =
    ground (arith, contains-append xs ys e, subset-append_right es xs ys)

pub subset-skip :
    (es : List String) (x : String) (xs : List String)
    → contains es x ≡ false
    → subset es (x ∷ xs) ≡ subset es xs
unfolding subset contains
subset-skip [] x xs h = refl
subset-skip (e ∷ es) x xs h = ground (arith, eq_iff e x, eq_iff x e, subset-skip es x xs)

pub contains_self : (a : String) (xs : List String) → contains (a ∷ xs) a ≡ true
unfolding contains
contains_self a xs = rw (eq_refl a) refl

-- Sets that agree on the members of `es` include it or not alike.
pub subset-congr_on :
    (es xs ys : List String)
    → ((a : String) → contains es a ≡ true → contains xs a ≡ contains ys a)
    → subset es xs ≡ subset es ys
unfolding subset contains
subset-congr_on [] xs ys h = refl
subset-congr_on (e ∷ es) xs ys h =
    ground (arith, h e, eq_refl e, subset-congr_on es xs ys (λ a m. h a (ground arith)))

pub lookup_self {ℓ} :
    {V : Type ℓ} (k : String) (v : V) (m : List (String × V)) → lookup k ((k, v) ∷ m) ≡ some v
unfolding lookup
lookup_self k v m = rw (eq_refl k) refl
