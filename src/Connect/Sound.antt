-- ===== src/Connect/Sound.antt =====
-- The sets and maps of SubjectConnectionSequence that select addresses: what holds between them, and
-- how it is kept by the changes that the methods make.
use nexus_n3_core.Prelude.{
  String, ◌≡◌, refl, Bool, true, false, Option, none, some, List, [], ◌∷◌, if◌then◌else◌, ◌&&◌, not,
  str_eq, contains, add, discard, lookup, insert, remove, keys, lookup-insert, lookup-remove,
  contains-keys-insert, contains-add, contains-discard, contains-append, arith, eq_iff,
}
use nexus_n3_core.Connect.State.{
  Subject, Operation, discovering, connecting, Pending, addresses_of_others,
}
use nexus_n3_core.Connect.Replies.{intersects}

unfoldable pub ids : List Subject → List String
ids [] = []
ids (s ∷ ss) = s.subject_id ∷ ids ss

-- The addresses selected for a subject, empty where it has none.
unfoldable pub values : String → List (String × List String) → List String
unfolding lookup
values a m = elim (lookup a m) [ none ↦ [] | some l ↦ l ]

-- A step is for a configured subject; one that discovers is for a subject not yet discovered.
unfoldable pub admissible : Operation → (configured found : Bool) → Bool
admissible connecting configured found = configured
admissible discovering configured found = configured && not found

unfoldable pub is_waiting : List Subject → List String → Option Pending → Bool
unfolding contains ids admissible
is_waiting subjects discovered none = true
is_waiting subjects discovered (some p) =
    admissible p.operation (contains (ids subjects) p.subject.subject_id)
      (contains discovered p.subject.subject_id)

pub record Sound (subjects : List Subject) (selected : List (String × List String))
    (discovered : List String) (pending : Option Pending) (crashed : Bool) : Type 0 where
  pub known : (a : String) → contains (keys selected) a ≡ true → contains (ids subjects) a ≡ true
  pub chosen : (a : String) → contains discovered a ≡ true → contains (keys selected) a ≡ true
  pub waiting : is_waiting subjects discovered pending ≡ true
  pub apart :
      (a b x : String)
      → str_eq a b ≡ false
      → contains discovered a ≡ true
      → contains discovered b ≡ true
      → contains (values a selected) x ≡ true
      → contains (values b selected) x ≡ false
  pub alive : crashed ≡ false

values-insert :
    (k j : String) (v : List String) (m : List (String × List String))
    → values j (insert k v m) ≡ (if str_eq k j then v else values j m)
unfolding values
values-insert k j v m = ground (arith, lookup-insert k j v m)

values-remove :
    (k j : String) (m : List (String × List String))
    → values j (remove k m) ≡ (if str_eq k j then [] else values j m)
unfolding values
values-remove k j m = ground (arith, lookup-remove k j m)

contains-others :
    (sid b x : String) (m : List (String × List String))
    → str_eq sid b ≡ false
    → contains (values b m) x ≡ true
    → contains (addresses_of_others sid m) x ≡ true
unfolding values lookup addresses_of_others
contains-others sid b x [] ne h = h
contains-others sid b x ((owner, l) ∷ m) ne h = ground (
  arith,
  contains-append l (addresses_of_others sid m) x,
  eq_iff owner sid,
  eq_iff owner b,
  eq_iff sid b,
  contains-others sid b x m ne,
)

contains-intersects :
    (x : String) (xs ys : List String)
    → contains xs x ≡ true
    → contains ys x ≡ true
    → intersects xs ys ≡ true
unfolding intersects contains
contains-intersects x xs [] h k = k
contains-intersects x xs (y ∷ ys) h k = ground (arith, eq_iff y x, contains-intersects x xs ys h)

contains-keys-remove :
    (k j : String) (m : List (String × List String))
    → contains (keys (remove k m)) j ≡ (not (str_eq k j) && contains (keys m) j)
unfolding contains remove
contains-keys-remove k j [] = ground arith
contains-keys-remove k j ((i, w) ∷ m) =
    ground (arith, eq_iff k j, eq_iff i k, eq_iff i j, contains-keys-remove k j m)

admissible-less :
    (o : Operation) (configured kept found : Bool)
    → admissible o configured found ≡ true
    → admissible o configured (kept && found) ≡ true
unfolding admissible
admissible-less connecting configured kept found h = h
admissible-less discovering configured kept found h = ground arith

waiting-discard :
    (subjects : List Subject) (discovered : List String) (pending : Option Pending) (sid : String)
    → is_waiting subjects discovered pending ≡ true
    → is_waiting subjects (discard sid discovered) pending ≡ true
unfolding is_waiting
waiting-discard subjects discovered none sid h = refl
waiting-discard subjects discovered (some p) sid h =
    rw (contains-discard sid p.subject.subject_id discovered, admissible)
      (admissible-less p.operation (contains (ids subjects) p.subject.subject_id)
        (not (str_eq sid p.subject.subject_id)) (contains discovered p.subject.subject_id) h)

module _ {subjects : List Subject} {selected : List (String × List String)}
    {discovered : List String} {pending : Option Pending} {crashed : Bool}
    (h : Sound subjects selected discovered pending crashed) where
  pub Sound-retire : Sound subjects selected discovered none crashed
  unfolding is_waiting
  Sound-retire = record {
    known = h.known;
    chosen = h.chosen;
    waiting = refl;
    apart = h.apart;
    alive = h.alive;
  }

  -- A new selection for a subject that is not discovered.
  pub Sound-select :
      (sid : String) (v : List String)
      → contains (ids subjects) sid ≡ true
      → contains discovered sid ≡ false
      → Sound subjects (insert sid v selected) discovered pending crashed
  Sound-select sid v configured fresh = record {
    known = λ a k. ground (arith, eq_iff sid a, contains-keys-insert sid a v selected, h.known a);
    chosen = λ a d. ground (arith, contains-keys-insert sid a v selected, h.chosen a);
    waiting = h.waiting;
    apart = λ a b x ne da db xa. ground (
      arith,
      eq_iff sid a,
      eq_iff sid b,
      values-insert sid a v selected,
      values-insert sid b v selected,
      h.apart a b x ne da db,
    );
    alive = h.alive;
  }

  -- A discovery is taken back.
  pub Sound-discard :
      (sid : String) → Sound subjects selected (discard sid discovered) pending crashed
  unfolding is_waiting
  Sound-discard sid = record {
    known = h.known;
    chosen = λ a d. ground (arith, contains-discard sid a discovered, h.chosen a);
    waiting = waiting-discard subjects discovered pending sid h.waiting;
    apart = λ a b x ne da db xa. ground (
      arith,
      contains-discard sid a discovered,
      contains-discard sid b discovered,
      h.apart a b x ne,
    );
    alive = h.alive;
  }

  -- A selection and its discovery are taken back.
  pub Sound-forget :
      (sid : String) → Sound subjects (remove sid selected) (discard sid discovered) pending crashed
  Sound-forget sid = record {
    known = λ a k. ground (arith, contains-keys-remove sid a selected, h.known a);
    chosen = λ a d.
        ground (
          arith,
          contains-keys-remove sid a selected,
          contains-discard sid a discovered,
          h.chosen a,
        );
    waiting = (Sound-discard sid).waiting;
    apart = λ a b x ne da db xa. ground (
      arith,
      contains-discard sid a discovered,
      contains-discard sid b discovered,
      values-remove sid a selected,
      values-remove sid b selected,
      h.apart a b x ne,
    );
    alive = h.alive;
  }

  -- A subject is discovered, with addresses that no other subject has.
  pub Sound-discover :
      (sid : String) (v : List String)
      → contains (ids subjects) sid ≡ true
      → intersects (addresses_of_others sid selected) v ≡ false
      → Sound subjects (insert sid v selected) (add sid discovered) none crashed
  unfolding is_waiting
  Sound-discover sid v configured free = record {
    known = λ a k. ground (arith, eq_iff sid a, contains-keys-insert sid a v selected, h.known a);
    chosen = λ a d.
        ground
          (arith, contains-keys-insert sid a v selected, contains-add sid a discovered, h.chosen a);
    waiting = refl;
    apart = λ a b x ne da db xa. ground (
      arith,
      eq_iff sid a,
      eq_iff sid b,
      eq_iff a b,
      values-insert sid a v selected,
      values-insert sid b v selected,
      contains-add sid a discovered,
      contains-add sid b discovered,
      h.apart a b x ne,
      contains-others sid b x selected,
      contains-others sid a x selected,
      contains-intersects x (addresses_of_others sid selected) v,
    );
    alive = h.alive;
  }
