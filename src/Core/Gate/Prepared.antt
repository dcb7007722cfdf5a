-- ===== src/Core/Gate/Prepared.antt =====
-- Which subjects of a start have their outputs prepared, and what the preparation does to them.
use nexus_n3_core.Prelude.{
  String, Bool, true, false, not, ◌&&◌, ◌||◌, List, [], ◌∷◌, ◌++◌, map, ◌≡◌, refl, contains, add,
  contains-add, eq_iff, arith,
}
use nexus_n3_core.Core.Gate.State.{Gate, GateSubject, unstream_if}
use nexus_n3_core.Core.Gate.Official.{prepare_each, stream_if}
use nexus_n3_core.Core.Gate.Steps.{selected}

-- Every subject with one of the ids is prepared.
unfoldable pub prepared_all : List String → List GateSubject → List String → Bool
prepared_all ids [] prepared = true
prepared_all ids (s ∷ ss) prepared =
    (not (contains ids s.subject_id) || contains prepared s.subject_id)
    && prepared_all ids ss prepared

abbrev pub all_prepared : Gate → Bool
all_prepared g = prepared_all g.subject_ids g.subjects g.prepared_subject_ids

contains-add_kept :
    (b : String) (xs : List String) (a : String)
    → contains xs a ≡ true
    → contains (add b xs) a ≡ true
contains-add_kept b xs a h = ground (arith, contains-add b a xs, h)

pub prepare_each-kept :
    (opens : String → Bool) (ids : List String) (ss : List GateSubject) (prepared : List String)
    (a : String)
    → contains prepared a ≡ true
    → contains (prepare_each opens ids ss prepared).0 a ≡ true
unfolding prepare_each
prepare_each-kept opens ids [] prepared a h = h
prepare_each-kept opens ids (s ∷ ss) prepared a h = ground (
  arith,
  h,
  prepare_each-kept opens ids ss prepared a h,
  prepare_each-kept opens ids ss (add s.subject_id prepared) a
      (contains-add_kept s.subject_id prepared a h),
)

pub prepared_all-more :
    (ids : List String) (ss : List GateSubject) (prepared more : List String)
    → ((a : String) → contains prepared a ≡ true → contains more a ≡ true)
    → prepared_all ids ss prepared ≡ true
    → prepared_all ids ss more ≡ true
unfolding prepared_all
prepared_all-more ids [] prepared more kept h = refl
prepared_all-more ids (s ∷ ss) prepared more kept h =
    ground (arith, h, kept s.subject_id, prepared_all-more ids ss prepared more kept)

contains_none : (a : String) → contains [] a ≡ false
unfolding contains
contains_none a = refl

contains-add_self : (a : String) (xs : List String) → contains (add a xs) a ≡ true
contains-add_self a xs = ground (arith, contains-add a a xs, eq_iff a a)

pub prepare_each-more :
    (opens : String → Bool) (ids : List String) (ss : List GateSubject) (prepared : List String)
    → prepared_all ids ss prepared ≡ true
    → prepared_all ids ss (prepare_each opens ids ss prepared).0 ≡ true
prepare_each-more opens ids ss prepared =
    prepared_all-more ids ss prepared (prepare_each opens ids ss prepared).0
      (prepare_each-kept opens ids ss prepared)

-- A preparation that returns has prepared every subject of the start, whatever was prepared before.
pub prepare_each-prepared_all :
    (opens : String → Bool) (ids : List String) (ss : List GateSubject) (prepared : List String)
    → (prepare_each opens ids ss prepared).1 ≡ true
    → prepared_all ids ss (prepare_each opens ids ss prepared).0 ≡ true
unfolding prepared_all prepare_each
prepare_each-prepared_all opens ids [] prepared h = refl
prepare_each-prepared_all opens ids (s ∷ ss) prepared h = ground (
  arith,
  h,
  prepare_each-prepared_all opens ids ss prepared,
  prepare_each-prepared_all opens ids ss (add s.subject_id prepared),
  prepare_each-kept opens ids ss prepared s.subject_id,
  prepare_each-kept opens ids ss (add s.subject_id prepared) s.subject_id
      (contains-add_self s.subject_id prepared),
)

pub prepared_all-stream_if :
    (ids chosen : List String) (ss : List GateSubject) (prepared : List String)
    → prepared_all ids (map (stream_if chosen) ss) prepared ≡ prepared_all ids ss prepared
unfolding prepared_all
prepared_all-stream_if ids chosen [] prepared = refl
prepared_all-stream_if ids chosen (s ∷ ss) prepared =
    ground (arith, prepared_all-stream_if ids chosen ss prepared)

pub prepared_all-unstream_if :
    (ids chosen : List String) (ss : List GateSubject) (prepared : List String)
    → prepared_all ids (map (unstream_if chosen) ss) prepared ≡ prepared_all ids ss prepared
unfolding prepared_all
prepared_all-unstream_if ids chosen [] prepared = refl
prepared_all-unstream_if ids chosen (s ∷ ss) prepared =
    ground (arith, prepared_all-unstream_if ids chosen ss prepared)

pub prepared_all-none :
    (ss : List GateSubject) (prepared : List String) → prepared_all [] ss prepared ≡ true
unfolding prepared_all
prepared_all-none [] prepared = refl
prepared_all-none (s ∷ ss) prepared =
    ground (arith, prepared_all-none ss prepared, contains_none s.subject_id)

-- More prepared subjects take none away, whatever is counted with them.
pub contains-more :
    (left prepared more : List String)
    → ((a : String) → contains prepared a ≡ true → contains more a ≡ true)
    → (a : String) → contains (left ++ prepared) a ≡ true
    → contains (left ++ more) a ≡ true
unfolding contains
contains-more [] prepared more kept a h = kept a h
contains-more (b ∷ bs) prepared more kept a h =
    ground (arith, h, contains-more bs prepared more kept a)

pub contains-more_add :
    (left : List String) (id : String) (prepared : List String) (a : String)
    → contains (left ++ prepared) a ≡ true
    → contains (left ++ add id prepared) a ≡ true
contains-more_add left id prepared a h =
    contains-more left prepared (add id prepared) (contains-add_kept id prepared) a h

-- The next subject that is left gets prepared.
pub contains-left_add :
    (id : String) (rest prepared : List String) (a : String)
    → contains (id ∷ rest ++ prepared) a ≡ true
    → contains (rest ++ add id prepared) a ≡ true
unfolding contains
contains-left_add id [] prepared a h = ground (arith, h, contains-add id a prepared)
contains-left_add id (b ∷ bs) prepared a h = ground (arith, h, contains-left_add id bs prepared a)

contains-append_left :
    (xs ys : List String) (a : String) → contains xs a ≡ true → contains (xs ++ ys) a ≡ true
unfolding contains
contains-append_left [] ys a h = absurd (ground (arith, h))
contains-append_left (x ∷ xs) ys a h = ground (arith, h, contains-append_left xs ys a)

-- A preparation that begins has the subjects of its start left.
prepared_all-selected_within :
    (ids : List String) (ss : List GateSubject) (prepared : List String)
    → ((a : String) → contains (selected ids ss) a ≡ true → contains prepared a ≡ true)
    → prepared_all ids ss prepared ≡ true
unfolding prepared_all selected contains
prepared_all-selected_within ids [] prepared within = refl
prepared_all-selected_within ids (s ∷ ss) prepared within = ground (
  arith,
  within s.subject_id,
  eq_iff s.subject_id s.subject_id,
  prepared_all-selected_within ids ss prepared (λ a h. within a (ground (arith, h))),
)

pub prepared_all-selected :
    (ids : List String) (ss : List GateSubject) (prepared : List String)
    → prepared_all ids ss (selected ids ss ++ prepared) ≡ true
prepared_all-selected ids ss prepared =
    prepared_all-selected_within ids ss (selected ids ss ++ prepared)
      (contains-append_left (selected ids ss) prepared)
