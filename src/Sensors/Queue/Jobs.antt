-- ===== src/Sensors/Queue/Jobs.antt =====
-- Every route with a pending entry has one job, waiting or running, and no other route has one.
use nexus_n3_core.Prelude.{
  ℕ, ◌+◌, ◌≤◌, Bool, true, false, Option, none, some, List, [], ◌∷◌, ◌++◌, if◌then◌else◌, ◌==◌, ◌≡◌,
  refl, arith, length,
}
use nexus_n3_core.Sensors.Queue.{
  Route, same_route, Call, find_pending, set_pending, drop_pending, take_job, take_running, silence,
}

abbrev pub one_if : Bool → ℕ
one_if true = 1
one_if false = 0

unfoldable pub count_jobs : Route → List Route → ℕ
count_jobs r [] = 0
count_jobs r (x ∷ xs) = one_if (same_route x r) + count_jobs r xs

unfoldable pub count_entries : Route → List (Route × Option Call) → ℕ
count_entries r [] = 0
count_entries r (e ∷ es) = one_if (same_route (e.0) r) + count_entries r es

pub count_jobs-append :
    (r : Route) (xs ys : List Route) → count_jobs r (xs ++ ys) ≡ count_jobs r xs + count_jobs r ys
unfolding count_jobs
count_jobs-append r [] ys = omega arith
count_jobs-append r (x ∷ xs) ys = omega (arith, count_jobs-append r xs ys)

pub count_entries-append :
    (r : Route) (xs ys : List (Route × Option Call))
    → count_entries r (xs ++ ys) ≡ count_entries r xs + count_entries r ys
unfolding count_entries
count_entries-append r [] ys = omega arith
count_entries-append r (x ∷ xs) ys = omega (arith, count_entries-append r xs ys)

pub count_jobs-take_job :
    (r s : Route) (xs : List Route)
    → 1 ≤ count_jobs r xs
    → count_jobs s (take_job r xs) + one_if (same_route r s) ≡ count_jobs s xs
unfolding count_jobs take_job
count_jobs-take_job r s [] h = omega (arith, h)
count_jobs-take_job r s (x ∷ xs) h = ground (arith, h, count_jobs-take_job r s xs)

pub count_entries-take_running :
    (r s : Route) (es : List (Route × Option Call))
    → 1 ≤ count_entries r es
    → count_entries s (take_running r es) + one_if (same_route r s) ≡ count_entries s es
unfolding count_entries take_running
count_entries-take_running r s [] h = omega (arith, h)
count_entries-take_running r s (x ∷ xs) h = ground (arith, h, count_entries-take_running r s xs)

pub count_entries-set_pending :
    (r s : Route) (c : Option Call) (es : List (Route × Option Call))
    → count_entries s (set_pending r c es)
      ≡ count_entries s es + (if count_entries r es == 0 then one_if (same_route r s) else 0)
unfolding count_entries set_pending
count_entries-set_pending r s c [] = ground arith
count_entries-set_pending r s c (x ∷ xs) = ground (arith, count_entries-set_pending r s c xs)

pub length-set_pending :
    (r : Route) (c : Option Call) (es : List (Route × Option Call))
    → length (set_pending r c es) ≡ length es + (if count_entries r es == 0 then 1 else 0)
unfolding count_entries set_pending
length-set_pending r c [] = ground arith
length-set_pending r c (x ∷ xs) = ground (arith, length-set_pending r c xs)

pub count_entries-drop_pending :
    (r s : Route) (es : List (Route × Option Call))
    → count_entries s (drop_pending r es) ≡ (if same_route r s then 0 else count_entries s es)
unfolding count_entries drop_pending
count_entries-drop_pending r s [] = ground arith
count_entries-drop_pending r s (x ∷ xs) = ground (arith, count_entries-drop_pending r s xs)

pub length-drop_pending :
    (r : Route) (es : List (Route × Option Call))
    → length (drop_pending r es) + count_entries r es ≡ length es
unfolding count_entries drop_pending
length-drop_pending r [] = ground arith
length-drop_pending r (x ∷ xs) = ground (arith, length-drop_pending r xs)

pub count_entries-silence :
    (quiet : Route → Bool) (s : Route) (es : List (Route × Option Call))
    → count_entries s (silence quiet es) ≡ count_entries s es
unfolding count_entries silence
count_entries-silence quiet s [] = refl
count_entries-silence quiet s (x ∷ xs) = ground (arith, count_entries-silence quiet s xs)

pub length-silence :
    (quiet : Route → Bool) (es : List (Route × Option Call)) → length (silence quiet es) ≡ length es
unfolding silence
length-silence quiet [] = refl
length-silence quiet (x ∷ xs) = omega (arith, length-silence quiet xs)

pub find_pending-none :
    (r : Route) (es : List (Route × Option Call))
    → find_pending r es ≡ none
    → count_entries r es ≡ 0
unfolding count_entries find_pending
find_pending-none r [] h = refl
find_pending-none r (x ∷ xs) h = ground (arith, h, find_pending-none r xs)

pub find_pending-some :
    (r : Route) (c : Option Call) (es : List (Route × Option Call))
    → find_pending r es ≡ some c
    → 1 ≤ count_entries r es
unfolding count_entries find_pending
find_pending-some r c [] h = ground (arith, h)
find_pending-some r c (x ∷ xs) h = ground (arith, h, find_pending-some r c xs)
