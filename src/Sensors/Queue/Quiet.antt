-- ===== src/Sensors/Queue/Quiet.antt =====
-- What becomes of the values of a route: the latest one is kept, and quiesced routes fall silent and
-- drain.
use nexus_n3_core.Prelude.{Bool, true, Option, some, List, [], ◌∷◌, ◌≡◌, arith}
use nexus_n3_core.Sensors.Queue.{Route, Call, Queue, find_pending, set_pending, submit_routed_value}
use nexus_n3_core.Sensors.Queue.Sound.{same_route_self}

set_pending-set_pending :
    (r : Route) (b c : Option Call) (es : List (Route × Option Call))
    → set_pending r c (set_pending r b es) ≡ set_pending r c es
unfolding set_pending
set_pending-set_pending r b c [] = ground (arith, same_route_self r)
set_pending-set_pending r b c (x ∷ xs) =
    ground (arith, set_pending-set_pending r b c xs, same_route_self r)

find_pending-set_pending :
    (r : Route) (c : Option Call) (es : List (Route × Option Call))
    → find_pending r (set_pending r c es) ≡ some c
unfolding set_pending find_pending
find_pending-set_pending r c [] = ground (arith, same_route_self r)
find_pending-set_pending r c (x ∷ xs) = ground (arith, find_pending-set_pending r c xs)

-- A value that finds an earlier one of its route waiting replaces it: the queue is the one that the
-- later value alone gives, whatever the executor would have done with a second job.
pub submit-submit :
    (taken : Bool) (r : Route) (b c : Call) (q : Queue)
    → submit_routed_value taken r c (submit_routed_value true r b q)
      ≡ submit_routed_value true r c q
unfolding submit_routed_value
submit-submit taken r b c q = ground (
  arith,
  set_pending-set_pending r (some b) (some c) q.pending,
  find_pending-set_pending r (some b) q.pending,
)
