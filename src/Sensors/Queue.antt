-- ===== src/Sensors/Queue.antt =====
-- The queue of routed values in nexus_n3/sensor_manager/SensorManager.py: `_submit_routed_value`,
-- `_run_routed_route` (its part before the call and its part after it), `_finish_routed_route`,
-- `_quiesce_routing`, `_wait_for_routing_to_drain` and `_enable_routing`. A sensor is a number with
-- an address; an executor takes a job or refuses it, and starts any job that it was given. The
-- cancellation of a running call is left out.
pub mod Jobs
pub mod Sound
pub mod Quiet
pub mod Drains
use nexus_n3_core.Prelude.{
  ℕ, zero, suc, ◌+◌, ◌-◌, String, Bool, true, false, not, ◌&&◌, ◌||◌, Option, none, some, List, [],
  ◌∷◌, ◌++◌, map, if◌then◌else◌, ◌==◌, contains,
}

pub record Route : Type 0 where
  pub source : ℕ
  pub target : ℕ

abbrev pub same_route : Route → Route → Bool
same_route a b = (a.source == b.source) && (a.target == b.target)

-- A call of `consume_input`, by the payload that it hands over.
pub record Call : Type 0 where
  pub payload : String

pub record Queue : Type 0 where
  pub address : ℕ → Option String
  pub enabled : Bool
  pub active_calls : ℕ
  -- a route with a job, and the value that waits for it
  pub pending : List (Route × Option Call)
  pub blocked_addresses : List String
  -- the jobs that no worker has started, and those that run, with their calls
  pub jobs : List Route
  pub running : List (Route × Option Call)

unfoldable pub new_queue : (ℕ → Option String) → Queue
new_queue address = record {
  address = address;
  enabled = false;
  active_calls = 0;
  pending = [];
  blocked_addresses = [];
  jobs = [];
  running = [];
}

unfoldable pub find_pending : Route → List (Route × Option Call) → Option (Option Call)
find_pending r [] = none
find_pending r (e ∷ es) = if same_route (e.0) r then some (e.1) else find_pending r es

unfoldable pub set_pending :
    Route → Option Call → List (Route × Option Call) → List (Route × Option Call)
set_pending r c [] = (r, c) ∷ []
set_pending r c (e ∷ es) = if same_route (e.0) r then (e.0, c) ∷ es else e ∷ set_pending r c es

unfoldable pub drop_pending : Route → List (Route × Option Call) → List (Route × Option Call)
drop_pending r [] = []
drop_pending r (e ∷ es) =
    let rest = drop_pending r es in if same_route (e.0) r then rest else e ∷ rest

abbrev pub is_in : List String → Option String → Bool
is_in xs none = false
is_in xs (some a) = contains xs a

-- One of the sensors of a route has one of the addresses.
abbrev pub touches : Queue → List String → Route → Bool
touches q addresses r = is_in addresses (q.address r.source) || is_in addresses (q.address r.target)

unfoldable pub finish_routed_route : Route → Queue → Queue
finish_routed_route r q = record q {
  pending = drop_pending r q.pending;
  active_calls = q.active_calls - 1;
}

-- The executor takes the job, or the submission raises.
unfoldable pub give_job : (taken : Bool) → Route → Queue → Queue
unfolding finish_routed_route
give_job taken r q = if taken then record q { jobs = q.jobs ++ r ∷ [] } else finish_routed_route r q

abbrev pub new_pending : Route → Call → Queue → Queue
new_pending r c q = record q {
  pending = set_pending r (some c) q.pending;
  active_calls = q.active_calls + 1;
}

unfoldable pub submit_routed_value : (taken : Bool) → Route → Call → Queue → Queue
unfolding give_job find_pending set_pending
submit_routed_value taken r c q =
    if not q.enabled || touches q q.blocked_addresses r
    then q
    else elim (find_pending r q.pending) [
      | some _ ↦ record q { pending = set_pending r (some c) q.pending }
      | none ↦ give_job taken r (new_pending r c q)
    ]

unfoldable pub take_job : Route → List Route → List Route
take_job r [] = []
take_job r (x ∷ xs) = if same_route x r then xs else x ∷ take_job r xs

unfoldable pub take_running : Route → List (Route × Option Call) → List (Route × Option Call)
take_running r [] = []
take_running r (e ∷ es) = if same_route (e.0) r then es else e ∷ take_running r es

-- `_run_routed_route` up to its call; without a pending entry it raises.
unfoldable pub begin_run : Route → Queue → Queue
unfolding take_job find_pending set_pending
begin_run r q =
    let started = record q { jobs = take_job r q.jobs } in
    elim (find_pending r q.pending) [
      | none ↦ started
      | some c ↦ record started {
        pending = set_pending r none q.pending;
        running = q.running ++ (r, if touches q q.blocked_addresses r then none else c) ∷ [];
      }
    ]

-- `_run_routed_route` after its call.
unfoldable pub end_run : (taken : Bool) → Route → Queue → Queue
unfolding take_running find_pending give_job finish_routed_route
end_run taken r q =
    let returned = record q { running = take_running r q.running } in
    elim (find_pending r q.pending) [
      | none ↦ returned
      | some none ↦ finish_routed_route r returned
      | some (some c) ↦ give_job taken r returned
    ]

abbrev pub union : List String → List String → List String
union xs ys = xs ++ ys

unfoldable pub silence : (Route → Bool) → List (Route × Option Call) → List (Route × Option Call)
silence quiet [] = []
silence quiet (e ∷ es) = (if quiet (e.0) then (e.0, none) else e) ∷ silence quiet es

unfoldable pub quiesce_routing : Option (List String) → Queue → Queue
unfolding silence
quiesce_routing none q = record q { enabled = false; pending = silence (λ r. true) q.pending }
quiesce_routing (some addresses) q = record q {
  blocked_addresses = union q.blocked_addresses addresses;
  pending = silence (touches q (union q.blocked_addresses addresses)) q.pending;
}

-- What `_wait_for_routing_to_drain` waits for.
unfoldable pub drained : Option (List String) → Queue → List (Route × Option Call) → Bool
drained addresses q [] = true
drained none q (e ∷ es) = false
drained (some addresses) q (e ∷ es) =
    not (touches q addresses (e.0)) && drained (some addresses) q es

unfoldable pub enable_routing : Queue → Queue
enable_routing q = record q { enabled = true; blocked_addresses = [] }
