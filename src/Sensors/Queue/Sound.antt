-- ===== src/Sensors/Queue/Sound.antt =====
-- The queue of routed values as steps in any order, and what they all keep: a route with a pending
-- entry has exactly one job, and the active calls are counted.
use nexus_n3_core.Prelude.{
  ℕ, ◌+◌, ◌≤◌, String, Bool, true, false, not, ◌||◌, Option, none, some, List, [], ◌∷◌,
  if◌then◌else◌, ==_iff, ◌≡◌, refl, arith, length, Option-cases, Bool-cases, inl, inr,
}
use nexus_n3_core.Sensors.Queue.{
  Route, same_route, Call, Queue, new_queue, find_pending, set_pending, finish_routed_route,
  give_job, new_pending, submit_routed_value, take_running, begin_run, end_run, union,
  quiesce_routing, enable_routing, touches,
}
use nexus_n3_core.Sensors.Queue.Jobs.{
  one_if, count_jobs, count_entries, count_jobs-append, count_entries-append, count_jobs-take_job,
  count_entries-take_running, count_entries-set_pending, length-set_pending,
  count_entries-drop_pending, length-drop_pending, count_entries-silence, length-silence,
  find_pending-none, find_pending-some,
}

pub record IsSound (q : Queue) : Type 0 where
  pub one_job :
      (r : Route) → count_jobs r q.jobs + count_entries r q.running ≡ count_entries r q.pending
  pub single : (r : Route) → count_entries r q.pending ≤ 1
  pub counted : q.active_calls ≡ length q.pending

pub quiesce_routing-IsSound :
    (addresses : Option (List String)) (q : Queue)
    → IsSound q
    → IsSound (quiesce_routing addresses q)
unfolding quiesce_routing
quiesce_routing-IsSound none q v = record {
  one_job = λ r. ground (arith, v.one_job r, count_entries-silence (λ x. true) r q.pending);
  single = λ r. ground (arith, v.single r, count_entries-silence (λ x. true) r q.pending);
  counted = ground (arith, v.counted, length-silence (λ x. true) q.pending);
}
quiesce_routing-IsSound (some a) q v = record {
  one_job = λ r. ground (arith, v.one_job r, count_entries-silence quiet r q.pending);
  single = λ r. ground (arith, v.single r, count_entries-silence quiet r q.pending);
  counted = ground (arith, v.counted, length-silence quiet q.pending);
}
  where
    quiet : Route → Bool
    quiet = touches q (union q.blocked_addresses a)

pub same_route_self : (r : Route) → same_route r r ≡ true
same_route_self r = ground (arith, ==_iff r.source r.source, ==_iff r.target r.target)

-- A job that ends without another one.
finish-IsSound :
    (r : Route) (q : Queue) (jobs : List Route) (running : List (Route × Option Call))
    → ((s : Route)
        → count_jobs s jobs + count_entries s running + one_if (same_route r s)
          ≡ count_entries s q.pending)
    → ((s : Route) → count_entries s q.pending ≤ 1)
    → q.active_calls ≡ length q.pending
    → IsSound (finish_routed_route r (record q { jobs = jobs; running = running }))
unfolding finish_routed_route
finish-IsSound r q jobs running h single counted = record {
  one_job = λ s. ground (arith, h s, single s, count_entries-drop_pending r s q.pending);
  single = λ s. ground (arith, single s, count_entries-drop_pending r s q.pending);
  counted =
      ground (arith, h r, single r, length-drop_pending r q.pending, counted, same_route_self r);
}

-- A job that is submitted again, or a new one, in a state with one job too few for its route.
give_job-IsSound :
    (taken : Bool) (r : Route) (q : Queue)
    → ((s : Route)
        → count_jobs s q.jobs + count_entries s q.running + one_if (same_route r s)
          ≡ count_entries s q.pending)
    → ((s : Route) → count_entries s q.pending ≤ 1)
    → q.active_calls ≡ length q.pending
    → IsSound (give_job taken r q)
unfolding give_job count_jobs
give_job-IsSound true r q h single counted = record {
  one_job = λ s. omega (arith, h s, count_jobs-append s q.jobs (r ∷ []));
  single = single;
  counted = counted;
}
give_job-IsSound false r q h single counted = finish-IsSound r q q.jobs q.running h single counted

set_pending-IsSound :
    (r : Route) (c : Call) (q : Queue)
    → 1 ≤ count_entries r q.pending
    → IsSound q
    → IsSound (record q { pending = set_pending r (some c) q.pending })
set_pending-IsSound r c q n v = record {
  one_job = λ s. ground (arith, v.one_job s, count_entries-set_pending r s (some c) q.pending, n);
  single = λ s. ground (arith, v.single s, count_entries-set_pending r s (some c) q.pending, n);
  counted = ground (arith, v.counted, length-set_pending r (some c) q.pending, n);
}

same_route_right : (r s x : Route) → same_route r s ≡ true → same_route x r ≡ same_route x s
same_route_right r s x e = ground arith

other_route :
    (r s : Route) (es : List (Route × Option Call))
    → count_entries r es ≡ 0
    → same_route r s ≡ true
    → count_entries s es ≡ 0
unfolding count_entries
other_route r s [] h e = refl
other_route r s (x ∷ xs) h e = ground (arith, h, same_route_right r s (x.0) e, other_route r s xs)

submit_routed_value-IsSound :
    (taken : Bool) (r : Route) (c : Call) (q : Queue)
    → IsSound q
    → IsSound (submit_routed_value taken r c q)
unfolding submit_routed_value
submit_routed_value-IsSound taken r c q v =
    elim (Bool-cases (not q.enabled || touches q q.blocked_addresses r)) [
      | inl e ↦ rw (e, submit_routed_value) v
      | inr e ↦
          rw (e, submit_routed_value)
            (elim (Option-cases (find_pending r q.pending)) [
              | inl n ↦ rw n (
                  give_job-IsSound taken r (new_pending r c q)
                    (λ s. ground (
                      arith,
                      v.one_job s,
                      count_entries-set_pending r s (some c) q.pending,
                      find_pending-none r q.pending n,
                    ))
                    (λ s. ground (
                      arith,
                      v.single s,
                      v.one_job s,
                      count_entries-set_pending r s (some c) q.pending,
                      find_pending-none r q.pending n,
                      other_route r s q.pending (find_pending-none r q.pending n),
                    ))
                    (ground (
                      arith,
                      v.counted,
                      length-set_pending r (some c) q.pending,
                      find_pending-none r q.pending n,
                    )))
              | inr (old, n) ↦
                  rw n (set_pending-IsSound r c q (find_pending-some r old q.pending n) v)
            ])
    ]

pub begin_run-IsSound :
    (r : Route) (q : Queue) → 1 ≤ count_jobs r q.jobs → IsSound q → IsSound (begin_run r q)
unfolding begin_run count_entries
begin_run-IsSound r q h v = elim (Option-cases (find_pending r q.pending)) [
  | inl n ↦ absurd (omega (arith, h, v.one_job r, find_pending-none r q.pending n))
  | inr (c, n) ↦
      rw (n, begin_run)
        record {
          one_job = λ s. ground (
            arith,
            v.one_job s,
            count_jobs-take_job r s q.jobs h,
            count_entries-append s q.running ((r, begun c) ∷ []),
            count_entries-set_pending r s none q.pending,
            find_pending-some r c q.pending n,
          );
          single = λ s. ground (
            arith,
            v.single s,
            count_entries-set_pending r s none q.pending,
            find_pending-some r c q.pending n,
          );
          counted = ground (
            arith,
            v.counted,
            length-set_pending r none q.pending,
            find_pending-some r c q.pending n,
          );
        }
]
  where
    begun : Option Call → Option Call
    begun c = if touches q q.blocked_addresses r then none else c

pub end_run-IsSound :
    (taken : Bool) (r : Route) (q : Queue)
    → 1 ≤ count_entries r q.running
    → IsSound q
    → IsSound (end_run taken r q)
unfolding end_run
end_run-IsSound taken r q h v = elim (Option-cases (find_pending r q.pending)) [
  | inl n ↦ absurd (omega (arith, h, v.one_job r, find_pending-none r q.pending n))
  | inr (none, n) ↦
      rw (n, end_run) (finish-IsSound r q q.jobs (take_running r q.running) left v.single v.counted)
  | inr (some c, n) ↦ rw (n, end_run) (give_job-IsSound taken r returned left v.single v.counted)
]
  where
    returned : Queue
    returned = record q { running = take_running r q.running }

    left :
        (s : Route)
        → count_jobs s q.jobs + count_entries s (take_running r q.running) + one_if (same_route r s)
          ≡ count_entries s q.pending
    left s = omega (arith, v.one_job s, count_entries-take_running r s q.running h)

-- The steps of the sensors, of the workers and of the commands. A worker takes a job that it was
-- given, and ends a job that it runs.
pub data Step : Queue → Queue → Type 0 where
  submits :
      (taken : Bool) (r : Route) (c : Call) {q : Queue} → Step q (submit_routed_value taken r c q)
  begins : (r : Route) {q : Queue} → 1 ≤ count_jobs r q.jobs → Step q (begin_run r q)
  ends :
      (taken : Bool) (r : Route) {q : Queue}
      → 1 ≤ count_entries r q.running
      → Step q (end_run taken r q)
  quiesces : (addresses : Option (List String)) {q : Queue} → Step q (quiesce_routing addresses q)
  enables : {q : Queue} → Step q (enable_routing q)

pub data Reachable (address : ℕ → Option String) : Queue → Type 0 where
  new : Reachable address (new_queue address)
  next : {q q' : Queue} → Reachable address q → Step q q' → Reachable address q'

Step-IsSound : {q q' : Queue} → Step q q' → IsSound q → IsSound q'
unfolding enable_routing
Step-IsSound {q} (submits taken r c) v = submit_routed_value-IsSound taken r c q v
Step-IsSound {q} (begins r h) v = begin_run-IsSound r q h v
Step-IsSound {q} (ends taken r h) v = end_run-IsSound taken r q h v
Step-IsSound {q} (quiesces addresses) v = quiesce_routing-IsSound addresses q v
Step-IsSound enables v = record { one_job = v.one_job; single = v.single; counted = v.counted }

pub Reachable-IsSound : (address : ℕ → Option String) {q : Queue} → Reachable address q → IsSound q
unfolding new_queue count_jobs count_entries
Reachable-IsSound address new = record {
  one_job = λ r. refl;
  single = λ r. omega arith;
  counted = refl;
}
Reachable-IsSound address (next p s) = Step-IsSound s (Reachable-IsSound address p)

-- However values are submitted, jobs begin and end and routing is quiesced and enabled, a route has
-- at most one job, waiting or running: its values do not pile up at the executor. The active calls
-- are as many as the routes with a job.
pub one_job_of_route :
    (address : ℕ → Option String) (q : Queue) (r : Route)
    → Reachable address q
    → (count_jobs r q.jobs + count_entries r q.running ≤ 1) × (q.active_calls ≡ length q.pending)
one_job_of_route address q r p =
    let v = Reachable-IsSound address p in (omega (arith, v.one_job r, v.single r), v.counted)
