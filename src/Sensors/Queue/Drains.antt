-- ===== src/Sensors/Queue/Drains.antt =====
-- After all routing is quiesced, the workers have only so many steps left, and when they have none the
-- queue is drained.
use nexus_n3_core.Prelude.{
  ℕ, suc, ◌+◌, ◌≤◌, String, Bool, true, false, ◌&&◌, Option, none, some, List, [], ◌∷◌,
  if◌then◌else◌, ◌≡◌, ◌≢◌, refl, arith, length, length-append, Option-cases, inl, inr,
}
use nexus_n3_core.Sensors.Queue.{
  Route, Call, Queue, find_pending, set_pending, drop_pending, take_job, take_running, begin_run,
  end_run, silence, quiesce_routing, touches,
}
use nexus_n3_core.Sensors.Queue.Jobs.{count_jobs, count_entries, find_pending-none}
use nexus_n3_core.Sensors.Queue.{drained}
use nexus_n3_core.Sensors.Queue.Sound.{
  IsSound, Reachable, Reachable-IsSound, begin_run-IsSound, end_run-IsSound,
  quiesce_routing-IsSound, same_route_self,
}

-- No value waits.
abbrev pub all_silent : List (Route × Option Call) → Bool
all_silent [] = true
all_silent (e ∷ es) = (elim (e.1) [ none ↦ true | some c ↦ false ]) && all_silent es

all_silent-silence : (es : List (Route × Option Call)) → all_silent (silence (λ r. true) es) ≡ true
unfolding silence
all_silent-silence [] = refl
all_silent-silence (x ∷ xs) = all_silent-silence xs

all_silent-set_pending :
    (r : Route) (es : List (Route × Option Call))
    → all_silent es ≡ true
    → all_silent (set_pending r none es) ≡ true
unfolding set_pending
all_silent-set_pending r [] h = refl
all_silent-set_pending r (x ∷ xs) h = ground (arith, h, all_silent-set_pending r xs)

all_silent-drop_pending :
    (r : Route) (es : List (Route × Option Call))
    → all_silent es ≡ true
    → all_silent (drop_pending r es) ≡ true
unfolding drop_pending
all_silent-drop_pending r [] h = refl
all_silent-drop_pending r (x ∷ xs) h = ground (arith, h, all_silent-drop_pending r xs)

find_pending-all_silent :
    (r : Route) (c : Call) (es : List (Route × Option Call))
    → all_silent es ≡ true
    → find_pending r es ≢ some (some c)
unfolding find_pending
find_pending-all_silent r c [] h e = ground (arith, e)
find_pending-all_silent r c (x ∷ xs) h e = ground (arith, h, e, find_pending-all_silent r c xs)

-- The steps that are left to the workers.
abbrev pub work : Queue → ℕ
work q = length q.jobs + length q.jobs + length q.running

-- `n` steps of the workers.
pub data Works : ℕ → Queue → Queue → Type 0 where
  rest : {q : Queue} → Works 0 q q
  begin :
      {n : ℕ} {q q' : Queue} (r : Route)
      → Works n q q'
      → 1 ≤ count_jobs r q'.jobs
      → Works (suc n) q (begin_run r q')
  end :
      {n : ℕ} {q q' : Queue} (taken : Bool) (r : Route)
      → Works n q q'
      → 1 ≤ count_entries r q'.running
      → Works (suc n) q (end_run taken r q')

length-take_job :
    (r : Route) (xs : List Route) → 1 ≤ count_jobs r xs → length (take_job r xs) + 1 ≡ length xs
unfolding count_jobs take_job
length-take_job r [] h = omega (arith, h)
length-take_job r (x ∷ xs) h = ground (arith, h, length-take_job r xs)

length-take_running :
    (r : Route) (es : List (Route × Option Call))
    → 1 ≤ count_entries r es
    → length (take_running r es) + 1 ≡ length es
unfolding count_entries take_running
length-take_running r [] h = omega (arith, h)
length-take_running r (x ∷ xs) h = ground (arith, h, length-take_running r xs)

count_jobs_le : (r : Route) (xs : List Route) → count_jobs r xs ≤ length xs
unfolding count_jobs
count_jobs_le r [] = omega arith
count_jobs_le r (x ∷ xs) = ground (arith, count_jobs_le r xs)

count_entries_le : (r : Route) (es : List (Route × Option Call)) → count_entries r es ≤ length es
unfolding count_entries
count_entries_le r [] = omega arith
count_entries_le r (x ∷ xs) = ground (arith, count_entries_le r xs)

-- Silent after `n` steps of the workers, which are taken from `m`.
record Winding (n m : ℕ) (q : Queue) : Type 0 where
  sound : IsSound q
  silent : all_silent q.pending ≡ true
  left : n + work q ≤ m

begin_run-Winding :
    (n m : ℕ) (r : Route) (q : Queue)
    → 1 ≤ count_jobs r q.jobs
    → Winding n m q
    → Winding (suc n) m (begin_run r q)
unfolding begin_run
begin_run-Winding n m r q h v = record {
  sound = begin_run-IsSound r q h v.sound;
  silent = ground (arith, v.silent, all_silent-set_pending r q.pending v.silent);
  left = elim (Option-cases (find_pending r q.pending)) [
    | inl none_there ↦
        absurd (omega (arith, h, v.sound.one_job r, find_pending-none r q.pending none_there))
    | inr (c, there) ↦
        rw (there, begin_run)
          (omega (
            arith,
            v.left,
            length-take_job r q.jobs h,
            length-append q.running ((r, if touches q q.blocked_addresses r then none else c) ∷ []),
          ))
  ];
}

end_run-Winding :
    (n m : ℕ) (taken : Bool) (r : Route) (q : Queue)
    → 1 ≤ count_entries r q.running
    → Winding n m q
    → Winding (suc n) m (end_run taken r q)
unfolding end_run
end_run-Winding n m taken r q h v = elim (Option-cases (find_pending r q.pending)) [
  | inl none_there ↦
      absurd (omega (arith, h, v.sound.one_job r, find_pending-none r q.pending none_there))
  | inr (some c, there) ↦ absurd (find_pending-all_silent r c q.pending v.silent there)
  | inr (none, there) ↦ record {
    sound = end_run-IsSound taken r q h v.sound;
    silent = rw (there, end_run) (all_silent-drop_pending r q.pending v.silent);
    left = rw (there, end_run) (omega (arith, v.left, length-take_running r q.running h));
  }
]

Works-Winding : {n m : ℕ} {q q' : Queue} → Works n q q' → Winding 0 m q → Winding n m q'
Works-Winding rest v = v
Works-Winding (begin {n} {q} {q'} r p h) v = begin_run-Winding n _ r q' h (Works-Winding p v)
Works-Winding (end {n} {q} {q'} taken r p h) v =
    end_run-Winding n _ taken r q' h (Works-Winding p v)

drained_without_entries :
    (q : Queue) (es : List (Route × Option Call))
    → ((r : Route) → count_entries r es ≡ 0)
    → drained none q es ≡ true
unfolding drained count_entries
drained_without_entries q [] h = refl
drained_without_entries q (e ∷ es) h = ground (arith, h (e.0), same_route_self (e.0))

drained_without_work : (q : Queue) → IsSound q → work q ≡ 0 → drained none q q.pending ≡ true
unfolding count_jobs count_entries
drained_without_work q v h = drained_without_entries q q.pending none_left
  where
    none_left : (r : Route) → count_entries r q.pending ≡ 0
    none_left r =
        omega (arith, h, v.one_job r, count_jobs_le r q.jobs, count_entries_le r q.running)

-- From a reachable queue whose routing is quiesced altogether, the workers take at most two steps for
-- each job and one for each running call, in whatever order; while they have no step left, the
-- condition that a stop waits for holds.
pub quiesced-drained :
    (address : ℕ → Option String) (n : ℕ) (q q' : Queue)
    → Reachable address q
    → Works n (quiesce_routing none q) q'
    → (n + work q' ≤ work q) × (work q' ≡ 0 → drained none q' q'.pending ≡ true)
unfolding quiesce_routing
quiesced-drained address n q q' p w = (end_state.left, drained_without_work q' end_state.sound)
  where
    start : Winding 0 (work q) (quiesce_routing none q)
    start = record {
      sound = quiesce_routing-IsSound none q (Reachable-IsSound address p);
      silent = all_silent-silence q.pending;
      left = omega arith;
    }

    end_state : Winding n (work q) q'
    end_state = Works-Winding w start
