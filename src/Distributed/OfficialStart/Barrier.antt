-- ===== src/Distributed/OfficialStart/Barrier.antt =====
-- The official-start barrier against its history: the commit is dispatched once, and exactly when
-- every expected node has reported ready for this start.
use nexus_n3_core.Prelude.{
  ℕ, String, ◌≡◌, refl, true, List, [], ◌∷◌, ◌++◌, arith, if◌then◌else◌, add, subset,
  subset→contains,
}
use nexus_n3_core.Distributed.OfficialStart.{StartRecord, Event, dedup, run}
use nexus_n3_core.Distributed.OfficialStart.Reports.{reported, commits}

-- The commits of a run from the record `r` of the start `id`.
abbrev total : String → StartRecord → List Event → ℕ
total id r es = commits (run true true es ((id, r) ∷ [])).1

-- The commits that the reports to come decide.
abbrev due : String → StartRecord → List Event → ℕ
due id r es =
    if subset r.expected_nodes (reported id r.session_timestamp es ++ r.ready_nodes) then 1 else 0

pub subset-dedup : (xs ys : List String) → subset (dedup xs) ys ≡ subset xs ys
unfolding dedup subset add
subset-dedup [] ys = refl
subset-dedup (x ∷ xs) ys = ground (arith, subset-dedup xs ys, subset→contains (dedup xs) ys x)
