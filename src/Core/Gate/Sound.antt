-- ===== src/Core/Gate/Sound.antt =====
-- What holds of the startup gate and of the threads that prepare its outputs after any steps.
use Prim.Native.Nat.{◌<◌}
use mathlib.Core.Path.{subst}
use nexus_n3_core.Prelude.{
  ℕ, zero, ◌≤◌, String, true, false, none, some, List, [], ◌∷◌, ◌++◌, ◌≡◌, arith, ==_iff,
}
use nexus_n3_core.Core.Gate.Stats.{Policy}
use nexus_n3_core.Core.Gate.State.{Gate, GateSubject, new_gate, reset_startup_gate_state}
use nexus_n3_core.Core.Gate.Official.{preparation_ended}
use nexus_n3_core.Core.Gate.Prepared.{prepared_all-more, prepared_all-selected, contains-left_add}
use nexus_n3_core.Core.Gate.Steps.{
  World, Preparation, moved, disturb, placed, selected, prepared_too, new_world,
}
use nexus_n3_core.Core.Gate.Kept.{IsBounded, IsKept, is_ready, prepared_but, prepared_too-IsKept}

pub record IsSound (p : Policy) (w : World) : Type 0 where
  pub bounded : IsBounded p w.gate
  pub ready :
      w.disturbed ≡ false → is_ready w.gate.stream_phase ≡ true → prepared_but [] w.gate ≡ true
  pub past : (i : ℕ) (x : Preparation) → w.preparations i ≡ some x → x.token ≤ w.gate.token
  pub under_way :
      (i : ℕ) (x : Preparation)
      → w.preparations i ≡ some x
      → w.disturbed ≡ false
      → w.gate.token ≡ x.token
      → prepared_but x.left w.gate ≡ true

-- After an operation that keeps what is prepared, whatever becomes of the commits.
pub moved-IsSound :
    (p : Policy) (w : World) (g' : Gate) (n : ℕ)
    → IsSound p w
    → IsKept p w.gate g'
    → IsSound p record w { gate = g'; commits = n }
moved-IsSound p w g' n v k = record {
  bounded = k.bounded v.bounded;
  ready = λ u h. k.prepared [] (k.same_start h) (v.ready u (k.still_ready h));
  past = λ i x e. omega (arith, v.past i x e, k.token);
  under_way = λ i x e u h.
      let same : w.gate.token ≡ x.token = omega (arith, v.past i x e, k.token, h) in
      k.prepared x.left (omega (arith, same, h)) (v.under_way i x e u same);
}

pub disturb-IsSound :
    (p : Policy) (w : World) (g' : Gate)
    → IsSound p w
    → IsBounded p g'
    → w.gate.token ≤ g'.token
    → IsSound p (disturb w g')
disturb-IsSound p w g' v b later = record {
  bounded = b;
  ready = λ u h. absurd (ground (arith, u));
  past = λ i x e. omega (arith, v.past i x e, later);
  under_way = λ i x e u h. absurd (ground (arith, u));
}

-- A reset of the gate leaves all preparations to earlier starts.
pub reset-IsSound :
    (p : Policy) (now : ℕ) (ids addresses : List String) (w : World)
    → zero < p.max_attempts
    → IsSound p w
    → IsSound p
        record w { gate = reset_startup_gate_state now ids addresses w.gate; disturbed = false }
unfolding reset_startup_gate_state
reset-IsSound p now ids addresses w m v = record {
  bounded = record { attempts = omega (arith, m); retry_left = λ h. ground (arith, h) };
  ready = λ u h. absurd (ground (arith, h));
  past = λ i x e. omega (arith, v.past i x e);
  under_way = λ i x e u h. absurd (omega (arith, v.past i x e, h));
}

-- The preparation of a thread gets on, or begins.
pub placed-IsSound :
    (p : Policy) (i : ℕ) (x : Preparation) (w : World)
    → IsSound p w
    → x.token ≤ w.gate.token
    → (w.disturbed ≡ false → w.gate.token ≡ x.token → prepared_but x.left w.gate ≡ true)
    → IsSound p (placed i x w)
placed-IsSound p i x w v old covers = record {
  bounded = v.bounded;
  ready = v.ready;
  past = λ j y e. ground (arith, e, old, v.past j y);
  under_way = λ j y e u h. ground (arith, e, u, h, covers, v.under_way j y);
}

pub begins_preparation-IsSound :
    (p : Policy) (i token : ℕ) (w : World)
    → token ≤ w.gate.token
    → IsSound p w
    → IsSound p
        (placed i record { token = token; left = selected w.gate.subject_ids w.gate.subjects } w)
unfolding prepared_but
begins_preparation-IsSound p i token w old v =
    placed-IsSound p i _ w v old
      (λ u h. prepared_all-selected w.gate.subject_ids w.gate.subjects w.gate.prepared_subject_ids)

pub prepares_one-IsSound :
    (p : Policy) (i : ℕ) (x : Preparation) (id : String) (rest : List String) (w : World)
    → w.preparations i ≡ some x
    → x.left ≡ id ∷ rest
    → IsSound p w
    → IsSound p (placed i record x { left = rest } (moved w (prepared_too id w.gate)))
unfolding prepared_but
prepares_one-IsSound p i x id rest w e q v =
    placed-IsSound p i record x { left = rest } (moved w (prepared_too id g))
      (moved-IsSound p w (prepared_too id g) w.commits v (prepared_too-IsKept p id g))
      (v.past i x e)
      (λ u h.
        prepared_all-more g.subject_ids g.subjects (id ∷ rest ++ g.prepared_subject_ids) _
          (contains-left_add id rest g.prepared_subject_ids)
          (subst (λ l. prepared_but l g ≡ true) q (v.under_way i x e u h)))
  where
    g : Gate
    g = w.gate

-- Only a preparation that went through all subjects makes the gate ready.
pub preparation_returned-IsSound :
    (p : Policy) (i : ℕ) (x : Preparation) (w : World)
    → w.preparations i ≡ some x
    → x.left ≡ []
    → IsSound p w
    → IsSound p (moved w (preparation_ended none x.token w.gate).0)
unfolding preparation_ended prepared_but
preparation_returned-IsSound p i x w e q v = record {
  bounded = record {
    attempts = ground (arith, v.bounded.attempts);
    retry_left = λ h. ground (arith, h, v.bounded.retry_left);
  };
  ready = λ u h. ground (arith, h, u, v.ready u, all u, ==_iff x.token w.gate.token);
  past = λ j y r. ground (arith, v.past j y r);
  under_way = λ j y r u h. ground (arith, v.under_way j y r u, h);
}
  where
    all : w.disturbed ≡ false → w.gate.token ≡ x.token → prepared_but [] w.gate ≡ true
    all u h = subst (λ l. prepared_but l w.gate ≡ true) q (v.under_way i x e u h)

pub new_world-IsSound : (p : Policy) (subjects : List GateSubject) → IsSound p (new_world subjects)
unfolding new_gate
new_world-IsSound p subjects = record {
  bounded = record { attempts = omega arith; retry_left = λ h. ground (arith, h) };
  ready = λ u h. absurd (ground (arith, h));
  past = λ i x e. absurd (ground (arith, e));
  under_way = λ i x e. absurd (ground (arith, e));
}
