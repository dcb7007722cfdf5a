-- ===== src/Core/Gate/Activated.antt =====
-- The activation of the official outputs keeps what the other operations of the startup gate keep.
use nexus_n3_core.Prelude.{ℕ, String, true, List, ◌++◌, ◌≡◌, ◌⊎◌, refl, sym, arith, inl, inr}
use mathlib.Core.Path.{subst}
use nexus_n3_core.Core.Gate.Stats.{Policy}
use nexus_n3_core.Core.Gate.State.{Gate, activating_official}
use nexus_n3_core.Core.Gate.Official.{
  Outcomes, prepare_each, poll_startup_gate, pass_gate, activate_official_streaming, set_phase,
}
use nexus_n3_core.Core.Gate.Prepared.{
  prepared_all, prepare_each-kept, prepared_all-more, prepared_all-stream_if, contains-more,
}
use nexus_n3_core.Core.Gate.Kept.{IsKept, prepared_but}

-- What an activation leaves as it was.
pub record Activated (g g' : Gate) : Type 0 where
  pub phase : g'.stream_phase ≡ g.stream_phase
  pub token : g'.token ≡ g.token
  pub attempt : g'.attempt ≡ g.attempt
  pub mode : g'.official_start_mode ≡ g.official_start_mode
  pub prepared : (left : List String) → prepared_but left g ≡ true → prepared_but left g' ≡ true

pub activate_official_streaming-Activated :
    (o : Outcomes) (now : ℕ) (g : Gate) → Activated g (activate_official_streaming o now g).0
unfolding activate_official_streaming prepared_but
activate_official_streaming-Activated o now g = record {
  phase = ground arith;
  token = ground arith;
  attempt = ground arith;
  mode = ground arith;
  prepared = λ left h. ground (
    arith,
    h,
    more left h,
    prepared_all-stream_if g.subject_ids g.subject_ids g.subjects (left ++ after),
  );
}
  where
    after : List String
    after = (prepare_each o.opens g.subject_ids g.subjects g.prepared_subject_ids).0

    more :
        (left : List String)
        → prepared_all g.subject_ids g.subjects (left ++ g.prepared_subject_ids) ≡ true
        → prepared_all g.subject_ids g.subjects (left ++ after) ≡ true
    more left h =
        prepared_all-more g.subject_ids g.subjects (left ++ g.prepared_subject_ids) (left ++ after)
          (contains-more left g.prepared_subject_ids after
            (prepare_each-kept o.opens g.subject_ids g.subjects g.prepared_subject_ids))
          h

pass_gate-IsKept :
    (p : Policy) (o : Outcomes) (now : ℕ) (g : Gate) → IsKept p g (pass_gate o now g).0
unfolding pass_gate prepared_but
pass_gate-IsKept p o now g = record {
  bounded = λ v. record {
    attempts = ground (arith, v.attempts, kept.attempt);
    retry_left = λ h. ground (arith, h, kept.phase);
  };
  token = ground (arith, kept.token);
  still_ready = λ h. ground (arith, h, kept.phase);
  same_start = λ h. ground (arith, h, kept.phase);
  prepared = λ left e h. ground (arith, h, kept.prepared left);
}
  where
    activating : Gate
    activating = set_phase activating_official g

    kept : Activated activating (activate_official_streaming o now activating).0
    kept = activate_official_streaming-Activated o now activating

poll_startup_gate-pass_gate :
    (p : Policy) (o : Outcomes) (now token : ℕ) (g : Gate)
    → ((poll_startup_gate p o now token g).0 ≡ g)
      ⊎ ((poll_startup_gate p o now token g).0 ≡ (pass_gate o now g).0)
unfolding poll_startup_gate
poll_startup_gate-pass_gate p o now token g = ground arith

same-IsKept : (p : Policy) (g : Gate) → IsKept p g g
same-IsKept p g = record {
  bounded = λ v. v;
  token = omega arith;
  still_ready = λ h. h;
  same_start = λ h. refl;
  prepared = λ left e h. h;
}

either-IsKept :
    (p : Policy) (g g' passed : Gate) → IsKept p g passed → (g' ≡ g) ⊎ (g' ≡ passed) → IsKept p g g'
either-IsKept p g g' passed k (inl e) = subst (λ x. IsKept p g x) (sym e) (same-IsKept p g)
either-IsKept p g g' passed k (inr e) = subst (λ x. IsKept p g x) (sym e) k

pub poll_startup_gate-IsKept :
    (p : Policy) (o : Outcomes) (now token : ℕ) (g : Gate)
    → IsKept p g (poll_startup_gate p o now token g).0
poll_startup_gate-IsKept p o now token g =
    either-IsKept p g _ (pass_gate o now g).0 (pass_gate-IsKept p o now g)
      (poll_startup_gate-pass_gate p o now token g)
