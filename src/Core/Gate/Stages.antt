-- ===== src/Core/Gate/Stages.antt =====
-- The startup gate of nexus_n3/core/core.py as an automaton of four stages, which every step follows.
use nexus_n3_core.Prelude.{Bool, true, false, not, ◌&&◌, ◌||◌, ◌≡◌, ltb}
use nexus_n3_core.Core.Gate.State.{
  Gate, Phase, warming_up, preparing_official, ready_for_official, activating_official,
  official_streaming, coordinated,
}
use nexus_n3_core.Core.Gate.Steps.{World}
use nexus_n3_core.Core.Gate.Kept.{is_ready}
use nexus_n3_core.Core.Gate.Activated.{Activated}

pub data Stage : Type 0 where
  quiet : Stage
  warming : Stage
  preparing : Stage
  ready : Stage
  official : Stage

-- An activation counts as warm-up.
abbrev pub stage : Phase → Stage
stage warming_up = warming
stage preparing_official = preparing
stage activating_official = warming
stage ready_for_official = ready
stage official_streaming = official
stage _ = quiet

-- What a start promises, where `late` is whether the step ends a commit: a gate gets ready only from
-- its preparation, and prepares only after its warm-up. It gets official from its warm-up in a local
-- start, or at the end of a commit. It can fall quiet or warm up at any time.
abbrev pub allows : (together late : Bool) → Stage → Stage → Bool
allows together late s quiet = true
allows together late s warming = true
allows together late warming preparing = together
allows together late preparing preparing = true
allows together late s preparing = false
allows together late preparing ready = true
allows together late ready ready = true
allows together late s ready = false
allows together late warming official = late || not together
allows together late official official = true
allows together late s official = late

-- A step admits a commit only to a gate that is ready in a coordinated start.
abbrev pub admission_fits : World → World → Bool
admission_fits w w' =
    not (ltb w.commits w'.commits) || (coordinated w.gate && is_ready w.gate.stream_phase)

-- The step of the gate is allowed with and without a commit under way.
abbrev Allowed : Gate → Gate → Type 0
Allowed g g' =
    (late : Bool)
    → allows (coordinated g') late (stage g.stream_phase) (stage g'.stream_phase) ≡ true
