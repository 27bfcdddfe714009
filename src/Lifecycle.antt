-- ===== src/Lifecycle.antt =====
-- civsim_harness/run/lifecycle.py: the graph of legal transitions and the function that follows it.
pub mod Graph
pub mod Transition
mod Tests
use civ_sim_taskify.Prelude.{
  ℕ, ◌≡◌, refl, Bool, true, false, not, ◌&&◌, ◌||◌, Option, none, some, List, [], ◌∷◌,
  if◌then◌else◌,
}
use civ_sim_taskify.Errors.{Result, ok, harness_error, raise_if, ◌>>=◌, ◌>>◌}
use civ_sim_taskify.Models.Run.{
  Timestamp, LifecycleState, preparing, playing, waiting_on_model, waiting_on_game, paused,
  interrupted, resuming, finished, failed, StopResolution, Run, validate, is_some, is_terminal,
  same_state,
}
use civ_sim_taskify.Models.Event.{RunEvent, lifecycle_transition, moved}

-- LEGAL_TRANSITIONS
legal_transitions : LifecycleState → List LifecycleState
legal_transitions preparing = playing ∷ failed ∷ []
legal_transitions playing =
    waiting_on_model ∷ waiting_on_game ∷ paused ∷ interrupted ∷ finished ∷ []
legal_transitions waiting_on_model = playing ∷ []
legal_transitions waiting_on_game = playing ∷ []
legal_transitions paused = playing ∷ []
legal_transitions interrupted = resuming ∷ []
legal_transitions resuming = playing ∷ failed ∷ []
legal_transitions finished = []
legal_transitions failed = []

contains : List LifecycleState → LifecycleState → Bool
contains [] s = false
contains (t ∷ ts) s = same_state t s || contains ts s

unfoldable pub is_legal_transition : LifecycleState → LifecycleState → Bool
unfolding legal_transitions contains
is_legal_transition from to = contains (legal_transitions from) to

-- `a or b` on an optional timestamp, which is never falsy.
abbrev pub or_else : Option Timestamp → Timestamp → Option Timestamp
or_else none t = some t
or_else (some s) t = some s

-- `stop_resolution` is written only where one is given.
abbrev pub or_keep : Option StopResolution → Option StopResolution → Option StopResolution
or_keep none old = old
or_keep (some s) old = some s

-- `{**run.model_dump(), **updates}`
unfoldable pub updated : Run → LifecycleState → Timestamp → Option StopResolution → Run
updated run to at stop = record run {
  lifecycle_state = to;
  ended_at = if is_terminal to then or_else run.ended_at at else run.ended_at;
  stop_resolution =
      if is_terminal to then or_keep stop run.stop_resolution else run.stop_resolution;
  started_at =
      if same_state run.lifecycle_state preparing && same_state to playing
      then or_else run.started_at at
      else run.started_at;
}

unfoldable pub transition_event : Run → LifecycleState → Timestamp → Option ℕ → Option ℕ → RunEvent
transition_event run to at turn step = record {
  run_id = run.run_id;
  turn_number = turn;
  step_index = step;
  event_type = lifecycle_transition;
  occurred_at = at;
  detail = moved run.lifecycle_state to;
}

-- The caller's own `detail` entries are left out of the event.
unfoldable pub transition :
    Run
    → LifecycleState
    → Timestamp
    → Option ℕ
    → Option ℕ
    → Option StopResolution
    → Result (Run × RunEvent)
transition run to at turn step stop = do
  raise_if (not (is_legal_transition run.lifecycle_state to)) harness_error
  raise_if (is_some stop && not (is_terminal to)) harness_error
  moved_run ← validate (updated run to at stop)
  ok (moved_run, transition_event run to at turn step)
