-- ===== src/Run/DecisionLoop/Trace.antt =====
-- The order of the calls that an attempt makes, whichever way it ends.
use civ_sim_taskify.Prelude.{ℕ, String, ◌≡◌, sym, subst, Bool, true, false, Option, List, [], ◌∷◌}
use civ_sim_taskify.Models.Run.{Run}
use civ_sim_taskify.Models.Value.{Fields}
use civ_sim_taskify.Provider.Port.{DecisionRequest}
use civ_sim_taskify.Run.Actions.{Outcome, failed, returned, Ends}
use civ_sim_taskify.Run.LoopState.{
  Call, looked, captured, downgraded, wrote_capture, asked, wrote_call, acted, Live,
  DecisionLoopContext, DecisionLoopResult, Failure,
}
use civ_sim_taskify.Run.FreshRead.{images_permitted_for_run}
use civ_sim_taskify.Run.DecisionLoop.{run_decision_loop}
use civ_sim_taskify.Run.DecisionLoop.Rule.{IsKept, IsShownIn, IsAnswer}
use civ_sim_taskify.Run.DecisionLoop.Starts.{FailedRun, EndedRun, run_decision_loop-Ends}

-- The game has been read since the last request and the last action; the last call comes first.
abbrev pub Seen : List Call → Type 0
Seen [] = ⊥
Seen (looked ∷ cs) = Unit
Seen (asked r ∷ cs) = ⊥
Seen (acted k ps ∷ cs) = ⊥
Seen (captured c ∷ cs) = Seen cs
Seen (downgraded ∷ cs) = Seen cs
Seen (wrote_capture c blob ∷ cs) = Seen cs
Seen (wrote_call c ∷ cs) = Seen cs

-- The last call did not record a capture as shown.
abbrev pub Settled : List Call → Type 0
Settled (wrote_capture c blob ∷ cs) = c.shown_to_agent ≡ false
Settled cs = Unit

module _ (ctx : DecisionLoopContext) (permitted : Bool) where
  -- A request follows directly on the record of its capture, in a state that was seen. An action
  -- follows directly on the request that it answers. No other call follows on the record of a
  -- capture as shown.
  abbrev pub Follows : Call → List Call → Type 0
  Follows (asked r) (wrote_capture c blob ∷ cs) = IsShownIn permitted c r × Seen cs
  Follows (asked r) cs = ⊥
  Follows (acted k ps) (asked r ∷ before) = IsAnswer ctx before r k ps
  Follows (acted k ps) cs = ⊥
  Follows looked cs = Settled cs
  Follows (captured c) cs = Settled cs
  Follows downgraded cs = Settled cs
  Follows (wrote_capture c blob) cs = Settled cs
  Follows (wrote_call c) cs = Settled cs

  abbrev pub Sound : List Call → Type 0
  Sound [] = Unit
  Sound (x ∷ cs) = Follows x cs × Sound cs

  abbrev Whole : Live → Type 0
  Whole s = Sound s.calls × Settled s.calls

  abbrev Flagged : Bool → List Call → Type 0
  Flagged true cs = Seen cs
  Flagged false cs = Unit

  abbrev SoundState : Bool → Live → Type 0
  SoundState b s = Sound s.calls × Settled s.calls × Flagged b s.calls

  flag_kept :
      (b : Bool) (x : Call) (cs : List Call)
      → (Seen cs → Seen (x ∷ cs))
      → Flagged b cs
      → Flagged b (x ∷ cs)
  flag_kept true x cs f h = f h
  flag_kept false x cs f h = tt

  acted-Follows :
      (calls before : List Call) (r : DecisionRequest) (k : String) (ps : Fields)
      → calls ≡ asked r ∷ before
      → IsAnswer ctx before r k ps
      → Follows (acted k ps) calls
  acted-Follows calls before r k ps e a = subst (Follows (acted k ps)) (sym e) a

  sound_kept : IsKept ctx permitted (λ _ s. Whole s) SoundState
  sound_kept = record {
    quiet = λ e b s (h, q, f). (h, q);
    stalled = λ e b s (h, q, f). (h, q);
    looks = λ b s (h, q, f). ((q, h), tt, tt);
    captures = λ b s c (h, q, f). ((q, h), tt, flag_kept b (captured c) s.calls (λ z. z) f);
    downgrades = λ b s r e c (h, q, f). ((q, h), tt, flag_kept b downgraded s.calls (λ z. z) f);
    writes = λ b s c blob u (h, q, f).
        ((q, h), u, flag_kept b (wrote_capture c blob) s.calls (λ z. z) f);
    asks = λ s c blob r shown (h, q, f). (((shown, f), (q, h)), tt, tt);
    records = λ b s c (h, q, f). ((q, h), tt, flag_kept b (wrote_call c) s.calls (λ z. z) f);
    acts = λ s before r k ps e a (h, q, f). ((acted-Follows s.calls before r k ps e a, h), tt, tt);
  }

module _ (ctx : DecisionLoopContext) (fuel : ℕ) (run : Option Run) where
  abbrev pub at_start : Live
  at_start = record { calls = []; run = run }

  abbrev kept :
      IsKept ctx
        (images_permitted_for_run run)
        (λ _ s. Whole ctx (images_permitted_for_run run) s)
        (SoundState ctx (images_permitted_for_run run))
  kept = sound_kept ctx (images_permitted_for_run run)

  whole :
      (r : Outcome Failure DecisionLoopResult × Live)
      → Ends
          (FailedRun ctx at_start
            (Whole ctx (images_permitted_for_run run))
            (SoundState ctx (images_permitted_for_run run))
            kept
            fuel)
          (EndedRun ctx at_start
            (Whole ctx (images_permitted_for_run run))
            (SoundState ctx (images_permitted_for_run run))
            kept)
          r
      → Whole ctx (images_permitted_for_run run) r.1
  whole (returned r, s) (_, (h, q, _)) = (h, q)
  whole (failed f, s) (_, h) = h

  -- Whichever way an attempt ends, every request is sent after a read of the game with no action
  -- and no other request in between, directly after the record of the step's capture, which says
  -- that the capture was shown exactly if the request carries an image, and then the run permits
  -- images and the capture is a clean one of the request's own step; no capture is otherwise
  -- recorded as shown. Every action directly follows the request whose answer names it and was
  -- authorized, so that there is one at most for each request.
  pub run_decision_loop-Sound :
      Sound ctx (images_permitted_for_run run) ((run_decision_loop ctx fuel at_start).1.calls)
      × Settled ((run_decision_loop ctx fuel at_start).1.calls)
  run_decision_loop-Sound = whole (run_decision_loop ctx fuel at_start) (
      run_decision_loop-Ends ctx at_start (Whole ctx (images_permitted_for_run run))
        (SoundState ctx (images_permitted_for_run run)) kept fuel (tt, tt, tt))
