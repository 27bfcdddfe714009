-- ===== src/NoProgress/Streak.antt =====
-- The counter against a description by the whole history of a turn.
use civ_sim_taskify.Prelude.{◌+◌, ◌≤◌, ◌≡◌, refl, ◌↔◌, true, List, [], ◌∷◌, ◌++◌, length, arith}
use civ_sim_taskify.Models.Turn.{StepProgress, changed_state, no_change, rejected}
use civ_sim_taskify.NoProgress.{NoProgressTracker, record_progress, tripped, record_all}

-- No step of the list changed the state.
abbrev pub AllStuck : List StepProgress → Type 0
AllStuck [] = Unit
AllStuck (changed_state ∷ ps) = ⊥
AllStuck (no_change ∷ ps) = AllStuck ps
AllStuck (rejected ∷ ps) = AllStuck ps

record_all-append :
    (t : NoProgressTracker) (ps qs : List StepProgress)
    → record_all t (ps ++ qs) ≡ record_all (record_all t ps) qs
unfolding record_all
record_all-append t [] qs = refl
record_all-append t (p ∷ ps) qs = record_all-append (record_progress t p) ps qs

stuck-streak :
    (t : NoProgressTracker) (ps : List StepProgress)
    → AllStuck ps
    → (record_all t ps).streak ≡ t.streak + length ps
unfolding record_all record_progress
stuck-streak t [] h = omega arith
stuck-streak t (changed_state ∷ ps) h = absurd h
stuck-streak t (no_change ∷ ps) h = omega (arith, stuck-streak (record_progress t no_change) ps h)
stuck-streak t (rejected ∷ ps) h = omega (arith, stuck-streak (record_progress t rejected) ps h)

pub limit-record_all :
    (t : NoProgressTracker) (ps : List StepProgress) → (record_all t ps).limit ≡ t.limit
unfolding record_all record_progress
limit-record_all t [] = refl
limit-record_all t (changed_state ∷ ps) = limit-record_all (record_progress t changed_state) ps
limit-record_all t (no_change ∷ ps) = limit-record_all (record_progress t no_change) ps
limit-record_all t (rejected ∷ ps) = limit-record_all (record_progress t rejected) ps

stuck_from_change :
    (t : NoProgressTracker) (after : List StepProgress)
    → AllStuck after
    → (record_all t (changed_state ∷ after)).streak ≡ length after
unfolding record_all record_progress
stuck_from_change t after h = omega (arith, stuck-streak (record_progress t changed_state) after h)

count_since_change :
    (t : NoProgressTracker) (before after : List StepProgress)
    → AllStuck after
    → (record_all t (before ++ (changed_state ∷ after))).streak ≡ length after
count_since_change t before after h =
    rw (record_all-append t before (changed_state ∷ after))
      (stuck_from_change (record_all t before) after h)

-- After a step that changed the state and then only steps that did not, the streak is the number
-- of the latter, whatever came before; the tracker is tripped exactly when they are at least as
-- many as the limit.
pub streak_since_change :
    (t : NoProgressTracker) (before after : List StepProgress)
    → AllStuck after
    → ((record_all t (before ++ (changed_state ∷ after))).streak ≡ length after)
      × ((tripped (record_all t (before ++ (changed_state ∷ after))) ≡ true)
          ↔ (t.limit ≤ length after))
unfolding tripped
streak_since_change t before after h =
    let e = count_since_change t before after h in
    let same = limit-record_all t (before ++ (changed_state ∷ after)) in
    (e, (λ q. ground (arith, e, same), λ q. ground (arith, e, same)))

-- The streak grows by no more than the number of steps taken.
pub streak-le-length :
    (t : NoProgressTracker) (ps : List StepProgress)
    → (record_all t ps).streak ≤ t.streak + length ps
unfolding record_all record_progress
streak-le-length t [] = omega arith
streak-le-length t (changed_state ∷ ps) =
    omega (arith, streak-le-length (record_progress t changed_state) ps)
streak-le-length t (no_change ∷ ps) =
    omega (arith, streak-le-length (record_progress t no_change) ps)
streak-le-length t (rejected ∷ ps) = omega (arith, streak-le-length (record_progress t rejected) ps)
