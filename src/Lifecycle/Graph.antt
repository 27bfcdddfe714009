-- ===== src/Lifecycle/Graph.antt =====
-- The diagram of data-model.md SS4 as a relation, and what can be reached along it.
use civ_sim_taskify.Prelude.{◌≡◌, refl, true, false, ◌↔◌, arith}
use civ_sim_taskify.Models.Run.{
  LifecycleState, preparing, playing, waiting_on_model, waiting_on_game, paused, interrupted,
  resuming, finished, failed, is_terminal,
}
use civ_sim_taskify.Lifecycle.{is_legal_transition}

pub data Edge : LifecycleState → LifecycleState → Type 0 where
  start : Edge preparing playing
  abort : Edge preparing failed
  ask_model : Edge playing waiting_on_model
  ask_game : Edge playing waiting_on_game
  pause : Edge playing paused
  interrupt : Edge playing interrupted
  finish : Edge playing finished
  model_answered : Edge waiting_on_model playing
  game_answered : Edge waiting_on_game playing
  unpause : Edge paused playing
  resume : Edge interrupted resuming
  resumed : Edge resuming playing
  give_up : Edge resuming failed

ruleset edges = (
  start, abort, ask_model, ask_game, pause, interrupt, finish, model_answered, game_answered,
  unpause, resume, resumed, give_up,
)

-- A path of zero or more edges.
pub data Reach (s : LifecycleState) : LifecycleState → Type 0 where
  here : Reach s s
  next : {t u : LifecycleState} → Reach s t → Edge t u → Reach s u

legal_of_Edge : {a b : LifecycleState} → Edge a b → is_legal_transition a b ≡ true
unfolding is_legal_transition
legal_of_Edge start = refl
legal_of_Edge abort = refl
legal_of_Edge ask_model = refl
legal_of_Edge ask_game = refl
legal_of_Edge pause = refl
legal_of_Edge interrupt = refl
legal_of_Edge finish = refl
legal_of_Edge model_answered = refl
legal_of_Edge game_answered = refl
legal_of_Edge unpause = refl
legal_of_Edge resume = refl
legal_of_Edge resumed = refl
legal_of_Edge give_up = refl

pub Edge-of_legal : (a b : LifecycleState) → is_legal_transition a b ≡ true → Edge a b
unfolding is_legal_transition
Edge-of_legal a b h = grind (arith, edges)

-- `is_legal_transition` accepts exactly the edges of the diagram.
pub legal_iff_Edge : (a b : LifecycleState) → (is_legal_transition a b ≡ true) ↔ Edge a b
legal_iff_Edge a b = (Edge-of_legal a b, legal_of_Edge)

Reach-of_terminal : {s t : LifecycleState} → is_terminal s ≡ true → Reach s t → t ≡ s
Reach-of_terminal h here = refl
Reach-of_terminal h (next r e) = absurd (no_edge (Reach-of_terminal h r) h e)
  where
    no_edge : {s t u : LifecycleState} → t ≡ s → is_terminal s ≡ true → Edge t u → ⊥
    no_edge p q start = ground arith
    no_edge p q abort = ground arith
    no_edge p q ask_model = ground arith
    no_edge p q ask_game = ground arith
    no_edge p q pause = ground arith
    no_edge p q interrupt = ground arith
    no_edge p q finish = ground arith
    no_edge p q model_answered = ground arith
    no_edge p q game_answered = ground arith
    no_edge p q unpause = ground arith
    no_edge p q resume = ground arith
    no_edge p q resumed = ground arith
    no_edge p q give_up = ground arith

back : {s t : LifecycleState} → Reach s t → t ≡ preparing → s ≡ preparing
back here p = p
back (next r e) p = absurd (no_return e p)
  where
    no_return : {t u : LifecycleState} → Edge t u → u ≡ preparing → ⊥
    no_return start p = ground arith
    no_return abort p = ground arith
    no_return ask_model p = ground arith
    no_return ask_game p = ground arith
    no_return pause p = ground arith
    no_return interrupt p = ground arith
    no_return finish p = ground arith
    no_return model_answered p = ground arith
    no_return game_answered p = ground arith
    no_return unpause p = ground arith
    no_return resume p = ground arith
    no_return resumed p = ground arith
    no_return give_up p = ground arith

-- The ways along the diagram: a terminal state leads nowhere else, every other state has a way to
-- `finished`, and no state but `preparing` itself leads to `preparing`.
pub Reach-ends :
    (s : LifecycleState)
    → (is_terminal s ≡ true → (t : LifecycleState) → Reach s t → t ≡ s)
      × (is_terminal s ≡ false → Reach s finished)
      × (Reach s preparing → s ≡ preparing)
Reach-ends s = (λ h t r. Reach-of_terminal h r, to_finished s, λ r. back r refl)
  where
    to_finished : (s : LifecycleState) → is_terminal s ≡ false → Reach s finished
    to_finished preparing h = search (here, next, edges)
    to_finished finished h = cc
    to_finished failed h = cc
    to_finished _ h = search (here, next, edges)
