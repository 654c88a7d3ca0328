-- ===== src/Core/Examples.antt =====
-- The core with managers that log to a list of numbers.
use aim_rt.Prelude.{ℕ, ◌≡◌, refl, true, List, [], ◌∷◌, ◌++◌}
use aim_rt.Core.Lifecycle.{done, thrown}
use aim_rt.Core.Runtime.{
  PartApi, AimrtCore, fresh, post_init, post_start, run_hooks, enter_state, phase, phases,
  gen_initialization_report, log_report, start_parts, start_impl, get_future, start,
}
use aim_rt.Core.Runtime.Phases.{told, woken, destroyed, happen, Stands, start-Stands}

abbrev demo_parts : PartApi (List ℕ)
demo_parts = record {
  initialize = λ p w. (w ++ 1 ∷ [], true);
  start = λ p w. (w ++ 2 ∷ [], true);
  shutdown = λ p w. w ++ 3 ∷ [];
  check = λ w. (w, true);
  info_enabled = λ w. true;
  report = λ w. (w, true);
  hooks = λ s. [];
}

abbrev demo_ready : AimrtCore
demo_ready = record fresh { state = post_init }

abbrev demo_started : AimrtCore
demo_started = record fresh { state = post_start; future_retrieved = true }

abbrev eleven : ℕ → List ℕ
eleven n = n ∷ n ∷ n ∷ n ∷ n ∷ n ∷ n ∷ n ∷ n ∷ n ∷ n ∷ []

demo_starts : start demo_parts (demo_ready, []) ≡ done (demo_started, eleven 2)
unfolding start start_impl log_report gen_initialization_report start_parts phases phase enter_state
    run_hooks get_future
demo_starts = refl

-- The thread has a turn before the signal and one after it, and then the core is destroyed.
start-Stands_example :
    Stands demo_parts true true
      (eleven 2)
      (happen demo_parts (woken ∷ told ∷ told ∷ woken ∷ destroyed ∷ []) (demo_started, eleven 2))
    × (get_future demo_parts (
          happen demo_parts (woken ∷ told ∷ told ∷ woken ∷ destroyed ∷ []) (demo_started, eleven 2))
        ≡ thrown (
            happen demo_parts
              (woken ∷ told ∷ told ∷ woken ∷ destroyed ∷ [])
              (demo_started, eleven 2)))
start-Stands_example =
    start-Stands demo_parts (demo_ready, []) (demo_started, eleven 2)
      (woken ∷ told ∷ told ∷ woken ∷ destroyed ∷ []) refl refl refl demo_starts
