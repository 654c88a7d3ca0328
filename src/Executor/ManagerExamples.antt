-- ===== src/Executor/ManagerExamples.antt =====
-- The executor manager with executors that are numbers, of which the number 9 does not initialize.
use aim_rt.Prelude.{
  ℕ, ◌≡◌, refl, ◌⊎◌, true, not, List, [], ◌∷◌, ◌++◌, some, String, nat_eq, ◌==◌, length,
}
use aim_rt.Core.Lifecycle.{done, thrown}
use aim_rt.Executor.Manager.{
  ExecutorOptions, ExecutorApi, ExecutorManager, GenFunc, new_manager, initialize,
}
use aim_rt.Executor.Manager.Creation.{Created, Added, Refusal}
use aim_rt.Executor.Manager.Starting.{ready, initialize-cases}

abbrev demo_api : ExecutorApi ℕ ℕ (List ℕ)
demo_api = record {
  name = λ x. "one";
  type = λ x. "time_wheel";
  initialize = λ n o x w. (w ++ o ∷ [], not (o == 9));
  start = λ x w. (w, true);
  shutdown = λ x w. w ++ x ∷ [];
}

-- A factory numbers its executors by what has happened so far.
abbrev demo_factory : String → GenFunc ℕ (List ℕ)
demo_factory t w = (w ++ 7 ∷ [], some (length w))

abbrev demo_options : List (ExecutorOptions ℕ)
demo_options =
    record { name = "one"; type = "time_wheel"; options = 1 }
    ∷ record { name = "two"; type = "no_such_type"; options = 2 }
    ∷ []

abbrev demo_ready : ExecutorManager ℕ ℕ (List ℕ)
demo_ready = ready demo_api demo_factory demo_options new_manager

initialize-cases_example :
    ((xs : List ℕ) × (m' : ExecutorManager ℕ ℕ (List ℕ)) × (w' : List ℕ) × (initialize demo_api
          demo_factory
          (some demo_options)
          (new_manager, [])
        ≡ done (m', w'))
      × Created demo_api demo_ready.executor_gen_func_map [] [] demo_options xs [] w'
      × Added demo_api demo_options xs demo_ready m')
    ⊎ ((good : List (ExecutorOptions ℕ)) × (bad : ExecutorOptions ℕ) × (rest : List
          (ExecutorOptions ℕ))
        × (xs : List ℕ) × (m' : ExecutorManager ℕ ℕ (List ℕ)) × (w1 : List ℕ) × (w2 : List ℕ)
        × (demo_options ≡ good ++ bad ∷ rest)
        × (initialize demo_api demo_factory (some demo_options) (new_manager, []) ≡ thrown (m', w2))
        × Created demo_api demo_ready.executor_gen_func_map [] [] good xs [] w1
        × Added demo_api good xs demo_ready m'
        × Refusal demo_api bad m' w1 w2)
initialize-cases_example = initialize-cases demo_api demo_factory demo_options new_manager [] refl
