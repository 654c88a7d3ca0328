-- ===== src/Core/Modules/Running.antt =====
-- module_manager.cc: `Start` and `Shutdown`. A name without a wrapper ends a start by an exception and
-- is passed over at the end; a null module in a wrapper, which the code would dereference, is so too.
use aim_rt.Prelude.{false, List, [], ◌∷◌, Option, none, some, String, string_eq, if◌then◌else◌}
use aim_rt.Prelude.Map.{Map, find}
use aim_rt.Core.Lifecycle.{start, shutdown, Outcome, done, thrown, is_init, is_shutdown}
use aim_rt.Core.Modules.{ModuleApi, ModuleManager, ModuleWrapper, Sys}

module _ {M : Type 0} where
  unfoldable pub module_at : String → Map String (ModuleWrapper M) → Option M
  module_at name wrappers = elim (find name wrappers) [ none ↦ none | some v ↦ v.module_ptr ]

  module _ {W : Type 0} (api : ModuleApi M W) where
    unfoldable pub start_names : Map String (ModuleWrapper M) → List String → W → Outcome W
    unfolding module_at
    start_names wrappers [] w = done w
    start_names wrappers (name ∷ names) w = elim (module_at name wrappers) [
      | none ↦ thrown w
      | some x ↦
          let rest = start_names wrappers names (api.start x w).0 in
          if (api.start x w).1 then rest else thrown (api.start x w).0
    ]

    -- From the last name to the first.
    unfoldable pub shutdown_names : Map String (ModuleWrapper M) → List String → W → W
    unfolding module_at
    shutdown_names wrappers [] w = w
    shutdown_names wrappers (name ∷ names) w =
        let later = shutdown_names wrappers names w in
        elim (module_at name wrappers) [ none ↦ later | some x ↦ api.shutdown x later ]

    unfoldable pub start_modules : Sys api → Outcome (Sys api)
    unfolding start_names
    start_modules (m, w) =
        let m1 : ModuleManager M = record m { state = start } in
        if is_init m.state
        then elim (start_names m.module_wrapper_map m.module_init_order w) [
          | done w1 ↦ done (m1, w1)
          | thrown w1 ↦ thrown (m1, w1)
        ]
        else thrown (m1, w)

    unfoldable pub shutdown_modules : Sys api → Sys api
    unfolding shutdown_names
    shutdown_modules (m, w) = if is_shutdown m.state then (m, w) else (
      record m {
        state = shutdown;
        module_wrapper_map = [];
        module_init_order = [];
        registered_module_vec = [];
        has_configurator = false;
      },
      shutdown_names m.module_wrapper_map m.module_init_order w,
    )
