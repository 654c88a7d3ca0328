-- ===== src/Core/Modules/Phases.antt =====
-- module_manager.cc: `Initialize` as a whole, then `Start`, then `Shutdown`.
use aim_rt.Prelude.{
  ◌≡◌, refl, ap, ◌∙◌, List, [], ◌∷◌, ◌++◌, Option, some, String, string_eq, All, Bool-cases, inl,
  inr,
}
use aim_rt.Prelude.Map.{Map}
use aim_rt.Core.Lifecycle.{start, Outcome, done, thrown, Outcome-cases, is_init, is_shutdown}
use aim_rt.Core.Modules.{
  ModuleApi, ModuleManager, ModuleOptions, ModuleWrapper, Loaded, Sys, initialize,
}
use aim_rt.Core.Modules.Running.{
  module_at, start_names, shutdown_names, start_modules, shutdown_modules,
}
use aim_rt.Core.Modules.Order.{Modules, names_of, initialized, all_started, shut_in_reverse}
use aim_rt.Core.Modules.Loading.{modules_of, initialize-Installed}

module _ {M : Type 0} {W : Type 0} (api : ModuleApi M W) where
  start_names-all_started :
      (xs : Modules M) (wrappers : Map String (ModuleWrapper M)) (w : W)
      → All (λ e. module_at e.0 wrappers ≡ some e.1) xs
      → start_names api wrappers (names_of xs) w ≡ all_started api xs w
  unfolding start_names
  start_names-all_started [] wrappers w h = refl
  start_names-all_started ((n, x) ∷ xs) wrappers w (h, hs) = elim (Bool-cases (api.start x w).1) [
    | inl e ↦ rw (start_names, h, e) (start_names-all_started xs wrappers (api.start x w).0 hs)
    | inr e ↦ rw (start_names, h, e) refl
  ]

  shutdown_names-shut_in_reverse :
      (xs : Modules M) (wrappers : Map String (ModuleWrapper M)) (w : W)
      → All (λ e. module_at e.0 wrappers ≡ some e.1) xs
      → shutdown_names api wrappers (names_of xs) w ≡ shut_in_reverse api xs w
  unfolding shutdown_names
  shutdown_names-shut_in_reverse [] wrappers w h = refl
  shutdown_names-shut_in_reverse ((n, x) ∷ xs) wrappers w (h, hs) =
      rw (shutdown_names, h) (ap (api.shutdown x) (shutdown_names-shut_in_reverse xs wrappers w hs))

  abbrev pub with_manager : ModuleManager M → Outcome W → Outcome (Sys api)
  with_manager m (done w) = done (m, w)
  with_manager m (thrown w) = thrown (m, w)

  -- Where `Initialize` of a manager without modules returns, it has initialized, in the order of
  -- registration and then of the libraries, each module that the options do not disable, once and
  -- after its proxies were configured. `Start` then starts these modules in the same order, up to
  -- the first one that fails, where it throws; and a shutdown, after that or without it, shuts all
  -- of them down in the opposite order.
  pub initialize-order :
      (options : Option (List ModuleOptions)) (libs : List (Loaded M)) (m : ModuleManager M) (w : W)
      (s : Sys api)
      → m.module_init_order ≡ []
      → initialize api options (some libs) (m, w) ≡ done s
      → let xs = modules_of api options libs m in
        let running : ModuleManager M = record s.0 { state = start } in
        (s.0.module_init_order ≡ names_of xs)
        × (s.1 ≡ initialized api xs w)
        × (start_modules api s ≡ with_manager running (all_started api xs s.1))
        × ((v : W) → (shutdown_modules api (running, v)).1 ≡ shut_in_reverse api xs v)
        × ((v : W) → (shutdown_modules api (s.0, v)).1 ≡ shut_in_reverse api xs v)
  unfolding start_modules shutdown_modules
  initialize-order options libs m w (m', w') fresh h =
      let xs = modules_of api options libs m in
      let i = initialize-Installed api options libs m w (m', w') h in
      let order = i.order ∙ ap (λ zs. zs ++ names_of xs) fresh in
      let starts : start_names api m'.module_wrapper_map m'.module_init_order w'
          ≡ all_started api xs w' =
        ap (λ zs. start_names api m'.module_wrapper_map zs w') order
        ∙ start_names-all_started xs m'.module_wrapper_map w' i.found in
      let shuts = λ (v : W).
        ap (λ zs. shutdown_names api m'.module_wrapper_map zs v) order
        ∙ shutdown_names-shut_in_reverse xs m'.module_wrapper_map v i.found in
      let running : ModuleManager M = record m' { state = start } in
      let starting : start_modules api (m', w') ≡ with_manager running (all_started api xs w') =
        elim (Outcome-cases (all_started api xs w')) [
          | inl (v, e) ↦ simp (start_modules, ap is_init i.state, starts, e) refl
          | inr (v, e) ↦ simp (start_modules, ap is_init i.state, starts, e) refl
        ] in
      (
        order,
        i.world,
        starting,
        shuts,
        λ v. simp (shutdown_modules, ap is_shutdown i.state) (shuts v),
      )
