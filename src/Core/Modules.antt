-- ===== src/Core/Modules.antt =====
-- src/runtime/core/module/module_manager.{h,cc}. `M` are the modules and `W` what their methods change.
-- What the dynamic libraries hold comes as a list, in the order in which their map is gone through.
pub mod Running
pub mod Order
pub mod Loading
pub mod Phases
use aim_rt.Prelude.{
  Bool, true, false, not, List, [], ◌∷◌, ◌++◌, Option, none, some, String, string_eq, ◌==◌,
  if◌then◌else◌,
}
use aim_rt.Prelude.Map.{Map, find, emplace}
use aim_rt.Core.Lifecycle.{
  State, pre_init, init, start, shutdown, Outcome, done, thrown, is_pre_init, is_init, is_start,
  is_shutdown,
}

-- The C interface of a module, with `Initialize` after its proxies are configured.
pub record ModuleApi (M W : Type 0) : Type 0 where
  pub name : M → String
  pub configure : String → W → W
  pub initialize : M → W → W × Bool
  pub start : M → W → W × Bool
  pub shutdown : M → W → W

pub record ModuleOptions : Type 0 where
  pub name : String
  pub enable : Bool

pub record ModuleWrapper (M : Type 0) : Type 0 where
  pub pkg_path : String
  pub module_ptr : Option M

-- A module of a dynamic library, by the name in its list.
pub record Loaded (M : Type 0) : Type 0 where
  pub pkg_path : String
  pub name : String
  pub module_ptr : Option M

pub record ModuleManager (M : Type 0) : Type 0 where
  pub has_configurator : Bool
  pub state : State
  pub modules_options : List ModuleOptions
  pub registered_module_vec : List (String × Option M)
  pub module_init_order : List String
  pub module_wrapper_map : Map String (ModuleWrapper M)

abbrev pub new_options : String → ModuleOptions
new_options name = record { name = name; enable = true }

unfoldable pub get_module_options : String → List ModuleOptions → Option ModuleOptions
get_module_options name [] = none
get_module_options name (o ∷ os) =
    let rest = get_module_options name os in if o.name == name then some o else rest

unfoldable pub is_disabled : String → List ModuleOptions → Bool
unfolding get_module_options
is_disabled name os = elim (get_module_options name os) [ none ↦ false | some o ↦ not o.enable ]

abbrev pub is_there : {A : Type 0} → Option A → Bool
is_there none = false
is_there (some a) = true

module _ {M : Type 0} where
  abbrev pub new_manager : ModuleManager M
  new_manager = record {
    has_configurator = false;
    state = pre_init;
    modules_options = [];
    registered_module_vec = [];
    module_init_order = [];
    module_wrapper_map = [];
  }

  unfoldable pub register_module : String → Option M → ModuleManager M → Outcome (ModuleManager M)
  register_module pkg x m =
      if is_pre_init m.state
      then elim x [
        | none ↦ thrown m
        | some y ↦
            done
              (record m { registered_module_vec = m.registered_module_vec ++ ((pkg, some y) ∷ []) })
      ]
      else thrown m

  unfoldable pub register_core_proxy_configurator : ModuleManager M → Outcome (ModuleManager M)
  register_core_proxy_configurator m =
      if is_pre_init m.state then done (record m { has_configurator = true }) else thrown m

  -- Options that are not there are added.
  abbrev pub with_options : String → ModuleManager M → ModuleManager M
  with_options name m = elim (get_module_options name m.modules_options) [
    | some o ↦ m
    | none ↦ record m { modules_options = m.modules_options ++ (new_options name ∷ []) }
  ]

  module _ {W : Type 0} (api : ModuleApi M W) where
    abbrev pub Sys : Type 0
    Sys = ModuleManager M × W

    unfoldable pub init_module : String → Option M → Sys → Outcome Sys
    unfolding get_module_options
    init_module name none (m, w) = done (with_options name m, api.configure name w)
    init_module name (some x) (m, w) =
        let (w1, ret) = api.initialize x (api.configure name w) in
        if ret then done (with_options name m, w1) else thrown (with_options name m, w1)

    abbrev pub wrapped : String → String → Option M → ModuleManager M → ModuleManager M
    wrapped pkg name x m = record m {
      module_wrapper_map =
          (emplace name (record { pkg_path = pkg; module_ptr = x }) m.module_wrapper_map).0;
    }

    -- What both loops of `Initialize` do with a module that is there.
    unfoldable pub install : String → String → M → Sys → Outcome Sys
    unfolding init_module
    install pkg name x s = elim (init_module name (some x) s) [
      | thrown s1 ↦ thrown s1
      | done s1 ↦ done (
        record (wrapped pkg name (some x) s1.0) {
          module_init_order = s1.0.module_init_order ++ (name ∷ []);
        },
        s1.1,
      )
    ]

    abbrev pub has_wrapper : String → Sys → Bool
    has_wrapper name s = is_there (find name s.0.module_wrapper_map)

    unfoldable pub init_registered : String × Option M → Sys → Outcome Sys
    unfolding install is_disabled
    init_registered (pkg, none) s = thrown s
    init_registered (pkg, some x) s =
        let name = api.name x in
        let installed = install pkg name x s in
        if is_disabled name s.0.modules_options
        then done s
        else if has_wrapper name s
        then thrown s
        else installed

    unfoldable pub init_loaded : Loaded M → Sys → Outcome Sys
    unfolding install is_disabled
    init_loaded l s =
        let installed : Outcome Sys = elim l.module_ptr [
          | none ↦ thrown s
          | some x ↦ install l.pkg_path l.name x s
        ] in
        if is_disabled l.name s.0.modules_options
        then done s
        else if has_wrapper l.name s
        then thrown s
        else installed

    unfoldable pub init_all : {E : Type 0} → (E → Sys → Outcome Sys) → List E → Sys → Outcome Sys
    init_all f [] s = done s
    init_all f (e ∷ es) s = elim (f e s) [ thrown s1 ↦ thrown s1 | done s1 ↦ init_all f es s1 ]

    abbrev pub and_then : Outcome Sys → (Sys → Outcome Sys) → Outcome Sys
    and_then (done s) f = f s
    and_then (thrown s) f = thrown s

    -- `options` are none without a node, and `libs` are none where a library cannot be loaded.
    unfoldable pub initialize :
        Option (List ModuleOptions) → Option (List (Loaded M)) → Sys → Outcome Sys
    unfolding init_registered init_loaded init_all
    initialize options libs (m, w) =
        let m1 : ModuleManager M = record m {
          state = init;
          modules_options = elim options [ none ↦ m.modules_options | some os ↦ os ];
        } in
        if not m.has_configurator
        then thrown (m, w)
        else if not (is_pre_init m.state)
        then thrown (record m { state = init }, w)
        else elim libs [
          | none ↦ thrown (m1, w)
          | some ls ↦
              and_then (init_all init_registered m.registered_module_vec (m1, w))
                (init_all init_loaded ls)
        ]

    unfoldable pub create_module : String → String → Sys → Outcome Sys
    unfolding init_module
    create_module pkg name s =
        let made =
          and_then (init_module name none s) (λ s1. done (wrapped pkg name none s1.0, s1.1)) in
        if not (is_init s.0.state) then thrown s else if has_wrapper name s then thrown s else made
