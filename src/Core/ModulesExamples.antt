-- ===== src/Core/ModulesExamples.antt =====
-- module_manager.cc: two modules are registered, one is in a library and disabled; what the modules do
-- is a list of texts.
use aim_rt.Prelude.{◌≡◌, refl, true, false, List, [], ◌∷◌, ◌++◌, some, String, string_eq}
use aim_rt.Prelude.Map.{find, emplace}
use aim_rt.Core.Lifecycle.{start, done, init}
use aim_rt.Core.Modules.{
  ModuleApi, ModuleManager, ModuleOptions, Loaded, new_manager, initialize, is_disabled,
  get_module_options,
}
use aim_rt.Core.Modules.Running.{start_modules, shutdown_modules}
use aim_rt.Core.Modules.Order.{names_of, initialized, all_started, shut_in_reverse}
use aim_rt.Core.Modules.Loading.{modules_of}
use aim_rt.Core.Modules.Phases.{with_manager, initialize-order}

abbrev demo_api : ModuleApi String (List String)
demo_api = record {
  name = λ x. x;
  configure = λ n w. w;
  initialize = λ x w. (w ++ (x ∷ []), true);
  start = λ x w. (w ++ (x ∷ []), true);
  shutdown = λ x w. w ++ (x ∷ []);
}

abbrev demo_manager : ModuleManager String
demo_manager = record new_manager {
  has_configurator = true;
  registered_module_vec = ("core", some "camera") ∷ ("core", some "lidar") ∷ [];
}

abbrev demo_options : List ModuleOptions
demo_options = record { name = "radar"; enable = false } ∷ []

abbrev demo_libs : List (Loaded String)
demo_libs = record { pkg_path = "lib"; name = "radar"; module_ptr = some "radar" } ∷ []

abbrev demo_ready : ModuleManager String
demo_ready = record {
  has_configurator = true;
  state = init;
  modules_options =
      record { name = "radar"; enable = false }
      ∷ record { name = "camera"; enable = true }
      ∷ record { name = "lidar"; enable = true }
      ∷ [];
  registered_module_vec = ("core", some "camera") ∷ ("core", some "lidar") ∷ [];
  module_init_order = "camera" ∷ "lidar" ∷ [];
  module_wrapper_map =
      ("lidar", record { pkg_path = "core"; module_ptr = some "lidar" })
      ∷ ("camera", record { pkg_path = "core"; module_ptr = some "camera" })
      ∷ [];
}

abbrev demo_running : ModuleManager String
demo_running = record demo_ready { state = start }

abbrev demo_words : List String
demo_words = "camera" ∷ "lidar" ∷ []

abbrev demo_modules : List (String × String)
demo_modules = modules_of demo_api (some demo_options) demo_libs demo_manager

demo_initializes :
    initialize demo_api (some demo_options) (some demo_libs) (demo_manager, [])
    ≡ done (demo_ready, demo_words)
unfolding initialize is_disabled get_module_options find emplace
demo_initializes = refl

initialize-order_example :
    (demo_words ≡ names_of demo_modules)
    × (demo_words ≡ initialized demo_api demo_modules [])
    × (start_modules demo_api (demo_ready, demo_words)
        ≡ with_manager demo_api demo_running (all_started demo_api demo_modules demo_words))
    × ((v : List String)
        → (shutdown_modules demo_api (demo_running, v)).1 ≡ shut_in_reverse demo_api demo_modules v)
    × ((v : List String)
        → (shutdown_modules demo_api (demo_ready, v)).1 ≡ shut_in_reverse demo_api demo_modules v)
initialize-order_example =
    initialize-order demo_api (some demo_options) demo_libs demo_manager [] (demo_ready, demo_words)
      refl demo_initializes
