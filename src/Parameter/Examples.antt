-- ===== src/Parameter/Examples.antt =====
-- src/runtime/core/parameter: a module with one parameter, dumped and loaded.
use aim_rt.Prelude.{All, true, ◌≡◌, refl, [], ◌∷◌, some, String, string_eq}
use aim_rt.Prelude.Map.{find, emplace, erase}
use aim_rt.Core.Lifecycle.{start}
use aim_rt.Parameter.{ParameterManager, ParameterMap, is_present, get_parameter, set_parameter}
use aim_rt.Parameter.Service.{responds, success, DumpMap, dump, get}
use aim_rt.Parameter.Snapshot.{Restored, load-dump_modules}

abbrev demo_handle : ParameterMap
demo_handle = ("rate", some "10") ∷ []

abbrev demo_key : String
demo_key = "rate"

abbrev demo_name : String
demo_name = "camera"

abbrev demo_running : ParameterManager
demo_running = record { state = start; handles = ("camera", demo_handle) ∷ [] }

abbrev demo_empty : ParameterManager
demo_empty = record { state = start; handles = ("camera", []) ∷ ("lidar", demo_handle) ∷ [] }

demo_get : get "camera" "rate" demo_running ≡ responds success "10"
unfolding get find get_parameter
demo_get = refl

-- An empty text makes a parameter come and go.
demo_comes : set_parameter demo_key (some "") [] ≡ (demo_key, some "") ∷ []
unfolding set_parameter find emplace
demo_comes = refl

demo_goes : set_parameter demo_key (some "") ((demo_key, some "") ∷ []) ≡ []
unfolding set_parameter find erase
demo_goes = refl

load-dump_modules_example :
    (dumped : DumpMap) × (dump (demo_name ∷ []) demo_running [] ≡ responds success dumped)
    × All (λ n. is_present (find n dumped) ≡ true) (demo_name ∷ [])
    × Restored demo_running dumped demo_empty
load-dump_modules_example =
    load-dump_modules (demo_name ∷ []) demo_running demo_empty refl refl
      ((demo_handle, unfold find in refl), tt) (unfold find in (refl, tt))
