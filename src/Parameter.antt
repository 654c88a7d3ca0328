-- ===== src/Parameter.antt =====
-- src/runtime/core/parameter and src/plugins/parameter_plugin/service.cc. A pointer to a string is an
-- `Option`: `none` is the null pointer. The maps that messages hold are association lists.
pub mod Service
pub mod Keys
pub mod Storing
pub mod Dumping
pub mod Snapshot
mod Examples
use aim_rt.Prelude.{
  ◌≡◌, Bool, true, false, List, [], ◌∷◌, Option, none, some, String, string_eq, ◌==◌, if◌then◌else◌,
}
use aim_rt.Prelude.Map.{Map, find, assign, erase, emplace}
use aim_rt.Core.Lifecycle.{
  State, pre_init, init, start, shutdown, Outcome, done, thrown, is_pre_init, is_init, is_shutdown,
}

abbrev pub ParameterMap : Type 0
ParameterMap = Map String (Option String)

-- `!value_ptr || value_ptr->empty()`
abbrev pub is_blank : Option String → Bool
is_blank none = true
is_blank (some s) = s == ""

abbrev pub is_present : {A : Type 0} → Option A → Bool
is_present none = false
is_present (some a) = true

unfoldable pub get_parameter : String → ParameterMap → Option String
get_parameter key m = elim (find key m) [ none ↦ none | some v ↦ v ]

unfoldable pub set_parameter : String → Option String → ParameterMap → ParameterMap
set_parameter key value_ptr m =
    if is_present (find key m)
    then (if is_blank value_ptr then erase key m else assign key value_ptr m)
    else (emplace key value_ptr m).0

unfoldable pub list_parameter : ParameterMap → List String
list_parameter [] = []
list_parameter ((key, v) ∷ m) = key ∷ list_parameter m

pub record ParameterManager : Type 0 where
  pub state : State
  pub handles : Map String ParameterMap

abbrev pub new_manager : ParameterManager
new_manager = record { state = pre_init; handles = [] }

-- The flag says that the options, if there are any, are a map.
unfoldable pub initialize : Bool → ParameterManager → Outcome ParameterManager
initialize fits m =
    let m1 : ParameterManager = record m { state = init } in
    if is_pre_init m.state then (if fits then done m1 else thrown m1) else thrown m1

unfoldable pub start_manager : ParameterManager → Outcome ParameterManager
start_manager m =
    let m1 : ParameterManager = record m { state = start } in
    if is_init m.state then done m1 else thrown m1

unfoldable pub shutdown_manager : ParameterManager → ParameterManager
shutdown_manager m = if is_shutdown m.state then m else record { state = shutdown; handles = [] }

unfoldable pub get_parameter_handle_proxy : String → ParameterManager → Outcome ParameterManager
get_parameter_handle_proxy name m =
    if is_init m.state
    then done (record m { handles = (emplace name [] m.handles).0 })
    else thrown m
