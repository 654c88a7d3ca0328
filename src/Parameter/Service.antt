-- ===== src/Parameter/Service.antt =====
-- plugins/parameter_plugin/service.cc. A request in a state that is not `Start` throws where it first
-- asks for a handle.
use aim_rt.Prelude.{List, [], ◌∷◌, Option, none, some, String, string_eq, if◌then◌else◌}
use aim_rt.Prelude.Map.{Map, find, assign, emplace, find_or}
use aim_rt.Core.Lifecycle.{is_start}
use aim_rt.Parameter.{ParameterMap, ParameterManager, get_parameter, set_parameter, list_parameter}

pub data ErrorCode : Type 0 where
  success invalid_module_name : ErrorCode

-- A response with its code, or the exception of `GetParameterHandle`.
pub data Response (A : Type 0) : Type 0 where
  responds : ErrorCode → A → Response A
  raises : Response A

-- `GetParameterHandle`: the handle, or a null pointer.
unfoldable pub get_parameter_handle : String → ParameterManager → Response (Option ParameterMap)
get_parameter_handle name m =
    if is_start m.state then responds success (find name m.handles) else raises

abbrev pub with_handle : String → ParameterMap → ParameterManager → ParameterManager
with_handle name h m = record m { handles = assign name h m.handles }

unfoldable pub set :
    String → String → String → ParameterManager → ParameterManager × Response (Unit {0})
unfolding get_parameter_handle
set name key value m = elim (get_parameter_handle name m) [
  | raises ↦ (m, raises)
  | responds code none ↦ (m, responds invalid_module_name tt)
  | responds code (some h) ↦
      (with_handle name (set_parameter key (some value) h) m, responds success tt)
]

abbrev pub text_of : Option String → String
text_of none = ""
text_of (some s) = s

unfoldable pub get : String → String → ParameterManager → Response String
unfolding get_parameter_handle
get name key m = elim (get_parameter_handle name m) [
  | raises ↦ raises
  | responds code none ↦ responds invalid_module_name ""
  | responds code (some h) ↦ responds success (text_of (get_parameter key h))
]

unfoldable pub list : String → ParameterManager → Response (List String)
unfolding get_parameter_handle
list name m = elim (get_parameter_handle name m) [
  | raises ↦ raises
  | responds code none ↦ responds invalid_module_name []
  | responds code (some h) ↦ responds success (list_parameter h)
]

-- The inner loop of `Dump`, over the names that `ListParameter` gave.
abbrev pub emplace_value : String → Option String → Map String String → Map String String
emplace_value key none pb = pb
emplace_value key (some v) pb = (emplace key v pb).0

unfoldable pub dump_names : ParameterMap → List String → Map String String → Map String String
dump_names h [] pb = pb
dump_names h (key ∷ keys) pb = dump_names h keys (emplace_value key (get_parameter key h) pb)

abbrev pub DumpMap : Type 0
DumpMap = Map String (Map String String)

-- `dumped` is the map of the response, to which each module adds its entry.
unfoldable pub dump : List String → ParameterManager → DumpMap → Response DumpMap
unfolding get_parameter_handle
dump [] m dumped = responds success dumped
dump (name ∷ names) m dumped = elim (get_parameter_handle name m) [
  | raises ↦ raises
  | responds code none ↦ responds invalid_module_name dumped
  | responds code (some h) ↦
      dump names m (assign name (dump_names h (list_parameter h) (find_or [] name dumped)) dumped)
]

-- The inner loop of `Load`.
unfoldable pub load_values : Map String String → ParameterMap → ParameterMap
load_values [] h = h
load_values ((key, v) ∷ pb) h = load_values pb (set_parameter key (some v) h)

unfoldable pub load : DumpMap → ParameterManager → ParameterManager × Response (Unit {0})
unfolding get_parameter_handle
load [] m = (m, responds success tt)
load ((name, pb) ∷ rest) m = elim (get_parameter_handle name m) [
  | raises ↦ (m, raises)
  | responds code none ↦ (m, responds invalid_module_name tt)
  | responds code (some h) ↦ load rest (with_handle name (load_values pb h) m)
]
