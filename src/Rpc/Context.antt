-- ===== src/Rpc/Context.antt =====
-- `Context` of src/interface/aimrt_module_cpp_interface/rpc/rpc_context.h, with the keys of
-- src/interface/aimrt_module_c_interface/rpc/rpc_context_base.h. A context is its value here: what a
-- holder of a reference changes is passed on with the value.
use aim_rt.Prelude.{
  ℕ, ◌≡◌, refl, Bool, true, false, List, [], map, String, string_eq, ◌==◌, if◌then◌else◌,
}
use aim_rt.Prelude.Map.{Map, find_or, assign, find_or-assign}

pub data ContextType : Type 0 where
  client server : ContextType

abbrev pub is_client : ContextType → Bool
is_client client = true
is_client server = false

pub record Context : Type 0 where
  pub type : ContextType
  pub used : Bool
  pub timeout_ns : ℕ
  pub meta_data_map : Map String String

abbrev pub to_addr_key : String
to_addr_key = "aimrt-to_addr"

abbrev pub serialization_type_key : String
serialization_type_key = "aimrt-serialization_type"

abbrev pub backend_key : String
backend_key = "aimrt-backend"

abbrev pub request_id_key : String
request_id_key = "aimrt-request_id"

abbrev pub response_id_key : String
response_id_key = "aimrt-response_id"

unfoldable pub get_meta_value : String → Context → String
get_meta_value key ctx = find_or "" key ctx.meta_data_map

unfoldable pub set_meta_value : String → String → Context → Context
set_meta_value key val ctx = record ctx { meta_data_map = assign key val ctx.meta_data_map }

unfoldable pub get_meta_keys : Context → List String
get_meta_keys ctx = map (λ e. e.0) ctx.meta_data_map

unfoldable pub set_used : Context → Context
set_used ctx = record ctx { used = true }

unfoldable pub set_timeout : ℕ → Context → Context
set_timeout ns ctx = record ctx { timeout_ns = ns }

unfoldable pub reset : Context → Context
reset ctx = record ctx { used = false; timeout_ns = 0; meta_data_map = [] }

-- A meta value that is set is read back under its key, and no other key reads another value; the
-- flag and the timeout stay.
pub get_meta_value-set_meta_value :
    (key other val : String) (ctx : Context)
    → (get_meta_value other (set_meta_value key val ctx)
        ≡ (if key == other then val else get_meta_value other ctx))
      × ((set_meta_value key val ctx).used ≡ ctx.used)
      × ((set_meta_value key val ctx).timeout_ns ≡ ctx.timeout_ns)
unfolding get_meta_value set_meta_value
get_meta_value-set_meta_value key other val ctx =
    (find_or-assign "" key other val ctx.meta_data_map, refl, refl)
