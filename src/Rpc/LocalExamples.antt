-- ===== src/Rpc/LocalExamples.antt =====
-- The local RPC backend with one service in package "b"; requests are numbers, of which 9 cannot be
-- serialized.
use aim_rt.Prelude.{
  ℕ, ◌≡◌, refl, ◌⊎◌, false, List, [], ◌∷◌, ◌++◌, none, some, String, string_eq, nat_eq, ◌==◌,
  if◌then◌else◌,
}
use aim_rt.Prelude.Map.{Map, find}
use aim_rt.Core.Lifecycle.{start, thrown}
use aim_rt.Rpc.Context.{Context, client}
use aim_rt.Rpc.Registry.{FuncInfo, ServiceFuncWrapper, empty_registry}
use aim_rt.Rpc.Manager.{code}
use aim_rt.Rpc.Local.{Call, Sys, ServiceFuncIndexMap, refused, choose}
use aim_rt.Rpc.Local.Calls.{Env, invoke, call_other, time_out}
use aim_rt.Rpc.Local.Choosing.{Choices, choose-Choices, AllFilled}
use aim_rt.Rpc.Local.Answering.{IsHandled, invoke-IsHandled}
use aim_rt.Rpc.Local.Faults.{armed, with_tool, unserialized_times_out}

abbrev demo_env : Env ℕ ℕ ℕ
demo_env = record {
  parse = λ a. none;
  serialize_req = λ i t q. if q == 9 then none else some q;
  deserialize_req = λ i t d. some d;
  serialize_rsp = λ i t r. some r;
  deserialize_rsp = λ i t d. some d;
}

abbrev demo_index : ServiceFuncIndexMap
demo_index = ("add", ("b", "two" ∷ []) ∷ []) ∷ []

abbrev demo_info : String → String → FuncInfo
demo_info pkg mod_name = record {
  func_name = "add";
  pkg_path = pkg;
  module_name = mod_name;
  index = 0;
  req_default_serialization_type = "pb";
  rsp_default_serialization_type = "pb";
}

abbrev demo_ctx : Context
demo_ctx = record { type = client; used = false; timeout_ns = 100; meta_data_map = [] }

abbrev demo_call : Call ℕ
demo_call = record { id = 1; info = demo_info "a" "one"; ctx_ref = demo_ctx; req_ptr = 9 }

abbrev demo_sys : Sys String ℕ
demo_sys = record {
  backend = record {
    timeout_executor = "timer";
    state = start;
    get_executor_func = none;
    req_id = 0;
    client_tool_ptr = some (armed []);
    service_func_register_index = demo_index;
  };
  running = [];
  answers = [];
  dropped = [];
}

demo_index-AllFilled : AllFilled demo_index
demo_index-AllFilled = ((refl, tt), tt)

abbrev demo_service : ServiceFuncWrapper ℕ
demo_service = record { info = demo_info "b" "three"; service_func = 0 }

choose-Choices_example :
    ((find "add" demo_index ≡ none) × (choose demo_index "add" "" "two" ≡ refused (code 1003)))
    ⊎ ((pkgs : Map String (List String)) × (find "add" demo_index ≡ some pkgs)
        × Choices pkgs "" "two" (choose demo_index "add" "" "two"))
choose-Choices_example = choose-Choices demo_index "add" "" "two" demo_index-AllFilled

invoke-IsHandled_example :
    IsHandled demo_env demo_call demo_sys
      (invoke demo_env demo_call (empty_registry {F = ℕ}) demo_sys)
invoke-IsHandled_example =
    invoke-IsHandled demo_env demo_call empty_registry (armed []) demo_sys refl refl

unserialized_times_out_example :
    ((call_other demo_env demo_call
        (demo_info "b" "two")
        demo_ctx
        (with_tool demo_sys (armed []))).answers
      ≡ [] ++ (1, code 2006) ∷ [])
    × (s' : Sys String ℕ) × (time_out demo_env 0 (
          call_other demo_env demo_call
            (demo_info "b" "two")
            demo_ctx
            (with_tool demo_sys (armed [])))
        ≡ thrown s')
unserialized_times_out_example =
    unserialized_times_out demo_env demo_call (demo_info "b" "two") demo_ctx [] demo_sys refl
      (unfold find in refl) refl
