-- ===== src/Rpc/Examples.antt =====
-- The RPC manager on a function "echo" with two backends, and the table of pending calls.
use aim_rt.Prelude.{
  ℕ, ◌+◌, ◌≡◌, refl, true, false, ◌||◌, List, [], ◌∷◌, ◌++◌, some, string_eq, nat_eq, ◌==◌,
  if◌then◌else◌, length, arith,
}
use aim_rt.Prelude.Map.{find, find_or}
use aim_rt.Core.Lifecycle.{init, start, done}
use aim_rt.Core.Filter.{empty_manager}
use aim_rt.Core.Rules.{Rules}
use aim_rt.Rpc.Registry.{
  FuncInfo, ServiceFuncWrapper, ClientFuncWrapper, empty_registry, key_of, key_eq,
  get_client_func_wrapper, IsIndexed,
}
use aim_rt.Rpc.Context.{client, to_addr_key}
use aim_rt.Rpc.Manager.{
  ServiceFunc, BackendApi, Env, RegisterClientFuncProxyInfo, InvokeProxyInfo, RpcBackendManager,
}
use aim_rt.Rpc.Manager.Calls.{Invoked, invoke_func, scheme_of}
use aim_rt.Rpc.Manager.Invariant.{IsCallable}
use aim_rt.Rpc.Manager.Answers.{IsAnswered, invoke_func-IsAnswered}
use aim_rt.Rpc.ClientTool.{empty_tool, Event, recorded, answered, fired, all_steps}
use aim_rt.Rpc.ClientTool.Once.{IsUnique, all_steps-Balanced}

-- The world is a log: a backend leaves its number, a callback 0.
abbrev demo_env : Env
demo_env = record {
  regex_match = λ pattern text. some (pattern == "(.*)" || pattern == text);
  to_string = λ n. "n";
}

abbrev demo_api : BackendApi ℕ ℕ ℕ (List ℕ)
demo_api = record {
  name = λ b. if b == 1 then "local" else "mqtt";
  start = λ b w. w;
  shutdown = λ b w. w;
  register_service_func = λ b t w. (w, true);
  register_client_func = λ b t w. (w, true);
  invoke = λ b msg w. w ++ b ∷ [];
  same = λ a b. a == b;
}

abbrev demo_info : FuncInfo
demo_info = record {
  func_name = "echo";
  pkg_path = "p.so";
  module_name = "mod";
  index = 1;
  req_default_serialization_type = "pb";
  rsp_default_serialization_type = "pb";
}

abbrev demo_client : ClientFuncWrapper
demo_client = record { info = demo_info }

abbrev demo_service : ServiceFuncWrapper (ServiceFunc ℕ ℕ (List ℕ))
demo_service = record { info = demo_info; service_func = λ msg w. w }

abbrev demo_rules : Rules
demo_rules = ("(.*)", "mqtt" ∷ "local" ∷ []) ∷ []

abbrev demo_manager : RpcBackendManager ℕ ℕ ℕ (List ℕ)
demo_manager = record {
  state = init;
  client_index = 0;
  server_index = 0;
  registry = empty_registry;
  clients_filters_rules = [];
  servers_filters_rules = [];
  client_filter_manager = empty_manager;
  server_filter_manager = empty_manager;
  rpc_backend_index_vec = 1 ∷ 2 ∷ [];
  rpc_backend_index_map = ("local", 1) ∷ ("mqtt", 2) ∷ [];
  clients_backends_rules = demo_rules;
  servers_backends_rules = demo_rules;
  clients_backend_index_map = [];
  servers_backend_index_map = [];
  request_id_map = [];
}

abbrev demo_started : RpcBackendManager ℕ ℕ ℕ (List ℕ)
demo_started = record demo_manager {
  state = start;
  client_index = 1;
  registry = record empty_registry {
    client_func_wrapper_map = (key_of demo_info, demo_client) ∷ [];
    client_index_map = ("echo", demo_client ∷ []) ∷ [];
  };
  clients_backend_index_map = ("echo", 2 ∷ 1 ∷ []) ∷ [];
  request_id_map = ("echo", 0) ∷ [];
}

abbrev demo_register : RegisterClientFuncProxyInfo
demo_register = record {
  pkg_path = "p.so";
  module_name = "mod";
  func_name = "echo";
  req_type_support = some "pb";
  rsp_type_support = some "pb";
}

-- A call to the backend "local".
abbrev demo_invoke : InvokeProxyInfo ℕ ℕ (List ℕ)
demo_invoke = record {
  pkg_path = "p.so";
  module_name = "mod";
  func_name = "echo";
  ctx = record {
    type = client;
    used = false;
    timeout_ns = 0;
    meta_data_map = (to_addr_key, "local://host") ∷ [];
  };
  req_ptr = 1;
  rsp_ptr = 2;
  callback = λ st w. w ++ 0 ∷ [];
}

empty-IsIndexed : IsIndexed (empty_registry {F = ServiceFunc ℕ ℕ (List ℕ)})
unfolding find_or find
empty-IsIndexed = ((λ f. refl), (λ f. refl))

empty-IsCallable : IsCallable demo_manager
unfolding find
empty-IsCallable k h = ground arith

scheme_of_demo : scheme_of "local://host" ≡ some "local"
unfolding scheme_of
scheme_of_demo = refl

same_refl : (b : ℕ) → demo_api.same b b ≡ true
same_refl b = ground arith

invoke_func-IsAnswered_example :
    (r : Invoked demo_env demo_api) × (invoke_func demo_env demo_api demo_invoke (demo_started, [])
      ≡ done r)
    × IsAnswered demo_env demo_api demo_started.clients_backend_index_map
        (record {
          info = demo_info;
          req_ptr = 1;
          rsp_ptr = 2;
          ctx_ref = demo_invoke.ctx;
          callback = demo_invoke.callback;
        })
        []
        r.sys.1
unfolding get_client_func_wrapper find
invoke_func-IsAnswered_example =
    invoke_func-IsAnswered demo_env demo_api same_refl demo_invoke demo_client demo_started [] refl
      refl refl

-- One call is answered, one runs into its timeout.
abbrev demo_calls : List (Event ℕ)
demo_calls = recorded 1 5 10 ∷ recorded 2 5 20 ∷ answered 1 ∷ fired 0 ∷ fired 0 ∷ []

empty-IsUnique : IsUnique (empty_tool {R = ℕ}).client_msg_recorder_map
empty-IsUnique k = omega arith

all_steps-Balanced_example :
    IsUnique (all_steps demo_calls empty_tool).tool.client_msg_recorder_map
    × (length (empty_tool {R = ℕ}).client_msg_recorder_map + (all_steps demo_calls empty_tool).taken
        ≡ length (all_steps demo_calls empty_tool).tool.client_msg_recorder_map
          + length (all_steps demo_calls empty_tool).out)
all_steps-Balanced_example = all_steps-Balanced demo_calls empty_tool empty-IsUnique
