-- ===== src/Rpc/Manager.antt =====
-- src/runtime/core/rpc/rpc_backend_manager.{h,cc} with the interface of rpc_backend_base.h and
-- `InvokeWrapper` of rpc_invoke_wrapper.h (its serialization caches aside). `B` are the backends,
-- `Q` and `R` what requests and responses point to, and `W` is what backends, filters, services and
-- callbacks change. `InvokeCallBack` also drops the callback, which only frees memory.
pub mod Setup
pub mod Calls
pub mod Invariant
pub mod Answers
use aim_rt.Prelude.{ℕ, Bool, List, Option, String, ◌^◌}
use aim_rt.Prelude.Map.{Map}
use aim_rt.Core.Lifecycle.{State}
use aim_rt.Core.Filter.{FilterManager}
use aim_rt.Core.Rules.{Rules, Regex}
use aim_rt.Rpc.Registry.{FuncInfo, ServiceFuncWrapper, ClientFuncWrapper, RpcRegistry}
use aim_rt.Rpc.Context.{Context}

-- The codes of src/interface/aimrt_module_c_interface/rpc/rpc_status_base.h that the manager gives
-- itself; services and backends give any code.
pub data Status : Type 0 where
  cli_func_not_registered cli_invalid_context cli_no_backend_to_handle cli_invalid_addr : Status
  code : ℕ → Status

abbrev pub Callback : Type 0 → Type 0
Callback W = Status → W → W

pub record InvokeWrapper (Q R W : Type 0) : Type 0 where
  pub info : FuncInfo
  pub req_ptr : Q
  pub rsp_ptr : R
  pub ctx_ref : Context
  pub callback : Callback W

abbrev pub ServiceFunc : Type 0 → Type 0 → Type 0 → Type 0
ServiceFunc Q R W = InvokeWrapper Q R W → W → W

-- A service as its module gives it: context, request, response, and the callback for its status.
abbrev pub ModuleService : Type 0 → Type 0 → Type 0 → Type 0
ModuleService Q R W = Context → Q → R → Callback W → W → W

pub record BackendApi (B Q R W : Type 0) : Type 0 where
  pub name : B → String
  pub start : B → W → W
  pub shutdown : B → W → W
  pub register_service_func : B → ServiceFuncWrapper (ServiceFunc Q R W) → W → W × Bool
  pub register_client_func : B → ClientFuncWrapper → W → W × Bool
  pub invoke : B → InvokeWrapper Q R W → W → W
  -- Backends are told apart by their address.
  pub same : B → B → Bool

-- The standard library: regular expressions, and decimal text of a number.
pub record Env : Type 0 where
  pub regex_match : Regex
  pub to_string : ℕ → String

pub record RegisterServiceFuncProxyInfo (Q R W : Type 0) : Type 0 where
  pub pkg_path : String
  pub module_name : String
  pub func_name : String
  pub req_type_support : Option String
  pub rsp_type_support : Option String
  pub service_func : Option (ModuleService Q R W)

pub record RegisterClientFuncProxyInfo : Type 0 where
  pub pkg_path : String
  pub module_name : String
  pub func_name : String
  pub req_type_support : Option String
  pub rsp_type_support : Option String

pub record InvokeProxyInfo (Q R W : Type 0) : Type 0 where
  pub pkg_path : String
  pub module_name : String
  pub func_name : String
  pub ctx : Context
  pub req_ptr : Q
  pub rsp_ptr : R
  pub callback : Callback W

pub record RpcBackendManager (B Q R W : Type 0) : Type 0 where
  pub state : State
  pub client_index : ℕ
  pub server_index : ℕ
  pub registry : RpcRegistry (ServiceFunc Q R W)
  pub clients_filters_rules : Rules
  pub servers_filters_rules : Rules
  pub client_filter_manager : FilterManager (InvokeWrapper Q R W) W
  pub server_filter_manager : FilterManager (InvokeWrapper Q R W) W
  pub rpc_backend_index_vec : List B
  pub rpc_backend_index_map : Map String B
  pub clients_backends_rules : Rules
  pub servers_backends_rules : Rules
  pub clients_backend_index_map : Map String (List B)
  pub servers_backend_index_map : Map String (List B)
  pub request_id_map : Map String ℕ

-- The manager and the outside.
abbrev pub Sys : Type 0 → Type 0 → Type 0 → Type 0 → Type 0
Sys B Q R W = RpcBackendManager B Q R W × W

abbrev pub u64_mod : ℕ
u64_mod = 2 ^ 64

abbrev pub u32_mod : ℕ
u32_mod = 2 ^ 32
