-- ===== src/Rpc/Local.antt =====
-- src/runtime/core/rpc/local_rpc_backend.{h,cc}. `Q`, `R` are requests and responses, `D` serialized
-- buffers, `E` executors. `InvokeCallBack` of rpc_backend_tools.h empties the callback of the wrapper,
-- which the recorded call shares: `dropped` lists the calls whose callback is gone. A service that was
-- called is one entry of `running` until it gives its status. The options come as a value, an address
-- is parsed by a parameter, and a buffer is serialized anew each time.
pub mod Calls
pub mod Choosing
pub mod Answering
pub mod Faults
use aim_rt.Prelude.{
  ℕ, zero, suc, ◌+◌, ◌%◌, ◌^◌, Bool, true, false, not, ◌&&◌, ◌||◌, List, [], ◌∷◌, ◌++◌, Option,
  none, some, String, string_eq, nat_eq, ◌==◌, if◌then◌else◌,
}
use aim_rt.Prelude.Map.{Map, find, find_or, assign}
use aim_rt.Core.Lifecycle.{
  State, pre_init, init, start, shutdown, Outcome, done, thrown, is_pre_init, is_init, is_start,
  is_shutdown,
}
use aim_rt.Rpc.Context.{
  Context, server, get_meta_value, set_meta_value, get_meta_keys, set_timeout, to_addr_key,
  serialization_type_key, backend_key,
}
use aim_rt.Rpc.Registry.{FuncInfo, ServiceFuncWrapper, RpcRegistry, Key, get_service_func_wrapper}
use aim_rt.Rpc.Manager.{Status, code, cli_invalid_addr, u32_mod}
use aim_rt.Rpc.ClientTool.{
  RpcClientTool, empty_tool, record_call, get_record, take_timer, on_timeout, destroy,
}

-- `InvokeWrapper` of a client; `id` tells the wrappers apart.
pub record Call (Q : Type 0) : Type 0 where
  pub id : ℕ
  pub info : FuncInfo
  pub ctx_ref : Context
  pub req_ptr : Q

-- func_name, lib_path, module_name
abbrev pub ServiceFuncIndexMap : Type 0
ServiceFuncIndexMap = Map String (Map String (List String))

pub record LocalRpcBackend (E Q : Type 0) : Type 0 where
  pub timeout_executor : String
  pub state : State
  pub get_executor_func : Option (String → Option E)
  pub req_id : ℕ
  pub client_tool_ptr : Option (RpcClientTool (Call Q))
  pub service_func_register_index : ServiceFuncIndexMap

-- How a service's answer goes back: to the client in its package, or by the recorded request.
pub data Return (Q : Type 0) : Type 0 where
  direct : Call Q → Return Q
  recorded : ℕ → String → Return Q

pub record Running (Q : Type 0) : Type 0 where
  pub service : FuncInfo
  pub ctx : Context
  pub req : Q
  pub return_to : Return Q

pub record Sys (E Q : Type 0) : Type 0 where
  pub backend : LocalRpcBackend E Q
  pub running : List (Running Q)
  -- The callbacks that were called, by the wrapper's id, with their status.
  pub answers : List (ℕ × Status)
  pub dropped : List ℕ

abbrev pub local_name : String
local_name = "local"

abbrev pub is_dropped : ℕ → List ℕ → Bool
is_dropped i [] = false
is_dropped i (x ∷ xs) = x == i || is_dropped i xs

abbrev pub has_name : String → List String → Bool
has_name n [] = false
has_name n (x ∷ xs) = x == n || has_name n xs

pub data Choice : Type 0 where
  refused : Status → Choice
  chosen : String → String → Choice

-- `*(set.begin())`; no entry of the index is empty.
abbrev pub first_name : List String → String
first_name [] = ""
first_name (x ∷ xs) = x

unfoldable pub choose_first : Map String (List String) → Choice
choose_first [] = refused cli_invalid_addr
choose_first ((pkg, mods) ∷ rest) = chosen pkg (first_name mods)

-- The first package that has the module, or the empty text.
unfoldable pub pkg_with : String → Map String (List String) → String
pkg_with m [] = ""
pkg_with m ((pkg, mods) ∷ rest) =
    let later = pkg_with m rest in if has_name m mods then pkg else later

unfoldable pub choose_in : List String → String → String → Choice
choose_in mods pkg m =
    if m == ""
    then chosen pkg (first_name mods)
    else if has_name m mods
    then chosen pkg m
    else refused cli_invalid_addr

unfoldable pub choose_pkg : Map String (List String) → String → String → Choice
unfolding choose_first pkg_with choose_in
choose_pkg pkgs pkg m = elim (pkg == "") [
  | false ↦ elim (find pkg pkgs) [
    | none ↦ refused cli_invalid_addr
    | some mods ↦ choose_in mods pkg m
  ]
  | true ↦
      let found = pkg_with m pkgs in
      if m == ""
      then choose_first pkgs
      else if found == ""
      then refused cli_invalid_addr
      else chosen found m
]

unfoldable pub choose : ServiceFuncIndexMap → String → String → String → Choice
unfolding choose_pkg
choose index func pkg m = elim (find func index) [
  | none ↦ refused (code 1003)
  | some pkgs ↦ choose_pkg pkgs pkg m
]

-- protocol, and `pkg_path` and `module_name` of the query
pub record Addr : Type 0 where
  pub protocol : String
  pub pkg_path : String
  pub module_name : String

module _ {E Q : Type 0} where
  unfoldable pub bind_executor : (E → Bool) → LocalRpcBackend E Q → Outcome (LocalRpcBackend E Q)
  bind_executor support_timer_schedule b = elim b.get_executor_func [
    | none ↦ thrown b
    | some f ↦ elim (f b.timeout_executor) [
      | none ↦ thrown b
      | some e ↦
          if support_timer_schedule e
          then done
              (record b { client_tool_ptr = some (record empty_tool { timeout_executor = true }) })
          else thrown b
    ]
  ]

  unfoldable pub initialize :
      (E → Bool) → Option String → LocalRpcBackend E Q → Outcome (LocalRpcBackend E Q)
  unfolding bind_executor
  initialize support_timer_schedule options b =
      let b' : LocalRpcBackend E Q = record b {
        state = init;
        timeout_executor = elim options [ none ↦ b.timeout_executor | some o ↦ o ];
        client_tool_ptr = some empty_tool;
      } in
      let bound = bind_executor support_timer_schedule b' in
      if is_pre_init b.state
      then (if b'.timeout_executor == "" then done b' else bound)
      else thrown (record b { state = init })

  unfoldable pub start_backend : LocalRpcBackend E Q → Outcome (LocalRpcBackend E Q)
  start_backend b =
      let b' = record b { state = start } in if is_init b.state then done b' else thrown b'

  unfoldable pub shutdown_backend : LocalRpcBackend E Q → LocalRpcBackend E Q
  shutdown_backend b = if is_shutdown b.state then b else record b {
    state = shutdown;
    service_func_register_index = [];
    client_tool_ptr = none;
    get_executor_func = none;
  }

  -- `map[func][pkg].emplace(module)`
  unfoldable pub register_service :
      {F : Type 0} → ServiceFuncWrapper F → LocalRpcBackend E Q → LocalRpcBackend E Q × Bool
  register_service w b =
      let i = w.info in
      let pkgs = find_or [] i.func_name b.service_func_register_index in
      let mods = find_or [] i.pkg_path pkgs in
      let mods' = if has_name i.module_name mods then mods else i.module_name ∷ mods in
      if is_init b.state
      then (
        record b {
          service_func_register_index =
              assign i.func_name (assign i.pkg_path mods' pkgs) b.service_func_register_index;
        },
        true,
      )
      else (b, false)

  unfoldable pub register_client : LocalRpcBackend E Q → Bool
  register_client b = is_init b.state

  unfoldable pub register_get_executor_func :
      (String → Option E) → LocalRpcBackend E Q → Outcome (LocalRpcBackend E Q)
  register_get_executor_func f b =
      if is_pre_init b.state then done (record b { get_executor_func = some f }) else thrown b

  -- `InvokeCallBack`: an empty callback throws, which changes nothing.
  unfoldable pub invoke_call_back : Call Q → Status → Sys E Q → Sys E Q
  invoke_call_back c st s =
      if is_dropped c.id s.dropped
      then s
      else record s { answers = s.answers ++ (c.id, st) ∷ []; dropped = c.id ∷ s.dropped }

unfoldable pub copy_meta : List String → Context → Context → Context
copy_meta [] from ctx = ctx
copy_meta (k ∷ ks) from ctx = copy_meta ks from (set_meta_value k (get_meta_value k from) ctx)

-- The context of the service.
unfoldable pub service_ctx : FuncInfo → FuncInfo → Context → Context
unfolding copy_meta
service_ctx service client from =
    let fresh : Context = record {
      type = server;
      used = false;
      timeout_ns = from.timeout_ns;
      meta_data_map = [];
    } in
    let copied = copy_meta (get_meta_keys from) from fresh in
    set_meta_value "aimrt-from_module" client.module_name (
      set_meta_value "aimrt-from_pkg" client.pkg_path (
        set_meta_value backend_key local_name
          (set_meta_value "aimrt-function_name" service.func_name copied)))
