-- ===== src/Rpc/Local/Calls.antt =====
-- local_rpc_backend.cc: `Invoke`, the callback of a service, and the timeout handle.
use aim_rt.Prelude.{
  ℕ, ◌+◌, ◌%◌, not, ◌||◌, [], ◌∷◌, ◌++◌, Option, none, some, String, string_eq, nat_eq, ◌==◌,
  if◌then◌else◌,
}
use aim_rt.Core.Lifecycle.{Outcome, done, thrown, is_start}
use aim_rt.Rpc.Context.{Context, get_meta_value, to_addr_key, serialization_type_key}
use aim_rt.Rpc.Registry.{FuncInfo, RpcRegistry, Key, get_service_func_wrapper}
use aim_rt.Rpc.Manager.{Status, code, u32_mod}
use aim_rt.Rpc.ClientTool.{record_call, get_record, take_timer, on_timeout}
use aim_rt.Rpc.Local.{
  Call, direct, recorded, Running, Sys, local_name, is_dropped, Choice, refused, chosen, choose,
  Addr, invoke_call_back, service_ctx,
}

-- What the packages' type supports do, and the parser of addresses.
pub record Env (Q R D : Type 0) : Type 0 where
  pub parse : String → Option Addr
  pub serialize_req : FuncInfo → String → Q → Option D
  pub deserialize_req : FuncInfo → String → D → Option Q
  pub serialize_rsp : FuncInfo → String → R → Option D
  pub deserialize_rsp : FuncInfo → String → D → Option R

-- An address that is not parsed says nothing.
abbrev pub anywhere : Addr
anywhere = record { protocol = local_name; pkg_path = ""; module_name = "" }

unfoldable pub addr_of : {Q R D : Type 0} → Env Q R D → Context → Addr
addr_of env ctx =
    let to_addr = get_meta_value to_addr_key ctx in
    let parsed : Addr = elim (env.parse to_addr) [ none ↦ anywhere | some a ↦ a ] in
    if to_addr == "" then anywhere else parsed

module _ {E Q R D : Type 0} (env : Env Q R D) where
  unfoldable pub serve : Running Q → Sys E Q → Sys E Q
  serve r s = record s { running = s.running ++ r ∷ [] }

  -- The request in another package: serialized by the client, deserialized for the service.
  unfoldable pub forward : Call Q → FuncInfo → Context → ℕ → String → Sys E Q → Sys E Q
  unfolding serve invoke_call_back
  forward c service ctx req_id t s = elim (env.serialize_req c.info t c.req_ptr) [
    | none ↦ invoke_call_back c (code 2006) s
    | some d ↦ elim (env.deserialize_req service t d) [
      | none ↦ invoke_call_back c (code 2008) s
      | some q ↦
          serve (record { service = service; ctx = ctx; req = q; return_to = recorded req_id t }) s
    ]
  ]

  -- The call is recorded before its request is serialized. Without a tool the access is undefined; a
  -- backend that was started has one.
  unfoldable pub call_other : Call Q → FuncInfo → Context → Sys E Q → Sys E Q
  unfolding forward invoke_call_back
  call_other c service ctx s =
      let b = s.backend in
      let b' = record b { req_id = (b.req_id + 1) % u32_mod } in
      let t = get_meta_value serialization_type_key c.ctx_ref in
      elim b.client_tool_ptr [
        | none ↦ s
        | some tool ↦
            let (tool', ret) = record_call b.req_id c.ctx_ref.timeout_ns c tool in
            let s' = record s { backend = record b' { client_tool_ptr = some tool' } } in
            if ret then forward c service ctx b.req_id t s' else invoke_call_back c (code 2002) s'
      ]

  unfoldable pub call_service : {F : Type 0} → Call Q → RpcRegistry F → Choice → Sys E Q → Sys E Q
  unfolding serve call_other service_ctx invoke_call_back
  call_service c registry (refused st) s = invoke_call_back c st s
  call_service c registry (chosen pkg m) s =
      let key : Key = record { func_name = c.info.func_name; pkg_path = pkg; module_name = m } in
      elim (get_service_func_wrapper key registry) [
        | none ↦ invoke_call_back c (code 2002) s
        | some w ↦
            let ctx = service_ctx w.info c.info c.ctx_ref in
            let other = call_other c w.info ctx s in
            if pkg == c.info.pkg_path
            then serve
                (record { service = w.info; ctx = ctx; req = c.req_ptr; return_to = direct c }) s
            else other
      ]

  unfoldable pub invoke : {F : Type 0} → Call Q → RpcRegistry F → Sys E Q → Sys E Q
  unfolding call_service choose addr_of invoke_call_back
  invoke c registry s =
      let a = addr_of env c.ctx_ref in
      let sent =
        call_service c registry
          (choose s.backend.service_func_register_index c.info.func_name a.pkg_path a.module_name)
          s in
      if not (is_start s.backend.state) || not (a.protocol == local_name)
      then invoke_call_back c (code 2002) s
      else sent

  -- The response goes back to the client that was recorded.
  unfoldable pub give_back : Call Q → FuncInfo → String → R → Status → Sys E Q → Sys E Q
  unfolding invoke_call_back
  give_back c service t rsp st s = elim (env.serialize_rsp service t rsp) [
    | none ↦ invoke_call_back c (code 1005) s
    | some d ↦ elim (env.deserialize_rsp c.info t d) [
      | none ↦ invoke_call_back c (code 1007) s
      | some r ↦ invoke_call_back c st s
    ]
  ]

  -- The callback that the service gets. In the same package it calls the client's and keeps it; after
  -- `Shutdown` there is no tool, and the call of it is undefined.
  unfoldable pub service_returns : Running Q → R → Status → Sys E Q → Sys E Q
  unfolding give_back
  service_returns r rsp st s = elim r.return_to [
    | direct c ↦
        if is_dropped c.id s.dropped then s else record s { answers = s.answers ++ (c.id, st) ∷ [] }
    | recorded req_id t ↦ elim s.backend.client_tool_ptr [
      | none ↦ s
      | some tool ↦
          let (tool', found) = get_record req_id tool in
          let b = s.backend in
          let s' = record s { backend = record b { client_tool_ptr = some tool' } } in
          elim found [ none ↦ s' | some c ↦ give_back c r.service t rsp st s' ]
    ]
  ]

  -- The timeout handle; an empty callback throws out of the timer's task.
  unfoldable pub time_out : ℕ → Sys E Q → Outcome (Sys E Q)
  time_out i s = elim s.backend.client_tool_ptr [
    | none ↦ done s
    | some tool ↦ elim (take_timer i tool.timers) [
      | none ↦ done s
      | some (id, rest) ↦
          let (tool', found) = on_timeout id (record tool { timers = rest }) in
          let b = s.backend in
          let s' = record s { backend = record b { client_tool_ptr = some tool' } } in
          elim found [
            | none ↦ done s'
            | some c ↦
                if is_dropped c.id s.dropped
                then thrown s'
                else done (record s' { answers = s'.answers ++ (c.id, code 2) ∷ [] })
          ]
    ]
  ]
