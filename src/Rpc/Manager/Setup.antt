-- ===== src/Rpc/Manager/Setup.antt =====
-- rpc_backend_manager.cc: the life cycle, the setters, and the registration of services and clients.
use aim_rt.Prelude.{
  ◌+◌, ◌%◌, true, false, List, [], ◌∷◌, ◌++◌, none, some, String, string_eq, if◌then◌else◌,
}
use aim_rt.Prelude.Map.{Map, find, emplace}
use aim_rt.Core.Lifecycle.{
  init, start, shutdown, Outcome, done, thrown, Reply, returned, raised, is_pre_init, is_init,
  is_shutdown,
}
use aim_rt.Core.Filter.{
  FilterManager, invoke, get_filter_collector, create_filter_collector_if_not_exist,
}
use aim_rt.Core.Rules.{Rules, get_filter_rules, get_backends_by_rules}
use aim_rt.Core.Backends.{ask_all, tell_all}
use aim_rt.Rpc.Registry.{
  ServiceFuncWrapper, ClientFuncWrapper, RpcRegistry, register_service_func, register_client_func,
}
use aim_rt.Rpc.Context.{get_meta_value, set_meta_value, request_id_key, response_id_key}
use aim_rt.Rpc.Manager.{
  InvokeWrapper, ServiceFunc, ModuleService, BackendApi, Env, RegisterServiceFuncProxyInfo,
  RegisterClientFuncProxyInfo, RpcBackendManager, Sys, u64_mod,
}

module _ {B Q R W : Type 0} (env : Env) (api : BackendApi B Q R W) where
  unfoldable pub initialize : Sys B Q R W → Outcome (Sys B Q R W)
  initialize (m, w) =
      let s : Sys B Q R W = (record m { state = init }, w) in
      if is_pre_init m.state then done s else thrown s

  unfoldable pub start_backends : Sys B Q R W → Outcome (Sys B Q R W)
  unfolding tell_all
  start_backends (m, w) =
      let m' : RpcBackendManager B Q R W = record m { state = start } in
      if is_init m.state
      then done (m', tell_all api.start m.rpc_backend_index_vec w)
      else thrown (m', w)

  unfoldable pub shutdown_backends : Sys B Q R W → Sys B Q R W
  unfolding tell_all
  shutdown_backends (m, w) =
      if is_shutdown m.state
      then (m, w)
      else (record m { state = shutdown }, tell_all api.shutdown m.rpc_backend_index_vec w)

  -- The setters: only before `Initialize`.
  unfoldable pub configure :
      (RpcBackendManager B Q R W → RpcBackendManager B Q R W) → Sys B Q R W → Outcome (Sys B Q R W)
  configure change (m, w) = if is_pre_init m.state then done (change m, w) else thrown (m, w)

  unfoldable pub set_rpc_registry :
      RpcRegistry (ServiceFunc Q R W) → Sys B Q R W → Outcome (Sys B Q R W)
  unfolding configure
  set_rpc_registry r = configure (λ m. record m { registry = r })

  unfoldable pub set_client_filter_manager :
      FilterManager (InvokeWrapper Q R W) W → Sys B Q R W → Outcome (Sys B Q R W)
  unfolding configure
  set_client_filter_manager f = configure (λ m. record m { client_filter_manager = f })

  unfoldable pub set_server_filter_manager :
      FilterManager (InvokeWrapper Q R W) W → Sys B Q R W → Outcome (Sys B Q R W)
  unfolding configure
  set_server_filter_manager f = configure (λ m. record m { server_filter_manager = f })

  unfoldable pub set_clients_filters_rules : Rules → Sys B Q R W → Outcome (Sys B Q R W)
  unfolding configure
  set_clients_filters_rules rules = configure (λ m. record m { clients_filters_rules = rules })

  unfoldable pub set_servers_filters_rules : Rules → Sys B Q R W → Outcome (Sys B Q R W)
  unfolding configure
  set_servers_filters_rules rules = configure (λ m. record m { servers_filters_rules = rules })

  unfoldable pub set_clients_backends_rules : Rules → Sys B Q R W → Outcome (Sys B Q R W)
  unfolding configure
  set_clients_backends_rules rules = configure (λ m. record m { clients_backends_rules = rules })

  unfoldable pub set_servers_backends_rules : Rules → Sys B Q R W → Outcome (Sys B Q R W)
  unfolding configure
  set_servers_backends_rules rules = configure (λ m. record m { servers_backends_rules = rules })

  unfoldable pub register_rpc_backend : B → Sys B Q R W → Outcome (Sys B Q R W)
  unfolding configure
  register_rpc_backend b = configure (λ m. record m {
    rpc_backend_index_vec = m.rpc_backend_index_vec ++ b ∷ [];
    rpc_backend_index_map = (emplace (api.name b) b m.rpc_backend_index_map).0;
  })

  -- The index entry of a function: made on first use.
  unfoldable pub func_backends :
      String → Rules → Map String (List B) → List B → Map String (List B) × List B
  func_backends func rules index vec = elim (find func index) [
    | none ↦
        let bs = get_backends_by_rules api.name env.regex_match vec func rules in
        ((func, bs) ∷ index, bs)
    | some bs ↦ (index, bs)
  ]

  -- The innermost handle of a service: the response id of its context is the request's id.
  unfoldable pub serve : ModuleService Q R W → InvokeWrapper Q R W → W → W
  serve service msg w =
      service
        (set_meta_value response_id_key (get_meta_value request_id_key msg.ctx_ref) msg.ctx_ref)
        msg.req_ptr msg.rsp_ptr msg.callback w

  unfoldable pub finish_register_service :
      ServiceFuncWrapper (ServiceFunc Q R W) → RpcBackendManager B Q R W → W → Reply (Sys B Q R W)
  unfolding func_backends ask_all
  finish_register_service wrapper m w =
      let (r, fresh) = register_service_func wrapper m.registry in
      let m' : RpcBackendManager B Q R W = record m { registry = r } in
      let (index, bs) =
        func_backends wrapper.info.func_name m.servers_backends_rules m.servers_backend_index_map
          m.rpc_backend_index_vec in
      let (w', ret) = ask_all (λ b. api.register_service_func b wrapper) bs w true in
      if fresh
      then returned (record m' { servers_backend_index_map = index }, w') ret
      else returned (m', w) false

  -- From "Create filter" on; `wrapper` holds the service as its module gives it.
  unfoldable pub register_service_with :
      ServiceFuncWrapper (ModuleService Q R W) → RpcBackendManager B Q R W → W → Reply (Sys B Q R W)
  unfolding finish_register_service serve
  register_service_with wrapper m w =
      let func = wrapper.info.func_name in
      elim (create_filter_collector_if_not_exist func
        (get_filter_rules env.regex_match func m.servers_filters_rules) m.server_filter_manager) [
          | thrown f ↦ raised (record m { server_filter_manager = f }, w)
          | done f ↦
              finish_register_service
                (record {
                  info = wrapper.info;
                  service_func = invoke (get_filter_collector func f) (serve wrapper.service_func);
                })
                (record m { server_filter_manager = f }) w
        ]

  unfoldable pub register_service :
      RegisterServiceFuncProxyInfo Q R W → Sys B Q R W → Reply (Sys B Q R W)
  unfolding register_service_with
  register_service info (m, w) =
      let refused : Reply (Sys B Q R W) = returned (m, w) false in
      if is_init m.state
      then elim info.req_type_support [
        | none ↦ refused
        | some req ↦ elim info.rsp_type_support [
          | none ↦ refused
          | some rsp ↦ elim info.service_func [
            | none ↦ refused
            | some service ↦
                let index = (m.server_index + 1) % u64_mod in
                register_service_with
                  (record {
                    info = record {
                      func_name = info.func_name;
                      pkg_path = info.pkg_path;
                      module_name = info.module_name;
                      index = index;
                      req_default_serialization_type = req;
                      rsp_default_serialization_type = rsp;
                    };
                    service_func = service;
                  })
                  (record m { server_index = index }) w
          ]
        ]
      ]
      else refused

  unfoldable pub finish_register_client :
      ClientFuncWrapper → RpcBackendManager B Q R W → W → Reply (Sys B Q R W)
  unfolding func_backends ask_all
  finish_register_client wrapper m w =
      let (r, fresh) = register_client_func wrapper m.registry in
      let m' : RpcBackendManager B Q R W = record m { registry = r } in
      let (index, bs) =
        func_backends wrapper.info.func_name m.clients_backends_rules m.clients_backend_index_map
          m.rpc_backend_index_vec in
      let (w', ret) = ask_all (λ b. api.register_client_func b wrapper) bs w true in
      if fresh
      then returned (record m' { clients_backend_index_map = index }, w') ret
      else returned (m', w) false

  -- From "initialize request_id" on.
  unfoldable pub register_client_with :
      ClientFuncWrapper → RpcBackendManager B Q R W → W → Reply (Sys B Q R W)
  unfolding finish_register_client
  register_client_with wrapper m w =
      let func = wrapper.info.func_name in
      let ids = (emplace func 0 m.request_id_map).0 in
      elim (create_filter_collector_if_not_exist func
        (get_filter_rules env.regex_match func m.clients_filters_rules) m.client_filter_manager) [
          | thrown f ↦ raised (record m { request_id_map = ids; client_filter_manager = f }, w)
          | done f ↦
              finish_register_client wrapper
                (record m { request_id_map = ids; client_filter_manager = f }) w
        ]

  unfoldable pub register_client : RegisterClientFuncProxyInfo → Sys B Q R W → Reply (Sys B Q R W)
  unfolding register_client_with
  register_client info (m, w) =
      let refused : Reply (Sys B Q R W) = returned (m, w) false in
      if is_init m.state
      then elim info.req_type_support [
        | none ↦ refused
        | some req ↦ elim info.rsp_type_support [
          | none ↦ refused
          | some rsp ↦
              let index = (m.client_index + 1) % u64_mod in
              register_client_with
                (record {
                  info = record {
                    func_name = info.func_name;
                    pkg_path = info.pkg_path;
                    module_name = info.module_name;
                    index = index;
                    req_default_serialization_type = req;
                    rsp_default_serialization_type = rsp;
                  };
                })
                (record m { client_index = index }) w
        ]
      ]
      else refused
