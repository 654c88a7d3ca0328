-- ===== src/Rpc/Manager/Calls.antt =====
-- rpc_backend_manager.cc: `Invoke`, and what the manager reports.
use Prim.Native.String.{slice}
use text.Mathlib.Text.{find?}
use aim_rt.Prelude.{
  ℕ, ◌+◌, ◌%◌, ◌*◌, ◌^◌, Bool, false, not, ◌||◌, List, [], ◌∷◌, map, Option, none, some, String,
  string_eq, nat_eq, ◌==◌, if◌then◌else◌,
}
use aim_rt.Prelude.Map.{Map, find, assign}
use aim_rt.Core.Lifecycle.{Outcome, done, thrown, is_start}
use aim_rt.Core.Filter.{invoke, get_filter_collector}
use aim_rt.Rpc.Registry.{ClientFuncWrapper, Key, key_eq, get_client_func_wrapper}
use aim_rt.Rpc.Context.{
  Context, is_client, get_meta_value, set_meta_value, set_used, set_timeout, to_addr_key,
  serialization_type_key, backend_key, request_id_key,
}
use aim_rt.Rpc.Manager.{
  cli_func_not_registered, cli_invalid_context, cli_no_backend_to_handle, cli_invalid_addr,
  InvokeWrapper, BackendApi, Env, InvokeProxyInfo, RpcBackendManager, Sys, u32_mod,
}

abbrev pub default_timeout_ns : ℕ
default_timeout_ns = 5 * 10 ^ 9

-- The text before "://", if that is there.
unfoldable pub scheme_of : String → Option String
scheme_of addr = elim (find? addr "://") [ none ↦ none | some pos ↦ some (slice addr 0 pos) ]

abbrev pub key_at : String → String → String → Key
key_at func pkg mod_name = record { func_name = func; pkg_path = pkg; module_name = mod_name }

module _ {B Q R W : Type 0} (env : Env) (api : BackendApi B Q R W) where
  unfoldable pub contains : B → List B → Bool
  contains b [] = false
  contains b (c ∷ bs) = api.same c b || contains b bs

  -- The backend that the address names, if it is one of the function's.
  unfoldable pub addressed : Map String B → List B → String → Option B
  unfolding contains
  addressed index bs addr = elim (scheme_of addr) [
    | none ↦ none
    | some name ↦ elim (find name index) [
      | none ↦ none
      | some b ↦ if contains b bs then some b else none
    ]
  ]

  unfoldable pub to_first : InvokeWrapper Q R W → W → List B → W
  to_first msg w [] = msg.callback cli_no_backend_to_handle w
  to_first msg w (b ∷ bs) =
      api.invoke b (record msg { ctx_ref = set_meta_value backend_key (api.name b) msg.ctx_ref }) w

  unfoldable pub to_addressed : Map String B → InvokeWrapper Q R W → W → List B → W
  unfolding addressed
  to_addressed index msg w [] = msg.callback cli_no_backend_to_handle w
  to_addressed index msg w (b ∷ bs) =
      elim (addressed index (b ∷ bs) (get_meta_value to_addr_key msg.ctx_ref)) [
        | none ↦ msg.callback cli_invalid_addr w
        | some c ↦ api.invoke c msg w
      ]

  unfoldable pub with_timeout : Context → Context
  with_timeout ctx = if ctx.timeout_ns == 0 then set_timeout default_timeout_ns ctx else ctx

  -- The handle at the end of the client's filters.
  unfoldable pub route : Map String (List B) → Map String B → InvokeWrapper Q R W → W → W
  unfolding to_first to_addressed with_timeout
  route funcs index msg w =
      let msg' : InvokeWrapper Q R W = record msg { ctx_ref = with_timeout msg.ctx_ref } in
      elim (find msg.info.func_name funcs) [
        | none ↦ msg'.callback cli_no_backend_to_handle w
        | some bs ↦
            if get_meta_value to_addr_key msg'.ctx_ref == ""
            then to_first msg' w bs
            else to_addressed index msg' w bs
      ]

  -- The next request id of the function, if it has one.
  unfoldable pub take_request_id : String → Map String ℕ → Context → Map String ℕ × Context
  take_request_id func ids ctx = elim (find func ids) [
    | none ↦ (ids, ctx)
    | some n ↦
        let seq = (n + 1) % u32_mod in
        (assign func seq ids, set_meta_value request_id_key (env.to_string seq) ctx)
  ]

  unfoldable pub with_serialization_type : String → Context → Context
  with_serialization_type default ctx =
      if get_meta_value serialization_type_key ctx == ""
      then set_meta_value serialization_type_key default ctx
      else ctx

  -- What a call leaves: the manager and the outside, and the caller's context as it is handed to
  -- the filters.
  pub record Invoked : Type 0 where
    pub sys : Sys B Q R W
    pub ctx : Context

  -- From the test of the context on.
  unfoldable pub invoke_with :
      ClientFuncWrapper → InvokeProxyInfo Q R W → RpcBackendManager B Q R W → W → Invoked
  unfolding route take_request_id with_serialization_type
  invoke_with t info m w =
      let (ids, ctx') = take_request_id info.func_name m.request_id_map (set_used info.ctx) in
      let ctx = with_serialization_type t.info.req_default_serialization_type ctx' in
      let msg : InvokeWrapper Q R W = record {
        info = t.info;
        req_ptr = info.req_ptr;
        rsp_ptr = info.rsp_ptr;
        ctx_ref = ctx;
        callback = info.callback;
      } in
      if not (is_client info.ctx.type) || info.ctx.used
      then record { sys = (m, info.callback cli_invalid_context w); ctx = info.ctx }
      else record {
        sys = (
          record m { request_id_map = ids },
          invoke (get_filter_collector info.func_name m.client_filter_manager)
              (route m.clients_backend_index_map m.rpc_backend_index_map) msg w,
        );
        ctx = ctx;
      }

  unfoldable pub invoke_func : InvokeProxyInfo Q R W → Sys B Q R W → Outcome Invoked
  unfolding invoke_with
  invoke_func info (m, w) =
      if is_start m.state
      then elim (get_client_func_wrapper (key_at info.func_name info.pkg_path info.module_name)
          m.registry) [
            | none ↦
                done (record { sys = (m, info.callback cli_func_not_registered w); ctx = info.ctx })
            | some t ↦ done (invoke_with t info m w)
          ]
      else thrown (record { sys = (m, w); ctx = info.ctx })

  unfoldable pub get_clients_backend_info : RpcBackendManager B Q R W → Map String (List String)
  get_clients_backend_info m = map (λ e. (e.0, map api.name e.1)) m.clients_backend_index_map

  unfoldable pub get_servers_backend_info : RpcBackendManager B Q R W → Map String (List String)
  get_servers_backend_info m = map (λ e. (e.0, map api.name e.1)) m.servers_backend_index_map
