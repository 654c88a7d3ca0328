-- ===== src/Rpc/Manager/Answers.antt =====
-- rpc_backend_manager.cc: every call is answered once, or is one backend's to answer.
use aim_rt.Prelude.{
  ℕ, ◌≡◌, refl, ap, ◌∙◌, Bool, true, false, not, ◌||◌, List, [], ◌∷◌, none, some, String, string_eq,
  nat_eq, ◌==◌, arith, Option-cases, Bool-cases, inl, inr,
}
use aim_rt.Prelude.Map.{Map, find}
use aim_rt.Core.Lifecycle.{done, is_start}
use aim_rt.Core.Filter.{invoke, default_filter}
use aim_rt.Core.Filter.Chain.{get_filter_collector-default}
use aim_rt.Rpc.Registry.{ClientFuncWrapper, get_client_func_wrapper}
use aim_rt.Rpc.Context.{
  Context, is_client, get_meta_value, to_addr_key, set_used, set_timeout, set_meta_value,
  backend_key,
}
use aim_rt.Rpc.Manager.{
  Status, code, cli_invalid_context, cli_no_backend_to_handle, cli_invalid_addr, InvokeWrapper,
  BackendApi, Env, InvokeProxyInfo, RpcBackendManager,
}
use aim_rt.Rpc.Manager.Calls.{
  contains, addressed, to_first, to_addressed, route, with_timeout, take_request_id,
  with_serialization_type, Invoked, invoke_with, invoke_func, key_at,
}

abbrev pub is_refusal : Status → Bool
is_refusal (code n) = false
is_refusal _ = true

module _ {B Q R W : Type 0} (env : Env) (api : BackendApi B Q R W) where
  -- How a message gets from `w` to `v`: its callback is called once with an error of the manager,
  -- or one backend of the function's list is invoked once, with the same callback, and with a
  -- timeout.
  pub data IsAnswered (funcs : Map String (List B)) (msg : InvokeWrapper Q R W) (w : W)
      : W → Type 0 where
    refused : (st : Status) → is_refusal st ≡ true → IsAnswered funcs msg w (msg.callback st w)
    handed :
        (b : B) (bs : List B) (ctx : Context)
        → find msg.info.func_name funcs ≡ some bs
        → contains env api b bs ≡ true
        → (ctx.timeout_ns == 0) ≡ false
        → IsAnswered funcs msg w (api.invoke b (record msg { ctx_ref = ctx }) w)

  with_timeout-positive : (ctx : Context) → ((with_timeout env api ctx).timeout_ns == 0) ≡ false
  unfolding with_timeout set_timeout
  with_timeout-positive ctx = ground arith

  addressed-contains :
      (index : Map String B) (bs : List B) (addr : String) (b : B)
      → addressed env api index bs addr ≡ some b
      → contains env api b bs ≡ true
  unfolding addressed
  addressed-contains index bs addr b e = ground (arith, e)

  retarget :
      (funcs : Map String (List B)) (msg : InvokeWrapper Q R W) (ctx : Context) (w v : W)
      → IsAnswered funcs (record msg { ctx_ref = ctx }) w v
      → IsAnswered funcs msg w v
  retarget funcs msg ctx w _ (refused st e) = refused st e
  retarget funcs msg ctx w _ (handed b bs c e h t) = handed b bs c e h t

  module _ (same_refl : (b : B) → api.same b b ≡ true) where
    to_first-IsAnswered :
        (funcs : Map String (List B)) (msg : InvokeWrapper Q R W) (w : W) (bs : List B)
        → find msg.info.func_name funcs ≡ some bs
        → (msg.ctx_ref.timeout_ns == 0) ≡ false
        → IsAnswered funcs msg w (to_first env api msg w bs)
    unfolding to_first contains set_meta_value
    to_first-IsAnswered funcs msg w [] e t = refused cli_no_backend_to_handle refl
    to_first-IsAnswered funcs msg w (b ∷ bs) e t =
        handed b (b ∷ bs) (set_meta_value backend_key (api.name b) msg.ctx_ref) e (rw (same_refl b))
          t

    to_addressed-IsAnswered :
        (funcs : Map String (List B)) (index : Map String B) (msg : InvokeWrapper Q R W) (w : W)
        (bs : List B)
        → find msg.info.func_name funcs ≡ some bs
        → (msg.ctx_ref.timeout_ns == 0) ≡ false
        → IsAnswered funcs msg w (to_addressed env api index msg w bs)
    unfolding to_addressed
    to_addressed-IsAnswered funcs index msg w [] e t = refused cli_no_backend_to_handle refl
    to_addressed-IsAnswered funcs index msg w (b ∷ bs) e t =
        elim (Option-cases
          (addressed env api index (b ∷ bs) (get_meta_value to_addr_key msg.ctx_ref))) [
            | inl n ↦ rw (n, to_addressed) (refused cli_invalid_addr refl)
            | inr (c, n) ↦
                rw (n, to_addressed)
                  (handed c (b ∷ bs) msg.ctx_ref e (addressed-contains index (b ∷ bs) _ c n) t)
          ]

    route-IsAnswered :
        (funcs : Map String (List B)) (index : Map String B) (msg : InvokeWrapper Q R W) (w : W)
        → IsAnswered funcs msg w (route env api funcs index msg w)
    unfolding route
    route-IsAnswered funcs index msg w =
        let msg' : InvokeWrapper Q R W = record msg {
          ctx_ref = with_timeout env api msg.ctx_ref;
        } in
        let t = with_timeout-positive msg.ctx_ref in
        elim (Option-cases (find msg.info.func_name funcs)) [
          | inl e ↦ rw (e, route) (refused cli_no_backend_to_handle refl)
          | inr (bs, e) ↦
              rw (e, route)
                (elim (Bool-cases (get_meta_value to_addr_key msg'.ctx_ref == "")) [
                  | inl empty ↦ rw empty (
                      retarget funcs msg msg'.ctx_ref w _ (to_first-IsAnswered funcs msg' w bs e t))
                  | inr given ↦ rw given (
                      retarget funcs msg msg'.ctx_ref w _
                        (to_addressed-IsAnswered funcs index msg' w bs e t))
                ])
        ]

    -- A running manager, a registered client function without filters: the call is answered once
    -- with an error of the manager, or handed once to one backend of the function's list, with the
    -- client's callback and a timeout that is not 0. (Two pointers to one backend are the same.)
    pub invoke_func-IsAnswered :
        (info : InvokeProxyInfo Q R W) (t : ClientFuncWrapper) (m : RpcBackendManager B Q R W)
        (w : W)
        → is_start m.state ≡ true
        → get_client_func_wrapper (key_at info.func_name info.pkg_path info.module_name) m.registry
          ≡ some t
        → find info.func_name m.client_filter_manager.filter_collector_map ≡ none
        → (r : Invoked env api) × (invoke_func env api info (m, w) ≡ done r)
          × IsAnswered m.clients_backend_index_map
              (record {
                info = t.info;
                req_ptr = info.req_ptr;
                rsp_ptr = info.rsp_ptr;
                ctx_ref = info.ctx;
                callback = info.callback;
              })
              w
              r.sys.1
    unfolding invoke_func invoke_with invoke default_filter
    invoke_func-IsAnswered info t m w e_state e_func e_col =
        let msg : InvokeWrapper Q R W = record {
          info = t.info;
          req_ptr = info.req_ptr;
          rsp_ptr = info.rsp_ptr;
          ctx_ref = info.ctx;
          callback = info.callback;
        } in
        let ctx =
          with_serialization_type env api t.info.req_default_serialization_type
            (take_request_id env api info.func_name m.request_id_map (set_used info.ctx)).1 in
        (
          invoke_with env api t info m w,
          rw (e_state, e_func, invoke_func) refl,
          elim (Bool-cases (not (is_client info.ctx.type) || info.ctx.used)) [
            | inl bad ↦ rw bad (refused cli_invalid_context refl)
            | inr good ↦
                rw (good, get_filter_collector-default info.func_name m.client_filter_manager e_col)
                  (retarget m.clients_backend_index_map msg ctx w _ (
                    route-IsAnswered m.clients_backend_index_map m.rpc_backend_index_map
                      (record msg { ctx_ref = ctx }) w))
          ],
        )

  or_true : (b : Bool) → (b || true) ≡ true
  or_true true = refl
  or_true false = refl

  meta_keeps_used :
      (func default : String) (ids : Map String ℕ) (ctx : Context)
      → (with_serialization_type env api default
          (take_request_id env api func ids (set_used ctx)).1).used
        ≡ true
  unfolding with_serialization_type take_request_id set_used set_meta_value
  meta_keeps_used func default ids ctx = ground arith

  -- What a call leaves alone, and that its context is not good for another call.
  invoke_with-leaves :
      (t : ClientFuncWrapper) (info : InvokeProxyInfo Q R W) (m : RpcBackendManager B Q R W) (w : W)
      → let once = invoke_with env api t info m w in
        (once.sys.0.state ≡ m.state)
        × (once.sys.0.registry ≡ m.registry)
        × ((not (is_client once.ctx.type) || once.ctx.used) ≡ true)
  unfolding invoke_with
  invoke_with-leaves t info m w =
      elim (Bool-cases (not (is_client info.ctx.type) || info.ctx.used)) [
        | inl bad ↦ rw bad (refl, refl, bad)
        | inr good ↦ rw good (refl, refl, rw (meta_keeps_used, or_true) refl)
      ]

  invoke_with-refused :
      (t : ClientFuncWrapper) (info : InvokeProxyInfo Q R W) (m : RpcBackendManager B Q R W) (w : W)
      → (not (is_client info.ctx.type) || info.ctx.used) ≡ true
      → invoke_with env api t info m w
        ≡ record { sys = (m, info.callback cli_invalid_context w); ctx = info.ctx }
  unfolding invoke_with
  invoke_with-refused t info m w bad = rw bad refl

  invoke_func-registered :
      (info : InvokeProxyInfo Q R W) (t : ClientFuncWrapper) (m : RpcBackendManager B Q R W) (w : W)
      → is_start m.state ≡ true
      → get_client_func_wrapper (key_at info.func_name info.pkg_path info.module_name) m.registry
        ≡ some t
      → invoke_func env api info (m, w) ≡ done (invoke_with env api t info m w)
  unfolding invoke_func
  invoke_func-registered info t m w e_state e_func = rw (e_state, e_func, invoke_func) refl

  -- A running manager, a registered client function, whatever its filters do: a second call with
  -- the context that the first call left is answered at once with an invalid context, and leaves
  -- the manager as it is.
  pub invoke_func_twice :
      (info : InvokeProxyInfo Q R W) (t : ClientFuncWrapper) (m : RpcBackendManager B Q R W) (w : W)
      → is_start m.state ≡ true
      → get_client_func_wrapper (key_at info.func_name info.pkg_path info.module_name) m.registry
        ≡ some t
      → let once = invoke_with env api t info m w in
        (invoke_func env api info (m, w) ≡ done once)
        × (invoke_func env api (record info { ctx = once.ctx }) once.sys
            ≡ done (record {
              sys = (once.sys.0, info.callback cli_invalid_context once.sys.1);
              ctx = once.ctx;
            }))
  invoke_func_twice info t m w e_state e_func =
      let once = invoke_with env api t info m w in
      let (state, registry, spent) = invoke_with-leaves t info m w in
      let key = key_at info.func_name info.pkg_path info.module_name in
      (
        invoke_func-registered info t m w e_state e_func,
        invoke_func-registered (record info { ctx = once.ctx }) t once.sys.0 once.sys.1
              (ap is_start state ∙ e_state) (ap (get_client_func_wrapper key) registry ∙ e_func)
            ∙ ap done (
                invoke_with-refused t (record info { ctx = once.ctx }) once.sys.0 once.sys.1 spent),
      )
