-- ===== src/Rpc/Local/Answering.antt =====
-- local_rpc_backend.cc: what comes of an invocation, and of one whose request is not serialized.
use aim_rt.Prelude.{
  ℕ, ◌+◌, ◌%◌, ◌≡◌, refl, inl, inr, false, not, ◌||◌, [], ◌∷◌, ◌++◌, some, String, string_eq,
  nat_eq, ◌==◌, Bool-cases, Option-cases,
}
use aim_rt.Core.Lifecycle.{is_start}
use aim_rt.Rpc.Context.{Context, get_meta_value, serialization_type_key}
use aim_rt.Rpc.Registry.{FuncInfo, RpcRegistry, Key, get_service_func_wrapper}
use aim_rt.Rpc.Manager.{Status, code, u32_mod}
use aim_rt.Rpc.ClientTool.{RpcClientTool, record_call}
use aim_rt.Rpc.Local.{
  Call, LocalRpcBackend, recorded, direct, Running, Sys, local_name, is_dropped, Choice, refused,
  chosen, choose, invoke_call_back, service_ctx,
}
use aim_rt.Rpc.Local.Calls.{Env, addr_of, serve, forward, call_other, call_service, invoke}

module _ {E Q R D : Type 0} (env : Env Q R D) where
  -- The client is answered at once, or one service is called.
  pub data IsHandled (c : Call Q) (s : Sys E Q) (s' : Sys E Q) : Type 0 where
    answered :
        (st : Status)
        → s'.answers ≡ s.answers ++ (c.id, st) ∷ []
        → s'.running ≡ s.running
        → IsHandled c s s'
    served :
        (r : Running Q)
        → s'.answers ≡ s.answers
        → s'.running ≡ s.running ++ r ∷ []
        → s'.dropped ≡ s.dropped
        → IsHandled c s s'

  call_back-IsHandled :
      (c : Call Q) (st : Status) (s : Sys E Q)
      → is_dropped c.id s.dropped ≡ false
      → IsHandled c s (invoke_call_back c st s)
  unfolding invoke_call_back
  call_back-IsHandled c st s h = simp (invoke_call_back, h) (answered st refl refl)

  -- The system with another backend.
  abbrev with_backend : LocalRpcBackend E Q → Sys E Q → Sys E Q
  with_backend b s = record s { backend = b }

  same_but_backend :
      (c : Call Q) (b : LocalRpcBackend E Q) (s s' : Sys E Q)
      → IsHandled c (with_backend b s) s'
      → IsHandled c s s'
  same_but_backend c b s s' (answered st a r) = answered st a r
  same_but_backend c b s s' (served x a r d) = served x a r d

  forward-IsHandled :
      (c : Call Q) (service : FuncInfo) (ctx : Context) (id : ℕ) (t : String) (s : Sys E Q)
      → is_dropped c.id s.dropped ≡ false
      → IsHandled c s (forward env c service ctx id t s)
  unfolding forward serve
  forward-IsHandled c service ctx id t s h =
      elim (Option-cases (env.serialize_req c.info t c.req_ptr)) [
        | inl e ↦ rw (forward, e) (call_back-IsHandled c (code 2006) s h)
        | inr (d, e) ↦ elim (Option-cases (env.deserialize_req service t d)) [
          | inl f ↦ rw (forward, e, f) (call_back-IsHandled c (code 2008) s h)
          | inr (q, f) ↦
              rw (forward, e, f)
                (served
                  (record { service = service; ctx = ctx; req = q; return_to = recorded id t }) refl
                  refl refl)
        ]
      ]

  call_other-IsHandled :
      (c : Call Q) (service : FuncInfo) (ctx : Context) (tool : RpcClientTool (Call Q))
      (s : Sys E Q)
      → is_dropped c.id s.dropped ≡ false
      → s.backend.client_tool_ptr ≡ some tool
      → IsHandled c s (call_other env c service ctx s)
  unfolding call_other
  call_other-IsHandled c service ctx tool s h e =
      let b : LocalRpcBackend E Q = record s.backend {
        req_id = (s.backend.req_id + 1) % u32_mod;
        client_tool_ptr = some (record_call s.backend.req_id c.ctx_ref.timeout_ns c tool).0;
      } in
      elim (Bool-cases (record_call s.backend.req_id c.ctx_ref.timeout_ns c tool).1) [
        | inl r ↦
            simp (call_other, e, r)
              (same_but_backend c b s
                (forward env c service ctx s.backend.req_id
                  (get_meta_value serialization_type_key c.ctx_ref) (with_backend b s))
                (forward-IsHandled c service ctx s.backend.req_id
                  (get_meta_value serialization_type_key c.ctx_ref) (with_backend b s) h))
        | inr r ↦
            simp (call_other, e, r)
              (same_but_backend c b s (invoke_call_back c (code 2002) (with_backend b s))
                (call_back-IsHandled c (code 2002) (with_backend b s) h))
      ]

  call_service-IsHandled :
      {F : Type 0} (c : Call Q) (registry : RpcRegistry F) (choice : Choice)
      (tool : RpcClientTool (Call Q)) (s : Sys E Q)
      → is_dropped c.id s.dropped ≡ false
      → s.backend.client_tool_ptr ≡ some tool
      → IsHandled c s (call_service env c registry choice s)
  unfolding call_service serve
  call_service-IsHandled c registry (refused st) tool s h e = call_back-IsHandled c st s h
  call_service-IsHandled c registry (chosen pkg m) tool s h e =
      let key : Key = record { func_name = c.info.func_name; pkg_path = pkg; module_name = m } in
      elim (Option-cases (get_service_func_wrapper key registry)) [
        | inl f ↦ rw (call_service, f) (call_back-IsHandled c (code 2002) s h)
        | inr (w, f) ↦
            let ctx = service_ctx w.info c.info c.ctx_ref in
            elim (Bool-cases (pkg == c.info.pkg_path)) [
              | inl g ↦
                  rw (call_service, f, g)
                    (served
                      (record {
                        service = w.info;
                        ctx = ctx;
                        req = c.req_ptr;
                        return_to = direct c;
                      })
                      refl refl refl)
              | inr g ↦ rw (call_service, f, g) (call_other-IsHandled c w.info ctx tool s h e)
            ]
      ]

  -- As long as a client tool exists, an invocation whose callback was not called yet is either answered
  -- at once, by one call of its callback and without any service, or it calls one service and answers
  -- nothing yet, in every state of the backend and whatever the address, the registry and the
  -- type supports are.
  pub invoke-IsHandled :
      {F : Type 0} (c : Call Q) (registry : RpcRegistry F) (tool : RpcClientTool (Call Q))
      (s : Sys E Q)
      → is_dropped c.id s.dropped ≡ false
      → s.backend.client_tool_ptr ≡ some tool
      → IsHandled c s (invoke env c registry s)
  unfolding invoke
  invoke-IsHandled c registry tool s h e =
      let a = addr_of env c.ctx_ref in
      let choice =
        choose s.backend.service_func_register_index c.info.func_name a.pkg_path a.module_name in
      elim (Bool-cases (not (is_start s.backend.state) || not (a.protocol == local_name))) [
        | inl f ↦ simp (invoke, f) (call_back-IsHandled c (code 2002) s h)
        | inr f ↦ simp (invoke, f) (call_service-IsHandled c registry choice tool s h e)
      ]
