-- ===== src/Rpc/Manager/Invariant.antt =====
-- rpc_backend_manager.cc: every registered client function has its backends and its request id.
use aim_rt.Prelude.{
  ◌+◌, ◌%◌, ◌≡◌, Bool, true, false, List, Option, none, some, String, string_eq, ◌==◌, ==_iff,
  arith, Option-cases, Bool-cases, inl, inr, if◌then◌else◌,
}
use aim_rt.Prelude.Map.{Map, find, emplace, emplace-new, emplace-old, find-emplace, find_head}
use aim_rt.Core.Lifecycle.{Outcome-cases, reached, is_init}
use aim_rt.Core.Filter.{create_filter_collector_if_not_exist}
use aim_rt.Core.Rules.{Rules, get_filter_rules}
use aim_rt.Rpc.Registry.{Key, key_eq, key_of, ClientFuncWrapper, register_client_func}
use aim_rt.Rpc.Manager.{BackendApi, Env, RegisterClientFuncProxyInfo, RpcBackendManager, u64_mod}
use aim_rt.Rpc.Manager.Setup.{
  func_backends, finish_register_client, register_client_with, register_client,
}

abbrev is_none : {V : Type 0} → Option V → Bool
is_none none = true
is_none (some v) = false

abbrev pub Known : {V : Type 0} → String → Map String V → Type 0
Known func m = is_none (find func m) ≡ false

emplace-Known :
    {V : Type 0} (func : String) (v : V) (m : Map String V) → Known func (emplace func v m).0
emplace-Known func v m = elim (Option-cases (find func m)) [
  | inl new ↦ rw (emplace-new func v m new) (rw (find_head func v m))
  | inr (old_v, old) ↦ rw (emplace-old func v old_v m old) (rw old)
]

module _ {B Q R W : Type 0} where
  -- A client function in the registry has a backend list and a request id.
  abbrev pub IsCallable : RpcBackendManager B Q R W → Type 0
  IsCallable m =
      (k : Key)
      → is_none (find k m.registry.client_func_wrapper_map) ≡ false
      → Known k.func_name m.clients_backend_index_map × Known k.func_name m.request_id_map

  module _ (env : Env) (api : BackendApi B Q R W) where
    -- After `func_backends` the function has an entry, and no other entry is touched.
    func_backends-Known :
        (func : String) (rules : Rules) (index : Map String (List B)) (vec : List B) (f : String)
        → is_none (find f (func_backends env api func rules index vec).0)
          ≡ (if func == f then false else is_none (find f index))
    unfolding func_backends find
    func_backends-Known func rules index vec f = ground (arith, ==_iff func f)

    finish_register_client-IsCallable :
        (wrapper : ClientFuncWrapper) (m : RpcBackendManager B Q R W) (w : W)
        → Known wrapper.info.func_name m.request_id_map
        → IsCallable m
        → IsCallable (reached (finish_register_client env api wrapper m w)).0
    unfolding finish_register_client register_client_func
    finish_register_client-IsCallable wrapper m w seq h =
        elim (Option-cases (find (key_of wrapper.info) m.registry.client_func_wrapper_map)) [
          | inr (v, old) ↦
              rw
                (emplace-old (key_of wrapper.info) wrapper v m.registry.client_func_wrapper_map old)
                h
          | inl new ↦
              rw (emplace-new (key_of wrapper.info) wrapper m.registry.client_func_wrapper_map new)
                (λ k found. rw func_backends-Known (
                  unfold find in
                  ground (
                    arith,
                    h k,
                    seq,
                    found,
                    ==_iff (key_of wrapper.info) k,
                    ==_iff wrapper.info.func_name k.func_name,
                  )))
        ]

    register_client_with-IsCallable :
        (wrapper : ClientFuncWrapper) (m : RpcBackendManager B Q R W) (w : W)
        → IsCallable m
        → IsCallable (reached (register_client_with env api wrapper m w)).0
    unfolding register_client_with
    register_client_with-IsCallable wrapper m w h =
        let func = wrapper.info.func_name in
        let ids = (emplace func 0 m.request_id_map).0 in
        let kept : (k : Key)
            → is_none (find k m.registry.client_func_wrapper_map) ≡ false
            → Known k.func_name m.clients_backend_index_map × Known k.func_name ids =
          λ k found. ground (arith, h k found, find-emplace func k.func_name 0 m.request_id_map) in
        elim (Outcome-cases (
          create_filter_collector_if_not_exist func
            (get_filter_rules env.regex_match func m.clients_filters_rules)
            m.client_filter_manager)) [
              | inr (f, e) ↦ rw (e, register_client_with) kept
              | inl (f, e) ↦
                  rw (e, register_client_with)
                    (finish_register_client-IsCallable wrapper
                      (record m { request_id_map = ids; client_filter_manager = f }) w
                      (emplace-Known func 0 m.request_id_map) kept)
            ]

    -- Every registration of a client function, whether it succeeds, is refused or throws, keeps
    -- this: a registered client function has a backend list and a request id.
    pub register_client-IsCallable :
        (info : RegisterClientFuncProxyInfo) (m : RpcBackendManager B Q R W) (w : W)
        → IsCallable m
        → IsCallable (reached (register_client env api info (m, w))).0
    unfolding register_client
    register_client-IsCallable info m w h = elim (Bool-cases (is_init m.state)) [
      | inr e ↦ rw e h
      | inl e ↦ rw e (elim (Option-cases info.req_type_support) [
        | inl n ↦ rw (n, register_client) h
        | inr (q, n) ↦ elim (Option-cases info.rsp_type_support) [
          | inl o ↦ rw (n, o, register_client) h
          | inr (r, o) ↦
              rw (n, o, register_client)
                (register_client_with-IsCallable _
                  (record m { client_index = (m.client_index + 1) % u64_mod }) w h)
        ]
      ])
    ]
