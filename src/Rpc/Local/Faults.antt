-- ===== src/Rpc/Local/Faults.antt =====
-- local_rpc_backend.cc: a request that cannot be serialized stays recorded.
use aim_rt.Prelude.{
  ℕ, ◌+◌, ◌%◌, ◌≡◌, refl, ap, ◌∙◌, true, false, [], ◌∷◌, ◌++◌, Option, none, some, nat_eq,
}
use aim_rt.Prelude.Map.{Map, find, erase, emplace-new, find_head, beq_refl}
use aim_rt.Core.Lifecycle.{thrown}
use aim_rt.Rpc.Context.{Context, get_meta_value, serialization_type_key}
use aim_rt.Rpc.Registry.{FuncInfo}
use aim_rt.Rpc.Manager.{code, u32_mod}
use aim_rt.Rpc.ClientTool.{RpcClientTool, record_call, get_record, take_timer, on_timeout}
use aim_rt.Rpc.Local.{Call, Sys, is_dropped, invoke_call_back}
use aim_rt.Rpc.Local.Calls.{Env, forward, call_other, time_out}

-- A tool with a timeout executor and no timer yet.
abbrev pub armed : {Q : Type 0} → Map ℕ (Call Q) → RpcClientTool (Call Q)
armed m = record {
  shutdown_flag = false;
  timeout_executor = true;
  client_msg_recorder_map = m;
  timers = [];
}

abbrev pub with_tool : {E Q : Type 0} → Sys E Q → RpcClientTool (Call Q) → Sys E Q
with_tool s tool = record s { backend = record s.backend { client_tool_ptr = some tool } }

record_call-armed :
    {Q : Type 0} (id timeout : ℕ) (c : Call Q) (m : Map ℕ (Call Q))
    → find id m ≡ none
    → record_call id timeout c (armed m) ≡ (
      record {
        shutdown_flag = false;
        timeout_executor = true;
        client_msg_recorder_map = (id, c) ∷ m;
        timers = (id, timeout) ∷ [];
      },
      true,
    )
unfolding record_call
record_call-armed id timeout c m e = rw (emplace-new id c m e) refl

-- The tool with the call recorded and its timer set.
abbrev waiting : {Q : Type 0} → ℕ → ℕ → Call Q → Map ℕ (Call Q) → RpcClientTool (Call Q)
waiting id timeout c m = record {
  shutdown_flag = false;
  timeout_executor = true;
  client_msg_recorder_map = (id, c) ∷ m;
  timers = (id, timeout) ∷ [];
}

on_timeout-waiting :
    {Q : Type 0} (id timeout : ℕ) (c : Call Q) (m : Map ℕ (Call Q))
    → on_timeout id (record (waiting id timeout c m) { timers = [] }) ≡ (
      record (waiting id timeout c m) {
        client_msg_recorder_map = erase id ((id, c) ∷ m);
        timers = [];
      },
      some c,
    )
unfolding on_timeout get_record
on_timeout-waiting id timeout c m = simp (on_timeout, get_record, find_head id c m) refl

-- The system once the client has been answered.
abbrev refused_state : {E Q : Type 0} → Call Q → Map ℕ (Call Q) → Sys E Q → Sys E Q
refused_state c m s = record {
  backend = record s.backend {
    req_id = (s.backend.req_id + 1) % u32_mod;
    client_tool_ptr = some (waiting s.backend.req_id c.ctx_ref.timeout_ns c m);
  };
  running = s.running;
  answers = s.answers ++ (c.id, code 2006) ∷ [];
  dropped = c.id ∷ s.dropped;
}

module _ {E Q R D : Type 0} (env : Env Q R D) where
  call_other-unserialized :
      (c : Call Q) (service : FuncInfo) (ctx : Context) (m : Map ℕ (Call Q)) (s : Sys E Q)
      → is_dropped c.id s.dropped ≡ false
      → find s.backend.req_id m ≡ none
      → env.serialize_req c.info (get_meta_value serialization_type_key c.ctx_ref) c.req_ptr ≡ none
      → call_other env c service ctx (with_tool s (armed m)) ≡ refused_state c m s
  unfolding call_other forward invoke_call_back
  call_other-unserialized c service ctx m s h e f =
      simp
        (
          call_other,
          record_call-armed s.backend.req_id c.ctx_ref.timeout_ns c m e,
          forward,
          f,
          invoke_call_back,
          h,
        )
        refl

  time_out-refused :
      (c : Call Q) (m : Map ℕ (Call Q)) (s : Sys E Q)
      → (s' : Sys E Q) × (time_out env 0 (refused_state c m s) ≡ thrown s')
  unfolding time_out take_timer
  time_out-refused c m s =
      let id = s.backend.req_id in
      (
        with_tool (refused_state c m s) (record (waiting id c.ctx_ref.timeout_ns c m) {
          client_msg_recorder_map = erase id ((id, c) ∷ m);
          timers = [];
        }),
        rw (time_out, on_timeout-waiting id c.ctx_ref.timeout_ns c m, beq_refl c.id)
            (ap
              (λ (r : RpcClientTool (Call Q) × Option (Call Q)).
                thrown (with_tool (refused_state c m s) r.0))
              (on_timeout-waiting id c.ctx_ref.timeout_ns c m)),
      )

  -- A call to another package whose request the client's type support cannot serialize, with a timeout
  -- executor, no timer and an unused request id: the client is answered with CLI_SERIALIZATION_FAILED,
  -- but the call stays recorded, so that its timer, when it fires, calls a callback that is gone, and
  -- throws.
  pub unserialized_times_out :
      (c : Call Q) (service : FuncInfo) (ctx : Context) (m : Map ℕ (Call Q)) (s : Sys E Q)
      → is_dropped c.id s.dropped ≡ false
      → find s.backend.req_id m ≡ none
      → env.serialize_req c.info (get_meta_value serialization_type_key c.ctx_ref) c.req_ptr ≡ none
      → ((call_other env c service ctx (with_tool s (armed m))).answers
          ≡ s.answers ++ (c.id, code 2006) ∷ [])
        × (s' : Sys E Q) × (time_out env 0 (call_other env c service ctx (with_tool s (armed m)))
            ≡ thrown s')
  unserialized_times_out c service ctx m s h e f =
      let same = call_other-unserialized c service ctx m s h e f in
      let (s', fails) = time_out-refused c m s in
      (ap (λ (r : Sys E Q). r.answers) same, s', ap (time_out env 0) same ∙ fails)
