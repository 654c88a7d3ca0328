-- ===== src/Rpc/ClientTool/Once.antt =====
-- rpc_client_tool.h: every recorded call leaves the table once.
use aim_rt.Prelude.{
  ℕ, ◌+◌, ◌≤◌, ◌≡◌, refl, List, [], ◌∷◌, none, some, nat_eq, ◌==◌, ==_iff, if◌then◌else◌, arith,
  length, length-append, Option-cases, Bool-cases, inl, inr,
}
use aim_rt.Prelude.Map.{Map, find, erase, emplace-new, emplace-old}
use aim_rt.Rpc.ClientTool.{
  RpcClientTool, record_call, get_record, take_timer, on_timeout, Event, recorded, answered, fired,
  step, all_steps, given,
}

module _ {R : Type 0} where
  abbrev occurs : ℕ → Map ℕ R → ℕ
  occurs k [] = 0
  occurs k ((j, r) ∷ m) = (if j == k then 1 else 0) + occurs k m

  -- No id has two entries.
  abbrev pub IsUnique : Map ℕ R → Type 0
  IsUnique m = (k : ℕ) → occurs k m ≤ 1

  occurs-find : (k : ℕ) (m : Map ℕ R) → find k m ≡ none → occurs k m ≡ 0
  unfolding find
  occurs-find k [] e = refl
  occurs-find k ((j, r) ∷ m) e = ground (arith, occurs-find k m, e)

  occurs-some : (k : ℕ) (r : R) (m : Map ℕ R) → find k m ≡ some r → 1 ≤ occurs k m
  unfolding find
  occurs-some k r [] e = ground arith
  occurs-some k r ((j, v) ∷ m) e = ground (arith, occurs-some k r m, e)

  length-erase : (k : ℕ) (m : Map ℕ R) → length (erase k m) + occurs k m ≡ length m
  unfolding erase
  length-erase k [] = refl
  length-erase k ((j, r) ∷ m) = ground (arith, length-erase k m)

  occurs-erase : (k j : ℕ) (m : Map ℕ R) → occurs j (erase k m) ≤ occurs j m
  unfolding erase
  occurs-erase k j [] = ground arith
  occurs-erase k j ((i, r) ∷ m) = ground (arith, occurs-erase k j m)

  -- What a step keeps: ids are unique, and records that come in are in the table or handed out.
  abbrev Balanced : RpcClientTool R → RpcClientTool R → ℕ → List R → Type 0
  Balanced s s' taken out =
      IsUnique s'.client_msg_recorder_map
      × (length s.client_msg_recorder_map + taken ≡ length s'.client_msg_recorder_map + length out)

  get_record-Balanced :
      (id : ℕ) (s : RpcClientTool R)
      → IsUnique s.client_msg_recorder_map
      → Balanced s (get_record id s).0 0 (given (get_record id s).1)
  unfolding get_record
  get_record-Balanced id s h = elim (Option-cases (find id s.client_msg_recorder_map)) [
    | inl e ↦ rw (e, get_record) (h, omega arith)
    | inr (r, e) ↦
        rw (e, get_record)
          (
            (λ k. omega (arith, occurs-erase id k s.client_msg_recorder_map, h k)),
            omega (
              arith,
              length-erase id s.client_msg_recorder_map,
              h id,
              occurs-some id r s.client_msg_recorder_map e,
            ),
          )
  ]

  on_timeout-Balanced :
      (id : ℕ) (s : RpcClientTool R)
      → IsUnique s.client_msg_recorder_map
      → Balanced s (on_timeout id s).0 0 (given (on_timeout id s).1)
  unfolding on_timeout
  on_timeout-Balanced id s h = elim (Bool-cases s.shutdown_flag) [
    | inl e ↦ simp e (h, omega arith)
    | inr e ↦ simp e (get_record-Balanced id s h)
  ]

  record_call-Balanced :
      (id timeout : ℕ) (r : R) (s : RpcClientTool R)
      → IsUnique s.client_msg_recorder_map
      → Balanced s
          (record_call id timeout r s).0
          (if (record_call id timeout r s).1 then 1 else 0)
          []
  unfolding record_call
  record_call-Balanced id timeout r s h = elim (Option-cases (find id s.client_msg_recorder_map)) [
    | inl new ↦ rw (emplace-new id r s.client_msg_recorder_map new) (
      (λ k. ground (arith, h k, occurs-find id s.client_msg_recorder_map new, ==_iff id k)),
      omega arith,
    )
    | inr (v, old) ↦ rw (emplace-old id r v s.client_msg_recorder_map old) (h, omega arith)
  ]

  step-Balanced :
      (e : Event R) (s : RpcClientTool R)
      → IsUnique s.client_msg_recorder_map
      → Balanced s (step e s).tool (step e s).taken (step e s).out
  unfolding step
  step-Balanced (recorded id timeout r) s h = record_call-Balanced id timeout r s h
  step-Balanced (answered id) s h = get_record-Balanced id s h
  step-Balanced (fired i) s h = elim (Option-cases (take_timer i s.timers)) [
    | inl e ↦ rw (e, step) (h, omega arith)
    | inr ((id, rest), e) ↦ rw (e, step) (on_timeout-Balanced id (record s { timers = rest }) h)
  ]

  -- From a table whose ids are unique, and in any order of calls, answers and timeouts: ids stay
  -- unique, and the records in the table and those accepted are as many as the records still in the
  -- table and those handed out, to their answers or to the timeout handle.
  pub all_steps-Balanced :
      (es : List (Event R)) (s : RpcClientTool R)
      → IsUnique s.client_msg_recorder_map
      → IsUnique (all_steps es s).tool.client_msg_recorder_map
        × (length s.client_msg_recorder_map + (all_steps es s).taken
            ≡ length (all_steps es s).tool.client_msg_recorder_map + length (all_steps es s).out)
  unfolding all_steps
  all_steps-Balanced [] s h = (h, omega arith)
  all_steps-Balanced (e ∷ es) s h =
      let (u, one) = step-Balanced e s h in
      let (v, rest) = all_steps-Balanced es (step e s).tool u in
      (v, omega (arith, one, rest, length-append (step e s).out (all_steps es (step e s).tool).out))
