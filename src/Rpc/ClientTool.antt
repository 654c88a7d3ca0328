-- ===== src/Rpc/ClientTool.antt =====
-- `RpcClientTool` of src/runtime/core/util/rpc_client_tool.h. `R` are the recorded calls. A timer that
-- the timeout executor holds is its request id here: when it fires is the executor's choice. Each
-- operation on the concurrent map is one step.
pub mod Once
use aim_rt.Prelude.{
  ℕ, zero, suc, ◌+◌, Bool, true, false, List, [], ◌∷◌, ◌++◌, Option, none, some, nat_eq, ◌==◌,
  if◌then◌else◌,
}
use aim_rt.Prelude.Map.{Map, find, emplace, erase}
use aim_rt.Core.Lifecycle.{Outcome, done, thrown}

pub record RpcClientTool (R : Type 0) : Type 0 where
  pub shutdown_flag : Bool
  pub timeout_executor : Bool
  pub client_msg_recorder_map : Map ℕ R
  -- The ids and delays of the scheduled timeouts that have not fired.
  pub timers : List (ℕ × ℕ)

-- The `i`-th timer, and the others.
unfoldable pub take_timer : ℕ → List (ℕ × ℕ) → Option (ℕ × List (ℕ × ℕ))
take_timer i [] = none
take_timer zero (t ∷ ts) = some (t.0, ts)
take_timer (suc i) (t ∷ ts) = elim (take_timer i ts) [
  | none ↦ none
  | some (id, rest) ↦ some (id, t ∷ rest)
]

module _ {R : Type 0} where
  abbrev pub empty_tool : RpcClientTool R
  empty_tool = record {
    shutdown_flag = false;
    timeout_executor = false;
    client_msg_recorder_map = [];
    timers = [];
  }

  unfoldable pub register_timeout_executor : Bool → RpcClientTool R → Outcome (RpcClientTool R)
  register_timeout_executor support_timer_schedule s =
      if support_timer_schedule then done (record s { timeout_executor = true }) else thrown s

  -- `Record`
  unfoldable pub record_call : ℕ → ℕ → R → RpcClientTool R → RpcClientTool R × Bool
  record_call req_id timeout r s =
      let (m, ret) = emplace req_id r s.client_msg_recorder_map in
      if ret
      then (
        record s {
          client_msg_recorder_map = m;
          timers = if s.timeout_executor then s.timers ++ (req_id, timeout) ∷ [] else s.timers;
        },
        true,
      )
      else (s, false)

  unfoldable pub get_record : ℕ → RpcClientTool R → RpcClientTool R × Option R
  get_record req_id s = elim (find req_id s.client_msg_recorder_map) [
    | none ↦ (s, none)
    | some r ↦
        (record s { client_msg_recorder_map = erase req_id s.client_msg_recorder_map }, some r)
  ]

  -- The callback of a timer: the result is what the timeout handle gets.
  unfoldable pub on_timeout : ℕ → RpcClientTool R → RpcClientTool R × Option R
  unfolding get_record
  on_timeout req_id s = if s.shutdown_flag then (s, none) else get_record req_id s

  -- The destructor.
  unfoldable pub destroy : RpcClientTool R → RpcClientTool R
  destroy s = record s { shutdown_flag = true }

-- What happens to a tool: a call is recorded, its answer comes in, or a timer fires.
pub data Event (R : Type 0) : Type 0 where
  recorded : ℕ → ℕ → R → Event R
  answered : ℕ → Event R
  fired : ℕ → Event R

-- What a step leaves: the tool, how many records it took, and which records it handed out.
pub record Stepped (R : Type 0) : Type 0 where
  pub tool : RpcClientTool R
  pub taken : ℕ
  pub out : List R

abbrev pub given : {R : Type 0} → Option R → List R
given none = []
given (some r) = r ∷ []

module _ {R : Type 0} where
  unfoldable pub step : Event R → RpcClientTool R → Stepped R
  unfolding record_call get_record take_timer on_timeout
  step (recorded id timeout r) s =
      let (s', ret) = record_call id timeout r s in
      record { tool = s'; taken = if ret then 1 else 0; out = [] }
  step (answered id) s =
      let (s', o) = get_record id s in record { tool = s'; taken = 0; out = given o }
  step (fired i) s = elim (take_timer i s.timers) [
    | none ↦ record { tool = s; taken = 0; out = [] }
    | some (id, rest) ↦
        let (s', o) = on_timeout id (record s { timers = rest }) in
        record { tool = s'; taken = 0; out = given o }
  ]

  unfoldable pub all_steps : List (Event R) → RpcClientTool R → Stepped R
  unfolding step
  all_steps [] s = record { tool = s; taken = 0; out = [] }
  all_steps (e ∷ es) s =
      let first = step e s in
      let rest = all_steps es first.tool in
      record { tool = rest.tool; taken = first.taken + rest.taken; out = first.out ++ rest.out }
