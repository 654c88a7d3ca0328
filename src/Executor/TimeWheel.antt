-- ===== src/Executor/TimeWheel.antt =====
-- src/runtime/core/executor/time_wheel_executor.{h,cc}: the hierarchical timing wheel.
-- `TimingWheelTool` is one wheel, `tick` its `Tick` with the `borrow_func` of `Initialize`,
-- `place` the loop of `ExecuteAt`.
pub mod Arith
pub mod Slots
pub mod OnTime
pub mod Levels
pub mod Machine
pub mod Firing
pub mod Placing
pub mod Schedule
pub mod Setup
pub mod Faults
mod Examples
use aim_rt.Prelude.{
  ℕ, zero, suc, ◌+◌, ◌-◌, ◌*◌, ◌/◌, ◌%◌, ◌^◌, Bool, List, [], ◌∷◌, ◌++◌, ltb, if◌then◌else◌, length,
  get_or, set, replicate, nat_eq, ◌==◌,
}
use aim_rt.Prelude.Map.{Map, find_or, erase, assign}

abbrev pub u64_mod : ℕ
u64_mod = 2 ^ 64

pub record TaskWithTimestamp (A : Type 0) : Type 0 where
  pub tick_count : ℕ
  pub task : A

abbrev pub TaskList : Type 0 → Type 0
TaskList A = List (TaskWithTimestamp A)

pub record TimingWheelTool (A : Type 0) : Type 0 where
  pub current_pos : ℕ
  pub scale : ℕ
  pub wheel : List (TaskList A)

-- The wheels with the overflow map, and the list that a tick hands out.
pub record Ticked (A : Type 0) : Type 0 where
  pub vec : List (TimingWheelTool A)
  pub map_pos : ℕ
  pub task_map : Map ℕ (TaskList A)
  pub tasks : TaskList A

module _ {A : Type 0} where
  -- `wheel[pos].emplace_back(t)`
  pub push_at : List (TaskList A) → ℕ → TaskWithTimestamp A → List (TaskList A)
  push_at wheel pos t = set wheel pos (get_or wheel pos [] ++ t ∷ [])

  -- The `while` loop of `borrow_func`.
  pub spread : TaskList A → List (TaskList A) → List (TaskList A)
  unfolding push_at
  spread [] wheel = wheel
  spread (t ∷ ts) wheel = spread ts (push_at wheel (t.tick_count % length wheel) t)

  -- `Tick` of the first wheel of the list. On no wheel: what the `borrow_func` of the last
  -- wheel takes out of the map.
  pub tick : List (TimingWheelTool A) → ℕ → Map ℕ (TaskList A) → Ticked A
  unfolding spread
  tick [] pos m = record {
    vec = [];
    map_pos = (pos + 1) % u64_mod;
    task_map = erase pos m;
    tasks = find_or [] pos m;
  }
  tick (w ∷ ws) pos m =
      let out = get_or w.wheel w.current_pos [] in
      let cleared = set w.wheel w.current_pos [] in
      let below = tick ws pos m in
      if w.current_pos + 1 == length w.wheel
      then record {
        vec = record w { current_pos = 0; wheel = spread below.tasks cleared } ∷ below.vec;
        map_pos = below.map_pos;
        task_map = below.task_map;
        tasks = out;
      }
      else record {
        vec = record w { current_pos = w.current_pos + 1; wheel = cleared } ∷ ws;
        map_pos = pos;
        task_map = m;
        tasks = out;
      }

  -- The loop of `ExecuteAt` over the levels; past the last one the task goes to the map.
  pub place :
      List ℕ
      → List (TimingWheelTool A)
      → Map ℕ (TaskList A)
      → ℕ
      → ℕ
      → TaskWithTimestamp A
      → List (TimingWheelTool A) × Map ℕ (TaskList A)
  unfolding push_at
  place [] ws m diff target t = (ws, assign target (find_or [] target m ++ t ∷ []) m)
  place (n ∷ ns) [] m diff target t = ([], m)
  place (n ∷ ns) (w ∷ ws) m diff target t =
      let rest = place ns ws m (diff / n) (target / n) t in
      if ltb diff n
      then (record w { wheel = push_at w.wheel (target % n) t } ∷ ws, m)
      else (w ∷ rest.0, rest.1)

  -- The wheels that `Initialize` builds: `scale` is the running product of the sizes.
  pub wheels_from : ℕ → ℕ → List ℕ → List (TimingWheelTool A)
  wheels_from start_pos cur_scale [] = []
  wheels_from start_pos cur_scale (n ∷ ns) =
      let scale = cur_scale * n % u64_mod in
      record { current_pos = start_pos; scale = scale; wheel = replicate n [] }
      ∷ wheels_from 1 scale ns
