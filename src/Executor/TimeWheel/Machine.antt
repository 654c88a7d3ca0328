-- ===== src/Executor/TimeWheel/Machine.antt =====
-- src/runtime/core/executor/time_wheel_executor.{h,cc}: the executor around the wheels. The timer
-- thread is the three steps `run_immediate`, `take_due` and `advance`; `take_due` and `advance`
-- are apart because the source releases `tick_mutex_` between them. Times are nanoseconds.
use aim_rt.Prelude.{
  ℕ, ◌+◌, ◌-◌, ◌*◌, ◌/◌, ◌%◌, Bool, true, List, [], ◌∷◌, ◌++◌, map, Option, none, some, String, ltb,
  if◌then◌else◌, string_eq, ◌==◌,
}
use aim_rt.Prelude.Map.{Map}
use aim_rt.Core.Lifecycle.{
  State, pre_init, init, start, shutdown, Outcome, done, thrown, is_pre_init, is_init, is_shutdown,
}
use aim_rt.Executor.TimeWheel.{TaskList, TimingWheelTool, tick, place, wheels_from, u64_mod}

-- The thread policy options only reach the operating system and are left out.
pub record Options : Type 0 where
  pub bind_executor : String
  pub dt : ℕ
  pub wheel_size : List ℕ

pub record ExecutorRef : Type 0 where
  pub name : String
  pub thread_safe : Bool

-- What the executor does with a task: run it on the timer thread, or hand it over.
pub data Effect (A : Type 0) : Type 0 where
  run : A → Effect A
  forward : ExecutorRef → A → Effect A

pub record TimeWheelExecutor (A : Type 0) : Type 0 where
  pub name : String
  pub options : Options
  pub state : State
  pub get_executor_func : Option (String → Option ExecutorRef)
  pub bind_executor_ref : Option ExecutorRef
  pub thread_safe : Bool
  pub dt_count : ℕ
  pub start_time_point : ℕ
  pub current_tick_count : ℕ
  pub timing_wheel_vec : List (TimingWheelTool A)
  pub timing_task_map_pos : ℕ
  pub timing_task_map : Map ℕ (TaskList A)
  pub imd_queue : List A

module _ {A : Type 0} where
  -- The members as the constructor leaves them; the options are the defaults of the header.
  abbrev pub fresh : TimeWheelExecutor A
  fresh = record {
    name = "";
    options = record { bind_executor = ""; dt = 100_000_000; wheel_size = 100 ∷ 360 ∷ [] };
    state = pre_init;
    get_executor_func = none;
    bind_executor_ref = none;
    thread_safe = true;
    dt_count = 0;
    start_time_point = 0;
    current_tick_count = 0;
    timing_wheel_vec = [];
    timing_task_map_pos = 0;
    timing_task_map = [];
    imd_queue = [];
  }

  -- The end of `Initialize`: the tick length and the wheels.
  build_wheels : TimeWheelExecutor A → TimeWheelExecutor A
  build_wheels tw = record tw {
    dt_count = tw.options.dt % u64_mod;
    timing_wheel_vec = tw.timing_wheel_vec ++ wheels_from 0 1 tw.options.wheel_size;
    timing_task_map_pos = 1;
  }

  bind : TimeWheelExecutor A → Option ExecutorRef → Outcome (TimeWheelExecutor A)
  unfolding build_wheels
  bind tw none = thrown (record tw { bind_executor_ref = none })
  bind tw (some r) =
      let bound : TimeWheelExecutor A = record tw { bind_executor_ref = some r } in
      if r.name == tw.name
      then thrown bound
      else done (build_wheels (record bound { thread_safe = r.thread_safe }))

  unfoldable pub initialize :
      String → Option Options → TimeWheelExecutor A → Outcome (TimeWheelExecutor A)
  unfolding bind
  initialize name node tw = elim tw.get_executor_func [
    | none ↦ thrown tw
    | some get ↦
        let opts : Options = elim node [ none ↦ tw.options | some o ↦ o ] in
        let named : TimeWheelExecutor A = record tw { state = init; name = name; options = opts } in
        if is_pre_init tw.state
        then (if opts.bind_executor == ""
            then done (build_wheels named)
            else bind named (get opts.bind_executor))
        else thrown (record tw { state = init })
  ]

  -- `now` is the clock at the start of `TimerLoop`, which records it before `Start` returns.
  unfoldable pub start_executor : ℕ → TimeWheelExecutor A → Outcome (TimeWheelExecutor A)
  start_executor now tw =
      if is_init tw.state
      then done (record tw { state = start; start_time_point = now })
      else thrown (record tw { state = start })

  unfoldable pub shutdown_executor : TimeWheelExecutor A → TimeWheelExecutor A
  shutdown_executor tw = if is_shutdown tw.state then tw else record tw {
    state = shutdown;
    timing_task_map = [];
    timing_wheel_vec = [];
    get_executor_func = none;
  }

  unfoldable pub register_get_executor_func :
      (String → Option ExecutorRef) → TimeWheelExecutor A → Outcome (TimeWheelExecutor A)
  register_get_executor_func f tw =
      if is_pre_init tw.state then done (record tw { get_executor_func = some f }) else thrown tw

  unfoldable pub execute : A → TimeWheelExecutor A → TimeWheelExecutor A × List (Effect A)
  execute task tw = elim tw.bind_executor_ref [
    | none ↦ (record tw { imd_queue = tw.imd_queue ++ task ∷ [] }, [])
    | some r ↦ (tw, forward r task ∷ [])
  ]

  unfoldable pub now_of : TimeWheelExecutor A → ℕ
  now_of tw = (tw.current_tick_count * tw.dt_count + tw.start_time_point) % u64_mod

  -- `tp` is the requested time point; both subtractions are of unsigned 64-bit numbers.
  unfoldable pub execute_at : ℕ → A → TimeWheelExecutor A → TimeWheelExecutor A × List (Effect A)
  unfolding execute
  execute_at tp task tw =
      let virtual_tp = (tp + u64_mod - tw.start_time_point) % u64_mod in
      let target = virtual_tp / tw.dt_count in
      let diff = (target + u64_mod - tw.current_tick_count) % u64_mod in
      let placed =
        place tw.options.wheel_size tw.timing_wheel_vec tw.timing_task_map diff target
          (record { tick_count = target; task = task }) in
      if ltb virtual_tp (tw.current_tick_count * tw.dt_count % u64_mod)
      then execute task tw
      else (record tw { timing_wheel_vec = placed.0; timing_task_map = placed.1 }, [])

  unfoldable pub run_immediate : TimeWheelExecutor A → TimeWheelExecutor A × List (Effect A)
  run_immediate tw = elim tw.bind_executor_ref [
    | none ↦ (record tw { imd_queue = [] }, map run tw.imd_queue)
    | some r ↦ (tw, [])
  ]

  unfoldable pub take_due : TimeWheelExecutor A → TimeWheelExecutor A × TaskList A
  take_due tw =
      let r = tick tw.timing_wheel_vec tw.timing_task_map_pos tw.timing_task_map in
      (
        record tw {
          timing_wheel_vec = r.vec;
          timing_task_map_pos = r.map_pos;
          timing_task_map = r.task_map;
        },
        r.tasks,
      )

  unfoldable pub dispatch : TimeWheelExecutor A → TaskList A → List (Effect A)
  dispatch tw ts = elim tw.bind_executor_ref [
    | none ↦ map (λ t. run t.task) ts
    | some r ↦ map (λ t. forward r t.task) ts
  ]

  unfoldable pub advance : TimeWheelExecutor A → TimeWheelExecutor A
  advance tw = record tw { current_tick_count = (tw.current_tick_count + 1) % u64_mod }

  -- One round of `TimerLoop` with no other thread between its steps.
  unfoldable pub round : TimeWheelExecutor A → TimeWheelExecutor A × List (Effect A)
  unfolding run_immediate take_due dispatch advance
  round tw =
      let (waiting, immediate) = run_immediate tw in
      let (taken, due) = take_due waiting in (advance taken, immediate ++ dispatch taken due)
