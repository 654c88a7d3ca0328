-- ===== src/Executor/TimeWheel/Examples.antt =====
-- Time-wheel executor: runs, and the theorems at concrete inputs.
use aim_rt.Prelude.{
  ℕ, ◌/◌, ◌<◌, ◌≡◌, refl, Option, none, some, [], ◌∷◌, arith, inl, String, All, string_eq,
}
use aim_rt.Prelude.Map.{find, find_or, assign, erase, beq_refl}
use aim_rt.Core.Lifecycle.{final, done}
use aim_rt.Executor.TimeWheel.{TaskWithTimestamp, TimingWheelTool, tick, wheels_from, place}
use aim_rt.Executor.TimeWheel.Slots.{In}
use aim_rt.Executor.TimeWheel.OnTime.{IsOnTime}
use aim_rt.Executor.TimeWheel.Machine.{
  TimeWheelExecutor, Options, ExecutorRef, initialize, register_get_executor_func, fresh,
  execute_at, round, take_due, advance,
}
use aim_rt.Executor.TimeWheel.Schedule.{
  IsReady, Waits, after, due, execute_at-Waits, round-exact, fires_on_time, never_early_or_late,
}
use aim_rt.Executor.TimeWheel.Setup.{initialize-IsReady}
use aim_rt.Executor.TimeWheel.Faults.{borrow_misplaces, execute_at_between_misses}

abbrev no_executor : String → Option ExecutorRef
no_executor name = none

-- Six ticks of 10 ns on two wheels.
abbrev small : Options
small = record { bind_executor = ""; dt = 10; wheel_size = 2 ∷ 3 ∷ [] }

abbrev demo : TimeWheelExecutor ℕ
demo = final (initialize "tw" (some small) (final (register_get_executor_func no_executor fresh)))

demo-IsReady : IsReady demo
demo-IsReady = let r = initialize-IsReady_ready in rw r.1 r.2
  where
    initialize-IsReady_ready :
        (tw : TimeWheelExecutor ℕ) × (initialize "tw"
            (some small)
            (final (register_get_executor_func no_executor fresh))
          ≡ done tw)
        × IsReady tw
    initialize-IsReady_ready =
        let r =
          initialize-IsReady ℕ no_executor "tw" small (inl (beq_refl {K = String} "")) (omega arith)
            (omega arith) (omega arith) in
        (r.0, r.1, r.2)

abbrev seventh : TaskWithTimestamp ℕ
seventh = record { tick_count = 3; task = 7 }

abbrev loaded : TimeWheelExecutor ℕ
loaded = (execute_at 37 7 demo).0

loaded-Waits : IsReady loaded × Waits seventh loaded × ((execute_at 37 7 demo).1 ≡ [])
unfolding initialize register_get_executor_func
loaded-Waits =
    execute_at-Waits demo 37 7 demo-IsReady (omega arith) (omega arith) (omega arith) (omega arith)

execute_at-Waits_example : IsReady loaded × Waits seventh loaded × ((execute_at 37 7 demo).1 ≡ [])
unfolding initialize register_get_executor_func
execute_at-Waits_example =
    execute_at-Waits demo 37 7 demo-IsReady (omega arith) (omega arith) (omega arith) (omega arith)

round-exact_example :
    All (λ t. t.tick_count ≡ 0) (due demo)
    × IsReady (round demo).0
    × ((round demo).0.current_tick_count ≡ 1)
unfolding initialize register_get_executor_func
round-exact_example = round-exact demo demo-IsReady (omega arith)

fires_on_time_example : In seventh (due (after 3 loaded))
unfolding initialize register_get_executor_func execute_at
fires_on_time_example =
    fires_on_time 3 loaded seventh loaded-Waits.0 loaded-Waits.1 refl (omega arith)

never_early_or_late_example : All (λ t. t.tick_count ≡ 3) (due (after 3 loaded))
unfolding initialize register_get_executor_func execute_at
never_early_or_late_example = never_early_or_late 3 loaded loaded-Waits.0 (omega arith)

execute_at_between_misses_example :
    Waits (record { tick_count = 0; task = 5 }) (advance (execute_at 4 5 (take_due demo).0).0)
    × (0 < (advance (execute_at 4 5 (take_due demo).0).0).current_tick_count)
unfolding initialize register_get_executor_func
execute_at_between_misses_example =
    execute_at_between_misses demo 4 5 demo-IsReady (omega arith) (omega arith) (omega arith) refl
      (omega arith)

-- The second of two wheels, about to borrow from the map.
abbrev hour_wheel : TimingWheelTool ℕ
hour_wheel = record { current_pos = 1; scale = 6; wheel = [] ∷ [] ∷ [] }

abbrev far_task : TaskWithTimestamp ℕ
far_task = record { tick_count = 7; task = 1 }

borrow_misplaces_example :
    ¬ All
      (IsOnTime (λ x. x.tick_count / 3) 2)
      (tick (hour_wheel ∷ []) 1 ((1, far_task ∷ []) ∷ [])).vec
unfolding find_or find
borrow_misplaces_example =
    borrow_misplaces 3 1 hour_wheel 1 ((1, far_task ∷ []) ∷ []) far_task refl refl (omega arith)

-- On wheels of 3 and 2 slots a task for tick 7 runs at tick 10.
abbrev far_demo : TimeWheelExecutor ℕ
far_demo =
    (execute_at 75 1 (
      final (
        initialize "tw" (some (record small { wheel_size = 3 ∷ 2 ∷ [] }))
          (final (register_get_executor_func no_executor fresh))))).0

far_demo_runs : (due (after 7 far_demo) ≡ []) × (due (after 10 far_demo) ≡ far_task ∷ [])
unfolding initialize register_get_executor_func execute_at round tick place find_or assign erase
    wheels_from find
far_demo_runs = (refl, refl)
