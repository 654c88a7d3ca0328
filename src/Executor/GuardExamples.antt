-- ===== src/Executor/GuardExamples.antt =====
-- The guard thread on tasks that are numbers: an odd task throws, and every task is logged.
use aim_rt.Prelude.{ℕ, ◌+◌, ◌%◌, ◌≡◌, refl, Bool, true, List, [], ◌∷◌, ◌++◌, nat_eq, ◌==◌, arith}
use aim_rt.Core.Lifecycle.{start}
use aim_rt.Executor.GuardThread.{GuardThreadExecutor, execute, take_queue, run_next}
use aim_rt.Executor.GuardThread.Ledger.{
  Event, submitted, swapped, ran, IsLedger, all_happen, happen, count_thrown, all_happen-IsLedger,
  execute_starved,
}

abbrev demo_run : ℕ → List ℕ → List ℕ × Bool
demo_run t w = (w ++ t ∷ [], (t % 2) == 0)

abbrev demo_guard : GuardThreadExecutor ℕ
demo_guard = record {
  options = record { queue_threshold = 2; alarm = true };
  state = start;
  queue_task_num = 0;
  queue = [];
  tmp_queue = [];
}

-- Two tasks that throw, and one that does not.
abbrev demo_events : List (Event ℕ)
demo_events =
    submitted 1 ∷ swapped ∷ ran ∷ submitted 4 ∷ swapped ∷ ran ∷ submitted 3 ∷ swapped ∷ ran ∷ []

all_happen-IsLedger_example :
    IsLedger
      (all_happen demo_run demo_events (demo_guard, [])).0
      (0 + count_thrown demo_run demo_events (demo_guard, []))
all_happen-IsLedger_example = all_happen-IsLedger demo_run demo_events demo_guard [] 0 refl

execute_starved_example :
    execute 8 (all_happen demo_run demo_events (demo_guard, [])).0
    ≡ (all_happen demo_run demo_events (demo_guard, [])).0
unfolding all_happen happen execute take_queue run_next count_thrown
execute_starved_example =
    execute_starved demo_run 8 demo_events demo_guard [] refl refl refl (omega arith) refl refl refl
