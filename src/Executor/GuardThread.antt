-- ===== src/Executor/GuardThread.antt =====
-- src/runtime/core/executor/guard_thread_executor.{h,cc}. `A` are the tasks; running one changes a
-- world `W` and either returns or throws. The thread takes the whole queue and then runs it: each
-- `Execute`, and each run of a task, is one step, so that the two can be interleaved. Logging, the
-- thread's name and its scheduling are not modelled.
pub mod Ledger
use aim_rt.Prelude.{
  ℕ, ◌+◌, ◌%◌, ◌^◌, Bool, true, false, not, ◌&&◌, ◌||◌, List, [], ◌∷◌, ◌++◌, ltb, if◌then◌else◌,
}
use aim_rt.Core.Lifecycle.{
  State, pre_init, init, start, shutdown, Outcome, done, thrown, is_pre_init, is_init, is_start,
  is_shutdown,
}

pub record Options : Type 0 where
  pub queue_threshold : ℕ
  -- `threshold_alarm_interval_ms >= 0`
  pub alarm : Bool

pub record GuardThreadExecutor (A : Type 0) : Type 0 where
  pub options : Options
  pub state : State
  pub queue_task_num : ℕ
  pub queue : List A
  -- The tasks that the thread has taken and not run yet.
  pub tmp_queue : List A

abbrev pub u32_mod : ℕ
u32_mod = 2 ^ 32

-- `++queue_task_num_` and `--queue_task_num_` on 32 bits.
abbrev pub incr : ℕ → ℕ
incr n = (n + 1) % u32_mod

abbrev pub decr : ℕ → ℕ
decr n = (n + 4294967295) % u32_mod

module _ {A : Type 0} where
  abbrev pub fresh : Options → GuardThreadExecutor A
  fresh o = record { options = o; state = pre_init; queue_task_num = 0; queue = []; tmp_queue = [] }

  unfoldable pub initialize : Options → GuardThreadExecutor A → Outcome (GuardThreadExecutor A)
  initialize o e =
      if is_pre_init e.state
      then done (record e { options = o; state = init })
      else thrown (record e { state = init })

  unfoldable pub start_executor : GuardThreadExecutor A → Outcome (GuardThreadExecutor A)
  start_executor e =
      let e' : GuardThreadExecutor A = record e { state = start } in
      if is_init e.state then done e' else thrown e'

  unfoldable pub execute : A → GuardThreadExecutor A → GuardThreadExecutor A
  execute task e =
      let cur = incr e.queue_task_num in
      if not (is_init e.state) && not (is_start e.state)
      then e
      else if e.options.alarm && ltb e.options.queue_threshold cur
      then record e { queue_task_num = decr cur }
      else record e { queue_task_num = cur; queue = e.queue ++ task ∷ [] }

  -- The swap of the queues, when all that was taken before has run.
  unfoldable pub take_queue : GuardThreadExecutor A → GuardThreadExecutor A
  take_queue e = elim e.tmp_queue [ [] ↦ record e { queue = []; tmp_queue = e.queue } | t ∷ ts ↦ e ]

  module _ {W : Type 0} (task_run : A → W → W × Bool) where
    -- One round of `while (!tmp_queue.empty())`: the flag says that the task returned; where it
    -- throws, the counter keeps it.
    unfoldable pub run_next : GuardThreadExecutor A × W → GuardThreadExecutor A × W
    run_next (e, w) = elim e.tmp_queue [
      | [] ↦ (e, w)
      | t ∷ ts ↦
          let (w', returned) = task_run t w in
          (
            record e {
              queue_task_num = if returned then decr e.queue_task_num else e.queue_task_num;
              tmp_queue = ts;
            },
            w',
          )
    ]

    unfoldable pub run_all : List A → GuardThreadExecutor A × W → GuardThreadExecutor A × W
    unfolding run_next
    run_all [] s = s
    run_all (t ∷ ts) s = run_all ts (run_next s)

    -- `Shutdown`: the thread runs what it has taken, then what is left in the queue, and ends.
    unfoldable pub shutdown_executor : GuardThreadExecutor A × W → GuardThreadExecutor A × W
    unfolding run_all take_queue
    shutdown_executor (e, w) =
        let (e', w') = run_all e.tmp_queue (record e { state = shutdown }, w) in
        let (e'', w'') = run_all e'.queue (take_queue e', w') in
        if is_shutdown e.state then (e, w) else (e'', w'')
