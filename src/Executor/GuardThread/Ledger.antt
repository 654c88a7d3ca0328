-- ===== src/Executor/GuardThread/Ledger.antt =====
-- guard_thread_executor.cc: what the counter `queue_task_num_` counts, and the order of the tasks.
use aim_rt.Prelude.{
  ℕ, ◌+◌, ◌%◌, ◌≤◌, ◌<◌, ◌≡◌, refl, ap, sym, ◌∙◌, Bool, true, false, ◌&&◌, List, [], ◌∷◌, ◌++◌,
  append_assoc, append-nil, arith, length, length-append, Bool-cases, inl, inr, if◌then◌else◌, ltb,
}
use aim_rt.Core.Lifecycle.{is_init, is_start}
use aim_rt.Executor.GuardThread.{
  GuardThreadExecutor, u32_mod, incr, decr, execute, take_queue, run_next, run_all,
}

-- What happens to a running executor.
pub data Event (A : Type 0) : Type 0 where
  submitted : A → Event A
  swapped ran : Event A

and_false : (b : Bool) → (b && false) ≡ false
and_false true = refl
and_false false = refl

module _ {A : Type 0} where
  -- The counter is the number of tasks that wait, and of `lost` tasks, on 32 bits.
  abbrev pub IsLedger : GuardThreadExecutor A → ℕ → Type 0
  IsLedger e lost = e.queue_task_num ≡ (length e.queue + length e.tmp_queue + lost) % u32_mod

  execute-IsLedger :
      (t : A) (e : GuardThreadExecutor A) (lost : ℕ) → IsLedger e lost → IsLedger (execute t e) lost
  unfolding execute
  execute-IsLedger t e lost h = ground (arith, h, length-append e.queue (t ∷ []))

  take_queue-IsLedger :
      (e : GuardThreadExecutor A) (lost : ℕ) → IsLedger e lost → IsLedger (take_queue e) lost
  unfolding take_queue
  take_queue-IsLedger e lost h = ground (arith, h)

  module _ {W : Type 0} (task_run : A → W → W × Bool) where
    -- The next task throws.
    abbrev pub throws : GuardThreadExecutor A × W → ℕ
    throws (e, w) = elim e.tmp_queue [ [] ↦ 0 | t ∷ ts ↦ if (task_run t w).1 then 0 else 1 ]

    run_next-IsLedger :
        (e : GuardThreadExecutor A) (w : W) (lost : ℕ)
        → IsLedger e lost
        → IsLedger (run_next task_run (e, w)).0 (lost + throws (e, w))
    unfolding run_next
    run_next-IsLedger e w lost h = ground (arith, h)

    unfoldable pub happen : Event A → GuardThreadExecutor A × W → GuardThreadExecutor A × W
    happen (submitted t) (e, w) = (execute t e, w)
    happen swapped (e, w) = (take_queue e, w)
    happen ran s = run_next task_run s

    abbrev pub thrown_by : Event A → GuardThreadExecutor A × W → ℕ
    thrown_by (submitted t) s = 0
    thrown_by swapped s = 0
    thrown_by ran s = throws s

    unfoldable pub all_happen :
        List (Event A) → GuardThreadExecutor A × W → GuardThreadExecutor A × W
    unfolding happen
    all_happen [] s = s
    all_happen (v ∷ vs) s = all_happen vs (happen v s)

    -- How many tasks have thrown.
    unfoldable pub count_thrown : List (Event A) → GuardThreadExecutor A × W → ℕ
    unfolding happen
    count_thrown [] s = 0
    count_thrown (v ∷ vs) s = thrown_by v s + count_thrown vs (happen v s)

    happen-IsLedger :
        (v : Event A) (e : GuardThreadExecutor A) (w : W) (lost : ℕ)
        → IsLedger e lost
        → IsLedger (happen v (e, w)).0 (lost + thrown_by v (e, w))
    unfolding happen
    happen-IsLedger (submitted t) e w lost h = execute-IsLedger t e (lost + 0) (omega (arith, h))
    happen-IsLedger swapped e w lost h = take_queue-IsLedger e (lost + 0) (omega (arith, h))
    happen-IsLedger ran e w lost h = run_next-IsLedger e w lost h

    -- In every interleaving of submissions, swaps and runs, the counter is (mod 2 ^ 32) the number
    -- of waiting tasks and of all tasks that have thrown: these are never taken off it.
    pub all_happen-IsLedger :
        (vs : List (Event A)) (e : GuardThreadExecutor A) (w : W) (lost : ℕ)
        → IsLedger e lost
        → IsLedger (all_happen vs (e, w)).0 (lost + count_thrown vs (e, w))
    unfolding all_happen count_thrown
    all_happen-IsLedger [] e w lost h = omega (arith, h)
    all_happen-IsLedger (v ∷ vs) e w lost h =
        let s = happen v (e, w) in
        omega (
          arith,
          all_happen-IsLedger vs s.0 s.1 (lost + thrown_by v (e, w)) (happen-IsLedger v e w lost h),
        )

  execute-full :
      (t : A) (e : GuardThreadExecutor A)
      → is_start e.state ≡ true
      → e.options.alarm ≡ true
      → e.options.queue_threshold + 1 < u32_mod
      → e.queue_task_num ≡ e.options.queue_threshold
      → execute t e ≡ e
  unfolding execute
  execute-full t e s a b n =
      let over : ltb e.options.queue_threshold (incr e.queue_task_num) ≡ true =
        ground (arith, b, n) in
      let back : decr (incr e.queue_task_num) ≡ e.queue_task_num = omega (arith, b, n) in
      rw (s, a)
        (elim (Bool-cases (is_init e.state)) [
          | inl i ↦ rw i (rw over (rw back refl))
          | inr i ↦ rw i (rw over (rw back refl))
        ])

  module _ {W : Type 0} (task_run : A → W → W × Bool) where
    -- A running executor, with the alarm on and a threshold of at most 2 ^ 32 - 2, whose queues are
    -- empty after a run in which as many tasks as the threshold have thrown: it refuses every task.
    pub execute_starved :
        (t : A) (vs : List (Event A)) (e : GuardThreadExecutor A) (w : W)
        → IsLedger e 0
        → let e' = (all_happen task_run vs (e, w)).0 in
          is_start e'.state ≡ true
          → e'.options.alarm ≡ true
          → e'.options.queue_threshold + 1 < u32_mod
          → e'.queue ≡ []
          → e'.tmp_queue ≡ []
          → count_thrown task_run vs (e, w) ≡ e'.options.queue_threshold
          → execute t e' ≡ e'
    execute_starved t vs e w h s a b q q' c =
        let e' = (all_happen task_run vs (e, w)).0 in
        execute-full t e' s a b (
          omega (
            arith,
            all_happen-IsLedger task_run vs e w 0 h,
            ap (length {A = A}) q,
            ap (length {A = A}) q',
            c,
            b,
          ))

  unfoldable pub execute_all : List A → GuardThreadExecutor A → GuardThreadExecutor A
  execute_all [] e = e
  execute_all (t ∷ ts) e = execute_all ts (execute t e)

  -- Tasks run one after the other.
  abbrev pub in_order : {W : Type 0} → (A → W → W × Bool) → List A → W → W
  in_order task_run [] w = w
  in_order task_run (t ∷ ts) w = in_order task_run ts (task_run t w).0

  execute-room :
      (t : A) (e : GuardThreadExecutor A)
      → is_start e.state ≡ true
      → e.queue_task_num + 1 ≤ e.options.queue_threshold
      → e.options.queue_threshold < u32_mod
      → execute t e ≡ record e { queue_task_num = e.queue_task_num + 1; queue = e.queue ++ t ∷ [] }
  unfolding execute
  execute-room t e s room b =
      let under : ltb e.options.queue_threshold (incr e.queue_task_num) ≡ false =
        ground (arith, b, room) in
      let up : incr e.queue_task_num ≡ e.queue_task_num + 1 = omega (arith, b, room) in
      elim (Bool-cases (is_init e.state)) [
        | inl i ↦ rw i (rw (under, and_false) (rw up refl))
        | inr i ↦ rw (i, s) (rw (under, and_false) (rw up refl))
      ]

  execute_all-room :
      (ts : List A) (e : GuardThreadExecutor A)
      → is_start e.state ≡ true
      → e.queue_task_num + length ts ≤ e.options.queue_threshold
      → e.options.queue_threshold < u32_mod
      → ((execute_all ts e).queue ≡ e.queue ++ ts) × ((execute_all ts e).tmp_queue ≡ e.tmp_queue)
  unfolding execute_all
  execute_all-room [] e s room b = (sym (append-nil e.queue), refl)
  execute_all-room (t ∷ ts) e s room b =
      let e' : GuardThreadExecutor A = record e {
        queue_task_num = e.queue_task_num + 1;
        queue = e.queue ++ t ∷ [];
      } in
      let (q, tmp) = execute_all-room ts e' s (omega (arith, room)) b in
      let one = execute-room t e s (omega (arith, room)) b in
      (
        ap (λ x. (execute_all ts x).queue) one ∙ (q ∙ append_assoc e.queue (t ∷ []) ts),
        ap (λ x. (execute_all ts x).tmp_queue) one ∙ tmp,
      )

  run_all-in_order :
      {W : Type 0} (task_run : A → W → W × Bool) (ts : List A) (e : GuardThreadExecutor A) (w : W)
      → e.tmp_queue ≡ ts
      → (run_all task_run ts (e, w)).1 ≡ in_order task_run ts w
  unfolding run_all run_next
  run_all-in_order task_run [] e w h = refl
  run_all-in_order task_run (t ∷ ts) e w h =
      rw (h, run_next) (run_all-in_order task_run ts _ _ refl)

  take_queue-empty :
      (e : GuardThreadExecutor A) → e.tmp_queue ≡ [] → (take_queue e).tmp_queue ≡ e.queue
  unfolding take_queue
  take_queue-empty e h = rw (h, take_queue) refl

  -- A running executor whose queues are empty and that has room for some tasks below its threshold
  -- of 32 bits: the thread's next
  -- swap takes exactly these, and runs them in the order of their submission, a task that throws
  -- not keeping the later ones from running.
  pub run_all-take_queue :
      {W : Type 0} (task_run : A → W → W × Bool) (ts : List A) (e : GuardThreadExecutor A) (w : W)
      → is_start e.state ≡ true
      → e.queue_task_num + length ts ≤ e.options.queue_threshold
      → e.options.queue_threshold < u32_mod
      → e.queue ≡ []
      → e.tmp_queue ≡ []
      → let e' = take_queue (execute_all ts e) in
        (e'.tmp_queue ≡ ts) × ((run_all task_run e'.tmp_queue (e', w)).1 ≡ in_order task_run ts w)
  run_all-take_queue task_run ts e w s room b q tmp =
      let (made, kept) = execute_all-room ts e s room b in
      let e' = take_queue (execute_all ts e) in
      let taken : e'.tmp_queue ≡ ts =
        take_queue-empty (execute_all ts e) (kept ∙ tmp)
        ∙ (made ∙ ap (λ (xs : List A). xs ++ ts) q) in
      (
        taken,
        ap (λ (xs : List A). (run_all task_run xs (e', w)).1) taken
            ∙ run_all-in_order task_run ts e' w taken,
      )
