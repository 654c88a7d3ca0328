-- ===== src/Executor/TimeWheel/Faults.antt =====
-- Time-wheel executor: two ways in which a task misses its tick, each for the class of inputs
-- that shows it.
use aim_rt.Prelude.{
  ℕ, ◌+◌, ◌-◌, ◌*◌, ◌/◌, ◌%◌, ◌≤◌, ◌<◌, ◌≡◌, ◌≢◌, refl, sym, List, [], ◌∷◌, arith, length, get_or,
  set, ltb, true, false, All, nat_eq, length-set, inl, inr, lt→ltb, zero, suc,
}
use aim_rt.Prelude.Map.{Map, find_or}
use aim_rt.Executor.TimeWheel.{
  TaskWithTimestamp, TaskList, TimingWheelTool, tick, place, push_at, spread, u64_mod,
}
use aim_rt.Executor.TimeWheel.Slots.{InWheel-push_new, In, In-append}
use aim_rt.Executor.TimeWheel.OnTime.{IsOnTime, Due, wrap, tick-wrap, length-wrap}
use aim_rt.Executor.TimeWheel.Schedule.{IsReady, Waits, All-In}
use aim_rt.Executor.TimeWheel.Firing.{IsScheduled, Held, tick-exact}
use aim_rt.Executor.TimeWheel.Placing.{HasSizes, tick-HasSizes}
use aim_rt.Executor.TimeWheel.Machine.{TimeWheelExecutor, execute_at, take_due, advance}

module _ {A : Type 0} where
  get_or-push_at :
      (w : List (TaskList A)) (i : ℕ) (t : TaskWithTimestamp A)
      → i < length w
      → In t (get_or (push_at w i t) i [])
  unfolding push_at
  get_or-push_at w i t lt =
      rw (get_or-set w i _ lt) (In-append t (get_or w i []) (t ∷ []) (inr (inl refl)))
    where
      get_or-set :
          (w : List (TaskList A)) (i : ℕ) (v : TaskList A)
          → i < length w
          → get_or (set w i v) i [] ≡ v
      get_or-set [] i v lt = absurd (omega arith)
      get_or-set (x ∷ w) zero v lt = refl
      get_or-set (x ∷ w) (suc i) v lt = get_or-set w i v (omega arith)

  place_now :
      (c target : ℕ) (ns : List ℕ) (vec : List (TimingWheelTool A)) (pos : ℕ)
      (m : Map ℕ (TaskList A)) (t : TaskWithTimestamp A)
      → IsScheduled c vec pos m
      → HasSizes ns vec
      → Held t (place ns vec m 0 target t).0 (place ns vec m 0 target t).1
  unfolding place
  place_now c target ns [] pos m t h sizes = elim h [ ]
  place_now c target [] (w ∷ ws) pos m t h sizes = elim sizes [ ]
  place_now c target (n ∷ ns) (w ∷ ws) pos m t (h, below) (e, sizes) =
      let first : ltb 0 n ≡ true = lt→ltb 0 n (omega (arith, h.size_pos)) in
      rw first (inl (InWheel-push_new t w.wheel (target % n) (omega (arith, h.size_pos))))

  -- `borrow_func` of a second wheel of `k` slots files a task from the map under its tick count
  -- modulo `k`, where its block number was meant: if the two slots differ, and the task is the only
  -- one borrowed, the wheel is not on time after the borrow.
  pub borrow_misplaces :
      (n d : ℕ) (w : TimingWheelTool A) (pos : ℕ) (m : Map ℕ (TaskList A)) (t : TaskWithTimestamp A)
      → w.current_pos + 1 ≡ length w.wheel
      → find_or [] pos m ≡ t ∷ []
      → t.tick_count % length w.wheel ≢ t.tick_count / n % length w.wheel
      → ¬ All (IsOnTime (λ x. x.tick_count / n) (d + 1)) (tick (w ∷ []) pos m).vec
  borrow_misplaces n d w pos m t e found apart h =
      let k = length w.wheel in
      let cleared = set w.wheel w.current_pos [] in
      let same : length cleared ≡ k = length-set w.wheel w.current_pos [] in
      let at = t.tick_count % k in
      let borrowed : (tick [] pos m).tasks ≡ t ∷ [] = unfold tick in found in
      let on_time : IsOnTime (λ x. x.tick_count / n) (d + 1) (wrap (t ∷ []) w) =
        rw borrowed at (rw (tick-wrap w [] pos m e) at h).0 in
      let filed : (wrap (t ∷ []) w).wheel ≡ push_at cleared at t = unfold wrap spread in rw same in
      let there : In t (get_or (wrap (t ∷ []) w).wheel at []) =
        rw filed (get_or-push_at cleared at t (omega (arith, e, same))) in
      let right : t.tick_count / n % length (wrap (t ∷ []) w).wheel ≡ at =
        (All-In (Due (λ x. x.tick_count / n) _ (d + 1) at) t _ (on_time.slots at) there).0 in
      apart (sym (rw (length-wrap (t ∷ []) w) at right))

  -- A ready executor: a task for the current tick that arrives between `take_due` and `advance`,
  -- where the lock is free, waits in the wheels after its tick has passed.
  pub execute_at_between_misses :
      (tw : TimeWheelExecutor A) (tp : ℕ) (task : A)
      → IsReady tw
      → tw.start_time_point ≤ tp
      → tp < u64_mod
      → tw.current_tick_count * tw.dt_count ≤ tp - tw.start_time_point
      → (tp - tw.start_time_point) / tw.dt_count ≡ tw.current_tick_count
      → tw.current_tick_count + 2 < u64_mod
      → let r = advance (execute_at tp task (take_due tw).0).0 in
        let t : TaskWithTimestamp A = record { tick_count = tw.current_tick_count; task = task } in
        Waits t r × (t.tick_count < r.current_tick_count)
  unfolding execute_at take_due advance
  execute_at_between_misses tw tp task h from lt later e small =
      let c = tw.current_tick_count in
      let v_eq : (tp + u64_mod - tw.start_time_point) % u64_mod ≡ tp - tw.start_time_point =
        omega arith in
      let now_eq : c * tw.dt_count % u64_mod ≡ c * tw.dt_count = omega arith in
      let not_past : ltb (tp - tw.start_time_point) (c * tw.dt_count) ≡ false = ground arith in
      let diff_eq : (c + u64_mod - c) % u64_mod ≡ 0 = omega arith in
      let next : (c + 1) % u64_mod ≡ c + 1 = omega arith in
      let r =
        tick-exact c tw.timing_wheel_vec tw.timing_task_map_pos tw.timing_task_map small
          h.scheduled in
      let sizes =
        tick-HasSizes tw.options.wheel_size tw.timing_wheel_vec tw.timing_task_map_pos
          tw.timing_task_map h.sizes in
      rw (v_eq, now_eq, not_past, e, diff_eq, next)
        (place_now (c + 1) c tw.options.wheel_size _ _ _ _ r.1 sizes, omega arith)
