-- ===== src/Executor/TimeWheel/Schedule.antt =====
-- Time-wheel executor: what `ExecuteAt` promises, over the rounds of the timer thread.
use aim_rt.Prelude.{
  ℕ, zero, suc, ◌+◌, ◌-◌, ◌*◌, ◌/◌, ◌%◌, ◌≤◌, ◌<◌, ◌≡◌, refl, ◌⊎◌, inl, inr, false, List, [], ◌∷◌,
  arith, length, get_or, All, All-map, nat_eq, ltb, lt→ltb, subst, Option-cases,
}
use native.Mathlib.Decide.{dec_lt}
use aim_rt.Executor.TimeWheel.Arith.{div-le}
use aim_rt.Prelude.Map.{Map, find_or}
use aim_rt.Executor.TimeWheel.{TaskWithTimestamp, TaskList, TimingWheelTool, u64_mod}
use aim_rt.Executor.TimeWheel.Slots.{In, InWheel}
use aim_rt.Executor.TimeWheel.OnTime.{Due, IsOnTime}
use aim_rt.Executor.TimeWheel.Levels.{Supplies, IsMapOnTime}
use aim_rt.Executor.TimeWheel.Firing.{
  IsScheduled, Held, tick-exact, tick-keeps, IsScheduled-HasSlots,
}
use aim_rt.Executor.TimeWheel.Placing.{InHorizon, HasSizes, place-IsScheduled, tick-HasSizes}
use aim_rt.Executor.TimeWheel.Machine.{
  TimeWheelExecutor, execute_at, execute, take_due, advance, round, run_immediate,
}

div-ge : (c d v : ℕ) → 0 < d → c * d ≤ v → c ≤ v / d
div-ge c d v pos h = grind arith

block-later : (n c t : ℕ) → 0 < n → c / n + 1 ≤ t / n → c ≤ t
block-later n c t pos h = grind arith

module _ {A : Type 0} where
  pub All-In :
      (P : TaskWithTimestamp A → Type 0) (t : TaskWithTimestamp A) (xs : TaskList A)
      → All P xs
      → In t xs
      → P t
  All-In P t [] h i = elim i [ ]
  All-In P t (x ∷ xs) h (inl e) = subst P e h.0
  All-In P t (x ∷ xs) h (inr i) = All-In P t xs h.1 i

  slot_of :
      (t : TaskWithTimestamp A) (w : List (TaskList A))
      → InWheel t w
      → (j : ℕ) × In t (get_or w j [])
  slot_of t [] h = elim h [ ]
  slot_of t (s ∷ w) (inl h) = (0, h)
  slot_of t (s ∷ w) (inr h) = let r = slot_of t w h in (suc r.0, r.1)

  wheel_ge :
      (f : TaskWithTimestamp A → ℕ) (c : ℕ) (w : TimingWheelTool A) (t : TaskWithTimestamp A)
      → IsOnTime f c w
      → InWheel t w.wheel
      → c ≤ f t
  wheel_ge f c w t h i =
      let r = slot_of t w.wheel i in
      (All-In (Due f (length w.wheel) c r.0) t (get_or w.wheel r.0 []) (h.slots r.0) r.1).1

  map_ge :
      (n d : ℕ) (m : Map ℕ (TaskList A)) (t : TaskWithTimestamp A) (k : ℕ)
      → IsMapOnTime n d m
      → In t (find_or [] k m)
      → d ≤ t.tick_count / n
  map_ge n d m t k h i =
      let e : t.tick_count / n ≡ k =
        All-In (λ x. x.tick_count / n ≡ k) t (find_or [] k m) (h.blocks k) i in
      elim (dec_lt k d) [ yes lt ↦ absurd (rw (h.passed k lt) at i) | no ge ↦ omega arith ]

  supplied_ge :
      (n d : ℕ) (ws : List (TimingWheelTool A)) (pos : ℕ) (m : Map ℕ (TaskList A))
      (t : TaskWithTimestamp A)
      → Supplies n d ws pos m
      → Held t ws m
      → d ≤ t.tick_count / n
  supplied_ge n d [] pos m t (e, h) (k, i) = map_ge n d m t k h i
  supplied_ge n d (w ∷ []) pos m t (h, empty) (inl i) = wheel_ge _ d w t h i
  supplied_ge n d (w ∷ []) pos m t (h, empty) (inr (k, i)) = absurd (rw (empty k) at i)
  supplied_ge n d (w ∷ v ∷ ws) pos m t h i = elim h [ ]

  -- Nothing that waits is overdue.
  pub Held-ge :
      (c : ℕ) (vec : List (TimingWheelTool A)) (pos : ℕ) (m : Map ℕ (TaskList A))
      (t : TaskWithTimestamp A)
      → IsScheduled c vec pos m
      → Held t vec m
      → c ≤ t.tick_count
  Held-ge c [] pos m t h i = elim h [ ]
  Held-ge c (w ∷ ws) pos m t (h, below) (inl i) = wheel_ge _ c w t h i
  Held-ge c (w ∷ ws) pos m t (h, below) (inr i) =
      block-later (length w.wheel) c t.tick_count h.size_pos
        (supplied_ge (length w.wheel) (c / length w.wheel + 1) ws pos m t below i)

  -- The executor is between two rounds, and its wheels are on time.
  pub record IsReady (tw : TimeWheelExecutor A) : Type 0 where
    pub sizes : HasSizes tw.options.wheel_size tw.timing_wheel_vec
    pub scheduled :
        IsScheduled tw.current_tick_count tw.timing_wheel_vec tw.timing_task_map_pos
          tw.timing_task_map
    pub dt_pos : 0 < tw.dt_count

  abbrev pub Waits : TaskWithTimestamp A → TimeWheelExecutor A → Type 0
  Waits t tw = Held t tw.timing_wheel_vec tw.timing_task_map

  -- A ready executor and a task for a time of 64 bits from `Now()` on, within the horizon of the
  -- wheels: `ExecuteAt` produces no effect yet, the task waits under the tick of that time, and
  -- the executor is still ready.
  pub execute_at-Waits :
      (tw : TimeWheelExecutor A) (tp : ℕ) (task : A)
      → IsReady tw
      → tw.start_time_point ≤ tp
      → tp < u64_mod
      → tw.current_tick_count * tw.dt_count ≤ tp - tw.start_time_point
      → InHorizon tw.options.wheel_size
          ((tp - tw.start_time_point) / tw.dt_count - tw.current_tick_count)
      → let r = execute_at tp task tw in
        IsReady r.0
        × Waits (record { tick_count = (tp - tw.start_time_point) / tw.dt_count; task = task }) r.0
        × (r.1 ≡ [])
  unfolding execute_at
  execute_at-Waits tw tp task h from lt later near =
      let c = tw.current_tick_count in
      let v = tp - tw.start_time_point in
      let target = v / tw.dt_count in
      let lo : c ≤ target = div-ge c tw.dt_count v h.dt_pos later in
      let v_eq : (tp + u64_mod - tw.start_time_point) % u64_mod ≡ v = omega arith in
      let now_eq : c * tw.dt_count % u64_mod ≡ c * tw.dt_count = omega arith in
      let not_past : ltb v (c * tw.dt_count) ≡ false = ground arith in
      let diff_eq : (target + u64_mod - c) % u64_mod ≡ target - c =
        omega (arith, div-le tw.dt_count v h.dt_pos) in
      let r =
        place-IsScheduled c tw.options.wheel_size tw.timing_wheel_vec tw.timing_task_map_pos
          tw.timing_task_map (record { tick_count = target; task = task }) lo h.sizes near
          h.scheduled in
      rw (v_eq, now_eq, not_past, diff_eq)
        (record { sizes = r.0; scheduled = r.1; dt_pos = h.dt_pos }, r.2, refl)

  -- A task for a time after the start and before `Now()`, which fit 64 bits, is not put into the
  -- wheels: it is executed at once.
  pub execute_at-past :
      (tw : TimeWheelExecutor A) (tp : ℕ) (task : A)
      → tw.start_time_point ≤ tp
      → tp < u64_mod
      → tw.current_tick_count * tw.dt_count < u64_mod
      → tp - tw.start_time_point < tw.current_tick_count * tw.dt_count
      → execute_at tp task tw ≡ execute task tw
  unfolding execute_at
  execute_at-past tw tp task from lt fits past =
      let v_eq : (tp + u64_mod - tw.start_time_point) % u64_mod ≡ tp - tw.start_time_point =
        omega arith in
      let now_eq : tw.current_tick_count * tw.dt_count % u64_mod
          ≡ tw.current_tick_count * tw.dt_count =
        omega arith in
      rw
        (v_eq, now_eq, lt→ltb (tp - tw.start_time_point) (tw.current_tick_count * tw.dt_count) past)

  -- The tasks that the next round takes from the wheels.
  abbrev pub due : TimeWheelExecutor A → TaskList A
  due tw = (take_due tw).1

  abbrev pub after : ℕ → TimeWheelExecutor A → TimeWheelExecutor A
  after zero tw = tw
  after (suc k) tw = after k (round tw).0

  -- The immediate tasks leave the wheels and the clock alone.
  run_immediate_lem :
      (tw : TimeWheelExecutor A)
      → (q : List A) × ((run_immediate tw).0 ≡ record tw { imd_queue = q })
  unfolding run_immediate
  run_immediate_lem tw = elim (Option-cases tw.bind_executor_ref) [
    | inl e ↦ ([], ground arith)
    | inr (r, e) ↦ (tw.imd_queue, ground arith)
  ]

  -- A round of a ready executor, at a tick below 2 ^ 64 - 2, takes from the wheels only tasks of
  -- its own tick, moves the clock by one tick, and leaves the executor ready.
  pub round-exact :
      (tw : TimeWheelExecutor A)
      → IsReady tw
      → tw.current_tick_count + 2 < u64_mod
      → All (λ t. t.tick_count ≡ tw.current_tick_count) (due tw)
        × IsReady (round tw).0
        × ((round tw).0.current_tick_count ≡ tw.current_tick_count + 1)
  unfolding round run_immediate take_due advance
  round-exact tw h lt =
      let (q, e) = run_immediate_lem tw in
      let r =
        tick-exact tw.current_tick_count tw.timing_wheel_vec tw.timing_task_map_pos
          tw.timing_task_map lt h.scheduled in
      let next : (tw.current_tick_count + 1) % u64_mod ≡ tw.current_tick_count + 1 = omega arith in
      rw e (
        r.0,
        rw next (record {
          sizes =
              tick-HasSizes tw.options.wheel_size tw.timing_wheel_vec tw.timing_task_map_pos
                tw.timing_task_map h.sizes;
          scheduled = r.1;
          dt_pos = h.dt_pos;
        }),
        next,
      )

  pub round-keeps :
      (tw : TimeWheelExecutor A) (t : TaskWithTimestamp A)
      → IsReady tw
      → Waits t tw
      → In t (due tw) ⊎ Waits t (round tw).0
  unfolding round run_immediate take_due advance
  round-keeps tw t h i =
      let (q, e) = run_immediate_lem tw in
      rw e (
        tick-keeps t tw.timing_wheel_vec tw.timing_task_map_pos tw.timing_task_map
          (IsScheduled-HasSlots tw.current_tick_count tw.timing_wheel_vec tw.timing_task_map_pos
            tw.timing_task_map h.scheduled)
          i)

  -- In a ready executor (between two rounds, with one wheel over the overflow map, or two wheels
  -- and nothing beyond them) every task that waits is handed out in the round of its own tick: `k`
  -- rounds from now, if its tick lies `k` ticks ahead and below 2 ^ 64 - 2.
  pub fires_on_time :
      (k : ℕ) (tw : TimeWheelExecutor A) (t : TaskWithTimestamp A)
      → IsReady tw
      → Waits t tw
      → t.tick_count ≡ tw.current_tick_count + k
      → t.tick_count + 2 < u64_mod
      → In t (due (after k tw))
  fires_on_time zero tw t h i e lt = elim (round-keeps tw t h i) [
    | inl now ↦ now
    | inr late ↦
        let r = round-exact tw h (omega arith) in
        absurd (omega (arith, r.2, Held-ge _ _ _ _ t r.1.scheduled late))
  ]
  fires_on_time (suc k) tw t h i e lt =
      let r = round-exact tw h (omega arith) in
      elim (round-keeps tw t h i) [
        | inl now ↦
            absurd
              (omega (arith, All-In (λ x. x.tick_count ≡ tw.current_tick_count) t (due tw) r.0 now))
        | inr later ↦ fires_on_time k (round tw).0 t r.1 later (omega (arith, r.2)) lt
      ]

  -- From a ready executor on, the wheels give out tasks of the round's own tick only, now and in
  -- every later round whose tick is below 2 ^ 64 - 2.
  pub never_early_or_late :
      (k : ℕ) (tw : TimeWheelExecutor A)
      → IsReady tw
      → tw.current_tick_count + k + 2 < u64_mod
      → All (λ t. t.tick_count ≡ tw.current_tick_count + k) (due (after k tw))
  never_early_or_late zero tw h lt =
      All-map _ _ (due tw) (λ t e. omega arith) (round-exact tw h (omega arith)).0
  never_early_or_late (suc k) tw h lt =
      let r = round-exact tw h (omega arith) in
      All-map _ _ (due (after k (round tw).0)) (λ t e. omega (arith, r.2))
        (never_early_or_late k (round tw).0 r.1 (omega (arith, r.2)))
