-- ===== src/Executor/TimeWheel/Setup.antt =====
-- Time-wheel executor: `Initialize` builds wheels that are on time.
use aim_rt.Prelude.{
  ℕ, zero, suc, ◌%◌, ◌/◌, ◌<◌, ◌≡◌, refl, ◌⊎◌, inl, inr, true, false, List, [], ◌∷◌, arith, get_or,
  replicate, length-replicate, Option, some, String, string_eq, ◌==◌, sym,
}
use native.Mathlib.Nat.{mod-eq_of_lt}
use aim_rt.Core.Lifecycle.{done, final}
use aim_rt.Prelude.Map.{find, find_or}
use aim_rt.Executor.TimeWheel.{TaskWithTimestamp, TaskList, wheels_from, u64_mod}
use aim_rt.Executor.TimeWheel.OnTime.{IsOnTime}
use aim_rt.Executor.TimeWheel.Placing.{HasSizes}
use aim_rt.Executor.TimeWheel.Firing.{IsScheduled}
use aim_rt.Executor.TimeWheel.Schedule.{IsReady}
use aim_rt.Executor.TimeWheel.Machine.{
  TimeWheelExecutor, Options, ExecutorRef, initialize, register_get_executor_func, fresh,
}

-- One wheel with a slot, or two wheels of which the second has two slots.
abbrev pub IsSupported : List ℕ → Type 0
IsSupported (n ∷ []) = 0 < n
IsSupported (n ∷ k ∷ []) = (0 < n) × (1 < k)
IsSupported _ = ⊥

-- The executor that an option's empty name leaves unbound, or that another executor takes on.
abbrev pub CanBind : (String → Option ExecutorRef) → String → String → Type 0
CanBind f name bind_executor =
    ((bind_executor == "") ≡ true)
    ⊎ ((r : ExecutorRef) × (f bind_executor ≡ some r)
        × ((bind_executor == "") ≡ false)
        × ((r.name == name) ≡ false))

zero_block : (n : ℕ) → 0 < n → 0 / n ≡ 0
zero_block n pos = grind arith

module _ (A : Type 0) where
  get_or-replicate : (n j : ℕ) → get_or {A = TaskList A} (replicate n []) j [] ≡ []
  get_or-replicate zero j = refl
  get_or-replicate (suc n) zero = refl
  get_or-replicate (suc n) (suc j) = get_or-replicate n j

  empty-IsOnTime :
      (f : TaskWithTimestamp A → ℕ) (c n scale : ℕ)
      → c < n
      → IsOnTime f c (record { current_pos = c; scale = scale; wheel = replicate n [] })
  empty-IsOnTime f c n scale lt =
      let len = length-replicate {A = TaskList A} n [] in
      record {
        size_pos = rw len (omega arith);
        position = rw len (sym (mod-eq_of_lt lt));
        slots = λ j. rw (get_or-replicate n j) tt;
      }

  wheels_from-HasSizes :
      (start scale : ℕ) (ns : List ℕ) → HasSizes ns (wheels_from {A = A} start scale ns)
  unfolding wheels_from
  wheels_from-HasSizes start scale [] = tt
  wheels_from-HasSizes start scale (n ∷ ns) = (length-replicate n [], wheels_from-HasSizes 1 _ ns)

  wheels_from-IsScheduled :
      (ns : List ℕ) → IsSupported ns → IsScheduled 0 (wheels_from {A = A} 0 1 ns) 1 []
  unfolding wheels_from find_or find
  wheels_from-IsScheduled [] h = elim h [ ]
  wheels_from-IsScheduled (n ∷ []) h =
      rw (length-replicate {A = TaskList A} n [], zero_block n h)
        (empty-IsOnTime _ 0 n _ h, (refl, record { blocks = λ k. tt; passed = λ k lt. refl }))
  wheels_from-IsScheduled (n ∷ k ∷ []) h =
      rw (length-replicate {A = TaskList A} n [], zero_block n h.0)
        (empty-IsOnTime _ 0 n _ h.0, (empty-IsOnTime _ 1 k _ h.1, λ j. refl))
  wheels_from-IsScheduled (n ∷ k ∷ l ∷ ns) h = elim h [ ]

  -- After `RegisterGetExecutorFunc`, `Initialize` succeeds on an executor to bind that is found (or
  -- none named), on one wheel with a slot or two wheels of which the second has two slots, and on a
  -- tick length of 64 bits that is not 0; the executor is then ready at tick 0 with that length.
  pub initialize-IsReady :
      (f : String → Option ExecutorRef) (name : String) (opts : Options)
      → CanBind f name opts.bind_executor
      → IsSupported opts.wheel_size
      → 0 < opts.dt
      → opts.dt < u64_mod
      → (tw : TimeWheelExecutor A) × (initialize name
            (some opts)
            (final (register_get_executor_func f fresh))
          ≡ done tw)
        × IsReady tw
        × (tw.current_tick_count ≡ 0)
        × (tw.dt_count ≡ opts.dt)
  unfolding initialize register_get_executor_func
  initialize-IsReady f name opts b s pos lt =
      let fits : opts.dt % u64_mod ≡ opts.dt = mod-eq_of_lt lt in
      let sizes = wheels_from-HasSizes 0 1 opts.wheel_size in
      let scheduled = wheels_from-IsScheduled opts.wheel_size s in
      let dt_pos : 0 < opts.dt % u64_mod = omega arith in
      elim b [
        | inl unbound ↦
            rw unbound (
              _,
              refl,
              record { sizes = sizes; scheduled = scheduled; dt_pos = dt_pos },
              refl,
              fits,
            )
        | inr (r, e, bound, other) ↦
            rw (bound, e, other)
              (
                _,
                refl,
                record { sizes = sizes; scheduled = scheduled; dt_pos = dt_pos },
                refl,
                fits,
              )
      ]
