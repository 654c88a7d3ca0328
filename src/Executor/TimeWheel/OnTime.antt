-- ===== src/Executor/TimeWheel/OnTime.antt =====
-- Time-wheel executor: the invariant that makes every task of the wheels run at its tick.
use aim_rt.Prelude.{
  ℕ, ◌+◌, ◌%◌, ◌≤◌, ◌<◌, ◌≡◌, sym, ◌∙◌, ◌≢◌, List, [], ◌∷◌, arith, length, get_or, set, length-set,
  All, All-map,
}
use aim_rt.Prelude.Map.{Map}
use aim_rt.Executor.TimeWheel.{TaskWithTimestamp, TaskList, TimingWheelTool, tick, spread}
use aim_rt.Executor.TimeWheel.Slots.{InSlots, InSlots-clear, InSlots-spread, length-spread}
use aim_rt.Executor.TimeWheel.Arith.{mod-window, mod-window_ne, suc-mod-wrap, suc-mod-stay}

module _ {A : Type 0} where
  -- Task `t` of slot `j` is due, counted by `f`, in the `n` ticks from `c` on, and its slot is
  -- the remainder of its tick.
  abbrev pub Due : (TaskWithTimestamp A → ℕ) → ℕ → ℕ → ℕ → TaskWithTimestamp A → Type 0
  Due f n c j t = (f t % n ≡ j) × (c ≤ f t) × (f t < c + n)

  -- A wheel whose next tick is number `c`, counted by `f`.
  pub record IsOnTime (f : TaskWithTimestamp A → ℕ) (c : ℕ) (w : TimingWheelTool A) : Type 0 where
    pub size_pos : 0 < length w.wheel
    pub position : w.current_pos ≡ c % length w.wheel
    pub slots : InSlots (Due f (length w.wheel) c) w.wheel

  -- What a tick reads is due now.
  pub IsOnTime-read :
      (f : TaskWithTimestamp A → ℕ) (c : ℕ) (w : TimingWheelTool A)
      → IsOnTime f c w
      → All (λ t. f t ≡ c) (get_or w.wheel w.current_pos [])
  IsOnTime-read f c w h =
      All-map (Due f (length w.wheel) c w.current_pos) (λ t. f t ≡ c)
        (get_or w.wheel w.current_pos [])
        (λ t d. mod-window (length w.wheel) c (f t) (d.0 ∙ h.position) d.1 d.2)
        (h.slots w.current_pos)

  -- What stays is due later, in the window that begins one tick later.
  pub IsOnTime-clear :
      (f : TaskWithTimestamp A → ℕ) (c : ℕ) (w : TimingWheelTool A)
      → IsOnTime f c w
      → InSlots (Due f (length w.wheel) (c + 1)) (set w.wheel w.current_pos [])
  IsOnTime-clear f c w h =
      InSlots-clear (Due f (length w.wheel) c) (Due f (length w.wheel) (c + 1)) w.wheel
        w.current_pos
        (λ j t ne d.
          let later =
            mod-window_ne (length w.wheel) c (f t) (λ e. ne (sym d.0 ∙ e ∙ sym h.position)) d.1
              d.2 in
          (d.0, later.0, later.1))
        h.slots

  -- The wheel after a tick that does not wrap, and after one that does and borrows `ts`.
  unfoldable pub stay : TimingWheelTool A → TimingWheelTool A
  stay w = record w { current_pos = w.current_pos + 1; wheel = set w.wheel w.current_pos [] }

  unfoldable pub wrap : TaskList A → TimingWheelTool A → TimingWheelTool A
  wrap ts w = record w { current_pos = 0; wheel = spread ts (set w.wheel w.current_pos []) }

  pub length-stay : (w : TimingWheelTool A) → length (stay w).wheel ≡ length w.wheel
  unfolding stay
  length-stay w = length-set w.wheel w.current_pos []

  pub length-wrap :
      (ts : TaskList A) (w : TimingWheelTool A) → length (wrap ts w).wheel ≡ length w.wheel
  unfolding wrap
  length-wrap ts w =
      length-spread ts (set w.wheel w.current_pos []) ∙ length-set w.wheel w.current_pos []

  pub tick-stay :
      (w : TimingWheelTool A) (ws : List (TimingWheelTool A)) (pos : ℕ) (m : Map ℕ (TaskList A))
      → w.current_pos + 1 ≢ length w.wheel
      → tick (w ∷ ws) pos m ≡ record {
        vec = stay w ∷ ws;
        map_pos = pos;
        task_map = m;
        tasks = get_or w.wheel w.current_pos [];
      }
  unfolding tick stay
  tick-stay w ws pos m ne = ground arith

  pub tick-wrap :
      (w : TimingWheelTool A) (ws : List (TimingWheelTool A)) (pos : ℕ) (m : Map ℕ (TaskList A))
      → w.current_pos + 1 ≡ length w.wheel
      → tick (w ∷ ws) pos m ≡ record {
        vec = wrap (tick ws pos m).tasks w ∷ (tick ws pos m).vec;
        map_pos = (tick ws pos m).map_pos;
        task_map = (tick ws pos m).task_map;
        tasks = get_or w.wheel w.current_pos [];
      }
  unfolding tick wrap
  tick-wrap w ws pos m e = ground arith

  pub stay-IsOnTime :
      (f : TaskWithTimestamp A → ℕ) (c : ℕ) (w : TimingWheelTool A)
      → w.current_pos + 1 ≢ length w.wheel
      → IsOnTime f c w
      → IsOnTime f (c + 1) (stay w)
  unfolding stay
  stay-IsOnTime f c w ne h =
      let n = length w.wheel in
      let same : length (set w.wheel w.current_pos []) ≡ n = length-set w.wheel w.current_pos [] in
      record {
        size_pos = omega (arith, same, h.size_pos);
        position = rw same (
            omega (
              arith,
              suc-mod-stay n c h.size_pos (λ e. ne (omega (arith, h.position))),
              h.position,
            ));
        slots = rw same (IsOnTime-clear f c w h);
      }

  pub wrap-IsOnTime :
      (f : TaskWithTimestamp A → ℕ) (c : ℕ) (w : TimingWheelTool A) (ts : TaskList A)
      → w.current_pos + 1 ≡ length w.wheel
      → IsOnTime f c w
      → All (λ t. Due f (length w.wheel) (c + 1) (t.tick_count % length w.wheel) t) ts
      → IsOnTime f (c + 1) (wrap ts w)
  unfolding wrap
  wrap-IsOnTime f c w ts e h borrowed =
      let n = length w.wheel in
      let cleared : List (TaskList A) = set w.wheel w.current_pos [] in
      let same : length cleared ≡ n = length-set w.wheel w.current_pos [] in
      let spread_same : length (spread ts cleared) ≡ n = length-spread ts cleared ∙ same in
      record {
        size_pos = omega (arith, spread_same, h.size_pos);
        position =
            rw spread_same
              (omega (arith, suc-mod-wrap n c h.size_pos (omega (arith, h.position)), h.position));
        slots =
            rw spread_same (
              InSlots-spread (Due f n (c + 1)) n ts cleared same borrowed (IsOnTime-clear f c w h));
      }
