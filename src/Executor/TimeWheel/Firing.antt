-- ===== src/Executor/TimeWheel/Firing.antt =====
-- Time-wheel executor: one tick hands out what is due now, all of it, and nothing is lost.
use aim_rt.Prelude.{
  ℕ, ◌+◌, ◌/◌, ◌%◌, ◌<◌, ◌≡◌, refl, ◌⊎◌, inl, inr, false, List, [], ◌∷◌, arith, length, get_or,
  length-set, All, All-map, nat_eq, ◌==◌,
}
use native.Mathlib.Decide.{ℕ_discrete}
use aim_rt.Prelude.Map.{Map, find_or}
use aim_rt.Executor.TimeWheel.{TaskWithTimestamp, TaskList, TimingWheelTool, Ticked, tick, u64_mod}
use aim_rt.Executor.TimeWheel.Slots.{In, InWheel, InWheel-clear, InWheel-spread}
use aim_rt.Executor.TimeWheel.OnTime.{
  IsOnTime, IsOnTime-read, stay, wrap, tick-stay, tick-wrap, stay-IsOnTime, wrap-IsOnTime,
  length-stay, length-wrap,
}
use aim_rt.Executor.TimeWheel.Levels.{Supplies, tick-Supplies, find_or-erase}
use aim_rt.Executor.TimeWheel.Arith.{div-window, suc-mod-wrap, suc-mod-stay, div-le}

module _ {A : Type 0} where
  -- The wheels are about to make tick `c`, and every task of theirs is in the slot of its tick.
  abbrev pub IsScheduled : ℕ → List (TimingWheelTool A) → ℕ → Map ℕ (TaskList A) → Type 0
  IsScheduled c [] pos m = ⊥
  IsScheduled c (w ∷ ws) pos m =
      IsOnTime (λ t. t.tick_count) c w × Supplies (length w.wheel) (c / length w.wheel + 1) ws pos m

  abbrev pub IsScheduledAfter : ℕ → Ticked A → Type 0
  IsScheduledAfter c r = IsScheduled c r.vec r.map_pos r.task_map

  pub tick-exact :
      (c : ℕ) (vec : List (TimingWheelTool A)) (pos : ℕ) (m : Map ℕ (TaskList A))
      → c + 2 < u64_mod
      → IsScheduled c vec pos m
      → All (λ t. t.tick_count ≡ c) (tick vec pos m).tasks
        × IsScheduledAfter (c + 1) (tick vec pos m)
  tick-exact c [] pos m lt h = elim h [ ]
  tick-exact c (w ∷ ws) pos m lt (h, below) =
      let n = length w.wheel in
      let block_bound : c / n + 1 + 1 < u64_mod = omega (arith, div-le n c h.size_pos) in
      let (tasks, later) = tick-Supplies n (c / n + 1) ws pos m block_bound below in
      elim (ℕ_discrete (w.current_pos + 1) n) [
        | yes e ↦
            let e' : c % n + 1 ≡ n = omega (arith, h.position) in
            let next = suc-mod-wrap n c h.size_pos e' in
            rw (tick-wrap w ws pos m e) (
              IsOnTime-read _ c w h,
              (
                wrap-IsOnTime _ c w (tick ws pos m).tasks e h (
                    All-map _ _ (tick ws pos m).tasks
                      (λ t q. (
                        refl,
                        (div-window n c t.tick_count e' q).0,
                        (div-window n c t.tick_count e' q).1,
                      ))
                      tasks),
                rw (length-wrap, next.1) later,
              ),
            )
        | no ne ↦
            let same = suc-mod-stay n c h.size_pos (λ e'. ne (omega (arith, h.position))) in
            rw (tick-stay w ws pos m ne)
              (IsOnTime-read _ c w h, (stay-IsOnTime _ c w ne h, rw (length-stay, same.1) below))
      ]

  -- Task `t` waits in the wheels or in the map.
  abbrev pub Held : TaskWithTimestamp A → List (TimingWheelTool A) → Map ℕ (TaskList A) → Type 0
  Held t [] m = (k : ℕ) × In t (find_or [] k m)
  Held t (w ∷ ws) m = InWheel t w.wheel ⊎ Held t ws m

  abbrev pub HasSlots : List (TimingWheelTool A) → Type 0
  HasSlots = All (λ w. 0 < length w.wheel)

  stay-keeps :
      (t : TaskWithTimestamp A) (w : TimingWheelTool A) (ws : List (TimingWheelTool A))
      (m : Map ℕ (TaskList A))
      → Held t (w ∷ ws) m
      → In t (get_or w.wheel w.current_pos []) ⊎ Held t (stay w ∷ ws) m
  unfolding stay
  stay-keeps t w ws m (inr h) = inr (inr h)
  stay-keeps t w ws m (inl h) = elim (InWheel-clear t w.wheel w.current_pos h) [
    | inl out ↦ inl out
    | inr kept ↦ inr (inl kept)
  ]

  wrap-keeps :
      (t : TaskWithTimestamp A) (w : TimingWheelTool A) (ws ws' : List (TimingWheelTool A))
      (m m' : Map ℕ (TaskList A)) (ts : TaskList A)
      → 0 < length w.wheel
      → (Held t ws m → In t ts ⊎ Held t ws' m')
      → Held t (w ∷ ws) m
      → In t (get_or w.wheel w.current_pos []) ⊎ Held t (wrap ts w ∷ ws') m'
  unfolding wrap
  wrap-keeps t w ws ws' m m' ts pos below (inl h) = elim (InWheel-clear t w.wheel w.current_pos h) [
    | inl out ↦ inl out
    | inr kept ↦ inr (
        inl (InWheel-spread t ts _ (omega (arith, length-set w.wheel w.current_pos [])) (inr kept)))
  ]
  wrap-keeps t w ws ws' m m' ts pos below (inr h) = elim (below h) [
    | inl borrowed ↦ inr (
        inl (
          InWheel-spread t ts _ (omega (arith, length-set w.wheel w.current_pos []))
            (inl borrowed)))
    | inr kept ↦ inr (inr kept)
  ]

  -- A tick hands a waiting task out or keeps it.
  pub tick-keeps :
      (t : TaskWithTimestamp A) (vec : List (TimingWheelTool A)) (pos : ℕ) (m : Map ℕ (TaskList A))
      → HasSlots vec
      → Held t vec m
      → In t (tick vec pos m).tasks ⊎ Held t (tick vec pos m).vec (tick vec pos m).task_map
  tick-keeps t [] pos m s (k, h) =
      unfold tick in
      elim (ℕ_discrete pos k) [
        | yes e ↦ inl (rw e h)
        | no ne ↦ let e' : (pos == k) ≡ false = ground arith in inr (k, rw (find_or-erase, e') h)
      ]
  tick-keeps t (w ∷ ws) pos m (s, ss) h = elim (ℕ_discrete (w.current_pos + 1) (length w.wheel)) [
    | yes e ↦ rw (tick-wrap w ws pos m e) (
        wrap-keeps t w ws (tick ws pos m).vec m (tick ws pos m).task_map (tick ws pos m).tasks s
          (tick-keeps t ws pos m ss) h)
    | no ne ↦ rw (tick-stay w ws pos m ne) (stay-keeps t w ws m h)
  ]

  pub Supplies-HasSlots :
      (n d : ℕ) (ws : List (TimingWheelTool A)) (pos : ℕ) (m : Map ℕ (TaskList A))
      → Supplies n d ws pos m
      → HasSlots ws
  Supplies-HasSlots n d [] pos m h = tt
  Supplies-HasSlots n d (w ∷ []) pos m h = (h.0.size_pos, tt)
  Supplies-HasSlots n d (w ∷ v ∷ ws) pos m h = elim h [ ]

  pub IsScheduled-HasSlots :
      (c : ℕ) (vec : List (TimingWheelTool A)) (pos : ℕ) (m : Map ℕ (TaskList A))
      → IsScheduled c vec pos m
      → HasSlots vec
  IsScheduled-HasSlots c [] pos m h = elim h [ ]
  IsScheduled-HasSlots c (w ∷ ws) pos m h =
      (h.0.size_pos, Supplies-HasSlots (length w.wheel) (c / length w.wheel + 1) ws pos m h.1)
