-- ===== src/Executor/TimeWheel/Levels.antt =====
-- Time-wheel executor: what the first wheel borrows from. Two shapes are sound for tasks of any
-- tick: the overflow map below a single wheel, and a second wheel with nothing below it (the
-- default `wheel_size` of the source, as long as no task lies beyond the second wheel).
use aim_rt.Prelude.{
  ℕ, ◌+◌, ◌/◌, ◌<◌, ◌≡◌, false, List, [], ◌∷◌, arith, length, All, nat_beq_iff, if◌then◌else◌,
  nat_eq, ◌==◌,
}
use native.Mathlib.Decide.{ℕ_discrete}
use native.Mathlib.Nat.{mod-eq_of_lt}
use aim_rt.Prelude.Map.{Map, find_or, erase, find-erase}
use aim_rt.Executor.TimeWheel.{TaskList, TimingWheelTool, Ticked, tick, u64_mod}
use aim_rt.Executor.TimeWheel.OnTime.{
  IsOnTime, IsOnTime-read, tick-stay, tick-wrap, stay-IsOnTime, wrap-IsOnTime,
}

module _ {A : Type 0} where
  -- Entry `k` of the map holds tasks of block `k`, and no entry lies before block `d`.
  pub record IsMapOnTime (n d : ℕ) (m : Map ℕ (TaskList A)) : Type 0 where
    pub blocks : (k : ℕ) → All (λ t. t.tick_count / n ≡ k) (find_or [] k m)
    pub passed : (k : ℕ) → k < d → find_or [] k m ≡ []

  abbrev pub IsEmptyMap : Map ℕ (TaskList A) → Type 0
  IsEmptyMap m = (k : ℕ) → find_or [] k m ≡ []

  -- What lies below a first wheel of `n` slots and hands out block `d` when it is asked next.
  abbrev pub Supplies : ℕ → ℕ → List (TimingWheelTool A) → ℕ → Map ℕ (TaskList A) → Type 0
  Supplies n d [] pos m = (pos ≡ d) × IsMapOnTime n d m
  Supplies n d (w ∷ []) pos m = IsOnTime (λ t. t.tick_count / n) d w × IsEmptyMap m
  Supplies n d (w ∷ v ∷ ws) pos m = ⊥

  pub find_or-erase :
      (k j : ℕ) (m : Map ℕ (TaskList A))
      → find_or [] j (erase k m) ≡ (if k == j then [] else find_or [] j m)
  unfolding find_or
  find_or-erase k j m = ground (arith, find-erase k j m)

  erase-IsMapOnTime :
      (n d : ℕ) (m : Map ℕ (TaskList A)) → IsMapOnTime n d m → IsMapOnTime n (d + 1) (erase d m)
  erase-IsMapOnTime n d m h = record {
    blocks = λ k. elim (ℕ_discrete d k) [
      | yes e ↦ rw (find_or-erase, (nat_beq_iff d k).1 e) tt
      | no ne ↦ let e' : (d == k) ≡ false = ground arith in rw (find_or-erase, e') (h.blocks k)
    ];
    passed = λ k lt. elim (ℕ_discrete d k) [
      | yes e ↦ rw (find_or-erase, (nat_beq_iff d k).1 e)
      | no ne ↦
          let e' : (d == k) ≡ false = ground arith in
          rw (find_or-erase, e') (h.passed k (omega arith))
    ];
  }

  empty_borrow :
      (pos : ℕ) (m : Map ℕ (TaskList A))
      → IsEmptyMap m
      → ((tick [] pos m).tasks ≡ []) × IsEmptyMap (tick [] pos m).task_map
  unfolding tick
  empty_borrow pos m h = (h pos, λ k. rw find_or-erase (ground (arith, h k)))

  abbrev pub SuppliesAfter : ℕ → ℕ → Ticked A → Type 0
  SuppliesAfter n d r = Supplies n d r.vec r.map_pos r.task_map

  -- A borrow hands out tasks of block `d` only, and block `d + 1` comes next.
  pub tick-Supplies :
      (n d : ℕ) (ws : List (TimingWheelTool A)) (pos : ℕ) (m : Map ℕ (TaskList A))
      → d + 1 < u64_mod
      → Supplies n d ws pos m
      → All (λ t. t.tick_count / n ≡ d) (tick ws pos m).tasks
        × SuppliesAfter n (d + 1) (tick ws pos m)
  unfolding tick
  tick-Supplies n d [] pos m lt (e, h) =
      rw e (h.blocks d, (mod-eq_of_lt lt, erase-IsMapOnTime n d m h))
  tick-Supplies n d (w ∷ []) pos m lt (h, empty) =
      elim (ℕ_discrete (w.current_pos + 1) (length w.wheel)) [
        | yes e ↦
            let b = empty_borrow pos m empty in
            rw (tick-wrap w [] pos m e) (
              IsOnTime-read _ d w h,
              (wrap-IsOnTime _ d w (tick [] pos m).tasks e h (rw b.0 tt), b.1),
            )
        | no ne ↦
            rw (tick-stay w [] pos m ne) (IsOnTime-read _ d w h, (stay-IsOnTime _ d w ne h, empty))
      ]
  tick-Supplies n d (w ∷ v ∷ ws) pos m lt h = elim h [ ]
