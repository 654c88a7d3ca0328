-- ===== src/Executor/TimeWheel/Placing.antt =====
-- Time-wheel executor: the loop of `ExecuteAt` puts a task where its tick will find it.
use aim_rt.Prelude.{
  ℕ, ◌+◌, ◌-◌, ◌/◌, ◌%◌, ◌≤◌, ◌<◌, ◌≡◌, refl, ◌∙◌, inl, inr, true, false, List, [], ◌∷◌, ◌++◌,
  arith, length, nat_beq_iff, nat_eq, ◌==◌, ltb, lt→ltb, All-append,
}
use native.Mathlib.Decide.{ℕ_discrete, dec_lt}
use aim_rt.Prelude.Map.{Map, find_or, assign, find_or-assign}
use aim_rt.Executor.TimeWheel.{TaskWithTimestamp, TaskList, TimingWheelTool, place, push_at, tick}
use aim_rt.Executor.TimeWheel.Slots.{
  In-append, InWheel, InWheel-push_new, InSlots-push, length-push_at,
}
use aim_rt.Executor.TimeWheel.OnTime.{Due, IsOnTime, tick-stay, tick-wrap, length-stay, length-wrap}
use aim_rt.Executor.TimeWheel.Levels.{Supplies, IsMapOnTime}
use aim_rt.Executor.TimeWheel.Firing.{IsScheduled, Held}
use aim_rt.Executor.TimeWheel.Arith.{div-later, div-within}

-- How far ahead a task may lie: anywhere for one wheel, within the second of two.
abbrev pub InHorizon : List ℕ → ℕ → Type 0
InHorizon (n ∷ []) diff = Unit {0}
InHorizon (n ∷ k ∷ []) diff = diff / n < k
InHorizon _ diff = ⊥

module _ {A : Type 0} where
  put : TimingWheelTool A → ℕ → TaskWithTimestamp A → TimingWheelTool A
  put w pos t = record w { wheel = push_at w.wheel pos t }

  length-put :
      (w : TimingWheelTool A) (pos : ℕ) (t : TaskWithTimestamp A)
      → length (put w pos t).wheel ≡ length w.wheel
  unfolding put
  length-put w pos t = length-push_at w.wheel pos t

  put-IsOnTime :
      (f : TaskWithTimestamp A → ℕ) (c : ℕ) (w : TimingWheelTool A) (t : TaskWithTimestamp A)
      → IsOnTime f c w
      → c ≤ f t
      → f t < c + length w.wheel
      → IsOnTime f c (put w (f t % length w.wheel) t)
  unfolding put
  put-IsOnTime f c w t h lo hi =
      let pos = f t % length w.wheel in
      let same = length-push_at w.wheel pos t in
      record {
        size_pos = omega (arith, same, h.size_pos);
        position = rw same h.position;
        slots =
            rw same (InSlots-push (Due f (length w.wheel) c) w.wheel pos t h.slots (refl, lo, hi));
      }

  assign-IsMapOnTime :
      (n d : ℕ) (m : Map ℕ (TaskList A)) (t : TaskWithTimestamp A)
      → d ≤ t.tick_count / n
      → IsMapOnTime n d m
      → IsMapOnTime n d (assign (t.tick_count / n) (find_or [] (t.tick_count / n) m ++ t ∷ []) m)
  assign-IsMapOnTime n d m t lo h = record {
    blocks = λ k. elim (ℕ_discrete (t.tick_count / n) k) [
      | yes e ↦
          rw (find_or-assign, (nat_beq_iff (t.tick_count / n) k).1 e)
            (All-append _ (find_or [] (t.tick_count / n) m) (t ∷ []) (rw e (h.blocks k)) (e, tt))
      | no ne ↦
          let e' : (t.tick_count / n == k) ≡ false = ground arith in
          rw (find_or-assign, e') (h.blocks k)
    ];
    passed = λ k lt.
        let e' : (t.tick_count / n == k) ≡ false = ground arith in
        rw (find_or-assign, e') (h.passed k lt);
  }

  abbrev pub HasSizes : List ℕ → List (TimingWheelTool A) → Type 0
  HasSizes [] [] = Unit {0}
  HasSizes (n ∷ ns) (w ∷ ws) = (length w.wheel ≡ n) × HasSizes ns ws
  HasSizes _ _ = ⊥

  pub tick-HasSizes :
      (ns : List ℕ) (vec : List (TimingWheelTool A)) (pos : ℕ) (m : Map ℕ (TaskList A))
      → HasSizes ns vec
      → HasSizes ns (tick vec pos m).vec
  tick-HasSizes [] [] pos m h = unfold tick in h
  tick-HasSizes [] (w ∷ ws) pos m h = elim h [ ]
  tick-HasSizes (n ∷ ns) [] pos m h = elim h [ ]
  tick-HasSizes (n ∷ ns) (w ∷ ws) pos m h = elim (ℕ_discrete (w.current_pos + 1) (length w.wheel)) [
    | yes e ↦
        rw (tick-wrap w ws pos m e)
          (length-wrap (tick ws pos m).tasks w ∙ h.0, tick-HasSizes ns ws pos m h.1)
    | no ne ↦ rw (tick-stay w ws pos m ne) (length-stay w ∙ h.0, h.1)
  ]

  place-below :
      (n c : ℕ) (ns : List ℕ) (ws : List (TimingWheelTool A)) (pos : ℕ) (m : Map ℕ (TaskList A))
      (t : TaskWithTimestamp A)
      → 0 < n
      → c ≤ t.tick_count
      → n ≤ t.tick_count - c
      → HasSizes ns ws
      → InHorizon (n ∷ ns) (t.tick_count - c)
      → Supplies n (c / n + 1) ws pos m
      → let r = place ns ws m ((t.tick_count - c) / n) (t.tick_count / n) t in
        HasSizes ns r.0 × Supplies n (c / n + 1) r.0 pos r.1 × Held t r.0 r.1
  place-below n c [] [] pos m t npos lo far sizes near (e, h) =
      unfold place in
      let k = t.tick_count / n in
      (
        tt,
        (e, assign-IsMapOnTime n (c / n + 1) m t (div-later n c t.tick_count npos lo far) h),
        (
          k,
          rw (find_or-assign, (nat_beq_iff k k).1 refl)
              (In-append t (find_or [] k m) (t ∷ []) (inr (inl refl))),
        ),
      )
  place-below n c (k ∷ []) (w ∷ []) pos m t npos lo far (e, sizes) near (h, empty) =
      let e' : ltb ((t.tick_count - c) / n) k ≡ true = lt→ltb _ _ near in
      let b = t.tick_count / n in
      let lo' = div-later n c t.tick_count npos lo far in
      let hi' : b < c / n + 1 + length w.wheel =
        rw e (div-within n c t.tick_count k npos lo near) in
      let new : IsOnTime (λ x. x.tick_count / n) (c / n + 1) (put w (b % k) t) =
        rw (← e) (put-IsOnTime (λ x. x.tick_count / n) (c / n + 1) w t h lo' hi') in
      let there : InWheel t (put w (b % k) t).wheel = rw (← e) (
        unfold put in
        InWheel-push_new t w.wheel (b % length w.wheel) (omega (arith, h.size_pos))) in
      unfold place put in rw e' ((length-put w (b % k) t ∙ e, sizes), (new, empty), inl there)
  place-below n c (k ∷ l ∷ ns) ws pos m t npos lo far sizes near h = elim near [ ]
  place-below n c [] (w ∷ ws) pos m t npos lo far sizes near h = elim sizes [ ]
  place-below n c (k ∷ []) [] pos m t npos lo far sizes near h = elim sizes [ ]
  place-below n c (k ∷ []) (w ∷ v ∷ ws) pos m t npos lo far sizes near h = elim h [ ]

  place-first :
      (n : ℕ) (ns : List ℕ) (w : TimingWheelTool A) (ws : List (TimingWheelTool A))
      (m : Map ℕ (TaskList A)) (diff target : ℕ) (t : TaskWithTimestamp A)
      → diff < n
      → place (n ∷ ns) (w ∷ ws) m diff target t ≡ (put w (target % n) t ∷ ws, m)
  unfolding place put
  place-first n ns w ws m diff target t lt = rw (lt→ltb diff n lt)

  place-rest :
      (n : ℕ) (ns : List ℕ) (w : TimingWheelTool A) (ws : List (TimingWheelTool A))
      (m : Map ℕ (TaskList A)) (diff target : ℕ) (t : TaskWithTimestamp A)
      → ¬ (diff < n)
      → place (n ∷ ns) (w ∷ ws) m diff target t ≡ (
        w ∷ (place ns ws m (diff / n) (target / n) t).0,
        (place ns ws m (diff / n) (target / n) t).1,
      )
  unfolding place
  place-rest n ns w ws m diff target t far = let e : ltb diff n ≡ false = ground arith in rw e

  -- A task from now on and within the horizon is put where it is found in time.
  pub place-IsScheduled :
      (c : ℕ) (ns : List ℕ) (vec : List (TimingWheelTool A)) (pos : ℕ) (m : Map ℕ (TaskList A))
      (t : TaskWithTimestamp A)
      → c ≤ t.tick_count
      → HasSizes ns vec
      → InHorizon ns (t.tick_count - c)
      → IsScheduled c vec pos m
      → let r = place ns vec m (t.tick_count - c) t.tick_count t in
        HasSizes ns r.0 × IsScheduled c r.0 pos r.1 × Held t r.0 r.1
  place-IsScheduled c [] vec pos m t lo sizes near h = elim near [ ]
  place-IsScheduled c (n ∷ ns) [] pos m t lo sizes near h = elim h [ ]
  place-IsScheduled c (n ∷ ns) (w ∷ ws) pos m t lo (e, sizes) near (h, below) =
      elim (dec_lt (t.tick_count - c) n) [
        | yes first ↦
            let at = t.tick_count % n in
            let same = length-put w at t in
            let new : IsOnTime (λ x. x.tick_count) c (put w at t) =
              rw (← e) (put-IsOnTime (λ x. x.tick_count) c w t h lo (omega arith)) in
            let there : InWheel t (put w at t).wheel = rw (← e) (
              unfold put in
              InWheel-push_new t w.wheel (t.tick_count % length w.wheel)
                (omega (arith, h.size_pos))) in
            rw (place-first n ns w ws m (t.tick_count - c) t.tick_count t first)
              ((same ∙ e, sizes), (new, rw same below), inl there)
        | no far ↦
            let r =
              place-below n c ns ws pos m t (omega (arith, h.size_pos, e)) lo (omega arith) sizes
                near (rw (← e) below) in
            rw (place-rest n ns w ws m (t.tick_count - c) t.tick_count t far)
              ((e, r.0), (h, rw e r.1), inr r.2)
      ]
