-- ===== src/Core/Runtime/Phases.antt =====
-- aimrt_core.cc: what a started core does when it is told to shut down, when the thread that waits for
-- that runs, and when it is destroyed.
use aim_rt.Prelude.{
  ◌+◌, ◌≡◌, refl, sym, ap, subst, ◌∙◌, nat_eq, if◌then◌else◌, Bool, true, false, ◌||◌, List, [],
  ◌∷◌, arith, Bool-cases, inl, inr,
}
use aim_rt.Core.Lifecycle.{Outcome, Outcome-cases, done, thrown, final}
use aim_rt.Core.Runtime.{
  Part, CoreState, PartApi, AimrtCore, init_order, shutdown_order, run_hooks, enter_state, phase,
  phases, gen_initialization_report, log_report, start_parts, start_impl, get_future, start,
  shutdown_parts, shutdown_impl, signal_shutdown, on_promise, Sys, pre_start_of, post_start_of,
  pre_shutdown_of, post_shutdown_of, post_start, post_shutdown, pre_start, pre_shutdown,
}

-- A call of `Shutdown`, a turn of the waiting thread, and the destructor.
pub data Event : Type 0 where
  told woken destroyed : Event

abbrev pub told_by : Bool → List Event → Bool
told_by t [] = t
told_by t (told ∷ es) = told_by true es
told_by t (woken ∷ es) = told_by t es
told_by t (destroyed ∷ es) = told_by t es

-- Down is a core that was destroyed, or whose waiting thread had a turn after it was told.
abbrev pub down_by : Bool → Bool → List Event → Bool
down_by t d [] = d
down_by t d (told ∷ es) = down_by true d es
down_by t d (woken ∷ es) = down_by t (t || d) es
down_by t d (destroyed ∷ es) = down_by t true es

module _ {W : Type 0} (api : PartApi W) where
  unfoldable pub happen : List Event → Sys api → Sys api
  unfolding signal_shutdown on_promise shutdown_impl
  happen [] s = s
  happen (told ∷ es) s = happen es (signal_shutdown api s)
  happen (woken ∷ es) s = happen es (on_promise api s)
  happen (destroyed ∷ es) s = happen es (shutdown_impl api s)

  -- The parts go down, each between the hooks of its two states.
  abbrev pub parts_down : List Part → W → W
  parts_down [] w = w
  parts_down (p ∷ ps) w =
      let before = run_hooks api (api.hooks (pre_shutdown_of p)) w in
      parts_down ps (run_hooks api (api.hooks (post_shutdown_of p)) (api.shutdown p before))

  abbrev pub all_down : W → W
  all_down w =
      run_hooks api (api.hooks post_shutdown)
        (parts_down shutdown_order (run_hooks api (api.hooks pre_shutdown) w))

  -- A core that was started in the world `w`, and was told to shut down and went down, or not.
  pub record Stands (t d : Bool) (w : W) (s : Sys api) : Type 0 where
    pub flag : s.0.shutdown_flag ≡ t
    pub sets : s.0.promise_sets ≡ (if t then 1 else 0)
    pub impl_flag : s.0.shutdown_impl_flag ≡ d
    pub future : s.0.future_retrieved ≡ true
    pub state : s.0.state ≡ (if d then post_shutdown else post_start)
    pub world : s.1 ≡ (if d then all_down w else w)

  phases-same :
      (act : Part → W → W × Bool) (before after : Part → CoreState) (ps : List Part) (s : Sys api)
      → (final (phases api act before after ps s)).0
        ≡ record s.0 { state = (final (phases api act before after ps s)).0.state }
  unfolding phases phase enter_state
  phases-same act before after [] s = refl
  phases-same act before after (p ∷ ps) (c, w) =
      elim (Bool-cases (act p (run_hooks api (api.hooks (before p)) w)).1) [
        | inl e ↦
            rw (e, phases)
              (phases-same act before after ps (
                enter_state api (after p) (
                  record c { state = before p },
                  (act p (run_hooks api (api.hooks (before p)) w)).0,
                )))
        | inr e ↦ rw (e, phases) refl
      ]

  log_report-same : (s : Sys api) → (log_report api s).0.0 ≡ s.0
  unfolding log_report gen_initialization_report
  log_report-same (c, w) = ground arith

  start_parts-done :
      (s s' : Sys api) → start_parts api s ≡ done s' → s'.0 ≡ record s.0 { state = post_start }
  unfolding start_parts enter_state
  start_parts-done (c, w) s' h =
      let s0 = enter_state api pre_start (c, w) in
      let same = phases-same api.start pre_start_of post_start_of init_order s0 in
      elim (Outcome-cases (phases api api.start pre_start_of post_start_of init_order s0)) [
        | inl (s1, e) ↦
            let at : s1.0 ≡ record c { state = s1.0.state } =
              subst
                (λ (z : Outcome (Sys api)). (final z).0 ≡ record c { state = (final z).0.state }) e
                same in
            let out : start_parts api (c, w) ≡ done (enter_state api post_start s1) =
              rw (start_parts, e) refl in
            ap (λ (z : Outcome (Sys api)). (final z).0) (sym h ∙ out)
            ∙ ap (λ (z : AimrtCore). record z { state = post_start }) at
        | inr (s1, e) ↦
            let out : start_parts api (c, w) ≡ thrown s1 = rw (start_parts, e) refl in cc
      ]

  get_future-done :
      (s s' : Sys api)
      → get_future api s ≡ done s'
      → s' ≡ (record s.0 { future_retrieved = true }, s.1)
  unfolding get_future
  get_future-done (c, w) s' h = ground (arith, h)

  -- What a `Start` that reaches its wait has made of the core.
  start-done :
      (s s' : Sys api)
      → start api s ≡ done s'
      → s'.0 ≡ record s.0 { state = post_start; future_retrieved = true }
  unfolding start start_impl
  start-done s s' h =
      let (s0, returned) = log_report api s in
      elim (Bool-cases returned) [
        | inr e ↦ let out : start api s ≡ thrown s0 = rw (start, start_impl, e) refl in cc
        | inl e ↦ elim (Outcome-cases (start_parts api s0)) [
          | inr (s1, f) ↦
              let out : start api s ≡ thrown s1 = rw (start, start_impl, e, f) refl in cc
          | inl (s1, f) ↦
              let out : start api s ≡ get_future api s1 = rw (start, start_impl, e, f) refl in
              ap (λ (z : Sys api). z.0) (get_future-done s1 s' (sym out ∙ h))
              ∙ ap (λ (z : AimrtCore). record z { future_retrieved = true })
                  (start_parts-done s0 s1 f)
              ∙ ap (λ (z : AimrtCore). record z { state = post_start; future_retrieved = true })
                  (log_report-same s)
        ]
      ]

  shutdown_parts-same :
      (ps : List Part) (s : Sys api)
      → ((shutdown_parts api ps s).0 ≡ record s.0 { state = (shutdown_parts api ps s).0.state })
        × ((shutdown_parts api ps s).1 ≡ parts_down ps s.1)
  unfolding shutdown_parts enter_state
  shutdown_parts-same [] s = (refl, refl)
  shutdown_parts-same (p ∷ ps) (c, w) = shutdown_parts-same ps (
      enter_state api (post_shutdown_of p) (
        record c { state = pre_shutdown_of p },
        api.shutdown p (run_hooks api (api.hooks (pre_shutdown_of p)) w),
      ))

  shutdown_impl-first :
      (s : Sys api)
      → s.0.shutdown_impl_flag ≡ false
      → shutdown_impl api s
        ≡ (record s.0 { shutdown_impl_flag = true; state = post_shutdown }, all_down s.1)
  unfolding shutdown_impl enter_state
  shutdown_impl-first (c, w) e =
      let s0 = enter_state api pre_shutdown (record c { shutdown_impl_flag = true }, w) in
      let (same, world) = shutdown_parts-same shutdown_order s0 in
      let down : shutdown_impl api (c, w)
          ≡ enter_state api post_shutdown (shutdown_parts api shutdown_order s0) =
        simp e refl in
      down
      ∙ ap
          (λ (z : AimrtCore × W).
            (record z.0 { state = post_shutdown }, run_hooks api (api.hooks post_shutdown) z.1))
          (cong-pair same world)
    where
      cong-pair :
          {a b : AimrtCore} {v w : W} → a ≡ b → v ≡ w → ◌≡◌ {A = AimrtCore × W} (a, v) (b, w)
      cong-pair p q = rw (p, q) refl

  shutdown_impl-again : (s : Sys api) → s.0.shutdown_impl_flag ≡ true → shutdown_impl api s ≡ s
  unfolding shutdown_impl
  shutdown_impl-again (c, w) e = simp e refl

  shutdown_impl-Stands :
      (t d : Bool) (w : W) (s : Sys api) → Stands t d w s → Stands t true w (shutdown_impl api s)
  shutdown_impl-Stands t true w s a =
      subst (Stands t true w) (sym (shutdown_impl-again s a.impl_flag)) a
  shutdown_impl-Stands t false w s a =
      subst (Stands t true w) (sym (shutdown_impl-first s a.impl_flag)) (record {
        flag = a.flag;
        sets = a.sets;
        impl_flag = refl;
        future = a.future;
        state = refl;
        world = ap all_down a.world;
      })

  signal_shutdown-Stands :
      (t d : Bool) (w : W) (s : Sys api) → Stands t d w s → Stands true d w (signal_shutdown api s)
  unfolding signal_shutdown
  signal_shutdown-Stands true d w (c, v) a =
      let same : signal_shutdown api (c, v) ≡ (c, v) = simp (a.flag) refl in
      subst (Stands true d w) (sym same) a
  signal_shutdown-Stands false d w (c, v) a =
      let first : signal_shutdown api (c, v)
          ≡ (record c { shutdown_flag = true; promise_sets = c.promise_sets + 1 }, v) =
        simp (a.flag) refl in
      subst (Stands true d w) (sym first) (record {
        flag = refl;
        sets = ap (λ n. n + 1) a.sets;
        impl_flag = a.impl_flag;
        future = a.future;
        state = a.state;
        world = a.world;
      })

  on_promise-Stands :
      (t d : Bool) (w : W) (s : Sys api) → Stands t d w s → Stands t (t || d) w (on_promise api s)
  unfolding on_promise
  on_promise-Stands true d w (c, v) a =
      let runs : on_promise api (c, v) ≡ shutdown_impl api (c, v) = simp (a.sets) refl in
      subst (Stands true true w) (sym runs) (shutdown_impl-Stands true d w (c, v) a)
  on_promise-Stands false d w (c, v) a =
      let rests : on_promise api (c, v) ≡ (c, v) = simp (a.sets) refl in
      subst (Stands false d w) (sym rests) a

  happen-Stands :
      (es : List Event) (t d : Bool) (w : W) (s : Sys api)
      → Stands t d w s
      → Stands (told_by t es) (down_by t d es) w (happen es s)
  unfolding happen
  happen-Stands [] t d w s a = a
  happen-Stands (told ∷ es) t d w s a =
      happen-Stands es true d w (signal_shutdown api s) (signal_shutdown-Stands t d w s a)
  happen-Stands (woken ∷ es) t d w s a =
      happen-Stands es t (t || d) w (on_promise api s) (on_promise-Stands t d w s a)
  happen-Stands (destroyed ∷ es) t d w s a =
      happen-Stands es t true w (shutdown_impl api s) (shutdown_impl-Stands t d w s a)

  -- A core that was not told to shut down, did not go down and reached the wait of its `Start`; then
  -- calls of `Shutdown`, turns of the waiting thread and calls of the destructor, in any number and
  -- order, each run to its end. The promise gets its value once if `Shutdown` was called, and never
  -- otherwise. If the core was destroyed, or its waiting thread had a turn after a call of `Shutdown`,
  -- it is in `kPostShutdown` and every part has gone down exactly once, in the order of the shutdown,
  -- between its hooks; otherwise it is in `kPostStart` and nothing was done. A further thread that asks
  -- for the future of the promise gets an exception and changes nothing.
  pub start-Stands :
      (s s' : Sys api) (es : List Event)
      → s.0.shutdown_flag ≡ false
      → s.0.shutdown_impl_flag ≡ false
      → s.0.promise_sets ≡ 0
      → start api s ≡ done s'
      → Stands (told_by false es) (down_by false false es) s'.1 (happen es s')
        × (get_future api (happen es s') ≡ thrown (happen es s'))
  unfolding get_future
  start-Stands s s' es f g p h =
      let same = start-done s s' h in
      let at : Stands false false s'.1 s' = record {
        flag = ap (λ (c : AimrtCore). c.shutdown_flag) same ∙ f;
        sets = ap (λ (c : AimrtCore). c.promise_sets) same ∙ p;
        impl_flag = ap (λ (c : AimrtCore). c.shutdown_impl_flag) same ∙ g;
        future = ap (λ (c : AimrtCore). c.future_retrieved) same;
        state = ap (λ (c : AimrtCore). c.state) same;
        world = refl;
      } in
      let later = happen-Stands es false false s'.1 s' at in (later, simp (later.future) refl)
