-- ===== src/Executor/Manager/Starting.antt =====
-- executor_manager.cc: the whole of `Initialize`, and the end of the executors.
use aim_rt.Prelude.{
  ◌≡◌, refl, ap, ◌∙◌, ◌⊎◌, false, List, [], ◌∷◌, ◌++◌, Option, none, some, String, string_eq,
  ==_iff, arith, Option-cases, inl, inr,
}
use aim_rt.Prelude.Map.{Map, find, emplace, emplace-old, emplace-new}
use aim_rt.Core.Lifecycle.{init, pre_init, done, thrown, is_pre_init, is_shutdown}
use aim_rt.Core.Backends.{tell_all}
use aim_rt.Executor.Manager.{
  ExecutorOptions, ExecutorApi, ExecutorManager, GenFunc, generate_all, get_executor, register_all,
  register_executor_gen_func, with_factory, builtin_types, initialize, shutdown_manager,
}
use aim_rt.Executor.Manager.Creation.{Created, Added, Refusal, generate_all-cases}

module _ {X W : Type 0} where
  -- What the registrations of factories make of the table.
  abbrev pub with_all :
      List (String × GenFunc X W) → Map String (GenFunc X W) → Map String (GenFunc X W)
  with_all [] gens = gens
  with_all ((t, f) ∷ fs) gens = with_all fs (emplace t f gens).0

  register_all-done :
      {N : Type 0} (fs : List (String × GenFunc X W)) (m : ExecutorManager X N W)
      → m.state ≡ pre_init
      → register_all fs m
        ≡ done (record m { executor_gen_func_map = with_all fs m.executor_gen_func_map })
  unfolding register_all register_executor_gen_func
  register_all-done [] m e = refl
  register_all-done ((t, f) ∷ fs) m e =
      simp (register_all, register_executor_gen_func, ap is_pre_init e)
        (register_all-done fs
          (record m { executor_gen_func_map = (emplace t f m.executor_gen_func_map).0 }) e)

  -- A factory that is registered for a type is not replaced.
  pub find-with_all :
      (t : String) (f : GenFunc X W) (fs : List (String × GenFunc X W))
      (gens : Map String (GenFunc X W))
      → find t gens ≡ some f
      → find t (with_all fs gens) ≡ some f
  find-with_all t f [] gens e = e
  find-with_all t f ((u, g) ∷ fs) gens e =
      find-with_all t f fs (emplace u g gens).0 (elim (Option-cases (find u gens)) [
        | inr (h, old) ↦ rw (emplace-old u g h gens old) e
        | inl new ↦
            rw (emplace-new u g gens new) (unfold find in ground (arith, e, new, ==_iff u t))
      ])

module _ {X N W : Type 0} (api : ExecutorApi X N W) (factory : String → GenFunc X W) where
  -- The manager when the first executor is to be created.
  abbrev pub ready : List (ExecutorOptions N) → ExecutorManager X N W → ExecutorManager X N W
  ready os m = record m {
    executor_gen_func_map = with_all (with_factory factory builtin_types) m.executor_gen_func_map;
    state = init;
    options = os;
  }

  initialize-ready :
      (os : List (ExecutorOptions N)) (m : ExecutorManager X N W) (w : W)
      → m.state ≡ pre_init
      → initialize api factory (some os) (m, w) ≡ generate_all api os (ready os m, w)
  unfolding initialize
  initialize-ready os m w e =
      rw (initialize, register_all-done (with_factory factory builtin_types) m e, ap is_pre_init e)
        refl

  -- `Initialize` with options, in a manager that is not initialized, either returns, and then each
  -- entry in order had a name that was neither in use nor that of an executor, a call of the factory
  -- of its type has made its executor, the executor was initialized with the name and the options of
  -- the entry, and it is found under its name; or it throws at the first entry whose name is in use or
  -- that of an executor, whose type has no factory or whose factory makes none, or whose executor does
  -- not initialize, and then exactly the executors of the entries before it have been created so.
  -- Executors and names that were there before are kept.
  pub initialize-cases :
      (os : List (ExecutorOptions N)) (m : ExecutorManager X N W) (w : W)
      → m.state ≡ pre_init
      → let r = ready os m in
        ((xs : List X) × (m' : ExecutorManager X N W) × (w' : W) × (initialize api factory
              (some os)
              (m, w)
            ≡ done (m', w'))
          × Created api r.executor_gen_func_map r.used_executor_names r.executor_proxy_map os xs w
              w'
          × Added api os xs r m')
        ⊎ ((good : List (ExecutorOptions N)) × (bad : ExecutorOptions N) × (rest : List
              (ExecutorOptions N))
            × (xs : List X) × (m' : ExecutorManager X N W) × (w1 : W) × (w2 : W) × (os
                ≡ good ++ bad ∷ rest)
            × (initialize api factory (some os) (m, w) ≡ thrown (m', w2))
            × Created api r.executor_gen_func_map r.used_executor_names r.executor_proxy_map good xs
                w w1
            × Added api good xs r m'
            × Refusal api bad m' w1 w2)
  initialize-cases os m w e = elim (generate_all-cases api os (ready os m) w) [
    | inl (xs, m', w', g, c, a) ↦ inl (xs, m', w', initialize-ready os m w e ∙ g, c, a)
    | inr (good, bad, rest, xs, m', w1, w2, eq, g, c, a, r) ↦
        inr (good, bad, rest, xs, m', w1, w2, eq, initialize-ready os m w e ∙ g, c, a, r)
  ]

  -- A call of `Initialize` in any other state throws and changes nothing: the registration of the
  -- first factory fails before the state is exchanged.
  pub initialize_again :
      (given : Option (List (ExecutorOptions N))) (m : ExecutorManager X N W) (w : W)
      → is_pre_init m.state ≡ false
      → initialize api factory given (m, w) ≡ thrown (m, w)
  unfolding initialize register_all register_executor_gen_func
  initialize_again given m w e = rw (initialize, register_all, register_executor_gen_func, e) refl

module _ {X N W : Type 0} (api : ExecutorApi X N W) where
  -- After `Shutdown` of a manager that was not shut down, each of its executors has been told once, in
  -- the order of their creation, no name is found, and a second call changes nothing.
  pub shutdown_manager_once :
      (m : ExecutorManager X N W) (w : W)
      → is_shutdown m.state ≡ false
      → ((shutdown_manager api (m, w)).1 ≡ tell_all api.shutdown m.executor_vec w)
        × ((n : String) → get_executor n (shutdown_manager api (m, w)).0 ≡ none)
        × (shutdown_manager api (shutdown_manager api (m, w)) ≡ shutdown_manager api (m, w))
  unfolding shutdown_manager get_executor find
  shutdown_manager_once m w e = simp (shutdown_manager, e) (refl, λ n. refl, refl)
