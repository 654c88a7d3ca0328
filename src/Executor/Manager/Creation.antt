-- ===== src/Executor/Manager/Creation.antt =====
-- executor_manager.cc: which executors `Initialize` creates, and where it stops.
use aim_rt.Prelude.{
  ◌≡◌, refl, sym, ap, ◌∙◌, ◌⊎◌, true, false, List, [], ◌∷◌, ◌++◌, append_assoc, append-nil, Option,
  none, some, String, string_eq, ◌==◌, ==_iff, if◌then◌else◌, arith, Option-cases, Bool-cases, inl,
  inr,
}
use aim_rt.Prelude.Map.{Map, find, emplace-new, beq_refl}
use aim_rt.Core.Lifecycle.{done, thrown}
use aim_rt.Executor.Manager.{
  ExecutorOptions, ExecutorApi, ExecutorManager, GenFunc, is_used, make, install, generate,
  generate_all, get_executor,
}

module _ {X N W : Type 0} (api : ExecutorApi X N W) where
  -- The executors are those that the factories make for the types of the options, one call for each,
  -- where no name is in use or that of an executor that exists by then, and each is initialized.
  abbrev pub Created :
      Map String (GenFunc X W)
      → List String
      → Map String X
      → List (ExecutorOptions N)
      → List X
      → W
      → W
      → Type 0
  Created gens names taken [] [] w w' = w ≡ w'
  Created gens names taken [] (x ∷ xs) w w' = ⊥
  Created gens names taken (o ∷ os) [] w w' = ⊥
  Created gens names taken (o ∷ os) (x ∷ xs) w w' =
      (find o.name taken ≡ none)
      × (is_used o.name names ≡ false)
      × (w1 : W) × (w2 : W) × (make (find o.type gens) w ≡ (w1, some x))
      × (api.initialize o.name o.options x w1 ≡ (w2, true))
      × Created gens names ((o.name, x) ∷ taken) os xs w2 w'

  -- Each of them is found under its name.
  abbrev pub Found : ExecutorManager X N W → List (ExecutorOptions N) → List X → Type 0
  Found m [] xs = Unit {0}
  Found m (o ∷ os) [] = ⊥
  Found m (o ∷ os) (x ∷ xs) = (get_executor o.name m ≡ some x) × Found m os xs

  abbrev pub by_name : String → List (ExecutorOptions N) → List X → Option X → Option X
  by_name n [] xs d = d
  by_name n (o ∷ os) [] d = d
  by_name n (o ∷ os) (x ∷ xs) d = by_name n os xs (if o.name == n then some x else d)

  -- Why an executor is not created, with what the attempt made of the world.
  pub data Refusal (o : ExecutorOptions N) (m : ExecutorManager X N W) (w w' : W) : Type 0 where
    taken : (x : X) → find o.name m.executor_proxy_map ≡ some x → w ≡ w' → Refusal o m w w'
    used : is_used o.name m.used_executor_names ≡ true → w ≡ w' → Refusal o m w w'
    not_made : make (find o.type m.executor_gen_func_map) w ≡ (w', none) → Refusal o m w w'
    failing :
        (x : X) (w1 : W)
        → make (find o.type m.executor_gen_func_map) w ≡ (w1, some x)
        → api.initialize o.name o.options x w1 ≡ (w', false)
        → Refusal o m w w'

  -- The manager with one more executor.
  abbrev pub with_executor : ExecutorOptions N → X → ExecutorManager X N W → ExecutorManager X N W
  with_executor o x m = record m {
    executor_proxy_map = (o.name, x) ∷ m.executor_proxy_map;
    executor_vec = m.executor_vec ++ x ∷ [];
  }

  generate-cases :
      (o : ExecutorOptions N) (m : ExecutorManager X N W) (w : W)
      → ((x : X) × (w1 : W) × (w2 : W) × (find o.name m.executor_proxy_map ≡ none)
          × (is_used o.name m.used_executor_names ≡ false)
          × (make (find o.type m.executor_gen_func_map) w ≡ (w1, some x))
          × (api.initialize o.name o.options x w1 ≡ (w2, true))
          × (generate api o (m, w) ≡ done (with_executor o x m, w2)))
        ⊎ ((w' : W) × (generate api o (m, w) ≡ thrown (m, w')) × Refusal o m w w')
  unfolding generate install
  generate-cases o m w =
      let (w1, made) = make (find o.type m.executor_gen_func_map) w in
      elim (Option-cases (find o.name m.executor_proxy_map)) [
        | inr (y, e) ↦ inr (w, rw (generate, e) refl, taken y e refl)
        | inl e ↦ elim (Bool-cases (is_used o.name m.used_executor_names)) [
          | inl u ↦ inr (w, rw (generate, e, u) refl, used u refl)
          | inr u ↦ elim (Option-cases made) [
            | inl f ↦ inr (w1, rw (generate, e, u, f) refl, not_made (ap (λ z. (w1, z)) f))
            | inr (x, f) ↦
                let (w2, returned) = api.initialize o.name o.options x w1 in
                elim (Bool-cases returned) [
                  | inl r ↦ inl (
                    x,
                    w1,
                    w2,
                    e,
                    u,
                    ap (λ z. (w1, z)) f,
                    ap (λ z. (w2, z)) r,
                    rw (generate, e, u, f, install, r, emplace-new o.name x m.executor_proxy_map e)
                        refl,
                  )
                  | inr r ↦ inr (
                    w2,
                    rw (generate, e, u, f, install, r) refl,
                    failing x w1 (ap (λ z. (w1, z)) f) (ap (λ z. (w2, z)) r),
                  )
                ]
          ]
        ]
      ]

  -- The executors that were added to `m` for the options, in order.
  pub record Added (os : List (ExecutorOptions N)) (xs : List X) (m m' : ExecutorManager X N W)
      : Type 0 where
    pub vec : m'.executor_vec ≡ m.executor_vec ++ xs
    pub names :
        (n : String) → find n m'.executor_proxy_map ≡ by_name n os xs (find n m.executor_proxy_map)
    pub found : Found m' os xs
    pub kept :
        (n : String) (x : X)
        → find n m.executor_proxy_map ≡ some x
        → find n m'.executor_proxy_map ≡ some x
    pub gens : m'.executor_gen_func_map ≡ m.executor_gen_func_map
    pub used_names : m'.used_executor_names ≡ m.used_executor_names
    pub state : m'.state ≡ m.state

  none-Added : (m : ExecutorManager X N W) → Added [] [] m m
  none-Added m = record {
    vec = sym (append-nil m.executor_vec);
    names = λ n. refl;
    found = tt;
    kept = λ n x e. e;
    gens = refl;
    used_names = refl;
    state = refl;
  }

  one-Added :
      (o : ExecutorOptions N) (x : X) (os : List (ExecutorOptions N)) (xs : List X)
      (m m' : ExecutorManager X N W)
      → find o.name m.executor_proxy_map ≡ none
      → Added os xs (with_executor o x m) m'
      → Added (o ∷ os) (x ∷ xs) m m'
  unfolding find get_executor
  one-Added o x os xs m m' free a = record {
    vec = a.vec ∙ append_assoc m.executor_vec (x ∷ []) xs;
    names = a.names;
    found = (a.kept o.name x (rw (beq_refl o.name) refl), a.found);
    kept = λ n y e. a.kept n y (ground (arith, free, e, ==_iff o.name n));
    gens = a.gens;
    used_names = a.used_names;
    state = a.state;
  }

  pub generate_all-cases :
      (os : List (ExecutorOptions N)) (m : ExecutorManager X N W) (w : W)
      → ((xs : List X) × (m' : ExecutorManager X N W) × (w' : W) × (generate_all api os (m, w)
            ≡ done (m', w'))
          × Created m.executor_gen_func_map m.used_executor_names m.executor_proxy_map os xs w w'
          × Added os xs m m')
        ⊎ ((good : List (ExecutorOptions N)) × (bad : ExecutorOptions N) × (rest : List
              (ExecutorOptions N))
            × (xs : List X) × (m' : ExecutorManager X N W) × (w1 : W) × (w2 : W) × (os
                ≡ good ++ bad ∷ rest)
            × (generate_all api os (m, w) ≡ thrown (m', w2))
            × Created m.executor_gen_func_map m.used_executor_names m.executor_proxy_map good xs w
                w1
            × Added good xs m m'
            × Refusal bad m' w1 w2)
  unfolding generate_all
  generate_all-cases [] m w = inl ([], m, w, refl, refl, none-Added m)
  generate_all-cases (o ∷ os) m w = elim (generate-cases o m w) [
    | inr (w', e, r) ↦
        inr ([], o, os, [], m, w, w', refl, rw (generate_all, e) refl, refl, none-Added m, r)
    | inl (x, w1, w2, free, unused, f, i, e) ↦
        elim (generate_all-cases os (with_executor o x m) w2) [
          | inl (xs, m', w', g, c, a) ↦ inl (
            x ∷ xs,
            m',
            w',
            rw (generate_all, e) g,
            (free, unused, w1, w2, f, i, c),
            one-Added o x os xs m m' free a,
          )
          | inr (good, bad, rest, xs, m', w', w'', eq, g, c, a, r) ↦ inr (
            o ∷ good,
            bad,
            rest,
            x ∷ xs,
            m',
            w',
            w'',
            ap (λ zs. o ∷ zs) eq,
            rw (generate_all, e) g,
            (free, unused, w1, w2, f, i, c),
            one-Added o x good xs m m' free a,
            r,
          )
        ]
  ]
