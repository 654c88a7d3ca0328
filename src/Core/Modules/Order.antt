-- ===== src/Core/Modules/Order.antt =====
-- module_manager.cc: the order in which modules are initialized, started and shut down.
use aim_rt.Prelude.{
  ◌≡◌, refl, sym, ap, subst, ◌∙◌, Bool, List, [], ◌∷◌, ◌++◌, map, Option, none, some, String,
  string_eq, ◌==◌, ==_iff, if◌then◌else◌, All, All-append, All-map, append_assoc, append-nil,
  Bool-cases, Option-cases, inl, inr,
}
use aim_rt.Prelude.Map.{Map, find, emplace, emplace-new, find_head}
use aim_rt.Core.Lifecycle.{Outcome, done, thrown, final}
use aim_rt.Core.Modules.{
  ModuleApi, ModuleManager, ModuleOptions, ModuleWrapper, Sys, new_options, get_module_options,
  is_disabled, with_options, init_module, install,
}
use aim_rt.Core.Modules.Running.{module_at}

-- Options that are added disable nothing.
is_disabled-append :
    (j n : String) (os : List ModuleOptions)
    → is_disabled j (os ++ (new_options n ∷ [])) ≡ is_disabled j os
unfolding is_disabled get_module_options
is_disabled-append j n [] = elim (Bool-cases (n == j)) [
  | inl e ↦ rw (is_disabled, get_module_options, e) refl
  | inr e ↦ rw (is_disabled, get_module_options, e) refl
]
is_disabled-append j n (o ∷ os) = elim (Bool-cases (o.name == j)) [
  | inl e ↦ rw (is_disabled, get_module_options, e) refl
  | inr e ↦ rw (is_disabled, get_module_options, e) (is_disabled-append j n os)
]

is_disabled-with_options :
    {M : Type 0} (j n : String) (m : ModuleManager M)
    → is_disabled j (with_options n m).modules_options ≡ is_disabled j m.modules_options
is_disabled-with_options j n m = elim (Option-cases (get_module_options n m.modules_options)) [
  | inr (o, e) ↦ rw (with_options, e) refl
  | inl e ↦ rw (with_options, e) (is_disabled-append j n m.modules_options)
]

-- Modules under their names.
abbrev pub Modules : Type 0 → Type 0
Modules M = List (String × M)

module _ {M : Type 0} where
  -- What adding options leaves as it was.
  with_options-same :
      (n : String) (m : ModuleManager M)
      → (os : List ModuleOptions) × (with_options n m ≡ record m { modules_options = os })
  with_options-same n m = elim (Option-cases (get_module_options n m.modules_options)) [
    | inr (o, e) ↦ (m.modules_options, rw (with_options, e) refl)
    | inl e ↦ (m.modules_options ++ (new_options n ∷ []), rw (with_options, e) refl)
  ]

  abbrev pub names_of : Modules M → List String
  names_of xs = map (λ e. e.0) xs

  -- The modules that the options, by the test `off`, do not disable.
  abbrev pub enabled : (String → Bool) → Modules M → Modules M
  enabled off [] = []
  enabled off (e ∷ es) = let rest = enabled off es in if off e.0 then rest else e ∷ rest

  names_of-append : (xs ys : Modules M) → names_of (xs ++ ys) ≡ names_of xs ++ names_of ys
  names_of-append [] ys = refl
  names_of-append (e ∷ xs) ys = ap (λ zs. e.0 ∷ zs) (names_of-append xs ys)

  fresh_lookup :
      (n j : String) (v : ModuleWrapper M) (x : M) (m : Map String (ModuleWrapper M))
      → find n m ≡ none
      → module_at j m ≡ some x
      → module_at j ((n, v) ∷ m) ≡ some x
  unfolding module_at find
  fresh_lookup n j v x m e h = elim (Bool-cases (n == j)) [
    | inr f ↦ rw (module_at, f) h
    | inl f ↦
        let same = (==_iff n j).0 f in
        let gone : find j m ≡ none = subst (λ k. find k m ≡ none) same e in
        let no : ◌≡◌ {A = Option M} none (some x) = rw (module_at, gone) at h in cc
  ]

  module _ {W : Type 0} (api : ModuleApi M W) where
    -- The effects of the modules, one after another.
    abbrev pub initialized : Modules M → W → W
    initialized [] w = w
    initialized ((n, x) ∷ xs) w = initialized xs (api.initialize x (api.configure n w)).0

    abbrev pub all_started : Modules M → W → Outcome W
    all_started [] w = done w
    all_started ((n, x) ∷ xs) w =
        let rest = all_started xs (api.start x w).0 in
        if (api.start x w).1 then rest else thrown (api.start x w).0

    abbrev pub shut_in_reverse : Modules M → W → W
    shut_in_reverse [] w = w
    shut_in_reverse ((n, x) ∷ xs) w = api.shutdown x (shut_in_reverse xs w)

    -- From `s` to `s'` the modules `xs` have been initialized, in this order.
    pub record Installed (xs : Modules M) (s s' : Sys api) : Type 0 where
      pub order : s'.0.module_init_order ≡ s.0.module_init_order ++ names_of xs
      pub found : All (λ e. module_at e.0 s'.0.module_wrapper_map ≡ some e.1) xs
      pub kept :
          (j : String) (x : M)
          → module_at j s.0.module_wrapper_map ≡ some x
          → module_at j s'.0.module_wrapper_map ≡ some x
      pub world : s'.1 ≡ initialized xs s.1
      pub choices :
          (j : String) → is_disabled j s'.0.modules_options ≡ is_disabled j s.0.modules_options
      pub state : s'.0.state ≡ s.0.state

    pub nothing-Installed : (s : Sys api) → Installed [] s s
    nothing-Installed s = record {
      order = sym (append-nil s.0.module_init_order);
      found = tt;
      kept = λ j x e. e;
      world = refl;
      choices = λ j. refl;
      state = refl;
    }

    initialized-append :
        (xs ys : Modules M) (w : W) → initialized (xs ++ ys) w ≡ initialized ys (initialized xs w)
    initialized-append [] ys w = refl
    initialized-append ((n, x) ∷ xs) ys w =
        initialized-append xs ys (api.initialize x (api.configure n w)).0

    pub append-Installed :
        (xs ys : Modules M) (s t u : Sys api)
        → Installed xs s t
        → Installed ys t u
        → Installed (xs ++ ys) s u
    append-Installed xs ys s t u h k = record {
      order =
          k.order
          ∙ ap (λ zs. zs ++ names_of ys) h.order
          ∙ append_assoc s.0.module_init_order (names_of xs) (names_of ys)
          ∙ ap (λ zs. s.0.module_init_order ++ zs) (sym (names_of-append xs ys));
      found =
          All-append (λ e. module_at e.0 u.0.module_wrapper_map ≡ some e.1) xs ys
            (All-map (λ e. module_at e.0 t.0.module_wrapper_map ≡ some e.1)
              (λ e. module_at e.0 u.0.module_wrapper_map ≡ some e.1) xs (λ e. k.kept e.0 e.1)
              h.found)
            k.found;
      kept = λ j x e. k.kept j x (h.kept j x e);
      world = k.world ∙ ap (initialized ys) h.world ∙ sym (initialized-append xs ys s.1);
      choices = λ j. k.choices j ∙ h.choices j;
      state = k.state ∙ h.state;
    }

    pub install-Installed :
        (pkg name : String) (x : M) (s s' : Sys api)
        → find name s.0.module_wrapper_map ≡ none
        → install api pkg name x s ≡ done s'
        → Installed ((name, x) ∷ []) s s'
    unfolding install init_module module_at
    install-Installed pkg name x (m, w) s' new h =
        let m2 = with_options name m in
        let (os, same) = with_options-same name m in
        let v : ModuleWrapper M = record { pkg_path = pkg; module_ptr = some x } in
        let wrappers : m2.module_wrapper_map ≡ m.module_wrapper_map =
          ap (λ (z : ModuleManager M). z.module_wrapper_map) same in
        let added : (emplace name v m2.module_wrapper_map).0 ≡ (name, v) ∷ m.module_wrapper_map =
          ap (λ r. (emplace name v r).0) wrappers
          ∙ ap (λ r. r.0) (emplace-new name v m.module_wrapper_map new) in
        elim (Bool-cases (api.initialize x (api.configure name w)).1) [
          | inr e ↦ let no = rw (install, init_module, e) at h in cc
          | inl e ↦
              let is = ap final (rw (install, init_module, e) at h) in
              subst (Installed ((name, x) ∷ []) (m, w)) is (record {
                order = ap (λ (z : ModuleManager M). z.module_init_order ++ (name ∷ [])) same;
                found = (
                  ap (module_at name) added
                      ∙ rw (module_at, find_head name v m.module_wrapper_map) refl,
                  tt,
                );
                kept = λ j y k.
                    ap (module_at j) added ∙ fresh_lookup name j v y m.module_wrapper_map new k;
                world = refl;
                choices = λ j. is_disabled-with_options j name m;
                state = ap (λ (z : ModuleManager M). z.state) same;
              })
        ]
