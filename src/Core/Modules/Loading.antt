-- ===== src/Core/Modules/Loading.antt =====
-- module_manager.cc: the two loops of `Initialize`.
use aim_rt.Prelude.{
  ◌≡◌, refl, sym, ap, subst, ◌∙◌, Bool, true, false, List, [], ◌∷◌, ◌++◌, Option, none, some,
  String, string_eq, Bool-cases, inl, inr,
}
use aim_rt.Prelude.Map.{find}
use aim_rt.Core.Lifecycle.{init, Outcome, done, final, Outcome-cases, is_pre_init}
use aim_rt.Core.Modules.{
  ModuleApi, ModuleManager, ModuleOptions, ModuleWrapper, Loaded, Sys, is_disabled, is_there,
  has_wrapper, init_registered, init_loaded, init_all, and_then, initialize,
}
use aim_rt.Core.Modules.Order.{
  Modules, enabled, Installed, nothing-Installed, append-Installed, install-Installed,
}

module _ {M : Type 0} where
  -- The modules that the entries of a list stand for.
  abbrev pub all_named : {E : Type 0} → (E → Modules M) → List E → Modules M
  all_named named [] = []
  all_named named (e ∷ es) = named e ++ all_named named es

  abbrev pub named_as : String → Option M → Modules M
  named_as name none = []
  named_as name (some x) = (name, x) ∷ []

  abbrev pub loaded_module : Loaded M → Modules M
  loaded_module l = named_as l.name l.module_ptr

  enabled-append :
      (off : String → Bool) (xs ys : Modules M)
      → enabled off (xs ++ ys) ≡ enabled off xs ++ enabled off ys
  enabled-append off [] ys = refl
  enabled-append off (e ∷ xs) ys = elim (Bool-cases (off e.0)) [
    | inl f ↦ rw f (enabled-append off xs ys)
    | inr f ↦ rw f (ap (λ zs. e ∷ zs) (enabled-append off xs ys))
  ]

  is_there-false : (o : Option (ModuleWrapper M)) → is_there o ≡ false → o ≡ none
  is_there-false none h = refl
  is_there-false (some v) h = cc

  module _ {W : Type 0} (api : ModuleApi M W) where
    abbrev pub registered_module : String × Option M → Modules M
    registered_module (pkg, none) = []
    registered_module (pkg, some x) = (api.name x, x) ∷ []

    abbrev Agrees : (String → Bool) → Sys api → Type 0
    Agrees off s = (j : String) → is_disabled j s.0.modules_options ≡ off j

    init_registered-Installed :
        (off : String → Bool) (e : String × Option M) (s s' : Sys api)
        → Agrees off s
        → init_registered api e s ≡ done s'
        → Installed api (enabled off (registered_module e)) s s'
    unfolding init_registered
    init_registered-Installed off (pkg, none) s s' a h = cc
    init_registered-Installed off (pkg, some x) s s' a h =
        let n = api.name x in
        elim (Bool-cases (off n)) [
          | inl f ↦
              let is = ap final (rw (init_registered, a n, f) at h) in
              rw f (subst (Installed api [] s) is (nothing-Installed api s))
          | inr f ↦ elim (Bool-cases (has_wrapper api n s)) [
            | inl g ↦ let no = rw (init_registered, a n, f, g) at h in cc
            | inr g ↦
                let made = rw (init_registered, a n, f, g) at h in
                rw f (
                  install-Installed api pkg n x s s'
                    (is_there-false (find n s.0.module_wrapper_map) g) made)
          ]
        ]

    loaded_parts-Installed :
        (off : String → Bool) (p n : String) (o : Option M) (s s' : Sys api)
        → Agrees off s
        → init_loaded api (record { pkg_path = p; name = n; module_ptr = o }) s ≡ done s'
        → Installed api (enabled off (named_as n o)) s s'
    unfolding init_loaded
    loaded_parts-Installed off p n none s s' a h = elim (Bool-cases (off n)) [
      | inl f ↦
          subst (Installed api [] s) (ap final (rw (init_loaded, a n, f) at h))
            (nothing-Installed api s)
      | inr f ↦ elim (Bool-cases (has_wrapper api n s)) [
        | inl g ↦ let no = rw (init_loaded, a n, f, g) at h in cc
        | inr g ↦ let no = rw (init_loaded, a n, f, g) at h in cc
      ]
    ]
    loaded_parts-Installed off p n (some x) s s' a h = elim (Bool-cases (off n)) [
      | inl f ↦
          let is = ap final (rw (init_loaded, a n, f) at h) in
          rw f (subst (Installed api [] s) is (nothing-Installed api s))
      | inr f ↦ elim (Bool-cases (has_wrapper api n s)) [
        | inl g ↦ let no = rw (init_loaded, a n, f, g) at h in cc
        | inr g ↦
            let made = rw (init_loaded, a n, f, g) at h in
            rw f (
              install-Installed api p n x s s' (is_there-false (find n s.0.module_wrapper_map) g)
                made)
      ]
    ]

    init_loaded-Installed :
        (off : String → Bool) (l : Loaded M) (s s' : Sys api)
        → Agrees off s
        → init_loaded api l s ≡ done s'
        → Installed api (enabled off (loaded_module l)) s s'
    init_loaded-Installed off l = loaded_parts-Installed off l.pkg_path l.name l.module_ptr

    init_all-Installed :
        {E : Type 0} (f : E → Sys api → Outcome (Sys api)) (named : E → Modules M)
        (off : String → Bool)
        → ((e : E) (s s' : Sys api)
            → Agrees off s
            → f e s ≡ done s'
            → Installed api (enabled off (named e)) s s')
        → (es : List E) (s s' : Sys api) → Agrees off s
        → init_all api f es s ≡ done s'
        → Installed api (enabled off (all_named named es)) s s'
    unfolding init_all
    init_all-Installed f named off step [] s s' a h =
        subst (Installed api [] s) (ap final h) (nothing-Installed api s)
    init_all-Installed f named off step (e ∷ es) s s' a h = elim (Outcome-cases (f e s)) [
      | inr (t, g) ↦ let no = rw (init_all, g) at h in cc
      | inl (t, g) ↦
          let rest = rw (init_all, g) at h in
          let first = step e s t a g in
          let later =
            init_all-Installed f named off step es t s' (λ j. first.choices j ∙ a j) rest in
          subst (λ zs. Installed api zs s s')
            (sym (enabled-append off (named e) (all_named named es)))
            (append-Installed api (enabled off (named e)) (enabled off (all_named named es)) s t s'
              first later)
    ]

    -- The options that count, and the modules that are not disabled, in the order of `Initialize`.
    abbrev pub given_options : Option (List ModuleOptions) → ModuleManager M → List ModuleOptions
    given_options options m = elim options [ none ↦ m.modules_options | some os ↦ os ]

    abbrev pub modules_of :
        Option (List ModuleOptions) → List (Loaded M) → ModuleManager M → Modules M
    modules_of options libs m =
        enabled (λ j. is_disabled j (given_options options m))
          (all_named registered_module m.registered_module_vec ++ all_named loaded_module libs)

    -- The system when the first module is to be initialized.
    abbrev pub at_first : Option (List ModuleOptions) → ModuleManager M → W → Sys api
    at_first options m w = (record m { state = init; modules_options = given_options options m }, w)

    initialize_passed :
        (options : Option (List ModuleOptions)) (libs : List (Loaded M)) (m : ModuleManager M)
        (w : W)
        → m.has_configurator ≡ true
        → is_pre_init m.state ≡ true
        → initialize api options (some libs) (m, w)
          ≡ and_then api
              (init_all api (init_registered api) m.registered_module_vec (at_first options m w))
              (init_all api (init_loaded api) libs)
    unfolding initialize
    initialize_passed options libs m w e f = rw (initialize, e, f) refl

    pub initialize-Installed :
        (options : Option (List ModuleOptions)) (libs : List (Loaded M)) (m : ModuleManager M)
        (w : W) (s' : Sys api)
        → initialize api options (some libs) (m, w) ≡ done s'
        → Installed api (modules_of options libs m) (at_first options m w) s'
    unfolding initialize
    initialize-Installed options libs m w s' h =
        let off = λ (j : String). is_disabled j (given_options options m) in
        let s = at_first options m w in
        let rs = all_named registered_module m.registered_module_vec in
        let ls = all_named loaded_module libs in
        elim (Bool-cases m.has_configurator) [
          | inr e ↦ let no = rw (initialize, e) at h in cc
          | inl e ↦ elim (Bool-cases (is_pre_init m.state)) [
            | inr f ↦ let no = rw (initialize, e, f) at h in cc
            | inl f ↦
                elim (Outcome-cases
                  (init_all api (init_registered api) m.registered_module_vec s)) [
                    | inr (t, g) ↦
                        let no = rw g at (sym (initialize_passed options libs m w e f) ∙ h) in cc
                    | inl (t, g) ↦
                        let rest = rw g at (sym (initialize_passed options libs m w e f) ∙ h) in
                        let first =
                          init_all-Installed (init_registered api) registered_module off
                            (init_registered-Installed off) m.registered_module_vec s t (λ j. refl)
                            g in
                        let later =
                          init_all-Installed (init_loaded api) loaded_module off
                            (init_loaded-Installed off) libs t s' first.choices rest in
                        subst (λ zs. Installed api zs s s') (sym (enabled-append off rs ls))
                          (append-Installed api (enabled off rs) (enabled off ls) s t s' first
                            later)
                  ]
          ]
        ]
