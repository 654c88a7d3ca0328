-- ===== src/Rpc/Local/Choosing.antt =====
-- local_rpc_backend.cc: which service an invocation goes to.
use aim_rt.Prelude.{
  ◌≡◌, refl, sym, ap, ◌⊎◌, inl, inr, true, false, List, [], ◌∷◌, ◌++◌, none, some, String,
  string_eq, ◌==◌, ==_iff, All, arith, if◌then◌else◌, Bool-cases, Option-cases,
}
use aim_rt.Prelude.Map.{Map, find, find_or, assign}
use aim_rt.Core.Lifecycle.{is_init}
use aim_rt.Rpc.Registry.{ServiceFuncWrapper}
use aim_rt.Rpc.Manager.{code, cli_invalid_addr}
use aim_rt.Rpc.Local.{
  ServiceFuncIndexMap, LocalRpcBackend, register_service, Choice, refused, chosen, first_name,
  has_name, choose_first, pkg_with, choose_in, choose_pkg, choose,
}

-- The packages of a function, none of them without a module.
abbrev pub IsFilled : Map String (List String) → Type 0
IsFilled pkgs = All (λ e. has_name (first_name e.1) e.1 ≡ true) pkgs

-- The index lists the module under the package.
abbrev pub Listed : String → String → Map String (List String) → Type 0
Listed pkg m pkgs =
    (before after : Map String (List String)) × (mods : List String) × (pkgs
      ≡ before ++ (pkg, mods) ∷ after)
    × (has_name m mods ≡ true)

-- What the address asks for is what is chosen; an empty part asks for nothing.
abbrev pub Asked : String → String → Type 0
Asked part found = ((part == "") ≡ true) ⊎ (part ≡ found)

abbrev pub Choices : Map String (List String) → String → String → Choice → Type 0
Choices pkgs pkg m (refused st) = st ≡ cli_invalid_addr
Choices pkgs pkg m (chosen p n) = Listed p n pkgs × Asked pkg p × Asked m n

Listed-later :
    (e : String × List String) (pkg m : String) (pkgs : Map String (List String))
    → Listed pkg m pkgs
    → Listed pkg m (e ∷ pkgs)
Listed-later e pkg m pkgs (before, after, mods, same, h) =
    (e ∷ before, after, mods, ap (λ es. e ∷ es) same, h)

find-Listed :
    (pkg m : String) (mods : List String) (pkgs : Map String (List String))
    → find pkg pkgs ≡ some mods
    → has_name m mods ≡ true
    → Listed pkg m pkgs
unfolding find
find-Listed pkg m mods [] e h = cc
find-Listed pkg m mods ((j, ms) ∷ pkgs) e h = elim (Bool-cases (j == pkg)) [
  | inl f ↦
      let same : ms ≡ mods = ground (arith, e, f) in
      ([], pkgs, mods, rw ((==_iff j pkg).0 f, same) refl, h)
  | inr f ↦ Listed-later (j, ms) pkg m pkgs (find-Listed pkg m mods pkgs (ground (arith, e, f)) h)
]

find-filled :
    (pkg : String) (mods : List String) (pkgs : Map String (List String))
    → find pkg pkgs ≡ some mods
    → IsFilled pkgs
    → has_name (first_name mods) mods ≡ true
unfolding find
find-filled pkg mods [] e h = cc
find-filled pkg mods ((j, ms) ∷ pkgs) e (h, hs) = elim (Bool-cases (j == pkg)) [
  | inl f ↦ let same : ms ≡ mods = ground (arith, e, f) in rw (sym same) h
  | inr f ↦ find-filled pkg mods pkgs (ground (arith, e, f)) hs
]

pkg_with-Listed :
    (m : String) (pkgs : Map String (List String))
    → (pkg_with m pkgs == "") ≡ false
    → Listed (pkg_with m pkgs) m pkgs
unfolding pkg_with
pkg_with-Listed m [] h = cc
pkg_with-Listed m ((pkg, mods) ∷ pkgs) h = elim (Bool-cases (has_name m mods)) [
  | inl e ↦ rw (pkg_with, e) ([], pkgs, mods, refl, e)
  | inr e ↦
      let later : pkg_with m ((pkg, mods) ∷ pkgs) ≡ pkg_with m pkgs = rw (pkg_with, e) refl in
      rw later (
        Listed-later (pkg, mods) (pkg_with m pkgs) m pkgs
          (pkg_with-Listed m pkgs (rw (sym later) h)))
]

choose_in-Choices :
    (pkg asked m : String) (mods : List String) (pkgs : Map String (List String))
    → Asked asked pkg
    → find pkg pkgs ≡ some mods
    → IsFilled pkgs
    → Choices pkgs asked m (choose_in mods pkg m)
unfolding choose_in
choose_in-Choices pkg asked m mods pkgs a e h = elim (Bool-cases (m == "")) [
  | inl f ↦
      rw (choose_in, f)
        (find-Listed pkg (first_name mods) mods pkgs e (find-filled pkg mods pkgs e h), a, inl f)
  | inr f ↦ elim (Bool-cases (has_name m mods)) [
    | inl g ↦ rw (choose_in, f, g) (find-Listed pkg m mods pkgs e g, a, inr refl)
    | inr g ↦ rw (choose_in, f, g) refl
  ]
]

choose_first-Choices :
    (pkg m : String) (pkgs : Map String (List String))
    → (pkg == "") ≡ true
    → (m == "") ≡ true
    → IsFilled pkgs
    → Choices pkgs pkg m (choose_first pkgs)
unfolding choose_first
choose_first-Choices pkg m [] a b h = refl
choose_first-Choices pkg m ((p, mods) ∷ pkgs) a b (h, hs) =
    (([], pkgs, mods, refl, h), inl a, inl b)

choose_pkg-Choices :
    (pkgs : Map String (List String)) (pkg m : String)
    → IsFilled pkgs
    → Choices pkgs pkg m (choose_pkg pkgs pkg m)
unfolding choose_pkg
choose_pkg-Choices pkgs pkg m h = elim (Bool-cases (pkg == "")) [
  | inr e ↦ elim (Option-cases (find pkg pkgs)) [
    | inl f ↦ rw (choose_pkg, e, f) refl
    | inr (mods, f) ↦ rw (choose_pkg, e, f) (choose_in-Choices pkg pkg m mods pkgs (inr refl) f h)
  ]
  | inl e ↦ elim (Bool-cases (m == "")) [
    | inl f ↦ rw (choose_pkg, e, f) (choose_first-Choices pkg m pkgs e f h)
    | inr f ↦ elim (Bool-cases (pkg_with m pkgs == "")) [
      | inl g ↦ rw (choose_pkg, e, f, g) refl
      | inr g ↦ rw (choose_pkg, e, f, g) (pkg_with-Listed m pkgs g, inl e, inr refl)
    ]
  ]
]

-- Every function's packages are filled.
abbrev pub AllFilled : ServiceFuncIndexMap → Type 0
AllFilled index = All (λ e. IsFilled e.1) index

find-AllFilled :
    (func : String) (pkgs : Map String (List String)) (index : ServiceFuncIndexMap)
    → find func index ≡ some pkgs
    → AllFilled index
    → IsFilled pkgs
unfolding find
find-AllFilled func pkgs [] e h = cc
find-AllFilled func pkgs ((j, ps) ∷ index) e (h, hs) = elim (Bool-cases (j == func)) [
  | inl f ↦ let same : ps ≡ pkgs = ground (arith, e, f) in rw (sym same) h
  | inr f ↦ find-AllFilled func pkgs index (ground (arith, e, f)) hs
]

find_or-AllFilled :
    (func : String) (index : ServiceFuncIndexMap)
    → AllFilled index
    → IsFilled (find_or [] func index)
unfolding find_or
find_or-AllFilled func index h = elim (Option-cases (find func index)) [
  | inl e ↦ rw (find_or, e) tt
  | inr (pkgs, e) ↦ rw (find_or, e) (find-AllFilled func pkgs index e h)
]

AllFilled-assign :
    (f : String) (v : Map String (List String)) (index : ServiceFuncIndexMap)
    → IsFilled v
    → AllFilled index
    → AllFilled (assign f v index)
unfolding assign
AllFilled-assign f v [] h hs = (h, tt)
AllFilled-assign f v ((j, ps) ∷ index) h (g, gs) = elim (Bool-cases (j == f)) [
  | inl e ↦ rw (assign, e) (h, gs)
  | inr e ↦ rw (assign, e) (g, AllFilled-assign f v index h gs)
]

-- When no package of the index is without a module: a function that is not registered is refused with
-- SVR_NOT_FOUND, and otherwise either a package and a module that the index lists for the function
-- are chosen, which are the ones that the address names where it names any, or the call is refused
-- with CLI_INVALID_ADDR.
pub choose-Choices :
    (index : ServiceFuncIndexMap) (func pkg m : String)
    → AllFilled index
    → ((find func index ≡ none) × (choose index func pkg m ≡ refused (code 1003)))
      ⊎ ((pkgs : Map String (List String)) × (find func index ≡ some pkgs)
          × Choices pkgs pkg m (choose index func pkg m))
unfolding choose
choose-Choices index func pkg m h = elim (Option-cases (find func index)) [
  | inl e ↦ inl (e, rw (choose, e) refl)
  | inr (pkgs, e) ↦
      inr (
        pkgs,
        e,
        rw (choose, e) (choose_pkg-Choices pkgs pkg m (find-AllFilled func pkgs index e h)),
      )
]

first-has_name :
    (n : String) (mods : List String)
    → has_name n mods ≡ true
    → has_name (first_name mods) mods ≡ true
first-has_name n [] h = cc
first-has_name n (x ∷ mods) h = ground (arith, ==_iff x x)

IsFilled-assign :
    (pkg : String) (mods : List String) (pkgs : Map String (List String))
    → has_name (first_name mods) mods ≡ true
    → IsFilled pkgs
    → IsFilled (assign pkg mods pkgs)
unfolding assign
IsFilled-assign pkg mods [] h hs = (h, tt)
IsFilled-assign pkg mods ((j, ms) ∷ pkgs) h (g, gs) = elim (Bool-cases (j == pkg)) [
  | inl e ↦ rw (assign, e) (h, gs)
  | inr e ↦ rw (assign, e) (g, IsFilled-assign pkg mods pkgs h gs)
]

-- The registration of a service keeps the index in the form that the choice needs, in which no package
-- is without a module, in every state of the backend.
pub register_service-AllFilled :
    {E Q F : Type 0} (w : ServiceFuncWrapper F) (b : LocalRpcBackend E Q)
    → AllFilled b.service_func_register_index
    → AllFilled (register_service w b).0.service_func_register_index
unfolding register_service
register_service-AllFilled w b h = elim (Bool-cases (is_init b.state)) [
  | inr e ↦ simp (register_service, e) h
  | inl e ↦
      let i = w.info in
      let pkgs = find_or [] i.func_name b.service_func_register_index in
      let mods = find_or [] i.pkg_path pkgs in
      let mods' = if has_name i.module_name mods then mods else i.module_name ∷ mods in
      let named : has_name (first_name mods') mods' ≡ true =
        elim (Bool-cases (has_name i.module_name mods)) [
          | inl f ↦ simp f (first-has_name i.module_name mods f)
          | inr f ↦ simp f (ground (arith, ==_iff i.module_name i.module_name))
        ] in
      let filled =
        IsFilled-assign i.pkg_path mods' pkgs named
          (find_or-AllFilled i.func_name b.service_func_register_index h) in
      simp (register_service, e)
        (AllFilled-assign i.func_name (assign i.pkg_path mods' pkgs) b.service_func_register_index
          filled h)
]
