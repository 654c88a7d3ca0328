-- ===== src/Core/Rules.antt =====
-- `GetBackendsByRules` and `GetFilterRules`, which src/runtime/core/channel/channel_backend_manager.cc
-- and src/runtime/core/rpc/rpc_backend_manager.cc share. `std::regex_match` is a parameter: pattern and
-- text to `some` answer, or to `none` where the construction of the expression throws.
use aim_rt.Prelude.{
  ◌≡◌, ◌⊎◌, inl, inr, Bool, true, false, List, [], ◌∷◌, ◌++◌, Option, none, some, String, string_eq,
  ◌==◌, if◌then◌else◌, All,
}

abbrev pub Rules : Type 0
Rules = List (String × List String)

abbrev pub Regex : Type 0
Regex = String → String → Option Bool

module _ (regex_match : Regex) where
  unfoldable pub get_filter_rules : String → Rules → List String
  get_filter_rules name [] = []
  get_filter_rules name ((pattern, filters) ∷ rules) =
      let rest = get_filter_rules name rules in
      elim (regex_match pattern name) [ none ↦ rest | some true ↦ filters | some false ↦ rest ]

module _ {B : Type 0} (name_of : B → String) where
  -- `std::find_if` over the registered backends.
  unfoldable pub find_backend : String → List B → Option B
  find_backend name [] = none
  find_backend name (b ∷ bs) = if name_of b == name then some b else find_backend name bs

  -- The inner loop: unknown names are skipped.
  unfoldable pub select_backends : List B → List String → List B
  unfolding find_backend
  select_backends vec [] = []
  select_backends vec (name ∷ names) =
      let rest = select_backends vec names in
      elim (find_backend name vec) [ none ↦ rest | some b ↦ b ∷ rest ]

  unfoldable pub get_backends_by_rules : Regex → List B → String → Rules → List B
  unfolding select_backends
  get_backends_by_rules regex_match vec name [] = []
  get_backends_by_rules regex_match vec name ((pattern, enabled) ∷ rules) =
      let rest = get_backends_by_rules regex_match vec name rules in
      elim (regex_match pattern name) [
        | none ↦ rest
        | some true ↦ select_backends vec enabled
        | some false ↦ rest
      ]

-- A rule that does not apply: its pattern throws or does not match.
abbrev pub PassesOver : Regex → String → String × List String → Type 0
PassesOver regex_match name rule =
    (regex_match rule.0 name ≡ none) ⊎ (regex_match rule.0 name ≡ some false)

module _ (regex_match : Regex) (name : String) where
  -- The first rule that matches decides the filters.
  pub get_filter_rules_first :
      (before : Rules) (pattern : String) (filters : List String) (later : Rules)
      → All (PassesOver regex_match name) before
      → regex_match pattern name ≡ some true
      → get_filter_rules regex_match name (before ++ (pattern, filters) ∷ later) ≡ filters
  unfolding get_filter_rules
  get_filter_rules_first [] pattern filters later h e = rw e
  get_filter_rules_first (r ∷ before) pattern filters later (inl o, h) e =
      rw o (get_filter_rules_first before pattern filters later h e)
  get_filter_rules_first (r ∷ before) pattern filters later (inr o, h) e =
      rw o (get_filter_rules_first before pattern filters later h e)

  -- A rule that matches, where the rules before it do not match or throw, decides the backends.
  pub get_backends_by_rules_first :
      {B : Type 0} (name_of : B → String) (vec : List B) (before : Rules) (pattern : String)
      (enabled : List String) (later : Rules)
      → All (PassesOver regex_match name) before
      → regex_match pattern name ≡ some true
      → get_backends_by_rules name_of regex_match vec name (before ++ (pattern, enabled) ∷ later)
        ≡ select_backends name_of vec enabled
  unfolding get_backends_by_rules
  get_backends_by_rules_first name_of vec [] pattern enabled later h e = rw e
  get_backends_by_rules_first name_of vec (r ∷ before) pattern enabled later (inl o, h) e =
      rw o (get_backends_by_rules_first name_of vec before pattern enabled later h e)
  get_backends_by_rules_first name_of vec (r ∷ before) pattern enabled later (inr o, h) e =
      rw o (get_backends_by_rules_first name_of vec before pattern enabled later h e)
