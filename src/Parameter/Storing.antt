-- ===== src/Parameter/Storing.antt =====
-- parameter_handle.cc: what a parameter is after another has been set.
use aim_rt.Prelude.{
  ◌≡◌, refl, true, not, ◌&&◌, Option, none, some, String, string_eq, ◌==◌, ==_iff, arith,
  Option-cases, Bool-cases, inl, inr, if◌then◌else◌,
}
use aim_rt.Prelude.Map.{find, find-assign, find-erase, emplace-new}
use aim_rt.Parameter.{ParameterMap, is_blank, is_present, set_parameter}

-- An empty value takes away a parameter that is there, and no other.
abbrev pub stored : Option String → Option (Option String) → Option (Option String)
stored v old = if is_present old && is_blank v then none else some v

pub find-set_parameter :
    (k j : String) (v : Option String) (m : ParameterMap)
    → find j (set_parameter k v m) ≡ (if k == j then stored v (find k m) else find j m)
unfolding set_parameter
find-set_parameter k j v m = elim (Option-cases (find k m)) [
  | inl e ↦
      rw (set_parameter, e, emplace-new k v m e) (unfold find in ground (arith, e, ==_iff k j))
  | inr (w, e) ↦ elim (Bool-cases (is_blank v)) [
    | inl f ↦ rw (set_parameter, e, f, find-erase k j m) refl
    | inr f ↦ rw (set_parameter, e, f, find-assign k j v m) refl
  ]
]

-- Setting a parameter changes no other one, and gives it the value, except that an empty value or a
-- null pointer takes a parameter that is there away. So setting an absent parameter to an empty value
-- makes it present, and setting it so once more makes it absent again.
pub set_parameter_empty_toggles :
    (k j : String) (v : Option String) (m : ParameterMap)
    → (find j (set_parameter k v m) ≡ (if k == j then stored v (find k m) else find j m))
      × (is_blank v ≡ true
          → is_present (find k (set_parameter k v m)) ≡ not (is_present (find k m)))
set_parameter_empty_toggles k j v m =
    (find-set_parameter k j v m, λ h. ground (arith, h, ==_iff k k, find-set_parameter k k v m))

pub find-set_new :
    (k j : String) (v : Option String) (m : ParameterMap)
    → find k m ≡ none
    → find j (set_parameter k v m) ≡ (if k == j then some v else find j m)
find-set_new k j v m e = ground (arith, e, find-set_parameter k j v m)
