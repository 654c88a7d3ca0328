-- ===== src/Parameter/Keys.antt =====
-- Maps in which each key stands once.
use aim_rt.Prelude.{◌≡◌, [], ◌∷◌, none, String, string_eq, Option-cases, inl, inr}
use aim_rt.Prelude.Map.{Map, find, emplace, emplace-new, emplace-old}

module _ {V : Type 0} where
  abbrev pub IsKeyed : Map String V → Type 0
  IsKeyed [] = Unit {0}
  IsKeyed ((k, v) ∷ m) = (find k m ≡ none) × IsKeyed m

  pub emplace-IsKeyed :
      (k : String) (v : V) (m : Map String V) → IsKeyed m → IsKeyed (emplace k v m).0
  emplace-IsKeyed k v m h = elim (Option-cases (find k m)) [
    | inl e ↦ rw (emplace-new k v m e) (e, h)
    | inr (w, e) ↦ rw (emplace-old k v w m e) h
  ]
