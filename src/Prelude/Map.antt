-- ===== src/Prelude/Map.antt =====
-- `std::unordered_map` as an association list: `find`, `emplace` (which never overwrites),
-- `operator[]` assignment and `erase`. The program does not rely on the order of iteration.
use mathlib.Core.Path.{◌≡◌, refl}
use mathlib.Core.Bool.{Bool, true, false}
use mathlib.Core.Option.{Option, none, some}
use mathlib.Core.List.{List, [], ◌∷◌}
use native.Mathlib.Omega.{arith}
use aim_rt.Prelude.Tests.{if◌then◌else◌}
use aim_rt.Prelude.Equality.{Eq, ◌==◌, ==_iff}

abbrev pub Map {ℓ κ} : Type ℓ → Type κ → Type (ℓ ⊔ κ)
Map K V = List (K × V)

pub beq_refl {ℓ} : {K : Type ℓ} ⦃e : Eq K⦄ (k : K) → (k == k) ≡ true
beq_refl k = (==_iff k k).1 refl

module _ {ℓ κ} {K : Type ℓ} {V : Type κ} ⦃e : Eq K⦄ where
  unfoldable pub find : K → Map K V → Option V
  find k [] = none
  find k ((j, v) ∷ m) = if j == k then some v else find k m

  unfoldable pub assign : K → V → Map K V → Map K V
  assign k v [] = (k, v) ∷ []
  assign k v ((j, w) ∷ m) = if j == k then (j, v) ∷ m else (j, w) ∷ assign k v m

  unfoldable pub erase : K → Map K V → Map K V
  erase k [] = []
  erase k ((j, w) ∷ m) = let rest = erase k m in if j == k then rest else (j, w) ∷ rest

  emplace_at : K → V → Map K V → Option V → Map K V × Bool
  emplace_at k v m none = ((k, v) ∷ m, true)
  emplace_at k v m (some w) = (m, false)

  -- The flag says whether the entry is new.
  unfoldable pub emplace : K → V → Map K V → Map K V × Bool
  unfolding emplace_at
  emplace k v m = emplace_at k v m (find k m)

  unfoldable pub find_or : V → K → Map K V → V
  find_or d k m = elim (find k m) [ none ↦ d | some v ↦ v ]

  pub find-assign :
      (k j : K) (v : V) (m : Map K V)
      → find j (assign k v m) ≡ (if k == j then some v else find j m)
  unfolding find assign
  find-assign k j v [] = refl
  find-assign k j v ((i, w) ∷ m) =
      ground (arith, ==_iff k j, ==_iff i k, ==_iff i j, find-assign k j v m)

  pub find-erase :
      (k j : K) (m : Map K V) → find j (erase k m) ≡ (if k == j then none else find j m)
  unfolding find erase
  find-erase k j [] = ground arith
  find-erase k j ((i, w) ∷ m) = ground (arith, ==_iff k j, ==_iff i k, ==_iff i j, find-erase k j m)

  pub find-emplace :
      (k j : K) (v : V) (m : Map K V)
      → find j (emplace k v m).0
        ≡ (if (emplace k v m).1 then (if k == j then some v else find j m) else find j m)
  unfolding find emplace
  find-emplace k j v m = ground arith

  pub emplace-new :
      (k : K) (v : V) (m : Map K V) → find k m ≡ none → emplace k v m ≡ ((k, v) ∷ m, true)
  unfolding emplace
  emplace-new k v m h = rw (h, emplace_at)

  pub emplace-old : (k : K) (v w : V) (m : Map K V) → find k m ≡ some w → emplace k v m ≡ (m, false)
  unfolding emplace
  emplace-old k v w m h = rw (h, emplace_at)

  pub find_head : (k : K) (v : V) (m : Map K V) → find k ((k, v) ∷ m) ≡ some v
  unfolding find
  find_head k v m = rw (beq_refl k)

  pub find_or-assign :
      (d : V) (k j : K) (v : V) (m : Map K V)
      → find_or d j (assign k v m) ≡ (if k == j then v else find_or d j m)
  unfolding find_or
  find_or-assign d k j v m = ground (arith, find-assign k j v m)
