-- ===== src/Executor/TimeWheel/Slots.antt =====
-- Time-wheel executor: what holds of the tasks in every slot of a wheel, and that no task is
-- lost, under the two writes that the wheel makes.
use aim_rt.Prelude.{
  ℕ, zero, suc, ◌<◌, ◌%◌, ◌≡◌, refl, sym, ap, ◌≢◌, ◌⊎◌, inl, inr, List, [], ◌∷◌, ◌++◌, arith,
  length, get_or, set, length-set, All, All-append, All-map,
}
use aim_rt.Executor.TimeWheel.{TaskWithTimestamp, TaskList, push_at, spread}
use native.Mathlib.Decide.{ℕ_discrete}

abbrev pub Wheel : Type 0 → Type 0
Wheel A = List (TaskList A)

module _ {A : Type 0} where
  -- `P j t` for every task `t` of slot `j`.
  abbrev pub InSlots : (ℕ → TaskWithTimestamp A → Type 0) → Wheel A → Type 0
  InSlots P w = (j : ℕ) → All (P j) (get_or w j [])

  get_or-set_self :
      (Q : TaskWithTimestamp A → Type 0) (w : Wheel A) (i : ℕ) (v : TaskList A)
      → All Q v
      → All Q (get_or (set w i v) i [])
  get_or-set_self Q [] i v h = tt
  get_or-set_self Q (x ∷ w) zero v h = h
  get_or-set_self Q (x ∷ w) (suc i) v h = get_or-set_self Q w i v h

  get_or-set_ne :
      (w : Wheel A) (i j : ℕ) (v : TaskList A) → i ≢ j → get_or (set w i v) j [] ≡ get_or w j []
  get_or-set_ne [] i j v h = refl
  get_or-set_ne (x ∷ w) zero zero v h = absurd (h refl)
  get_or-set_ne (x ∷ w) zero (suc j) v h = refl
  get_or-set_ne (x ∷ w) (suc i) zero v h = refl
  get_or-set_ne (x ∷ w) (suc i) (suc j) v h = get_or-set_ne w i j v (λ e. h (ap suc e))

  pub InSlots-clear :
      (P Q : ℕ → TaskWithTimestamp A → Type 0) (w : Wheel A) (p : ℕ)
      → ((j : ℕ) (t : TaskWithTimestamp A) → j ≢ p → P j t → Q j t)
      → InSlots P w
      → InSlots Q (set w p [])
  InSlots-clear P Q w p f h j = elim (ℕ_discrete p j) [
    | yes e ↦ rw (← e) (get_or-set_self (Q p) w p [] tt)
    | no ne ↦
        rw (get_or-set_ne w p j [] ne)
          (All-map (P j) (Q j) (get_or w j []) (λ t. f j t (λ e. ne (sym e))) (h j))
  ]

  pub InSlots-push :
      (P : ℕ → TaskWithTimestamp A → Type 0) (w : Wheel A) (i : ℕ) (t : TaskWithTimestamp A)
      → InSlots P w
      → P i t
      → InSlots P (push_at w i t)
  unfolding push_at
  InSlots-push P w i t h new j = elim (ℕ_discrete i j) [
    | yes e ↦
        rw (← e)
          (get_or-set_self (P i) w i _ (All-append (P i) (get_or w i []) (t ∷ []) (h i) (new, tt)))
    | no ne ↦ rw (get_or-set_ne w i j _ ne) (h j)
  ]

  pub length-push_at :
      (w : Wheel A) (i : ℕ) (t : TaskWithTimestamp A) → length (push_at w i t) ≡ length w
  unfolding push_at
  length-push_at w i t = length-set w i _

  pub length-spread : (ts : TaskList A) (w : Wheel A) → length (spread ts w) ≡ length w
  unfolding spread
  length-spread [] w = refl
  length-spread (t ∷ ts) w = omega (
    arith,
    length-spread ts (push_at w (t.tick_count % length w) t),
    length-push_at w (t.tick_count % length w) t,
  )

  pub InSlots-spread :
      (P : ℕ → TaskWithTimestamp A → Type 0) (n : ℕ) (ts : TaskList A) (w : Wheel A)
      → length w ≡ n
      → All (λ t. P (t.tick_count % n) t) ts
      → InSlots P w
      → InSlots P (spread ts w)
  unfolding spread
  InSlots-spread P n [] w e new h = h
  InSlots-spread P n (t ∷ ts) w e new h = rw e (
      InSlots-spread P n ts (push_at w (t.tick_count % n) t)
        (omega (arith, length-push_at w (t.tick_count % n) t)) new.1
        (InSlots-push P w (t.tick_count % n) t h new.0))

  -- Membership that computes, with the place kept.
  abbrev pub In : TaskWithTimestamp A → TaskList A → Type 0
  In t [] = ⊥
  In t (x ∷ xs) = (x ≡ t) ⊎ In t xs

  abbrev pub InWheel : TaskWithTimestamp A → Wheel A → Type 0
  InWheel t [] = ⊥
  InWheel t (s ∷ w) = In t s ⊎ InWheel t w

  pub In-append :
      (t : TaskWithTimestamp A) (xs ys : TaskList A) → In t xs ⊎ In t ys → In t (xs ++ ys)
  In-append t [] ys (inl h) = elim h [ ]
  In-append t [] ys (inr h) = h
  In-append t (x ∷ xs) ys (inl (inl e)) = inl e
  In-append t (x ∷ xs) ys (inl (inr h)) = inr (In-append t xs ys (inl h))
  In-append t (x ∷ xs) ys (inr h) = inr (In-append t xs ys (inr h))

  -- Clearing a slot loses only what was read from it.
  pub InWheel-clear :
      (t : TaskWithTimestamp A) (w : Wheel A) (p : ℕ)
      → InWheel t w
      → In t (get_or w p []) ⊎ InWheel t (set w p [])
  InWheel-clear t [] p h = elim h [ ]
  InWheel-clear t (s ∷ w) zero (inl h) = inl h
  InWheel-clear t (s ∷ w) zero (inr h) = inr (inr h)
  InWheel-clear t (s ∷ w) (suc p) (inl h) = inr (inl h)
  InWheel-clear t (s ∷ w) (suc p) (inr h) = elim (InWheel-clear t w p h) [
    | inl out ↦ inl out
    | inr kept ↦ inr (inr kept)
  ]

  InWheel-set :
      (t : TaskWithTimestamp A) (w : Wheel A) (p : ℕ) (v : TaskList A)
      → (In t (get_or w p []) → In t v)
      → InWheel t w
      → InWheel t (set w p v)
  InWheel-set t [] p v f h = elim h [ ]
  InWheel-set t (s ∷ w) zero v f (inl h) = inl (f h)
  InWheel-set t (s ∷ w) zero v f (inr h) = inr h
  InWheel-set t (s ∷ w) (suc p) v f (inl h) = inl h
  InWheel-set t (s ∷ w) (suc p) v f (inr h) = inr (InWheel-set t w p v f h)

  InWheel-set_new :
      (t : TaskWithTimestamp A) (w : Wheel A) (p : ℕ) (v : TaskList A)
      → p < length w
      → In t v
      → InWheel t (set w p v)
  InWheel-set_new t [] p v lt h = absurd (omega arith)
  InWheel-set_new t (s ∷ w) zero v lt h = inl h
  InWheel-set_new t (s ∷ w) (suc p) v lt h = inr (InWheel-set_new t w p v (omega arith) h)

  pub InWheel-push_old :
      (t x : TaskWithTimestamp A) (w : Wheel A) (p : ℕ) → InWheel t w → InWheel t (push_at w p x)
  unfolding push_at
  InWheel-push_old t x w p = InWheel-set t w p _ (λ h. In-append t (get_or w p []) (x ∷ []) (inl h))

  pub InWheel-push_new :
      (t : TaskWithTimestamp A) (w : Wheel A) (p : ℕ) → p < length w → InWheel t (push_at w p t)
  unfolding push_at
  InWheel-push_new t w p lt =
      InWheel-set_new t w p _ lt (In-append t (get_or w p []) (t ∷ []) (inr (inl refl)))

  pub InWheel-spread :
      (t : TaskWithTimestamp A) (ts : TaskList A) (w : Wheel A)
      → 0 < length w
      → In t ts ⊎ InWheel t w
      → InWheel t (spread ts w)
  unfolding spread
  InWheel-spread t [] w pos (inl h) = elim h [ ]
  InWheel-spread t [] w pos (inr h) = h
  InWheel-spread t (x ∷ ts) w pos (inl (inl e)) =
      InWheel-spread t ts _ (omega (arith, length-push_at w (x.tick_count % length w) x))
        (inr (rw e (InWheel-push_new t w (t.tick_count % length w) (omega arith))))
  InWheel-spread t (x ∷ ts) w pos (inl (inr h)) =
      InWheel-spread t ts _ (omega (arith, length-push_at w (x.tick_count % length w) x)) (inl h)
  InWheel-spread t (x ∷ ts) w pos (inr h) =
      InWheel-spread t ts _ (omega (arith, length-push_at w (x.tick_count % length w) x))
        (inr (InWheel-push_old t x w _ h))
