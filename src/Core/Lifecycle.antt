-- ===== src/Core/Lifecycle.antt =====
-- The state machine `PreInit → Init → Start → Shutdown` that every manager and executor of
-- src/runtime/core carries as `std::atomic<State> state_`.
use aim_rt.Prelude.{◌≡◌, refl, ◌⊎◌, inl, inr, Bool, true, false}

pub data State : Type 0 where
  pre_init init start shutdown : State

-- A method that may throw: an exception leaves the object in the state it had reached.
pub data Outcome (S : Type 0) : Type 0 where
  done : S → Outcome S
  thrown : S → Outcome S

abbrev pub final : {S : Type 0} → Outcome S → S
final (done s) = s
final (thrown s) = s

pub Outcome-cases :
    {S : Type 0} (o : Outcome S) → ((s : S) × (o ≡ done s)) ⊎ ((s : S) × (o ≡ thrown s))
Outcome-cases (done s) = inl (s, refl)
Outcome-cases (thrown s) = inr (s, refl)

abbrev pub is_pre_init : State → Bool
is_pre_init pre_init = true
is_pre_init _ = false

abbrev pub is_init : State → Bool
is_init init = true
is_init _ = false

abbrev pub is_start : State → Bool
is_start start = true
is_start _ = false

abbrev pub is_shutdown : State → Bool
is_shutdown shutdown = true
is_shutdown _ = false

-- A method that returns a flag or throws.
pub data Reply (S : Type 0) : Type 0 where
  returned : S → Bool → Reply S
  raised : S → Reply S

abbrev pub reached : {S : Type 0} → Reply S → S
reached (returned s b) = s
reached (raised s) = s
