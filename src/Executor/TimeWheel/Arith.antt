-- ===== src/Executor/TimeWheel/Arith.antt =====
-- Division and remainder facts behind the timing wheel.
use aim_rt.Prelude.{ℕ, ◌+◌, ◌-◌, ◌*◌, ◌/◌, ◌%◌, ◌≤◌, ◌<◌, ◌≡◌, ◌≢◌, arith}

module _ (n c t : ℕ) where
  -- In a window of `n` ticks a remainder occurs once.
  pub mod-window : t % n ≡ c % n → c ≤ t → t < c + n → t ≡ c
  mod-window e lo hi = grind arith

  pub mod-window_ne : t % n ≢ c % n → c ≤ t → t < c + n → (c + 1 ≤ t) × (t < c + 1 + n)
  mod-window_ne ne lo hi = grind arith

  pub div-window : c % n + 1 ≡ n → t / n ≡ c / n + 1 → (c + 1 ≤ t) × (t < c + 1 + n)
  div-window e q = grind arith

  pub div-later : 0 < n → c ≤ t → n ≤ t - c → c / n + 1 ≤ t / n
  div-later pos lo far = grind arith

pub div-le : (n c : ℕ) → 0 < n → c / n ≤ c
div-le n c pos = grind arith

div-lt : (n t a : ℕ) → 0 < n → t < n * a → t / n < a
div-lt n t a pos h = grind arith

sum-lt : (n c t : ℕ) → 0 < n → c ≤ t → t < n * (c / n + (t - c) / n + 2)
sum-lt n c t pos lo = grind arith

pub div-within : (n c t m : ℕ) → 0 < n → c ≤ t → (t - c) / n < m → t / n < c / n + 1 + m
div-within n c t m pos lo near =
    omega (arith, div-lt n t (c / n + (t - c) / n + 2) pos (sum-lt n c t pos lo))

module _ (n c : ℕ) (pos : 0 < n) where
  pub suc-mod-wrap : c % n + 1 ≡ n → ((c + 1) % n ≡ 0) × ((c + 1) / n ≡ c / n + 1)
  suc-mod-wrap e = grind arith

  pub suc-mod-stay : c % n + 1 ≢ n → ((c + 1) % n ≡ c % n + 1) × ((c + 1) / n ≡ c / n)
  suc-mod-stay e = grind arith
