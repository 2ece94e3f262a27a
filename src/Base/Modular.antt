-- ===== src/Base/Modular.antt =====
-- Remainders of numbers below twice the divisor.
use Prim.Native.Nat.{ℕ, ◌+◌, ◌-◌, ◌%◌, ◌≤◌, ◌<◌}
use mathlib.Core.Path.{◌≡◌, ap}
use mathlib.Core.Logic.{◌⊎◌, inl, inr}
use native.Mathlib.Decide.{dec_lt}
use native.Mathlib.Nat.{mod-eq_of_lt, mod-eq-sub-mod, mod-add-mod}
use native.Mathlib.Omega.{arith}

-- One turn round at most.
pub mod_cases : (a m : ℕ) → a < m + m → ((a < m) × (a % m ≡ a)) ⊎ ((m ≤ a) × (a % m ≡ a - m))
mod_cases a m h = elim (dec_lt a m) [
  | yes p ↦ inl (p, mod-eq_of_lt p)
  | no p ↦ inr (
    omega arith,
    omega (
      arith,
      mod-eq-sub-mod {n = a} {m = m} (omega arith),
      mod-eq_of_lt {n = a - m} {m = m} (omega arith),
    ),
  )
]

-- Steps round a ring add up.
pub mod_step : (a b m : ℕ) → (a % m + b) % m ≡ (a + b) % m
mod_step a b m = mod-add-mod a m b

-- The place `k + i` steps on from `r`, counted from the place `k` steps on.
pub ring_place :
    (r k i f m : ℕ)
    → f ≡ (r + k) % m
    → f < m
    → i < m
    → let j = (r + (k + i)) % m in ((j ≡ f + i) × (j < m)) ⊎ (j + m ≡ f + i)
ring_place r k i f m e h hi = elim (mod_cases (f + i) m (omega arith)) [
  | inl c ↦ inl (omega (arith, turn), omega (arith, turn))
  | inr c ↦ inr (omega (arith, turn))
]
  where
    turn : (r + (k + i)) % m ≡ (f + i) % m
    turn = rw (e, mod_step) (ap (λ t. t % m) (omega arith))

pub ring_turn :
    (r i m : ℕ) → r < m → i < m → let j = (r + i) % m in ((j ≡ r + i) × (j < m)) ⊎ (j + m ≡ r + i)
ring_turn r i m h hi = elim (mod_cases (r + i) m (omega arith)) [
  | inl c ↦ inl (omega arith, omega arith)
  | inr c ↦ inr (omega arith)
]
