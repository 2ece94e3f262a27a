-- ===== src/Base/Memory.antt =====
-- The objects that live on the heap, by address.
use Prim.Native.Nat.{ℕ}
use mathlib.Core.Path.{◌≡◌, refl, ap, ◌∙◌}
use mathlib.Core.Logic.{◌≢◌}
use mathlib.Core.List.{List, [], ◌∷◌}
use mathlib.Core.Option.{Option, none, some}
use native.Mathlib.Omega.{arith}
use linux_tcp_server.Base.Tests.{◌==◌, if◌then◌else◌, eq_refl, eq_false}

module _ {ℓ} {A : Type ℓ} where
  abbrev pub find : ℕ → List (ℕ × A) → Option A
  find p [] = none
  find p ((q, a) ∷ m) = if q == p then some a else find p m

  abbrev pub put : ℕ → A → List (ℕ × A) → List (ℕ × A)
  put p a [] = (p, a) ∷ []
  put p a ((q, b) ∷ m) = if q == p then (p, a) ∷ m else (q, b) ∷ put p a m

  abbrev pub erase : ℕ → List (ℕ × A) → List (ℕ × A)
  erase p [] = []
  erase p ((q, b) ∷ m) = let rest = erase p m in if q == p then rest else (q, b) ∷ rest

  find-put :
      (p q : ℕ) (a : A) (m : List (ℕ × A))
      → find q (put p a m) ≡ (if p == q then some a else find q m)
  find-put p q a [] = refl
  find-put p q a ((r, b) ∷ m) = ground (arith, find-put p q a m)

  pub find-erase :
      (p q : ℕ) (m : List (ℕ × A)) → find q (erase p m) ≡ (if p == q then none else find q m)
  find-erase p q [] = ground arith
  find-erase p q ((r, b) ∷ m) = ground (arith, find-erase p q m)

  pub find-put_same : (p : ℕ) (a : A) (m : List (ℕ × A)) → find p (put p a m) ≡ some a
  find-put_same p a m = find-put p p a m ∙ ap (λ b. if b then some a else find p m) (eq_refl p)

  pub find-put_other : (p q : ℕ) (a : A) (m : List (ℕ × A)) → p ≢ q → find q (put p a m) ≡ find q m
  find-put_other p q a m differ =
      find-put p q a m ∙ ap (λ b. if b then some a else find q m) (eq_false p q differ)

  pub find-erase_same : (p : ℕ) (m : List (ℕ × A)) → find p (erase p m) ≡ none
  find-erase_same p m = find-erase p p m ∙ ap (λ b. if b then none else find p m) (eq_refl p)

  pub find-erase_other : (p q : ℕ) (m : List (ℕ × A)) → p ≢ q → find q (erase p m) ≡ find q m
  find-erase_other p q m differ =
      find-erase p q m ∙ ap (λ b. if b then none else find q m) (eq_false p q differ)
