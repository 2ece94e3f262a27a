-- ===== src/Flags.antt =====
-- The words of flags of TcpClient.cpp and TcpServerController.cpp, and their single bits.
use Prim.Native.Nat.{bit_and, bit_or, bit_xor}
use linux_tcp_server.Base.{
  ℕ, zero, suc, ◌-◌, ◌^◌, ◌<◌, ◌≡◌, refl, Bool, true, false, not, ◌&&◌, ◌||◌, arith, ltb, ◌==◌,
  ltb_lt, ℕ_discrete, subst,
}

-- `flags |= mask`, `flags &= ~mask` and the test `flags & mask` on a `uint32_t`.
abbrev pub set_mask : ℕ → ℕ → ℕ
set_mask flags mask = bit_or flags mask

abbrev pub unset_mask : ℕ → ℕ → ℕ
unset_mask flags mask = bit_and flags (bit_xor (2 ^ 32 - 1) mask)

abbrev pub has_mask : ℕ → ℕ → Bool
has_mask flags mask = not (bit_and flags mask == 0)

-- A test that holds of every number below a bound.
holds_upto : (ℕ → Bool) → ℕ → Bool
holds_upto ok zero = true
holds_upto ok (suc top) = let lower = holds_upto ok top in lower && ok top

both_true : (a b : Bool) → (a && b) ≡ true → (a ≡ true) × (b ≡ true)
both_true a b e = ground arith

holds_upto_at : (ok : ℕ → Bool) (top i : ℕ) → i < top → holds_upto ok top ≡ true → ok i ≡ true
unfolding holds_upto
holds_upto_at ok zero i within e = let none : ⊥ = omega arith in absurd none
holds_upto_at ok (suc top) i within e =
    let (lower, last) = both_true (holds_upto ok top) (ok top) e in
    elim (ℕ_discrete top i) [
      | yes here ↦ subst (λ x. ok x ≡ true) here last
      | no differ ↦ holds_upto_at ok top i (omega arith) lower
    ]

same : Bool → Bool → Bool
same true b = b
same false b = not b

same_sound : (a b : Bool) → same a b ≡ true → a ≡ b
unfolding same
same_sound true b h = ground arith
same_sound false b h = ground arith

-- What is checked of two bits and a word of seven bits.
bits_ok : ℕ → ℕ → ℕ → Bool
unfolding same
bits_ok i j f =
    same (has_mask (set_mask f (2 ^ i)) (2 ^ j)) (i == j || has_mask f (2 ^ j))
    && (same (has_mask (unset_mask f (2 ^ i)) (2 ^ j)) (not (i == j) && has_mask f (2 ^ j))
        && (ltb (set_mask f (2 ^ i)) 128 && ltb (unset_mask f (2 ^ i)) 128))

table : holds_upto (λ i. holds_upto (λ j. holds_upto (λ f. bits_ok i j f) 128) 7) 7 ≡ true
unfolding holds_upto bits_ok
table = refl

entry : (i j f : ℕ) → i < 7 → j < 7 → f < 128 → bits_ok i j f ≡ true
entry i j f hi hj hf =
    holds_upto_at (λ x. bits_ok i j x) 128 f hf
      (holds_upto_at (λ y. holds_upto (λ x. bits_ok i y x) 128) 7 j hj
        (holds_upto_at (λ z. holds_upto (λ y. holds_upto (λ x. bits_ok z y x) 128) 7) 7 i hi table))

all_four :
    (a b c d : Bool)
    → (a && (b && (c && d))) ≡ true
    → (a ≡ true) × (b ≡ true) × (c ≡ true) × (d ≡ true)
all_four a b c d h = ground arith

module _ (i j f : ℕ) (hi : i < 7) (hj : j < 7) (hf : f < 128) where
  facts :
      (same (has_mask (set_mask f (2 ^ i)) (2 ^ j)) (i == j || has_mask f (2 ^ j)) ≡ true)
      × (same (has_mask (unset_mask f (2 ^ i)) (2 ^ j)) (not (i == j) && has_mask f (2 ^ j)) ≡ true)
      × (ltb (set_mask f (2 ^ i)) 128 ≡ true)
      × (ltb (unset_mask f (2 ^ i)) 128 ≡ true)
  unfolding bits_ok
  facts = all_four _ _ _ _ (entry i j f hi hj hf)

  pub has_mask-set_mask : has_mask (set_mask f (2 ^ i)) (2 ^ j) ≡ (i == j || has_mask f (2 ^ j))
  has_mask-set_mask = same_sound _ _ facts.0

  pub has_mask-unset_mask :
      has_mask (unset_mask f (2 ^ i)) (2 ^ j) ≡ (not (i == j) && has_mask f (2 ^ j))
  has_mask-unset_mask = same_sound _ _ facts.1

  pub set_mask-lt : set_mask f (2 ^ i) < 128
  set_mask-lt = ltb_lt (set_mask f (2 ^ i)) 128 facts.2

  pub unset_mask-lt : unset_mask f (2 ^ i) < 128
  unset_mask-lt = ltb_lt (unset_mask f (2 ^ i)) 128 facts.3
