-- ===== src/Base/Lists.antt =====
-- Lists measured and indexed by native numbers, and the bytes of memory as lists.
use Prim.Native.Nat.{ℕ, zero, suc, ◌+◌, ◌-◌, ◌≤◌, ◌<◌, min}
use mathlib.Core.Path.{◌≡◌, refl, ap, ap₂, ◌∙◌}
use mathlib.Core.Logic.{◌⊎◌, inr}
use mathlib.Core.List.{List, [], ◌∷◌, ◌++◌}
use native.Mathlib.Omega.{arith}

module _ {ℓ} {A : Type ℓ} where
  abbrev pub length : List A → ℕ
  length [] = 0
  length (x ∷ xs) = suc (length xs)

  abbrev pub get_or : List A → ℕ → A → A
  get_or [] i d = d
  get_or (x ∷ xs) zero d = x
  get_or (x ∷ xs) (suc i) d = get_or xs i d

  abbrev pub set : List A → ℕ → A → List A
  set [] i v = []
  set (x ∷ xs) zero v = v ∷ xs
  set (x ∷ xs) (suc i) v = x ∷ set xs i v

  abbrev pub take : ℕ → List A → List A
  take zero xs = []
  take (suc n) [] = []
  take (suc n) (x ∷ xs) = x ∷ take n xs

  abbrev pub drop : ℕ → List A → List A
  drop zero xs = xs
  drop (suc n) [] = []
  drop (suc n) (x ∷ xs) = drop n xs

  abbrev pub replicate : ℕ → A → List A
  replicate zero a = []
  replicate (suc n) a = a ∷ replicate n a

  -- Overwrites the bytes from an offset on.
  abbrev pub store : List A → ℕ → List A → List A
  store [] o src = []
  store (x ∷ b) zero [] = x ∷ b
  store (x ∷ b) zero (y ∷ src) = y ∷ store b zero src
  store (x ∷ b) (suc o) src = x ∷ store b o src

  -- The values of a function at the first indices.
  abbrev pub tabulate : (ℕ → A) → ℕ → List A
  tabulate f zero = []
  tabulate f (suc n) = f 0 ∷ tabulate (λ i. f (suc i)) n

module _ {ℓ} {A : Type ℓ} where
  pub length-append : (xs ys : List A) → length (xs ++ ys) ≡ length xs + length ys
  length-append [] ys = omega arith
  length-append (x ∷ xs) ys = omega (arith, length-append xs ys)

  pub length-take : (n : ℕ) (xs : List A) → length (take n xs) ≡ min n (length xs)
  length-take zero xs = omega arith
  length-take (suc n) [] = omega arith
  length-take (suc n) (x ∷ xs) = omega (arith, length-take n xs)

  pub length-drop : (n : ℕ) (xs : List A) → length (drop n xs) ≡ length xs - n
  length-drop zero xs = omega arith
  length-drop (suc n) [] = omega arith
  length-drop (suc n) (x ∷ xs) = omega (arith, length-drop n xs)

  pub length-replicate : (n : ℕ) (a : A) → length (replicate n a) ≡ n
  length-replicate zero a = refl
  length-replicate (suc n) a = ap suc (length-replicate n a)

  pub length-set : (xs : List A) (i : ℕ) (v : A) → length (set xs i v) ≡ length xs
  length-set [] i v = refl
  length-set (x ∷ xs) zero v = refl
  length-set (x ∷ xs) (suc i) v = ap suc (length-set xs i v)

  pub length-store : (b : List A) (o : ℕ) (src : List A) → length (store b o src) ≡ length b
  length-store [] o src = refl
  length-store (x ∷ b) zero [] = refl
  length-store (x ∷ b) zero (y ∷ src) = ap suc (length-store b zero src)
  length-store (x ∷ b) (suc o) src = ap suc (length-store b o src)

  pub length-tabulate : (f : ℕ → A) (n : ℕ) → length (tabulate f n) ≡ n
  length-tabulate f zero = refl
  length-tabulate f (suc n) = ap suc (length-tabulate (λ i. f (suc i)) n)

  pub take-append-drop : (n : ℕ) (xs : List A) → take n xs ++ drop n xs ≡ xs
  take-append-drop zero xs = refl
  take-append-drop (suc n) [] = refl
  take-append-drop (suc n) (x ∷ xs) = ap (λ l. x ∷ l) (take-append-drop n xs)

  pub take_all : (n : ℕ) (xs : List A) → length xs ≤ n → take n xs ≡ xs
  take_all zero [] h = refl
  take_all zero (x ∷ xs) h = absurd (omega arith)
  take_all (suc n) [] h = refl
  take_all (suc n) (x ∷ xs) h = ap (λ l. x ∷ l) (take_all n xs (omega arith))

  pub take-append : (xs ys : List A) (n : ℕ) → length xs ≡ n → take n (xs ++ ys) ≡ xs
  take-append [] ys zero h = refl
  take-append [] ys (suc n) h = absurd (omega arith)
  take-append (x ∷ xs) ys zero h = absurd (omega arith)
  take-append (x ∷ xs) ys (suc n) h = ap (λ l. x ∷ l) (take-append xs ys n (omega arith))

  pub drop-append : (xs ys : List A) (n : ℕ) → length xs ≡ n → drop n (xs ++ ys) ≡ ys
  drop-append [] ys zero h = refl
  drop-append [] ys (suc n) h = absurd (omega arith)
  drop-append (x ∷ xs) ys zero h = absurd (omega arith)
  drop-append (x ∷ xs) ys (suc n) h = drop-append xs ys n (omega arith)

  -- Inside the bytes written a read gives the source, outside it gives what was there.
  pub get_or-store_in :
      (b : List A) (o : ℕ) (src : List A) (i j : ℕ) (d : A)
      → j ≡ o + i
      → i < length src
      → j < length b
      → get_or (store b o src) j d ≡ get_or src i d
  get_or-store_in [] o src i j d e h k = absurd (omega arith)
  get_or-store_in (x ∷ b) zero [] i j d e h k = absurd (omega arith)
  get_or-store_in (x ∷ b) zero (y ∷ src) zero zero d e h k = refl
  get_or-store_in (x ∷ b) zero (y ∷ src) zero (suc j) d e h k = absurd (omega arith)
  get_or-store_in (x ∷ b) zero (y ∷ src) (suc i) zero d e h k = absurd (omega arith)
  get_or-store_in (x ∷ b) zero (y ∷ src) (suc i) (suc j) d e h k =
      get_or-store_in b zero src i j d (omega arith) (omega arith) (omega arith)
  get_or-store_in (x ∷ b) (suc o) src i zero d e h k = absurd (omega arith)
  get_or-store_in (x ∷ b) (suc o) src i (suc j) d e h k =
      get_or-store_in b o src i j d (omega arith) h (omega arith)

  pub get_or-store_out :
      (b : List A) (o : ℕ) (src : List A) (j : ℕ) (d : A)
      → (j < o) ⊎ (o + length src ≤ j)
      → get_or (store b o src) j d ≡ get_or b j d
  get_or-store_out [] o src j d h = refl
  get_or-store_out (x ∷ b) zero [] j d h = refl
  get_or-store_out (x ∷ b) zero (y ∷ src) zero d h = absurd (omega arith)
  get_or-store_out (x ∷ b) zero (y ∷ src) (suc j) d h =
      get_or-store_out b zero src j d (inr (omega arith))
  get_or-store_out (x ∷ b) (suc o) src zero d h = refl
  get_or-store_out (x ∷ b) (suc o) src (suc j) d h = get_or-store_out b o src j d (omega arith)

  pub get_or-take :
      (n : ℕ) (xs : List A) (i : ℕ) (d : A) → i < n → get_or (take n xs) i d ≡ get_or xs i d
  get_or-take zero xs i d h = absurd (omega arith)
  get_or-take (suc n) [] i d h = refl
  get_or-take (suc n) (x ∷ xs) zero d h = refl
  get_or-take (suc n) (x ∷ xs) (suc i) d h = get_or-take n xs i d (omega arith)

  pub get_or-drop :
      (n : ℕ) (xs : List A) (i j : ℕ) (d : A) → j ≡ n + i → get_or (drop n xs) i d ≡ get_or xs j d
  get_or-drop zero xs i j d e = ap (λ k. get_or xs k d) (omega arith)
  get_or-drop (suc n) [] i j d e = refl
  get_or-drop (suc n) (x ∷ xs) i zero d e = absurd (omega arith)
  get_or-drop (suc n) (x ∷ xs) i (suc j) d e = get_or-drop n xs i j d (omega arith)

  pub tabulate_ext :
      (f g : ℕ → A) (n : ℕ) → ((i : ℕ) → i < n → f i ≡ g i) → tabulate f n ≡ tabulate g n
  tabulate_ext f g zero h = refl
  tabulate_ext f g (suc n) h =
      ap₂ ◌∷◌ (h 0 (omega arith))
        (tabulate_ext (λ i. f (suc i)) (λ i. g (suc i)) n (λ i k. h (suc i) (omega arith)))

  pub tabulate-add :
      (f g : ℕ → A) (m n k : ℕ)
      → k ≡ m + n
      → ((i : ℕ) → i < n → g i ≡ f (m + i))
      → tabulate f k ≡ tabulate f m ++ tabulate g n
  tabulate-add f g zero n k e h =
      ap (tabulate f) (omega arith) ∙ tabulate_ext f g n (λ i b. ap f (omega arith) ∙ sym' (h i b))
    where
      sym' : {x y : A} → x ≡ y → y ≡ x
      sym' p = cc
  tabulate-add f g (suc m) n zero e h = absurd (omega arith)
  tabulate-add f g (suc m) n (suc k) e h =
      ap (λ l. f 0 ∷ l)
        (tabulate-add (λ i. f (suc i)) g m n k (omega arith) (λ i b. h i b ∙ ap f (omega arith)))

  -- Two lists of one length are equal if they agree at each index.
  get_or_ext :
      (xs ys : List A) (d : A)
      → length xs ≡ length ys
      → ((i : ℕ) → i < length xs → get_or xs i d ≡ get_or ys i d)
      → xs ≡ ys
  get_or_ext [] [] d e h = refl
  get_or_ext [] (y ∷ ys) d e h = absurd (omega arith)
  get_or_ext (x ∷ xs) [] d e h = absurd (omega arith)
  get_or_ext (x ∷ xs) (y ∷ ys) d e h =
      ap₂ ◌∷◌ (h 0 (omega arith))
        (get_or_ext xs ys d (omega arith) (λ i k. h (suc i) (omega arith)))

  get_or-tabulate : (f : ℕ → A) (n i : ℕ) (d : A) → i < n → get_or (tabulate f n) i d ≡ f i
  get_or-tabulate f zero i d h = absurd (omega arith)
  get_or-tabulate f (suc n) zero d h = refl
  get_or-tabulate f (suc n) (suc i) d h = get_or-tabulate (λ k. f (suc k)) n i d (omega arith)

  pub take-eq-tabulate :
      (n : ℕ) (xs : List A) (d : A) → n ≤ length xs → take n xs ≡ tabulate (λ i. get_or xs i d) n
  take-eq-tabulate zero xs d h = refl
  take-eq-tabulate (suc n) [] d h = absurd (omega arith)
  take-eq-tabulate (suc n) (x ∷ xs) d h = ap (λ l. x ∷ l) (take-eq-tabulate n xs d (omega arith))

  -- The first values of a function, and those after them.
  pub take-tabulate : (f : ℕ → A) (m n : ℕ) → n ≤ m → take n (tabulate f m) ≡ tabulate f n
  take-tabulate f m zero h = refl
  take-tabulate f zero (suc n) h = absurd (omega arith)
  take-tabulate f (suc m) (suc n) h =
      ap (λ l. f 0 ∷ l) (take-tabulate (λ i. f (suc i)) m n (omega arith))

  pub drop-tabulate :
      (f g : ℕ → A) (m n k : ℕ)
      → m ≡ n + k
      → ((i : ℕ) → i < k → g i ≡ f (n + i))
      → drop n (tabulate f m) ≡ tabulate g k
  drop-tabulate f g m n k e h =
      ap (drop n) (tabulate-add f g n k m e h)
      ∙ drop-append (tabulate f n) (tabulate g k) n (length-tabulate f n)

  -- A write at or past the end of a prefix.
  pub take-set : (n : ℕ) (xs : List A) (i : ℕ) (v : A) → n ≤ i → take n (set xs i v) ≡ take n xs
  take-set zero xs i v h = refl
  take-set (suc n) [] i v h = refl
  take-set (suc n) (x ∷ xs) zero v h = absurd (omega arith)
  take-set (suc n) (x ∷ xs) (suc i) v h = ap (λ l. x ∷ l) (take-set n xs i v (omega arith))

  pub take-append-take :
      (a b n : ℕ) (xs : List A) → n ≡ a + b → take a xs ++ take b (drop a xs) ≡ take n xs
  take-append-take zero b n xs e = ap (λ k. take k xs) (omega arith)
  take-append-take (suc a) b zero xs e = absurd (omega arith)
  take-append-take (suc a) zero (suc n) [] e = refl
  take-append-take (suc a) (suc b) (suc n) [] e = refl
  take-append-take (suc a) b (suc n) (x ∷ xs) e =
      ap (λ l. x ∷ l) (take-append-take a b n xs (omega arith))

  pub store-nil : (b : List A) → store b 0 [] ≡ b
  store-nil [] = refl
  store-nil (x ∷ b) = refl
