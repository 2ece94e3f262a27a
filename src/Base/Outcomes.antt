-- ===== src/Base/Outcomes.antt =====
-- How a call of C code can end.
use mathlib.Core.Path.{◌≡◌, refl, ap, ◌∙◌}

-- `blocked`: the call waits for a mutex that its own thread holds. `fault`: undefined behaviour, such
-- as an access out of bounds, through a null or dangling pointer, or a division by zero.
-- `exited`: the process has called `exit`. `exhausted`: a loop used up the fuel of the model.
pub data Outcome {ℓ} (A : Type ℓ) : Type ℓ where
  done : A → Outcome A
  blocked : Outcome A
  fault : Outcome A
  exited : Outcome A
  exhausted : Outcome A

infixl 5 ◌>>=◌ ◌>>◌
abbrev pub ◌>>=◌ {ℓ κ} : {A : Type ℓ} {B : Type κ} → Outcome A → (A → Outcome B) → Outcome B
done a >>= f = f a
blocked >>= f = blocked
fault >>= f = fault
exited >>= f = exited
exhausted >>= f = exhausted

abbrev pub ◌>>◌ {κ} : {B : Type κ} → Outcome (Unit {0}) → Outcome B → Outcome B
m >> k = m >>= λ _. k

-- The call returns, and its result has the property.
abbrev pub Returns {ℓ} : {A : Type ℓ} → Outcome A → (A → Type 0) → Type 0
Returns (done a) P = P a
Returns blocked P = ⊥
Returns fault P = ⊥
Returns exited P = ⊥
Returns exhausted P = ⊥

pub Returns-bind {ℓ κ} :
    {A : Type ℓ} {B : Type κ} (P : A → Type 0) (Q : B → Type 0) (m : Outcome A) (f : A → Outcome B)
    → Returns m P
    → ((a : A) → P a → Returns (f a) Q)
    → Returns (m >>= f) Q
Returns-bind P Q (done a) f h k = k a h
Returns-bind P Q blocked f h k = absurd h
Returns-bind P Q fault f h k = absurd h
Returns-bind P Q exited f h k = absurd h
Returns-bind P Q exhausted f h k = absurd h

pub Returns-mono {ℓ} :
    {A : Type ℓ} (P : A → Type 0) (Q : A → Type 0) (m : Outcome A)
    → Returns m P
    → ((a : A) → P a → Q a)
    → Returns m Q
Returns-mono P Q (done a) h k = k a h
Returns-mono P Q blocked h k = absurd h
Returns-mono P Q fault h k = absurd h
Returns-mono P Q exited h k = absurd h
Returns-mono P Q exhausted h k = absurd h

-- The result of a call that returns.
pub Returns-done {ℓ} :
    {A : Type ℓ} (P : A → Type 0) (m : Outcome A) → Returns m P → (a : A) × (m ≡ done a) × P a
Returns-done P (done a) h = (a, refl, h)
Returns-done P blocked h = absurd h
Returns-done P fault h = absurd h
Returns-done P exited h = absurd h
Returns-done P exhausted h = absurd h

-- If the call returns, its result has the property.
abbrev pub Keeps {ℓ} : {A : Type ℓ} → Outcome A → (A → Type 0) → Type 0
Keeps (done a) P = P a
Keeps blocked P = Unit
Keeps fault P = Unit
Keeps exited P = Unit
Keeps exhausted P = Unit

-- What follows any result keeps the property.
pub Keeps-then {ℓ κ} :
    {A : Type ℓ} {B : Type κ} (Q : B → Type 0) (m : Outcome A) (f : A → Outcome B)
    → ((a : A) → Keeps (f a) Q)
    → Keeps (m >>= f) Q
Keeps-then Q (done a) f k = k a
Keeps-then Q blocked f k = tt
Keeps-then Q fault f k = tt
Keeps-then Q exited f k = tt
Keeps-then Q exhausted f k = tt

pub Keeps-bind {ℓ κ} :
    {A : Type ℓ} {B : Type κ} (P : A → Type 0) (Q : B → Type 0) (m : Outcome A) (f : A → Outcome B)
    → Keeps m P
    → ((a : A) → P a → Keeps (f a) Q)
    → Keeps (m >>= f) Q
Keeps-bind P Q (done a) f h k = k a h
Keeps-bind P Q blocked f h k = tt
Keeps-bind P Q fault f h k = tt
Keeps-bind P Q exited f h k = tt
Keeps-bind P Q exhausted f h k = tt

pub Keeps-self : {A : Type 0} (m : Outcome A) → Keeps m (λ a. m ≡ done a)
Keeps-self (done a) = refl
Keeps-self blocked = tt
Keeps-self fault = tt
Keeps-self exited = tt
Keeps-self exhausted = tt

pub done_inj {ℓ} : {A : Type ℓ} {a b : A} → done a ≡ done b → a ≡ b
done_inj e = cc

pub Returns-both {ℓ} :
    {A : Type ℓ} (P Q : A → Type 0) (m : Outcome A)
    → Returns m P
    → Returns m Q
    → Returns m (λ a. P a × Q a)
Returns-both P Q (done a) h k = (h, k)
Returns-both P Q blocked h k = absurd h
Returns-both P Q fault h k = absurd h
Returns-both P Q exited h k = absurd h
Returns-both P Q exhausted h k = absurd h

-- The same call first, and then the same.
pub bind_same {ℓ κ μ ν} :
    {A : Type ℓ} {B : Type κ} {C : Type μ} {D : Type ν} (m : Outcome A) (f : A → Outcome B)
    (f' : A → Outcome C) (g : B → Outcome D) (g' : C → Outcome D)
    → ((a : A) → (f a >>= g) ≡ (f' a >>= g'))
    → (m >>= f >>= g) ≡ (m >>= f' >>= g')
bind_same (done a) f f' g g' e = e a
bind_same blocked f f' g g' e = refl
bind_same fault f f' g g' e = refl
bind_same exited f f' g g' e = refl
bind_same exhausted f f' g g' e = refl

pub bind_once {ℓ κ μ} :
    {A : Type ℓ} {B : Type κ} {C : Type μ} (m : Outcome A) (f : A → Outcome B) (g : B → Outcome C)
    (h : A → Outcome C)
    → ((a : A) → (f a >>= g) ≡ h a)
    → (m >>= f >>= g) ≡ (m >>= h)
bind_once (done a) f g h e = e a
bind_once blocked f g h e = refl
bind_once fault f g h e = refl
bind_once exited f g h e = refl
bind_once exhausted f g h e = refl

-- What a call that returned went through.
pub bind_done {ℓ κ} :
    {A : Type ℓ} {B : Type κ} (m : Outcome A) (f : A → Outcome B) (b : B)
    → (m >>= f) ≡ done b
    → (a : A) × (m ≡ done a) × (f a ≡ done b)
bind_done (done a) f b e = (a, refl, e)
bind_done blocked f b e = cc
bind_done fault f b e = cc
bind_done exited f b e = cc
bind_done exhausted f b e = cc

pub bind_at {ℓ κ} :
    {A : Type ℓ} {B : Type κ} (m : Outcome A) (f : A → Outcome B) (a : A) (b : B)
    → m ≡ done a
    → f a ≡ done b
    → (m >>= f) ≡ done b
bind_at m f a b e k = ap (λ x. x >>= f) e ∙ k

-- The call returns a result that has the property, or is undefined.
abbrev pub ReturnsOrFaults {ℓ} : {A : Type ℓ} → Outcome A → (A → Type 0) → Type 0
ReturnsOrFaults (done a) P = P a
ReturnsOrFaults blocked P = ⊥
ReturnsOrFaults fault P = Unit
ReturnsOrFaults exited P = ⊥
ReturnsOrFaults exhausted P = ⊥

pub ReturnsOrFaults-bind {ℓ κ} :
    {A : Type ℓ} {B : Type κ} (P : A → Type 0) (Q : B → Type 0) (m : Outcome A) (f : A → Outcome B)
    → ReturnsOrFaults m P
    → ((a : A) → P a → ReturnsOrFaults (f a) Q)
    → ReturnsOrFaults (m >>= f) Q
ReturnsOrFaults-bind P Q (done a) f h k = k a h
ReturnsOrFaults-bind P Q blocked f h k = absurd h
ReturnsOrFaults-bind P Q fault f h k = tt
ReturnsOrFaults-bind P Q exited f h k = absurd h
ReturnsOrFaults-bind P Q exhausted f h k = absurd h

-- A call before one that is undefined.
pub bind_fault {ℓ κ} :
    {A : Type ℓ} {B : Type κ} (P : A → Type 0) (m : Outcome A) (f : A → Outcome B)
    → ReturnsOrFaults m P
    → ((a : A) → P a → f a ≡ fault)
    → (m >>= f) ≡ fault
bind_fault P (done a) f h k = k a h
bind_fault P blocked f h k = absurd h
bind_fault P fault f h k = refl
bind_fault P exited f h k = absurd h
bind_fault P exhausted f h k = absurd h

-- What follows two calls of which one is undefined.
pub fault_carried {ℓ κ} :
    {A : Type ℓ} {B : Type κ} (m : Outcome (Unit {0})) (n : Outcome A) (f : A → Outcome B)
    → (m >> n) ≡ fault
    → (m >>= λ _. n >>= f) ≡ fault
fault_carried (done x) n f e = ap (λ y. y >>= f) e
fault_carried blocked n f e = cc
fault_carried fault n f e = refl
fault_carried exited n f e = cc
fault_carried exhausted n f e = cc
