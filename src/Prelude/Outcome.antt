-- ===== src/Prelude/Outcome.antt =====
-- What a piece of C code does: it returns, it accesses memory outside of an object (undefined
-- behaviour), or it does not end within the fuel that its loop was given.
use mathlib.Core.Path.{◌≡◌, refl, ap}

pub data Exec {ℓ} (A : Type ℓ) : Type ℓ where
  ret : A → Exec A
  fault : Exec A
  diverge : Exec A

infixl 5 ◌>>=◌
abbrev pub ◌>>=◌ {ℓ κ} : {A : Type ℓ} {B : Type κ} → Exec A → (A → Exec B) → Exec B
ret a >>= f = f a
fault >>= f = fault
diverge >>= f = diverge

-- No values, at any level.
pub data Never {κ} : Type κ where

-- The code returns, and what it returns satisfies `P`.
abbrev pub Ensures {ℓ κ} : {A : Type ℓ} → Exec A → (A → Type κ) → Type κ
Ensures (ret a) P = P a
Ensures fault P = Never
Ensures diverge P = Never

-- A bind that returns is made of two parts that return.
pub bind-eq-ret {ℓ κ} :
    {A : Type ℓ} {B : Type κ} (m : Exec A) (f : A → Exec B) {b : B}
    → (m >>= f) ≡ ret b
    → (a : A) × (m ≡ ret a) × (f a ≡ ret b)
bind-eq-ret (ret a) f h = (a, refl, h)
bind-eq-ret fault f h = cc
bind-eq-ret diverge f h = cc

pub Ensures-bind {ℓ κ} :
    {A B : Type ℓ} (Q : A → Type κ) (P : B → Type κ) (m : Exec A) (f : A → Exec B)
    → Ensures m Q
    → ((a : A) → Q a → Ensures (f a) P)
    → Ensures (m >>= f) P
Ensures-bind Q P (ret a) f h k = k a h
Ensures-bind Q P fault f h k = elim h [ ]
Ensures-bind Q P diverge f h k = elim h [ ]

-- Code that ends, with a value or by a fault.
abbrev pub Ends {ℓ} : {A : Type ℓ} → Exec A → Type 0
Ends (ret a) = Unit
Ends fault = Unit
Ends diverge = ⊥

pub Ends-bind {ℓ κ} :
    {A : Type ℓ} {B : Type κ} (m : Exec A) (f : A → Exec B)
    → Ends m
    → ((a : A) → m ≡ ret a → Ends (f a))
    → Ends (m >>= f)
Ends-bind (ret a) f h k = k a refl
Ends-bind fault f h k = tt
Ends-bind diverge f h k = elim h [ ]

pub Ensures-mono {ℓ κ} :
    {A : Type ℓ} (Q P : A → Type κ) (m : Exec A) → Ensures m Q → ((a : A) → Q a → P a) → Ensures m P
Ensures-mono Q P (ret a) h k = k a h
Ensures-mono Q P fault h k = elim h [ ]
Ensures-mono Q P diverge h k = elim h [ ]

-- If the code returns, what it returns satisfies `P`.
abbrev pub Gives {ℓ κ} : {A : Type ℓ} → Exec A → (A → Type κ) → Type κ
Gives (ret a) P = P a
Gives fault P = Unit
Gives diverge P = Unit

pub Gives-bind {ℓ κ} :
    {A B : Type ℓ} (P : B → Type κ) (m : Exec A) (f : A → Exec B)
    → ((a : A) → m ≡ ret a → Gives (f a) P)
    → Gives (m >>= f) P
Gives-bind P (ret a) f k = k a refl
Gives-bind P fault f k = tt
Gives-bind P diverge f k = tt

-- What a part gives, for the part behind it.
pub Gives-then {ℓ κ} :
    {A B : Type ℓ} (Q : A → Type κ) (P : B → Type κ) (m : Exec A) (f : A → Exec B)
    → Gives m Q
    → ((a : A) → Q a → Gives (f a) P)
    → Gives (m >>= f) P
Gives-then Q P (ret a) f h k = k a h
Gives-then Q P fault f h k = tt
Gives-then Q P diverge f h k = tt

pub Gives-ret {ℓ κ} :
    {A : Type ℓ} (P : A → Type κ) (m : Exec A) {a : A} → m ≡ ret a → Gives m P → P a
Gives-ret P m {a} e h = rw e at h

pub Gives-mono {ℓ κ} :
    {A : Type ℓ} (Q P : A → Type κ) (m : Exec A) → Gives m Q → ((a : A) → Q a → P a) → Gives m P
Gives-mono Q P (ret a) h k = k a h
Gives-mono Q P fault h k = tt
Gives-mono Q P diverge h k = tt

-- Code that ensures one value returns it.
pub Ensures-ret {ℓ} : {A : Type ℓ} {b : A} (m : Exec A) → Ensures m (λ a. a ≡ b) → m ≡ ret b
Ensures-ret (ret a) h = ap ret h
Ensures-ret fault h = elim h [ ]
Ensures-ret diverge h = elim h [ ]

pub Ensures-get {ℓ κ} :
    {A : Type ℓ} (P : A → Type κ) (m : Exec A) → Ensures m P → (a : A) × (m ≡ ret a) × P a
Ensures-get P (ret a) h = (a, refl, h)
Ensures-get P fault h = elim h [ ]
Ensures-get P diverge h = elim h [ ]
