-- ===== src/Capture/Returns/Steps.antt =====
-- Code that returns, and how that is shown for a chain of parts.
use pacsni.Prelude.{
  ℕ, zero, suc, ◌+◌, ◌≤◌, ◌<◌, ◌≡◌, ◌==◌, arith, Bool, true, false, Bool-cases, inl, inr,
  if◌then◌else◌, [], ◌∷◌, length, Exec, ret, fault, diverge, ◌>>=◌, Ensures, Ensures-bind,
  Ensures-mono, Gives,
}
use pacsni.Memory.{Bytes, byte, rd, be16, memcpy, memcmp, strlen, c_string, c_prefix, snprintf}
use pacsni.Memory.Laws.{rd-eq-ret, be16-eq-ret, memcpy-eq-ret, memcmp-eq-ret, snprintf-eq-ret}

abbrev pub Returns {ℓ} : {A : Type ℓ} → Exec A → Type 0
Returns m = Ensures m (λ _. Unit {0})

pub Returns-ret {ℓ} : {A : Type ℓ} {a : A} (m : Exec A) → m ≡ ret a → Returns m
Returns-ret m e = rw e tt

pub Returns-Ensures {ℓ} : {A : Type ℓ} (P : A → Type 0) (m : Exec A) → Ensures m P → Returns m
Returns-Ensures P m h = Ensures-mono P (λ _. Unit {0}) m h (λ a _. tt)

-- What the code gives if it returns, where it returns.
pub with_result {ℓ} :
    {A : Type ℓ} (P : A → Type 0) (m : Exec A) → Returns m → Gives m P → Ensures m P
with_result P (ret a) r g = g
with_result P fault r g = elim r [ ]
with_result P diverge r g = elim r [ ]

pub Returns-bind {ℓ} :
    {A B : Type ℓ} (m : Exec A) (f : A → Exec B)
    → Returns m
    → ((a : A) → Returns (f a))
    → Returns (m >>= f)
Returns-bind m f h k = Ensures-bind (λ _. Unit {0}) (λ _. Unit {0}) m f h (λ a _. k a)

-- The code behind a part that returns, with what the part gives.
pub Returns-then {ℓ} :
    {A B : Type ℓ} (P : A → Type 0) (m : Exec A) (f : A → Exec B)
    → Returns m
    → Gives m P
    → ((a : A) → P a → Returns (f a))
    → Returns (m >>= f)
Returns-then P m f r g k = Ensures-bind P (λ _. Unit {0}) m f (with_result P m r g) k

-- Both branches of a test, each with the answer.
module _ {ℓ} {A : Type ℓ} (b : Bool) (m n : Exec A) where
  pub choose : (b ≡ true → Returns m) → (b ≡ false → Returns n) → Returns (if b then m else n)
  choose h k = elim (Bool-cases b) [ inl t ↦ rw t (h t) | inr f ↦ rw f (k f) ]

  pub choose_elim :
      (b ≡ true → Returns m) → (b ≡ false → Returns n) → Returns (elim b [ true ↦ m | false ↦ n ])
  choose_elim h k = elim (Bool-cases b) [ inl t ↦ rw t (h t) | inr f ↦ rw f (k f) ]

-- The code behind a read inside of the array.
module _ {A : Type 0} (p : Bytes) (i : ℕ) where
  pub rd-Returns :
      (f : ℕ → Exec A) → i < length p → ((v : ℕ) → Returns (f v)) → Returns (rd p i >>= f)
  rd-Returns f h k = Returns-bind (rd p i) f (Returns-ret (rd p i) (rd-eq-ret p i h)) k

  pub be16-Returns :
      (f : ℕ → Exec A) → i + 2 ≤ length p → ((v : ℕ) → Returns (f v)) → Returns (be16 p i >>= f)
  be16-Returns f h k = Returns-bind (be16 p i) f (Returns-ret (be16 p i) (be16-eq-ret p i h)) k

pub memcpy-Returns :
    (d : Bytes) (j : ℕ) (s : Bytes) (i n : ℕ)
    → i + n ≤ length s
    → j + n ≤ length d
    → Returns (memcpy d j s i n)
memcpy-Returns d j s i n hs hd = Returns-ret (memcpy d j s i n) (memcpy-eq-ret d j s i n hs hd)

pub memcmp-Returns :
    (p : Bytes) (i : ℕ) (s : Bytes) → i + length s ≤ length p → Returns (memcmp p i s)
memcmp-Returns p i s h = Returns-ret (memcmp p i s) (memcmp-eq-ret p i s h)

pub snprintf-Returns :
    (d : Bytes) (j m : ℕ) (text : Bytes) → j + m ≤ length d → Returns (snprintf d j m text)
unfolding snprintf
snprintf-Returns d j zero text h = tt
snprintf-Returns d j (suc m) text h =
    Returns-ret (snprintf d j (suc m) text) (snprintf-eq-ret d j (suc m) text (omega arith) h)

pub strlen-Ensures :
    (d : Bytes) (j : ℕ) → j < length d → byte d j ≡ 0 → Ensures (strlen d) (λ n. n ≤ j)
unfolding strlen
strlen-Ensures [] j h z = absurd (omega arith)
strlen-Ensures (x ∷ d) zero h z = rw z (omega arith)
strlen-Ensures (x ∷ d) (suc j) h z = elim (Bool-cases (x == 0)) [
  | inl end ↦ rw end (omega arith)
  | inr more ↦ rw more (
      Ensures-bind (λ n. n ≤ j) (λ n. n ≤ suc j) (strlen d) _ (strlen-Ensures d j (omega arith) z)
        (λ n b. omega arith))
]

pub c_string-Returns : (d : Bytes) (j : ℕ) → j < length d → byte d j ≡ 0 → Returns (c_string d)
unfolding c_string
c_string-Returns d j h z =
    Returns-bind (strlen d) _ (Returns-Ensures (λ n. n ≤ j) (strlen d) (strlen-Ensures d j h z))
      (λ n. tt)

pub c_prefix-Returns : (n : ℕ) (p : Bytes) → n ≤ length p → Returns (c_prefix n p)
unfolding c_prefix
c_prefix-Returns zero p h = tt
c_prefix-Returns (suc n) [] h = absurd (omega arith)
c_prefix-Returns (suc n) (x ∷ p) h = elim (Bool-cases (x == 0)) [
  | inl end ↦ rw end tt
  | inr more ↦
      rw more (Returns-bind (c_prefix n p) _ (c_prefix-Returns n p (omega arith)) (λ t. tt))
]

pub Gives-both {ℓ} :
    {A : Type ℓ} (P Q : A → Type 0) (m : Exec A) → Gives m P → Gives m Q → Gives m (λ a. P a × Q a)
Gives-both P Q (ret a) g h = (g, h)
Gives-both P Q fault g h = tt
Gives-both P Q diverge g h = tt

pub Ensures-with {ℓ} :
    {A : Type ℓ} (P Q : A → Type 0) (m : Exec A)
    → Ensures m P
    → Gives m Q
    → Ensures m (λ a. P a × Q a)
Ensures-with P Q (ret a) h g = (h, g)
Ensures-with P Q fault h g = elim h [ ]
Ensures-with P Q diverge h g = elim h [ ]
