-- ===== src/Prelude/Pair.antt =====
-- Two pieces of code that run side by side.
use Prim.Native.Nat.{ℕ, zero, suc, ◌<◌}
use native.Mathlib.Omega.{arith}
use pacsni.Prelude.Outcome.{Exec, ret, diverge, fault, ◌>>=◌, Never, Ensures}
use pacsni.Prelude.Loop.{Next, again, done, follow, iterate}

-- Both return, and what they return is related.
abbrev pub Both {ℓ κ} : {A B : Type ℓ} → (A → B → Type κ) → Exec A → Exec B → Type κ
Both R m n = Ensures m (λ a. Ensures n (R a))

pub Both-bind {ℓ κ} :
    {A B C D : Type ℓ} (R : A → B → Type κ) (Q : C → D → Type κ) (m : Exec A) (n : Exec B)
    (f : A → Exec C) (g : B → Exec D)
    → Both R m n
    → ((a : A) (b : B) → R a b → Both Q (f a) (g b))
    → Both Q (m >>= f) (n >>= g)
Both-bind R Q (ret a) (ret b) f g h k = k a b h
Both-bind R Q (ret a) fault f g h k = elim h [ ]
Both-bind R Q (ret a) diverge f g h k = elim h [ ]
Both-bind R Q fault n f g h k = elim h [ ]
Both-bind R Q diverge n f g h k = elim h [ ]

-- Two rounds that go on together, at a smaller measure, or end together.
abbrev pub InStep {ℓ κ} :
    {S T A B : Type ℓ}
    → (S → T → Type κ)
    → (A → B → Type κ)
    → (S → ℕ)
    → ℕ
    → Next S A
    → Next T B
    → Type κ
InStep R Q measure n (again s) (again t) = R s t × (measure s < n)
InStep R Q measure n (done a) (done b) = Q a b
InStep R Q measure n _ _ = Never

follow-Both {ℓ κ} :
    {S T A B : Type ℓ} (R : S → T → Type κ) (Q : A → B → Type κ) (measure : S → ℕ) (m : ℕ)
    (one : S → Exec A) (two : T → Exec B)
    → ((s : S) (t : T) → R s t → measure s < m → Both Q (one s) (two t))
    → (n : Next S A) (o : Next T B) → InStep R Q measure m n o
    → Both Q (follow one n) (follow two o)
follow-Both R Q measure m one two k (again s) (again t) (h, lt) = k s t h lt
follow-Both R Q measure m one two k (done a) (done b) h = h
follow-Both R Q measure m one two k (again s) (done b) h = elim h [ ]
follow-Both R Q measure m one two k (done a) (again t) h = elim h [ ]

-- The rule for two loops that run in step.
pub iterate-Both {ℓ κ} :
    {S T A B : Type ℓ} (R : S → T → Type κ) (Q : A → B → Type κ) (measure : S → ℕ)
    (one : S → Exec (Next S A)) (two : T → Exec (Next T B))
    → ((s : S) (t : T) → R s t → Both (InStep R Q measure (measure s)) (one s) (two t))
    → (f : ℕ) (s : S) (t : T) → measure s < f
    → R s t
    → Both Q (iterate f one s) (iterate f two t)
unfolding iterate
iterate-Both R Q measure one two step zero s t m h = absurd (omega arith)
iterate-Both R Q measure one two step (suc f) s t m h =
    Both-bind (InStep R Q measure (measure s)) Q (one s) (two t) (follow (iterate f one))
      (follow (iterate f two)) (step s t h)
      (follow-Both R Q measure (measure s) (iterate f one) (iterate f two)
        (λ s' t' h' lt. iterate-Both R Q measure one two step f s' t' (omega arith) h'))
