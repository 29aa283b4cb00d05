-- ===== src/Capture/Ranges/Accesses.antt =====
-- What the accesses give: a byte, a word, an array of the same size.
use pacsni.Prelude.{
  ℕ, zero, suc, ◌+◌, ◌^◌, ◌<◌, ◌≡◌, refl, Bool, true, false, Bool-cases, if◌then◌else◌, length-set,
  inl, inr, arith, leb, length, Gives, Gives-bind, Gives-then, ◌>>=◌, Exec,
}
use native.Mathlib.Decide.{dec_lt}
use pacsni.Memory.{Bytes, AllBytes, rd, be16, be32, wr, write_at, read_at, memcpy, snprintf}
use pacsni.Memory.Laws.{rd-eq-ret, rd-eq-fault, byte-lt, length-splice}

pub rd-Gives : (p : Bytes) (i : ℕ) → AllBytes p → Gives (rd p i) (λ v. v < 256)
rd-Gives p i h = elim (dec_lt i (length p)) [
  | yes inside ↦ rw (rd-eq-ret p i inside) (byte-lt p i h)
  | no outside ↦ rw (rd-eq-fault p i (omega arith)) tt
]

pub be16-Gives : (p : Bytes) (i : ℕ) → AllBytes p → Gives (be16 p i) (λ v. v < 2 ^ 16)
unfolding be16
be16-Gives p i h =
    Gives-then (λ v. v < 256) (λ v. v < 2 ^ 16) (rd p i) _ (rd-Gives p i h)
      (λ a ha.
        Gives-then (λ v. v < 256) (λ v. v < 2 ^ 16) (rd p (i + 1)) _ (rd-Gives p (i + 1) h)
          (λ b hb. omega arith))

pub be32-Gives : (p : Bytes) (i : ℕ) → AllBytes p → Gives (be32 p i) (λ v. v < 2 ^ 32)
unfolding be32
be32-Gives p i h =
    Gives-then (λ v. v < 2 ^ 16) (λ v. v < 2 ^ 32) (be16 p i) _ (be16-Gives p i h)
      (λ a ha.
        Gives-then (λ v. v < 2 ^ 16) (λ v. v < 2 ^ 32) (be16 p (i + 2)) _ (be16-Gives p (i + 2) h)
          (λ b hb. omega arith))

-- An array of the same size.
abbrev pub SameSize : Bytes → Bytes → Type 0
SameSize d r = length r ≡ length d

pub write_at-SameSize : (d : Bytes) (j : ℕ) (xs : Bytes) → Gives (write_at d j xs) (SameSize d)
unfolding write_at
write_at-SameSize d j xs = elim (Bool-cases (leb (j + length xs) (length d))) [
  | inl inside ↦ rw inside (length-splice d j xs (ground arith))
  | inr outside ↦ rw outside tt
]

pub memcpy-SameSize :
    (d : Bytes) (j : ℕ) (s : Bytes) (i n : ℕ) → Gives (memcpy d j s i n) (SameSize d)
unfolding memcpy
memcpy-SameSize d j s i n =
    Gives-bind (SameSize d) (read_at s i n) _ (λ xs _. write_at-SameSize d j xs)

pub snprintf-SameSize :
    (d : Bytes) (j m : ℕ) (text : Bytes) → Gives (snprintf d j m text) (SameSize d)
unfolding snprintf
snprintf-SameSize d j zero text = refl
snprintf-SameSize d j (suc m) text = write_at-SameSize d j _

pub wr-SameSize : (d : Bytes) (i v : ℕ) → Gives (wr d i v) (SameSize d)
unfolding wr
wr-SameSize d i v = ground (arith, length-set d i v)

-- Both branches of a test.
module _ {ℓ κ} {A : Type ℓ} (P : A → Type κ) where
  pub either : (b : Bool) (m n : Exec A) → Gives m P → Gives n P → Gives (if b then m else n) P
  either true m n h k = h
  either false m n h k = k

  pub split :
      (b : Bool) (m n : Exec A) → Gives m P → Gives n P → Gives (elim b [ true ↦ m | false ↦ n ]) P
  split true m n h k = h
  split false m n h k = k

-- The code behind a read.
module _ {A : Type 0} (P : A → Type 0) (p : Bytes) (i : ℕ) (all : AllBytes p) where
  pub rd-then : (f : ℕ → Exec A) → ((v : ℕ) → v < 256 → Gives (f v) P) → Gives (rd p i >>= f) P
  rd-then f k = Gives-then (λ v. v < 256) P (rd p i) f (rd-Gives p i all) k

  pub be16-then :
      (f : ℕ → Exec A) → ((v : ℕ) → v < 2 ^ 16 → Gives (f v) P) → Gives (be16 p i >>= f) P
  be16-then f k = Gives-then (λ v. v < 2 ^ 16) P (be16 p i) f (be16-Gives p i all) k

  pub be32-then :
      (f : ℕ → Exec A) → ((v : ℕ) → v < 2 ^ 32 → Gives (f v) P) → Gives (be32 p i >>= f) P
  be32-then f k = Gives-then (λ v. v < 2 ^ 32) P (be32 p i) f (be32-Gives p i all) k

-- The code behind a dissector that writes a text, or a copy.
pub sized-then :
    {A : Type 0} (P : A → Type 0) (d : Bytes) (m : Exec Bytes) (f : Bytes → Exec A)
    → Gives m (SameSize d)
    → ((r : Bytes) → SameSize d r → Gives (f r) P)
    → Gives (m >>= f) P
sized-then P d m f h k = Gives-then (SameSize d) P m f h k
