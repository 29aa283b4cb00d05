-- ===== src/Ring/Threads/Window.antt =====
-- Places of positions: positions that are fewer than 2 ^ k apart have different places.
use pacsni.Prelude.{ℕ, ◌+◌, ◌-◌, ◌%◌, ◌^◌, ◌≤◌, ◌<◌, ◌≡◌, ◌∙◌, sym, ap, arith}
use native.Mathlib.Nat.{add-mod_right, mod-lt, mod-eq_of_lt, one-le-pow}
use pacsni.Ring.Power.{bit_and_mask, mod_injective}
use pacsni.Ring.Threads.{place}

pub place-add : (k p : ℕ) → place k (p + 2 ^ k) ≡ place k p
unfolding place
place-add k p = bit_and_mask k (p + 2 ^ k) ∙ add-mod_right p (2 ^ k) ∙ sym (bit_and_mask k p)

pub place_injective : (k p q : ℕ) → p ≤ q → q < p + 2 ^ k → place k p ≡ place k q → p ≡ q
unfolding place
place_injective k p q le lt e =
    let whole : p + (q - p) ≡ q = omega arith in
    let zero_apart : p + 0 ≡ p = omega arith in
    omega (
      arith,
      mod_injective p 0 (q - p) (2 ^ k) (omega arith) (omega arith) (
          ap (λ a. a % 2 ^ k) zero_apart
          ∙ sym (bit_and_mask k p)
          ∙ e
          ∙ bit_and_mask k q
          ∙ ap (λ a. a % 2 ^ k) (sym whole)),
    )

pub place-lt : (k p : ℕ) → place k p < 2 ^ k
unfolding place
place-lt k p = rw (bit_and_mask k p) (mod-lt p (one-le-pow k 2 (omega arith)))

pub place-eq_self : (k p : ℕ) → p < 2 ^ k → place k p ≡ p
unfolding place
place-eq_self k p h = bit_and_mask k p ∙ mod-eq_of_lt h
