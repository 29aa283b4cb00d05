-- ===== src/Ring/Power.antt =====
-- Capacities that are powers of two: the mask takes a position modulo the capacity, and so it does
-- after the position has wrapped.
use Prim.Native.Nat.{◌∣◌, digits, bit_and-bitwise}
use native.Mathlib.Nat.{
  two-pow-succ, one-le-pow, mod-eq_of_lt, mod-lt, div-add-mod, mul-add-mod_self_right,
  mod-mod_of_dvd, dvd_refl, dvd-mul_right_of_dvd, pow-suc, mod-eq-sub-mod, mod-add-mod,
}
use pacsni.Prelude.{
  ℕ, zero, suc, ◌+◌, ◌-◌, ◌*◌, ◌/◌, ◌%◌, ◌^◌, ◌≤◌, ◌<◌, min, bit_and, ◌≡◌, ap, sym, ◌∙◌, arith, ltb,
  if◌then◌else◌, Bool-cases, inl, inr,
}
use pacsni.Ring.{wrap}

-- The lowest digit apart from the others.
digit_and_rest : (a m : ℕ) → 0 < m → (a / 2 % m) * 2 + a % 2 ≡ a % (m + m)
digit_and_rest a m h =
    let split = div-add-mod (a / 2) m in
    let small : a / 2 % m < m = mod-lt (a / 2) h in
    let whole : a ≡ a / 2 / m * (m + m) + ((a / 2 % m) * 2 + a % 2) = omega (arith, split) in
    let cut = mul-add-mod_self_right (a / 2 / m) (m + m) ((a / 2 % m) * 2 + a % 2) in
    sym (ap (λ t. t % (m + m)) whole ∙ cut ∙ mod-eq_of_lt (omega arith))

pow_pos : (k : ℕ) → 0 < 2 ^ k
pow_pos k = one-le-pow k 2 (omega arith)

mask_digits : (k n a : ℕ) → a ≤ n → digits (λ b. zero) min n a (2 ^ k - 1) ≡ a % 2 ^ k
mask_digits k zero zero h = omega (arith, mod-eq_of_lt (pow_pos k))
mask_digits k zero (suc a) h = absurd (omega arith)
mask_digits k (suc n) zero h = omega (arith, mod-eq_of_lt (pow_pos k))
mask_digits zero (suc n) (suc a) h = omega (arith, mask_digits 0 n (suc a / 2) (omega arith))
mask_digits (suc k) (suc n) (suc a) h =
    let double = two-pow-succ k in
    let half : (2 ^ suc k - 1) / 2 ≡ 2 ^ k - 1 = omega (arith, double, pow_pos k) in
    let odd : (2 ^ suc k - 1) % 2 ≡ 1 = omega (arith, double, pow_pos k) in
    rw (half, odd, double)
      (omega (
        arith,
        mask_digits k n (suc a / 2) (omega arith),
        digit_and_rest (suc a) (2 ^ k) (pow_pos k),
      ))

-- `pos & capacity_mask_` is the position modulo the capacity.
pub bit_and_mask : (k a : ℕ) → bit_and a (2 ^ k - 1) ≡ a % 2 ^ k
bit_and_mask k a = rw bit_and-bitwise (mask_digits k a a (omega arith))

pow_dvd : (d k : ℕ) → 2 ^ k ∣ 2 ^ (d + k)
pow_dvd zero k = let e : 0 + k ≡ k = omega arith in rw e (dvd_refl (2 ^ k))
pow_dvd (suc d) k =
    let e : suc d + k ≡ suc (d + k) = omega arith in
    rw (e, pow-suc) (dvd-mul_right_of_dvd (2 ^ k) (pow_dvd d k) 2)

-- A position that has wrapped is the same modulo the capacity.
pub wrap_mod : (k a : ℕ) → k ≤ 64 → wrap a % 2 ^ k ≡ a % 2 ^ k
wrap_mod k a h =
    mod-mod_of_dvd (2 ^ k) a (let e : 64 - k + k ≡ 64 = omega arith in rw e at (pow_dvd (64 - k) k))

-- Where a position goes round.
pub mod_cases :
    (h i c : ℕ) → i < c → (h + i) % c ≡ (if ltb (h % c + i) c then h % c + i else h % c + i - c)
mod_cases h i c lt =
    let small : h % c < c = mod-lt h (omega arith) in
    let inside = mod-add-mod h c i in
    elim (Bool-cases (ltb (h % c + i) c)) [
      | inl fits ↦ rw fits (sym inside ∙ mod-eq_of_lt (ground arith))
      | inr over ↦
          rw over (sym inside ∙ mod-eq-sub-mod (ground arith) ∙ mod-eq_of_lt (ground arith))
    ]

-- Fewer than `c` steps round do not come back.
pub mod_injective : (h i j c : ℕ) → i < c → j < c → (h + i) % c ≡ (h + j) % c → i ≡ j
mod_injective h i j c hi hj e =
    let small : h % c < c = mod-lt h (omega arith) in
    ground (arith, mod_cases h i c hi, mod_cases h j c hj)
