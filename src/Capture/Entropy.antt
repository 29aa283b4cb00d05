-- ===== src/Capture/Entropy.antt =====
-- calculate_entropy_scaled of cpp/protocol_dissectors.cpp, over the floating-point operations that
-- it uses, which are a parameter.
use pacsni.Prelude.{
  ℕ, zero, suc, ◌+◌, List, [], ◌∷◌, replicate, ltb, if◌then◌else◌, ℤ, pos_part, ltb_int, Exec, ret,
  ◌>>=◌,
}
use pacsni.Memory.{Bytes, rd, wr}

-- `double`, with the conversions from `int` and to `uint32_t`.
pub record Floats : Type 1 where
  pub Double : Type 0
  pub of_int : ℕ → Double
  pub minus : Double → Double → Double
  pub times : Double → Double → Double
  pub over : Double → Double → Double
  pub log2 : Double → Double
  pub to_u32 : Double → ℕ

-- The first loop, `f[d[i]]++`, from `i` on with `n` rounds left.
unfoldable pub histogram : ℕ → Bytes → ℕ → List ℕ → Exec (List ℕ)
histogram zero d i f = ret f
histogram (suc n) d i f = do b ← rd d i; c ← rd f b; f' ← wr f b (c + 1); histogram n d (i + 1) f'

module _ (F : Floats) where
  open F use {Double, of_int, minus, times, over, log2, to_u32}

  -- The second loop, over the counts.
  unfoldable pub entropy_sum : ℕ → List ℕ → Double → Double
  entropy_sum l [] e = e
  entropy_sum l (n ∷ f) e = entropy_sum l f (
      if ltb 0 n
      then minus e (times (over (of_int n) (of_int l)) (log2 (over (of_int n) (of_int l))))
      else e)

  unfoldable pub calculate_entropy_scaled : Bytes → ℤ → Exec ℕ
  calculate_entropy_scaled d l = if ltb_int l 1 then ret 0 else do
    f ← histogram (pos_part l) d 0 (replicate 256 0)
    ret (to_u32 (times (entropy_sum (pos_part l) f (of_int 0)) (of_int 1000)))
