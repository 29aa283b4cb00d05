-- ===== src/Dissect/Stats/Mode.antt =====
-- calculate_byte_stats finds a most frequent byte, and its share in percent.
use pacsni.Prelude.{
  ℕ, zero, suc, ◌+◌, ◌*◌, ◌/◌, ◌^◌, ◌≤◌, ◌<◌, ◌≡◌, ◌∙◌, refl, Bool-cases, inl, inr, ltb, ◌==◌,
  if◌then◌else◌, le→ltb, arith, [], ◌∷◌, length, take, set, replicate, length-set, get_or-set_self,
  get_or-set_ne, pos, Ensures, Ensures-bind,
}
use native.Mathlib.Decide.{ℕ_discrete}
use native.Mathlib.Nat.{div-le_of_le-mul}
use pacsni.Memory.{Bytes, AllBytes, byte, u8, u32}
use pacsni.Memory.Laws.{rd-eq-ret, wr-eq-ret, byte-lt}
use pacsni.Packet.{PacketInfo}
use pacsni.Dissect.Stats.{StatsState, count_byte, stats_loop, calculate_byte_stats}

-- How often a byte occurs.
abbrev pub count : ℕ → Bytes → ℕ
count b [] = 0
count b (x ∷ xs) = (if x == b then 1 else 0) + count b xs

count-le-length : (b : ℕ) (xs : Bytes) → count b xs ≤ length xs
count-le-length b [] = omega arith
count-le-length b (x ∷ xs) = ground (arith, count-le-length b xs)

count-take-suc :
    (b j : ℕ) (d : Bytes)
    → j < length d
    → count b (take (suc j) d) ≡ count b (take j d) + (if byte d j == b then 1 else 0)
count-take-suc b j [] h = absurd (omega arith)
count-take-suc b zero (x ∷ d) h = omega arith
count-take-suc b (suc j) (x ∷ d) h = omega (arith, count-take-suc b j d (omega arith))

count-take-le : (b j : ℕ) (d : Bytes) → count b (take j d) ≤ j
count-take-le b zero d = omega arith
count-take-le b (suc j) [] = omega arith
count-take-le b (suc j) (x ∷ d) = ground (arith, count-take-le b j d)

-- What the loop knows after `j` bytes.
record IsCounted (d : Bytes) (j : ℕ) (s : StatsState) : Type 0 where
  size : length s.counts ≡ 256
  counts_are : (b : ℕ) → b < 256 → byte s.counts b ≡ count b (take j d)
  max_is : s.max_f ≡ count s.top (take j d)
  max_ge : (b : ℕ) → count b (take j d) ≤ s.max_f

-- The counts after one more byte.
module _ (d : Bytes) (j : ℕ) (s : StatsState) (bytes : AllBytes d) (inside : j < length d)
    (small : length d < 2 ^ 25) (t : IsCounted d j s) where
  abbrev b : ℕ
  b = byte d j

  abbrev n : ℕ
  n = byte s.counts (byte d j)

  exact : u32 (n + 1) ≡ n + 1
  exact = omega (arith, t.counts_are b (byte-lt d j bytes), count-take-le b j d)

  counts_after :
      (x : ℕ) → x < 256 → byte (set s.counts b (u32 (n + 1))) x ≡ count x (take (suc j) d)
  counts_after x h = elim (ℕ_discrete b x) [
    | yes same ↦
        let here =
          get_or-set_self s.counts b (u32 (n + 1)) 0 (omega (arith, t.size, byte-lt d j bytes)) in
        rw (← same) (
          ground
            (arith, here, exact, t.counts_are b (byte-lt d j bytes), count-take-suc b j d inside))
    | no other ↦
        let there = get_or-set_ne s.counts b x (u32 (n + 1)) 0 other in
        ground (arith, there, t.counts_are x h, count-take-suc x j d inside)
  ]

  count_byte_lem : Ensures (count_byte b s) (IsCounted d (suc j))
  unfolding count_byte
  count_byte_lem =
      rw
        (
          rd-eq-ret s.counts b (omega (arith, t.size, byte-lt d j bytes)),
          wr-eq-ret s.counts b (u32 (n + 1)) (omega (arith, t.size, byte-lt d j bytes)),
        )
        (elim (Bool-cases (ltb s.max_f (u32 (n + 1)))) [
          | inl new ↦ rw new (record {
            size = length-set s.counts b _ ∙ t.size;
            counts_are = counts_after;
            max_is =
                ground
                  (arith, exact, t.counts_are b (byte-lt d j bytes), count-take-suc b j d inside);
            max_ge = λ x. ground (
              arith,
              exact,
              t.counts_are b (byte-lt d j bytes),
              t.max_ge x,
              count-take-suc x j d inside,
            );
          })
          | inr old ↦ rw old (record {
            size = length-set s.counts b _ ∙ t.size;
            counts_are = counts_after;
            max_is = ground (
              arith,
              exact,
              t.max_is,
              t.counts_are b (byte-lt d j bytes),
              count-take-suc s.top j d inside,
            );
            max_ge = λ x. ground (
              arith,
              exact,
              t.counts_are b (byte-lt d j bytes),
              t.max_ge x,
              count-take-suc x j d inside,
            );
          })
        ])

stats_loop_lem :
    (n : ℕ) (d : Bytes) (j : ℕ) (s : StatsState)
    → AllBytes d
    → j + n ≤ length d
    → length d < 2 ^ 25
    → IsCounted d j s
    → Ensures (stats_loop n d j s) (IsCounted d (j + n))
unfolding stats_loop
stats_loop_lem zero d j s bytes inside small t = let e : j + 0 ≡ j = omega arith in rw e t
stats_loop_lem (suc n) d j s bytes inside small t =
    let e : j + suc n ≡ j + 1 + n = omega arith in
    let next : suc j ≡ j + 1 = omega arith in
    rw (e, rd-eq-ret d j (omega arith))
      (Ensures-bind (IsCounted d (suc j)) (IsCounted d (j + 1 + n)) _ _
        (count_byte_lem d j s bytes (omega arith) small t)
        (λ s' t'. stats_loop_lem n d (j + 1) s' bytes (omega arith) small (rw (← next) t')))

zero_counts : (k b : ℕ) → byte (replicate k 0) b ≡ 0
zero_counts zero b = refl
zero_counts (suc k) zero = refl
zero_counts (suc k) (suc b) = zero_counts k b

-- On 1 to 2 ^ 25 - 1 bytes that are inside of the array, calculate_byte_stats ends without a fault
-- and reports a byte that no other byte outnumbers, and its share of the bytes in percent, rounded
-- down and at most 100.
pub calculate_byte_stats-Ensures :
    (d : Bytes) (l : ℕ) (i : PacketInfo)
    → AllBytes d
    → l ≤ length d
    → length d < 2 ^ 25
    → 0 < l
    → Ensures (calculate_byte_stats d (pos l) i) (λ j.
      ((b : ℕ) → count b (take l d) ≤ count j.top_byte (take l d))
      × (j.top_byte_freq ≡ count j.top_byte (take l d) * 100 / l)
      × (j.top_byte_freq ≤ 100))
unfolding calculate_byte_stats
calculate_byte_stats-Ensures d l i bytes inside small some = rw (le→ltb l 1 some) (
    Ensures-bind (IsCounted d (0 + l)) _ _ _
      (stats_loop_lem l d 0 _ bytes (omega arith) small (record {
        size = refl;
        counts_are = λ b h. zero_counts 256 b;
        max_is = refl;
        max_ge = λ b. omega arith;
      }))
      (λ s t.
        let e : 0 + l ≡ l = omega arith in
        let all : IsCounted d l s = rw e at t in
        let c = count s.top (take l d) in
        let part : c ≤ l = count-take-le s.top l d in
        let percent : c * 100 / l ≤ 100 = div-le_of_le-mul l (omega arith) in
        let exact : u32 (s.max_f * 100) ≡ c * 100 = omega (arith, all.max_is) in
        let share : u8 (u32 (s.max_f * 100) / l) ≡ c * 100 / l = rw exact (omega arith) in
        ((λ b. omega (arith, all.max_ge b, all.max_is)), share, rw share percent)))
