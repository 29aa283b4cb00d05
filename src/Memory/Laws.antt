-- ===== src/Memory/Laws.antt =====
-- What the accesses give inside of the array, and outside of it.
use pacsni.Prelude.{
  ℕ, zero, suc, ◌+◌, ◌-◌, ◌*◌, ◌≤◌, ◌<◌, ◌≡◌, ◌∙◌, ap, inl, inr, Bool-cases, ltb, arith, [], ◌∷◌,
  ◌++◌, length, set, take, drop, length-append, get_or-append, length-take, length-drop,
  drop-eq-nil, append-nil, append_assoc, ◌⊎◌, ◌↔◌, true, get_elem?-eq-get_or, get_elem?-eq-none,
  lt→ltb, le→leb, lt→leb, ret, fault, Ensures, Ends, Ends-bind,
}
use native.Mathlib.Decide.{dec_lt}
use pacsni.Memory.{
  Bytes, AllBytes, byte, rd, be16, be32, wr, splice, write_at, slice, read_at, memcpy, agree,
  memcmp, snprintf,
}

pub rd-eq-ret : (p : Bytes) (i : ℕ) → i < length p → rd p i ≡ ret (byte p i)
unfolding rd
rd-eq-ret p i h = rw (get_elem?-eq-get_or p i 0 h)

pub rd-eq-fault : (p : Bytes) (i : ℕ) → length p ≤ i → rd p i ≡ fault
unfolding rd
rd-eq-fault p i h = rw (get_elem?-eq-none p i h)

-- The two bytes at an index, the first one the more significant.
unfoldable pub word16 : Bytes → ℕ → ℕ
word16 p i = byte p i * 256 + byte p (i + 1)

unfoldable pub word32 : Bytes → ℕ → ℕ
word32 p i = word16 p i * 65536 + word16 p (i + 2)

pub be16-eq-ret : (p : Bytes) (i : ℕ) → i + 2 ≤ length p → be16 p i ≡ ret (word16 p i)
unfolding be16 word16
be16-eq-ret p i h = rw (rd-eq-ret p i (omega arith), rd-eq-ret p (i + 1) (omega arith))

pub be32-eq-ret : (p : Bytes) (i : ℕ) → i + 4 ≤ length p → be32 p i ≡ ret (word32 p i)
unfolding be32 word32
be32-eq-ret p i h = rw (be16-eq-ret p i (omega arith), be16-eq-ret p (i + 2) (omega arith))

pub be16-eq-fault : (p : Bytes) (i : ℕ) → length p ≤ i + 1 → be16 p i ≡ fault
unfolding be16
be16-eq-fault p i h = elim (Bool-cases (ltb i (length p))) [
  | inl inside ↦ rw (rd-eq-ret p i (ground arith), rd-eq-fault p (i + 1) h)
  | inr outside ↦ rw (rd-eq-fault p i (ground arith))
]

-- A read that returns is inside of the array.
pub rd_bound : (p : Bytes) (i : ℕ) {v : ℕ} → rd p i ≡ ret v → i < length p
rd_bound p i h = elim (dec_lt i (length p)) [
  | yes inside ↦ inside
  | no outside ↦ cc (rd-eq-fault p i (omega arith))
]

pub be16_bound : (p : Bytes) (i : ℕ) {v : ℕ} → be16 p i ≡ ret v → i + 2 ≤ length p
be16_bound p i h = elim (dec_lt (i + 1) (length p)) [
  | yes inside ↦ omega arith
  | no outside ↦ cc (be16-eq-fault p i (omega arith))
]

pub wr-eq-ret : (d : Bytes) (i v : ℕ) → i < length d → wr d i v ≡ ret (set d i v)
unfolding wr
wr-eq-ret d i v h = rw (lt→ltb i (length d) h)

pub length-splice :
    (d : Bytes) (j : ℕ) (xs : Bytes) → j + length xs ≤ length d → length (splice d j xs) ≡ length d
unfolding splice
length-splice d j xs h = omega (
  arith,
  length-append (take j d) (xs ++ drop (j + length xs) d),
  length-append xs (drop (j + length xs) d),
  length-take j d,
  length-drop (j + length xs) d,
)

-- Bytes that go up to the end of the array.
pub splice_end :
    (d : Bytes) (j : ℕ) (xs : Bytes) → j + length xs ≡ length d → splice d j xs ≡ take j d ++ xs
unfolding splice
splice_end d j xs h = rw (drop-eq-nil (j + length xs) d (omega arith), append-nil xs)

pub write_at-eq-ret :
    (d : Bytes) (j : ℕ) (xs : Bytes)
    → j + length xs ≤ length d
    → write_at d j xs ≡ ret (splice d j xs)
unfolding write_at
write_at-eq-ret d j xs h = rw (le→leb (j + length xs) (length d) h)

pub read_at-eq-ret : (p : Bytes) (i n : ℕ) → i + n ≤ length p → read_at p i n ≡ ret (slice p i n)
unfolding read_at
read_at-eq-ret p i n h = rw (le→leb (i + n) (length p) h)

pub length-slice : (p : Bytes) (i n : ℕ) → i + n ≤ length p → length (slice p i n) ≡ n
unfolding slice
length-slice p i n h = omega (arith, length-take n (drop i p), length-drop i p)

pub memcpy-eq-ret :
    (d : Bytes) (j : ℕ) (s : Bytes) (i n : ℕ)
    → i + n ≤ length s
    → j + n ≤ length d
    → memcpy d j s i n ≡ ret (splice d j (slice s i n))
unfolding memcpy
memcpy-eq-ret d j s i n hs hd =
    rw (read_at-eq-ret s i n hs) (write_at-eq-ret d j _ (omega (arith, length-slice s i n hs)))

-- A copy that is longer than what can be read.
pub memcpy-eq-fault :
    (d : Bytes) (j : ℕ) (s : Bytes) (i n : ℕ) → length s < i + n → memcpy d j s i n ≡ fault
unfolding memcpy read_at
memcpy-eq-fault d j s i n h = rw (lt→leb (i + n) (length s) h)

pub length-memcpy :
    (d : Bytes) (j : ℕ) (s : Bytes) (i n : ℕ)
    → i + n ≤ length s
    → j + n ≤ length d
    → length (splice d j (slice s i n)) ≡ length d
length-memcpy d j s i n hs hd = length-splice d j _ (omega (arith, length-slice s i n hs))

pub memcmp-eq-ret :
    (p : Bytes) (i : ℕ) (s : Bytes)
    → i + length s ≤ length p
    → memcmp p i s ≡ ret (agree (slice p i (length s)) s)
unfolding memcmp
memcmp-eq-ret p i s h = rw (read_at-eq-ret p i (length s) h)

-- What `snprintf` leaves in the array: the text cut to fit, and NUL.
unfoldable pub printed : ℕ → Bytes → Bytes
printed m text = take (m - 1) text ++ 0 ∷ []

pub length-printed : (m : ℕ) (text : Bytes) → 0 < m → length (printed m text) ≤ m
unfolding printed
length-printed m text h =
    omega (arith, length-append (take (m - 1) text) (0 ∷ []), length-take (m - 1) text)

pub length-printed_pos : (m : ℕ) (text : Bytes) → 0 < length (printed m text)
unfolding printed
length-printed_pos m text = omega (arith, length-append (take (m - 1) text) (0 ∷ []))

pub snprintf-eq-ret :
    (d : Bytes) (j m : ℕ) (text : Bytes)
    → 0 < m
    → j + m ≤ length d
    → snprintf d j m text ≡ ret (splice d j (printed m text))
unfolding snprintf printed
snprintf-eq-ret d j zero text p h = absurd (omega arith)
snprintf-eq-ret d j (suc m) text p h =
    let e : suc m - 1 ≡ m = omega arith in
    rw e (
      write_at-eq-ret d j _
        (omega (arith, length-append (take m text) (0 ∷ []), length-take m text)))

pub AllBytes-drop : (i : ℕ) (p : Bytes) → AllBytes p → AllBytes (drop i p)
AllBytes-drop zero p h = h
AllBytes-drop (suc i) [] h = h
AllBytes-drop (suc i) (x ∷ p) (b, h) = AllBytes-drop i p h

pub byte-lt : (p : Bytes) (i : ℕ) → AllBytes p → byte p i < 256
byte-lt [] i h = omega arith
byte-lt (x ∷ xs) zero h = h.0
byte-lt (x ∷ xs) (suc i) h = byte-lt xs i h.1

pub word16-lt : (p : Bytes) (i : ℕ) → AllBytes p → word16 p i < 65536
unfolding word16
word16-lt p i h = omega (arith, byte-lt p i h, byte-lt p (i + 1) h)

-- Every access ends.
pub rd-Ends : (p : Bytes) (i : ℕ) → Ends (rd p i)
unfolding rd
rd-Ends p i = ground arith

pub be16-Ends : (p : Bytes) (i : ℕ) → Ends (be16 p i)
unfolding be16
be16-Ends p i = ground arith

pub be32-Ends : (p : Bytes) (i : ℕ) → Ends (be32 p i)
unfolding be32
be32-Ends p i =
    Ends-bind (be16 p i) _ (be16-Ends p i)
      (λ a _. Ends-bind (be16 p (i + 2)) _ (be16-Ends p (i + 2)) (λ b _. tt))

-- Reads behind a prefix, where the index is known by an equation.
module _ (pre suf : Bytes) (at : ℕ) where
  pub byte-behind : (i : ℕ) → at ≡ length pre + i → byte (pre ++ suf) at ≡ byte suf i
  byte-behind i e = rw e (get_or-append pre suf i 0)

  pub rd-behind :
      (i : ℕ) → at ≡ length pre + i → i < length suf → rd (pre ++ suf) at ≡ ret (byte suf i)
  rd-behind i e h =
      rd-eq-ret (pre ++ suf) at (omega (arith, length-append pre suf)) ∙ ap ret (byte-behind i e)

pub be16-behind :
    (pre suf : Bytes) (at i : ℕ)
    → at ≡ length pre + i
    → i + 2 ≤ length suf
    → be16 (pre ++ suf) at ≡ ret (word16 suf i)
unfolding word16
be16-behind pre suf at i e h =
    be16-eq-ret (pre ++ suf) at (omega (arith, length-append pre suf))
    ∙ ap ret (
        omega
          (arith, byte-behind pre suf at i e, byte-behind pre suf (at + 1) (i + 1) (omega arith)))

pub be32-behind :
    (pre suf : Bytes) (at i : ℕ)
    → at ≡ length pre + i
    → i + 4 ≤ length suf
    → be32 (pre ++ suf) at ≡ ret (word32 suf i)
unfolding be32 word32
be32-behind pre suf at i e h = rw (
  be16-behind pre suf at i e (omega arith),
  be16-behind pre suf (at + 2) (i + 2) (omega arith) (omega arith),
)

-- A buffer of the same size with a NUL among its first `m` bytes.
abbrev pub Ended : Bytes → ℕ → Bytes → Type 0
Ended d m r = (length r ≡ length d) × ((j : ℕ) × (j < m) × (byte r j ≡ 0))

-- A buffer of the same size that is `d` itself, or has a NUL among its first `m` bytes.
abbrev pub Named : Bytes → ℕ → Bytes → Type 0
Named d m r = (length r ≡ length d) × ((r ≡ d) ⊎ ((j : ℕ) × (j < m) × (byte r j ≡ 0)))

-- The byte behind the text is NUL.
splice-printed :
    (d : Bytes) (m : ℕ) (text : Bytes)
    → byte (splice d 0 (printed m text)) (length (take (m - 1) text)) ≡ 0
unfolding splice printed
splice-printed d m text =
    let cut = take (m - 1) text in
    let rest = drop (0 + length (cut ++ 0 ∷ [])) d in
    let here : length cut ≡ length cut + 0 = omega arith in
    rw (append_assoc cut (0 ∷ []) rest)
      (ap (byte (cut ++ (0 ∷ rest))) here ∙ get_or-append cut (0 ∷ rest) 0 0)

-- `snprintf` into a buffer of at least `m` bytes, `m` one or more.
pub snprintf-Ended :
    (d : Bytes) (m : ℕ) (text : Bytes)
    → 0 < m
    → m ≤ length d
    → Ended d m (splice d 0 (printed m text))
snprintf-Ended d m text room fits = (
  length-splice d 0 (printed m text) (omega (arith, length-printed m text room)),
  (length (take (m - 1) text), omega (arith, length-take (m - 1) text), splice-printed d m text),
)

pub snprintf-Ensures :
    (d : Bytes) (m : ℕ) (text : Bytes)
    → 0 < m
    → m ≤ length d
    → Ensures (snprintf d 0 m text) (Ended d m)
snprintf-Ensures d m text room fits =
    rw (snprintf-eq-ret d 0 m text room (omega arith)) (snprintf-Ended d m text room fits)

-- The comparison says yes for an array and itself only.
pub agree_iff : (s t : Bytes) → (agree s t ≡ true) ↔ (s ≡ t)
unfolding agree
agree_iff [] [] = ground arith
agree_iff [] (b ∷ t) = ground arith
agree_iff (a ∷ s) [] = ground arith
agree_iff (a ∷ s) (b ∷ t) = let same_tail = agree_iff s t in ground (arith, same_tail)
