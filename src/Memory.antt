-- ===== src/Memory.antt =====
-- Memory as the C++ code sees it. An array is the list of its bytes; a pointer into an array is an
-- index, or the list of the bytes from there to the end of the array. A read or a write outside of
-- the array is `fault`. Also the functions of the C library that the code calls on memory:
-- memcpy, memcmp, strlen, snprintf (with the conversions used) and the reads by ntohs and ntohl.
pub mod Laws
use Prim.Native.Char.{code}
use Prim.Native.String.{String}
use pacsni.Prelude.{
  ℕ, zero, suc, ◌^◌, ◌*◌, ◌+◌, ◌%◌, ◌/◌, ◌-◌, ◌≤◌, ◌<◌, Bool, true, false, ◌&&◌, Option, none, some,
  List, [], ◌∷◌, ◌++◌, ltb, leb, ◌==◌, if◌then◌else◌, length, get_elem?, get_or, set, take, drop,
  Exec, ret, fault, diverge, ◌>>=◌,
}

abbrev pub Bytes : Type 0
Bytes = List ℕ

-- Every element is a byte.
abbrev pub AllBytes : Bytes → Type 0
AllBytes [] = Unit {0}
AllBytes (x ∷ xs) = (x < 256) × AllBytes xs

-- The byte at an index, 0 past the end.
abbrev pub byte : Bytes → ℕ → ℕ
byte p i = get_or p i 0

-- The conversions to unsigned types.
abbrev pub u8 : ℕ → ℕ
u8 n = n % 2 ^ 8

abbrev pub u16 : ℕ → ℕ
u16 n = n % 2 ^ 16

abbrev pub u32 : ℕ → ℕ
u32 n = n % 2 ^ 32

unfoldable pub of_option {ℓ} : {A : Type ℓ} → Option A → Exec A
of_option none = fault
of_option (some a) = ret a

-- `p[i]`
unfoldable pub rd : Bytes → ℕ → Exec ℕ
unfolding of_option
rd p i = of_option (get_elem? p i)

-- `ntohs(*(uint16_t*)(p + i))`
unfoldable pub be16 : Bytes → ℕ → Exec ℕ
unfolding rd
be16 p i = do a ← rd p i; b ← rd p (i + 1); ret (a * 256 + b)

-- `ntohl(*(uint32_t*)(p + i))`
unfoldable pub be32 : Bytes → ℕ → Exec ℕ
unfolding be16
be32 p i = do a ← be16 p i; b ← be16 p (i + 2); ret (a * 65536 + b)

-- `d[i] = v`
unfoldable pub wr : Bytes → ℕ → ℕ → Exec Bytes
wr d i v = if ltb i (length d) then ret (set d i v) else fault

-- The array `d` with the bytes `xs` from index `j` on.
unfoldable pub splice : Bytes → ℕ → Bytes → Bytes
splice d j xs = take j d ++ (xs ++ drop (j + length xs) d)

unfoldable pub write_at : Bytes → ℕ → Bytes → Exec Bytes
unfolding splice
write_at d j xs = if leb (j + length xs) (length d) then ret (splice d j xs) else fault

-- The `n` bytes of `p` from index `i` on, as many as there are.
unfoldable pub slice : Bytes → ℕ → ℕ → Bytes
slice p i n = take n (drop i p)

-- The same, where all of them must be there.
unfoldable pub read_at : Bytes → ℕ → ℕ → Exec Bytes
unfolding slice
read_at p i n = if leb (i + n) (length p) then ret (slice p i n) else fault

-- `memcpy(d + j, s + i, n)`
unfoldable pub memcpy : Bytes → ℕ → Bytes → ℕ → ℕ → Exec Bytes
unfolding read_at write_at
memcpy d j s i n = do xs ← read_at s i n; write_at d j xs

-- Two arrays of the same length and bytes.
unfoldable pub agree : Bytes → Bytes → Bool
agree [] t = length t == 0
agree (a ∷ s) [] = false
agree (a ∷ s) (b ∷ t) = let rest = agree s t in if a == b then rest else false

-- `memcmp(p + i, s, n) == 0` for an `s` of `n` bytes.
unfoldable pub memcmp : Bytes → ℕ → Bytes → Exec Bool
unfolding read_at agree
memcmp p i s = do xs ← read_at p i (length s); ret (agree xs s)

-- `strlen(p)`: the bytes before the first NUL, which must be inside of the array.
unfoldable pub strlen : Bytes → Exec ℕ
strlen [] = fault
strlen (x ∷ xs) = let rest = strlen xs in if x == 0 then ret 0 else rest >>= (λ n. ret (n + 1))

-- What `%s` prints: the bytes before the first NUL.
unfoldable pub c_string : Bytes → Exec Bytes
unfolding strlen
c_string p = do n ← strlen p; ret (take n p)

-- What `%.*s` prints: at most `n` bytes, and none from the first NUL on.
unfoldable pub c_prefix : ℕ → Bytes → Exec Bytes
c_prefix zero p = ret []
c_prefix (suc n) [] = fault
c_prefix (suc n) (x ∷ xs) =
    let rest = c_prefix n xs in if x == 0 then ret [] else rest >>= (λ t. ret (x ∷ t))

-- `snprintf(d + j, m, …)` where the format gives the bytes `text`: at most `m - 1` of them, then
-- NUL; nothing at `m = 0`.
unfoldable pub snprintf : Bytes → ℕ → ℕ → Bytes → Exec Bytes
unfolding write_at
snprintf d j zero text = ret d
snprintf d j (suc m) text = write_at d j (take m text ++ 0 ∷ [])

-- The bytes of a literal.
abbrev pub codes : String → Bytes
codes String.[] = []
codes (String.◌∷◌ c s) = code c ∷ codes s

-- `%d` and `%u`: the fuel is one more than the number, and a tenth of it is less than it.
unfoldable pub decimal_fuel : ℕ → ℕ → Bytes
decimal_fuel zero n = []
decimal_fuel (suc f) n =
    let rest = decimal_fuel f (n / 10) ++ (48 + n % 10) ∷ [] in
    if ltb n 10 then (48 + n) ∷ [] else rest

unfoldable pub decimal : ℕ → Bytes
unfolding decimal_fuel
decimal n = decimal_fuel (n + 1) n

unfoldable pub hex_digit : ℕ → ℕ
hex_digit n = if ltb n 10 then 48 + n else 87 + n

-- `%04x` of a 16-bit number.
unfoldable pub hex4 : ℕ → Bytes
unfolding hex_digit
hex4 n =
    hex_digit (n / 4096 % 16)
    ∷ hex_digit (n / 256 % 16)
    ∷ hex_digit (n / 16 % 16)
    ∷ hex_digit (n % 16)
    ∷ []
