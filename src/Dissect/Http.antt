-- ===== src/Dissect/Http.antt =====
-- dissect_http and memmem of cpp/protocol_dissectors.cpp: the request line and the Host header.
pub mod Search
pub mod Line
pub mod Request
use pacsni.Prelude.{
  ℕ, zero, suc, ◌+◌, ◌-◌, Bool, true, false, not, ◌&&◌, ◌||◌, ltb, ◌==◌, if◌then◌else◌, Option,
  none, some, List, [], ◌∷◌, ◌++◌, length, drop, ℤ, pos_part, ltb_int, Exec, ret, ◌>>=◌,
}
use pacsni.Memory.{Bytes, codes, rd, wr, memcmp, strlen, c_prefix, snprintf}

-- The loop of memmem at index `i`, with `n` rounds left.
unfoldable pub memmem_loop : ℕ → ℕ → Bytes → Bytes → Exec (Option ℕ)
memmem_loop zero i h needle = ret none
memmem_loop (suc n) i h needle = do
  found ← memcmp h i needle
  elim found [ true ↦ ret (some i) | false ↦ memmem_loop n (i + 1) h needle ]

-- The offset of the needle's first place among the first `len` bytes.
unfoldable pub memmem : Bytes → ℕ → Bytes → Exec (Option ℕ)
memmem h len needle =
    if length needle == 0
    then ret (some 0)
    else if ltb len (length needle)
    then ret none
    else memmem_loop (len - length needle + 1) 0 h needle

-- `while (c < l && c < m - 1 && p[c] != '\r' && p[c] != '\n') { o[c] = p[c]; c++; } o[c] = '\0';`
-- with `n` rounds left before `c` is `l` or `m - 1`.
unfoldable pub copy_line : ℕ → Bytes → ℕ → Bytes → Exec Bytes
copy_line zero p c o = wr o c 0
copy_line (suc n) p c o = do
  b ← rd p c
  elim (b == b'\r' || b == b'\n') [
    | true ↦ wr o c 0
    | false ↦ wr o c b >>= (λ o'. copy_line n p (c + 1) o')
  ]

abbrev pub methods : List Bytes
methods =
    codes "GET "
    ∷ codes "POST "
    ∷ codes "PUT "
    ∷ codes "DELETE "
    ∷ codes "HEAD "
    ∷ codes "OPTIONS "
    ∷ []

abbrev pub host_mark : Bytes
host_mark = codes "\r\nHost: "

-- `snprintf(o + strlen(o), m - strlen(o), " [Host: %.*s]", 32, hp + 8)`
unfoldable pub print_host : Bytes → Option ℕ → Bytes → ℕ → Exec Bytes
print_host p none o m = ret o
print_host p (some at) o m = do
  host ← c_prefix 32 (drop (at + 8) p)
  n ← strlen o
  snprintf o n (m - n) (codes " [Host: " ++ (host ++ codes "]"))

-- What is done for a request: `l` and `m` are at least 1.
unfoldable pub print_request : Bytes → ℕ → Bytes → ℕ → Exec Bytes
print_request p l o m = do
  line ← copy_line (if ltb l (m - 1) then l else m - 1) p 0 o
  place ← memmem p l host_mark
  print_host p place line m

unfoldable pub match_methods : List Bytes → Bytes → ℕ → Exec Bool
match_methods [] p l = ret false
match_methods (s ∷ ms) p l = elim (ltb (length s) l) [
  | true ↦ memcmp p 0 s >>= (λ same. elim same [ true ↦ ret true | false ↦ match_methods ms p l ])
  | false ↦ match_methods ms p l
]

unfoldable pub dissect_http : Bytes → ℤ → Bytes → ℕ → Exec Bytes
dissect_http p l o m = if ltb_int l 10 then ret o else do
  request ← match_methods methods p (pos_part l)
  if request then print_request p (pos_part l) o m else ret o
