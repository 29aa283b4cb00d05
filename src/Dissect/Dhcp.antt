-- ===== src/Dissect/Dhcp.antt =====
-- dissect_dhcp of cpp/protocol_dissectors.cpp: the DHCP message type.
pub mod Safe
pub mod Options
use pacsni.Prelude.{
  ℕ, zero, suc, ◌+◌, ◌-◌, Bool, true, false, ◌&&◌, ltb, leb, ◌==◌, if◌then◌else◌, List, [], ◌∷◌,
  ◌++◌, get_or, ℤ, pos_part, ltb_int, Exec, ret, ◌>>=◌, Next, again, done, iterate,
}
use pacsni.Memory.{Bytes, codes, rd, slice, snprintf}

-- The array `ts`.
abbrev pub message_types : List Bytes
message_types =
    codes "?"
    ∷ codes "DISCOVER"
    ∷ codes "OFFER"
    ∷ codes "REQUEST"
    ∷ codes "DECLINE"
    ∷ codes "ACK"
    ∷ codes "NAK"
    ∷ codes "RELEASE"
    ∷ codes "INFORM"
    ∷ []

-- `if (t > 0 && t < 9) snprintf(o, m, "DHCP %s", ts[t]);`
unfoldable pub print_type : ℕ → Bytes → ℕ → Exec Bytes
print_type t o m =
    if ltb 0 t && ltb t 9
    then snprintf o 0 m (codes "DHCP " ++ get_or message_types t [])
    else ret o

-- The part of a round behind the read of an option's length: the option's data begin at `at`.
unfoldable pub dhcp_option : Bytes → ℕ → Bytes → ℕ → ℕ → ℕ → ℕ → Exec (Next ℕ Bytes)
dhcp_option p n o m c at len =
    if ltb n (at + len)
    then ret (done o)
    else if c == 53 && len == 1
    then rd p (240 + at) >>= (λ t. print_type t o m >>= (λ r. ret (done r)))
    else ret (again (at + len))

-- The part of a round behind the read of an option's code; `at` is behind it.
unfoldable pub dhcp_code : Bytes → ℕ → Bytes → ℕ → ℕ → ℕ → Exec (Next ℕ Bytes)
dhcp_code p n o m at c =
    if c == 255
    then ret (done o)
    else if c == 0
    then ret (again at)
    else if leb n at
    then ret (done o)
    else rd p (240 + at) >>= dhcp_option p n o m c (at + 1)

-- A round of the loop over the options: `opts[i]` is `p[240 + i]` and `n` is `l - 240`.
unfoldable pub dhcp_round : Bytes → ℕ → Bytes → ℕ → ℕ → Exec (Next ℕ Bytes)
dhcp_round p n o m i =
    if ltb i n then rd p (240 + i) >>= dhcp_code p n o m (i + 1) else ret (done o)

-- The tests of the magic cookie's bytes from index `i` on, one after the other.
unfoldable pub has_cookie : Bytes → ℕ → Bytes → Exec Bool
has_cookie [] i p = ret true
has_cookie (c ∷ cs) i p =
    let rest = has_cookie cs (i + 1) p in rd p i >>= (λ b. if b == c then rest else ret false)

abbrev pub cookie : Bytes
cookie = 0x63 ∷ 0x82 ∷ 0x53 ∷ 0x63 ∷ []

unfoldable pub dissect_dhcp : Bytes → ℤ → Bytes → ℕ → Exec Bytes
dissect_dhcp p l o m = if ltb_int l 240 then ret o else do
  good ← has_cookie cookie 236 p
  if good then iterate (pos_part l) (dhcp_round p (pos_part l - 240) o m) 0 else ret o
