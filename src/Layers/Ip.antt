-- ===== src/Layers/Ip.antt =====
-- parse_ip_layer: which headers it accepts, what it reads of them, and that it stays inside.
use native.Mathlib.Decide.{dec_lt}
use pacsni.Prelude.{
  ℕ, ◌+◌, ◌*◌, ◌/◌, ◌%◌, ◌^◌, ◌≤◌, ◌<◌, ◌≡◌, ◌⊎◌, ◌||◌, inl, inr, refl, true, false, not,
  Bool-cases, ◌==◌, Option, none, some, ◌++◌, arith, ltb, le→ltb, lt→ltb, length, replicate,
  Ensures,
}
use pacsni.Memory.{Bytes, byte, slice, splice}
use pacsni.Memory.Laws.{
  word16, word32, rd-eq-ret, be16-eq-ret, be32-eq-ret, memcpy-eq-ret, length-slice, splice_end,
}
use pacsni.Packet.{IpInfo}
use pacsni.Layers.{parse_ipv4, parse_ipv6, parse_ip_layer}

-- An IPv4 header at offset `at` that is whole within the captured bytes.
pub record IsIpv4 (packet : Bytes) (caplen at : ℕ) : Type 0 where
  pub version : byte packet at / 16 % 16 ≡ 4
  pub min_len : 5 ≤ byte packet at % 16
  pub whole : at + byte packet at % 16 * 4 ≤ caplen

pub record IsIpv6 (packet : Bytes) (caplen at : ℕ) : Type 0 where
  pub version : byte packet at / 16 % 16 ≡ 6
  pub whole : at + 40 ≤ caplen

-- What the code reports of an IPv4 header: addresses in the last four of their 16 bytes.
pub record Ipv4Fields (packet : Bytes) (at : ℕ) (ip : IpInfo) : Type 0 where
  pub header_is : ip.header ≡ some at
  pub len_is : ip.header_len ≡ byte packet at % 16 * 4
  pub src_is : ip.src_ip ≡ replicate 12 0 ++ slice packet (at + 12) 4
  pub dst_is : ip.dst_ip ≡ replicate 12 0 ++ slice packet (at + 16) 4
  pub protocol_is : ip.protocol ≡ byte packet (at + 9)
  pub ttl_is : ip.ttl ≡ byte packet (at + 8)
  pub tos_is : ip.tos ≡ byte packet (at + 1)
  pub id_is : ip.id ≡ word16 packet (at + 4)
  pub version_is : ip.is_ipv6 ≡ false
  pub fragment_is : ip.is_fragment ≡ not (word16 packet (at + 6) % 0x4000 == 0)

pub record Ipv6Fields (packet : Bytes) (at : ℕ) (ip : IpInfo) : Type 0 where
  pub header_is : ip.header ≡ some at
  pub len_is : ip.header_len ≡ 40
  pub src_is : ip.src_ip ≡ slice packet (at + 8) 16
  pub dst_is : ip.dst_ip ≡ slice packet (at + 24) 16
  pub protocol_is : ip.protocol ≡ byte packet (at + 6)
  pub ttl_is : ip.ttl ≡ byte packet (at + 7)
  pub tos_is : ip.tos ≡ word32 packet at / 2 ^ 20 % 256
  pub id_is : ip.id ≡ 0
  pub version_is : ip.is_ipv6 ≡ true
  pub fragment_is : ip.is_fragment ≡ false

abbrev pub IpResult : Bytes → ℕ → ℕ → Option IpInfo → Type 0
IpResult packet caplen at none = (IsIpv4 packet caplen at → ⊥) × (IsIpv6 packet caplen at → ⊥)
IpResult packet caplen at (some ip) =
    (IsIpv4 packet caplen at × Ipv4Fields packet at ip)
    ⊎ (IsIpv6 packet caplen at × Ipv6Fields packet at ip)

module _ (packet : Bytes) (caplen at : ℕ) (fits : caplen ≤ length packet) (small : caplen < 2 ^ 31)
    (start : at < 2 ^ 31) where
  -- The copy of a four-byte address to the end of its 16-byte field.
  address_v4 :
      (i : ℕ)
      → i + 4 ≤ caplen
      → splice (replicate 16 0) 12 (slice packet i 4) ≡ replicate 12 0 ++ slice packet i 4
  address_v4 i h = splice_end _ 12 _ (omega (arith, length-slice packet i 4 (omega arith)))

  address_v6 :
      (i : ℕ) → i + 16 ≤ caplen → splice (replicate 16 0) 0 (slice packet i 16) ≡ slice packet i 16
  address_v6 i h = splice_end _ 0 _ (omega (arith, length-slice packet i 16 (omega arith)))

  parse_ipv4_lem :
      byte packet at / 16 % 16 ≡ 4
      → at < caplen
      → Ensures (parse_ipv4 packet caplen at) (IpResult packet caplen at)
  unfolding parse_ipv4
  parse_ipv4_lem version inside = elim (dec_lt caplen (at + 20)) [
    | yes short ↦ rw (lt→ltb caplen ((at + 20) % 2 ^ 32) (omega arith)) (refused (omega arith))
    | no long ↦
        rw (le→ltb caplen ((at + 20) % 2 ^ 32) (omega arith), rd-eq-ret packet at (omega arith))
          (elim (Bool-cases (ltb hlen 20 || ltb caplen ((at + hlen) % 2 ^ 32))) [
            | inl bad ↦ rw bad (refused (ground arith))
            | inr good ↦
                rw
                  (
                    good,
                    memcpy-eq-ret (replicate 16 0) 12 packet (at + 12) 4 (omega arith)
                        (omega arith),
                    memcpy-eq-ret (replicate 16 0) 12 packet (at + 16) 4 (omega arith)
                        (omega arith),
                    rd-eq-ret packet (at + 9) (omega arith),
                    rd-eq-ret packet (at + 8) (omega arith),
                    rd-eq-ret packet (at + 1) (omega arith),
                    be16-eq-ret packet (at + 4) (omega arith),
                    be16-eq-ret packet (at + 6) (omega arith),
                  )
                  (inl (accepted (ground arith), fields (omega arith)))
          ])
  ]
    where
      hlen : ℕ
      hlen = byte packet at % 16 * 4

      refused :
          (caplen < at + 20) ⊎ (hlen < 20) ⊎ (caplen < at + hlen)
          → (IsIpv4 packet caplen at → ⊥) × (IsIpv6 packet caplen at → ⊥)
      refused h = ((λ v. omega (arith, v.min_len, v.whole)), (λ v. omega (arith, v.version)))

      accepted : (20 ≤ hlen) × (at + hlen ≤ caplen) → IsIpv4 packet caplen at
      accepted h = record { version = version; min_len = omega arith; whole = h.1 }

      fields :
          at + 20 ≤ caplen
          → Ipv4Fields packet at (record {
            header = some at;
            header_len = hlen;
            src_ip = splice (replicate 16 0) 12 (slice packet (at + 12) 4);
            dst_ip = splice (replicate 16 0) 12 (slice packet (at + 16) 4);
            protocol = byte packet (at + 9);
            ttl = byte packet (at + 8);
            tos = byte packet (at + 1);
            id = word16 packet (at + 4);
            is_ipv6 = false;
            is_fragment = not (word16 packet (at + 6) % 0x4000 == 0);
          })
      fields h = record {
        header_is = refl;
        len_is = refl;
        src_is = address_v4 (at + 12) (omega arith);
        dst_is = address_v4 (at + 16) (omega arith);
        protocol_is = refl;
        ttl_is = refl;
        tos_is = refl;
        id_is = refl;
        version_is = refl;
        fragment_is = refl;
      }

  parse_ipv6_lem :
      byte packet at / 16 % 16 ≡ 6
      → at < caplen
      → Ensures (parse_ipv6 packet caplen at) (IpResult packet caplen at)
  unfolding parse_ipv6
  parse_ipv6_lem version inside = elim (dec_lt caplen (at + 40)) [
    | yes short ↦
        rw (lt→ltb caplen ((at + 40) % 2 ^ 32) (omega arith))
          ((λ v. omega (arith, v.version)), (λ v. omega (arith, v.whole)))
    | no long ↦
        rw
          (
            le→ltb caplen ((at + 40) % 2 ^ 32) (omega arith),
            memcpy-eq-ret (replicate 16 0) 0 packet (at + 8) 16 (omega arith) (omega arith),
            memcpy-eq-ret (replicate 16 0) 0 packet (at + 24) 16 (omega arith) (omega arith),
            rd-eq-ret packet (at + 6) (omega arith),
            rd-eq-ret packet (at + 7) (omega arith),
            be32-eq-ret packet at (omega arith),
          )
          (inr (
            record { version = version; whole = omega arith },
            record {
              header_is = refl;
              len_is = refl;
              src_is = address_v6 (at + 8) (omega arith);
              dst_is = address_v6 (at + 24) (omega arith);
              protocol_is = refl;
              ttl_is = refl;
              tos_is = refl;
              id_is = refl;
              version_is = refl;
              fragment_is = refl;
            },
          ))
  ]

  -- Where the captured bytes are fewer than 2 ^ 31 and all in the array, parse_ip_layer reads nothing
  -- else at an offset below 2 ^ 31, and ends. It returns the fields of the IPv4 or IPv6 header at
  -- the offset where one is whole within the captured bytes (an IPv4 header with its options and
  -- of at least 20 bytes, an IPv6 header with its 40 bytes), and nothing where there is none.
  pub parse_ip_layer_lem : Ensures (parse_ip_layer packet caplen at) (IpResult packet caplen at)
  unfolding parse_ip_layer
  parse_ip_layer_lem = elim (dec_lt caplen (at + 1)) [
    | yes short ↦
        rw (lt→ltb caplen ((at + 1) % 2 ^ 32) (omega arith))
          ((λ v. omega (arith, v.whole, v.min_len)), (λ v. omega (arith, v.whole)))
    | no long ↦
        rw (le→ltb caplen ((at + 1) % 2 ^ 32) (omega arith), rd-eq-ret packet at (omega arith))
          (elim (Bool-cases (version == 4)) [
            | inl four ↦ rw four (parse_ipv4_lem (ground arith) (omega arith))
            | inr not_four ↦ rw not_four (elim (Bool-cases (version == 6)) [
              | inl six ↦ rw six (parse_ipv6_lem (ground arith) (omega arith))
              | inr other ↦
                  rw other ((λ v. ground (arith, v.version)), (λ v. ground (arith, v.version)))
            ])
          ])
  ]
    where
      version : ℕ
      version = byte packet at / 16 % 16
