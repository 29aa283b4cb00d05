-- ===== src/Layers/Transport.antt =====
-- parse_transport_layer: which TCP and UDP headers it accepts, and what it reads of them.
use native.Mathlib.Decide.{dec_lt}
use pacsni.Prelude.{
  ℕ, ◌+◌, ◌*◌, ◌/◌, ◌%◌, ◌^◌, ◌≤◌, ◌<◌, ◌≡◌, ◌≢◌, ◌||◌, inl, inr, refl, Bool-cases, ◌==◌, Option,
  none, some, arith, ltb, le→ltb, lt→ltb, length, sub_ℕ, Ensures, Ensures-mono,
}
use pacsni.Memory.{Bytes, byte}
use pacsni.Memory.Laws.{word16, word32, rd-eq-ret, be16-eq-ret, be32-eq-ret}
use pacsni.Packet.{IpInfo, TransportInfo, zero_transport}
use pacsni.Layers.{ip_total_length, parse_tcp, parse_udp, parse_transport_layer}

-- A TCP header at offset `at` that is whole, its options included, within the captured bytes.
pub record IsTcp (packet : Bytes) (caplen at : ℕ) : Type 0 where
  pub min_len : 5 ≤ byte packet (at + 12) / 16 % 16
  pub whole : at + byte packet (at + 12) / 16 % 16 * 4 ≤ caplen

-- What the code reports of it. The payload's length is the IP packet's less both headers.
pub record TcpFields (packet : Bytes) (at ip_at ip_len : ℕ) (t : TransportInfo) : Type 0 where
  pub src_is : t.src_port ≡ word16 packet at
  pub dst_is : t.dst_port ≡ word16 packet (at + 2)
  pub seq_is : t.seq ≡ word32 packet (at + 4)
  pub ack_is : t.ack ≡ word32 packet (at + 8)
  pub window_is : t.window ≡ word16 packet (at + 14)
  pub flags_is : t.flags ≡ byte packet (at + 13)
  pub payload_is : t.payload_ptr ≡ some (at + byte packet (at + 12) / 16 % 16 * 4)
  pub payload_len_is :
      t.payload_len
      ≡ sub_ℕ (word16 packet (ip_at + 2)) (ip_len + byte packet (at + 12) / 16 % 16 * 4)

-- What the code reports of a UDP header: the payload's length is the header's less 8.
pub record UdpFields (packet : Bytes) (at : ℕ) (t : TransportInfo) : Type 0 where
  pub src_is : t.src_port ≡ word16 packet at
  pub dst_is : t.dst_port ≡ word16 packet (at + 2)
  pub flags_is : t.flags ≡ 0
  pub payload_is : t.payload_ptr ≡ some (at + 8)
  pub payload_len_is : t.payload_len ≡ sub_ℕ (word16 packet (at + 4)) 8

abbrev pub TcpResult : Bytes → ℕ → ℕ → ℕ → ℕ → Option TransportInfo → Type 0
TcpResult packet caplen at ip_at ip_len none = IsTcp packet caplen at → ⊥
TcpResult packet caplen at ip_at ip_len (some t) =
    IsTcp packet caplen at × TcpFields packet at ip_at ip_len t

abbrev pub UdpResult : Bytes → ℕ → ℕ → Option TransportInfo → Type 0
UdpResult packet caplen at none = caplen < at + 8
UdpResult packet caplen at (some t) = (at + 8 ≤ caplen) × UdpFields packet at t

-- By the protocol that the IP header names: 6, 17, or another, of which nothing is read.
pub record TransportResult (packet : Bytes) (caplen at ip_at : ℕ) (ip : IpInfo)
    (r : Option TransportInfo) : Type 0 where
  pub tcp : ip.protocol ≡ 6 → TcpResult packet caplen at ip_at ip.header_len r
  pub udp : ip.protocol ≡ 17 → UdpResult packet caplen at r
  pub other : ip.protocol ≢ 6 → ip.protocol ≢ 17 → r ≡ some zero_transport

module _ (packet : Bytes) (caplen at ip_at : ℕ) (ip : IpInfo) (fits : caplen ≤ length packet)
    (small : caplen < 2 ^ 31) (inside : at ≤ caplen) (header : ip.header ≡ some ip_at)
    (header_inside : ip_at + 4 ≤ caplen) where
  parse_tcp_lem :
      Ensures (parse_tcp packet caplen at ip) (TcpResult packet caplen at ip_at ip.header_len)
  unfolding parse_tcp ip_total_length
  parse_tcp_lem = elim (dec_lt caplen (at + 20)) [
    | yes short ↦
        rw (lt→ltb caplen ((at + 20) % 2 ^ 32) (omega arith))
          (λ v. omega (arith, v.min_len, v.whole))
    | no long ↦
        rw
          (
            le→ltb caplen ((at + 20) % 2 ^ 32) (omega arith),
            rd-eq-ret packet (at + 12) (omega arith),
          )
          (elim (Bool-cases (ltb hlen 20 || ltb caplen ((at + hlen) % 2 ^ 32))) [
            | inl bad ↦ rw bad (λ v. ground (arith, v.min_len, v.whole))
            | inr good ↦
                rw
                  (
                    good,
                    be16-eq-ret packet at (omega arith),
                    be16-eq-ret packet (at + 2) (omega arith),
                    be32-eq-ret packet (at + 4) (omega arith),
                    be32-eq-ret packet (at + 8) (omega arith),
                    be16-eq-ret packet (at + 14) (omega arith),
                    rd-eq-ret packet (at + 13) (omega arith),
                    header,
                    ip_total_length,
                    be16-eq-ret packet (ip_at + 2) (omega arith),
                  )
                  (
                    accepted (ground arith),
                    record {
                      src_is = refl;
                      dst_is = refl;
                      seq_is = refl;
                      ack_is = refl;
                      window_is = refl;
                      flags_is = refl;
                      payload_is = refl;
                      payload_len_is = refl;
                    },
                  )
          ])
  ]
    where
      hlen : ℕ
      hlen = byte packet (at + 12) / 16 % 16 * 4

      accepted : (20 ≤ hlen) × (at + hlen ≤ caplen) → IsTcp packet caplen at
      accepted h = record { min_len = omega arith; whole = h.1 }

  parse_udp_lem : Ensures (parse_udp packet caplen at) (UdpResult packet caplen at)
  unfolding parse_udp
  parse_udp_lem = elim (dec_lt caplen (at + 8)) [
    | yes short ↦ rw (lt→ltb caplen ((at + 8) % 2 ^ 32) (omega arith)) short
    | no long ↦
        rw
          (
            le→ltb caplen ((at + 8) % 2 ^ 32) (omega arith),
            be16-eq-ret packet at (omega arith),
            be16-eq-ret packet (at + 2) (omega arith),
            be16-eq-ret packet (at + 4) (omega arith),
          )
          (
            omega arith,
            record {
              src_is = refl;
              dst_is = refl;
              flags_is = refl;
              payload_is = refl;
              payload_len_is = refl;
            },
          )
  ]

module _ (packet : Bytes) (caplen eth_hlen ip_at : ℕ) (ip : IpInfo) (fits : caplen ≤ length packet)
    (small : caplen < 2 ^ 31) (inside : eth_hlen + ip.header_len ≤ caplen)
    (header : ip.header ≡ some ip_at) (header_inside : ip_at + 4 ≤ caplen) where
  -- Where the captured bytes are fewer than 2 ^ 31 and all in the array, and the IP header and the
  -- first four bytes at its pointer lie within them, parse_transport_layer reads nothing outside of
  -- them and ends. For TCP it returns the header's fields exactly when the header with
  -- its options is whole and at least 20 bytes; for UDP exactly when its 8 bytes are there; for any
  -- other protocol it returns zeroes.
  pub parse_transport_layer_lem :
      Ensures
        (parse_transport_layer packet caplen eth_hlen ip)
        (TransportResult packet caplen (eth_hlen + ip.header_len) ip_at ip)
  unfolding parse_transport_layer
  parse_transport_layer_lem = elim (Bool-cases (ip.protocol == 6)) [
    | inl tcp ↦ rw tcp (
        Ensures-mono _ (TransportResult packet caplen (eth_hlen + ip.header_len) ip_at ip) _
          (parse_tcp_lem packet caplen (eth_hlen + ip.header_len) ip_at ip fits small inside header
            header_inside)
          (λ r h. record { tcp = λ _. h; udp = λ e. ground arith; other = λ e _. ground arith }))
    | inr not_tcp ↦ rw not_tcp (elim (Bool-cases (ip.protocol == 17)) [
      | inl udp ↦ rw udp (
          Ensures-mono _ (TransportResult packet caplen (eth_hlen + ip.header_len) ip_at ip) _
            (parse_udp_lem packet caplen (eth_hlen + ip.header_len) ip_at ip fits small inside
              header header_inside)
            (λ r h. record { tcp = λ e. ground arith; udp = λ _. h; other = λ _ e. ground arith }))
      | inr not_udp ↦
          rw not_udp
            (record { tcp = λ e. ground arith; udp = λ e. ground arith; other = λ _ _. refl })
    ])
  ]
