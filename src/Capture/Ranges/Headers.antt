-- ===== src/Capture/Ranges/Headers.antt =====
-- The ranges of what parse_ethernet_layer, parse_ip_layer and parse_transport_layer return.
use pacsni.Prelude.{
  ℕ, zero, suc, ◌+◌, ◌*◌, ◌/◌, ◌%◌, ◌^◌, ◌<◌, ◌≡◌, arith, length, inl, inr, Bool-cases, ltb, ◌==◌,
  ◌||◌, Option, none, some, Gives, Gives-bind, Gives-then,
}
use pacsni.Memory.{Bytes, AllBytes, u32, rd, be16, be32}
use pacsni.Packet.{EthernetInfo, IpInfo, zero_ip, TransportInfo}
use pacsni.Layers.{
  more_tags, vlan_loop, parse_ethernet_layer, parse_ipv4, parse_ipv6, parse_ip_layer,
  ip_total_length, parse_tcp, parse_udp, parse_transport_layer,
}
use pacsni.Capture.Ranges.Accesses.{
  memcpy-SameSize, either, split, rd-then, be16-then, be32-then, sized-then,
}

pub record IpRanges (ip : IpInfo) : Type 0 where
  pub src_ip : length ip.src_ip ≡ 16
  pub dst_ip : length ip.dst_ip ≡ 16
  pub protocol : ip.protocol < 2 ^ 8
  pub ttl : ip.ttl < 2 ^ 8
  pub tos : ip.tos < 2 ^ 8
  pub id : ip.id < 2 ^ 16

pub record TransportRanges (t : TransportInfo) : Type 0 where
  pub src_port : t.src_port < 2 ^ 16
  pub dst_port : t.dst_port < 2 ^ 16
  pub seq : t.seq < 2 ^ 32
  pub ack : t.ack < 2 ^ 32
  pub window : t.window < 2 ^ 16
  pub flags : t.flags < 2 ^ 8

-- A value that is there satisfies `P`.
abbrev pub Maybe {ℓ} : {A : Type ℓ} → (A → Type 0) → Option A → Type 0
Maybe P none = Unit
Maybe P (some a) = P a

-- A frame has no Ethernet header only when it is short.
abbrev pub Found : ℕ → Option EthernetInfo → Type 0
Found caplen none = caplen < 14
Found caplen (some e) = e.vlan_id < 2 ^ 16

abbrev Tags : ℕ × ℕ × ℕ → Type 0
Tags (hlen, etype, v_id) = v_id < 2 ^ 16

module _ (p : Bytes) (all : AllBytes p) (caplen : ℕ) where
  vlan_loop-Tags :
      (f hlen etype v_id : ℕ) → v_id < 2 ^ 16 → Gives (vlan_loop f p caplen hlen etype v_id) Tags
  unfolding vlan_loop
  vlan_loop-Tags zero hlen etype v_id h = tt
  vlan_loop-Tags (suc f) hlen etype v_id h =
      split Tags (more_tags etype hlen caplen) _ _
        (Gives-bind Tags (be16 p hlen) _ (λ v _.
          Gives-bind Tags (be16 p (hlen + 2)) _
            (λ t _. vlan_loop-Tags f (hlen + 4) t (v % 4096) (omega arith))))
        h

  pub parse_ethernet_layer-Found : Gives (parse_ethernet_layer p caplen) (Found caplen)
  unfolding parse_ethernet_layer
  parse_ethernet_layer-Found = elim (Bool-cases (ltb caplen 14)) [
    | inl short ↦ rw short (ground arith)
    | inr long ↦ rw long (
        Gives-bind (Found caplen) (be16 p 12) _ (λ etype _.
          Gives-then Tags (Found caplen) _ _
            (vlan_loop-Tags (length p + 1) 14 etype 0 (omega arith)) (λ (hlen, type, v_id) h. h)))
  ]

  abbrev Ip : Option IpInfo → Type 0
  Ip = Maybe IpRanges

  parse_ipv4-Ranges : (at : ℕ) → Gives (parse_ipv4 p caplen at) Ip
  unfolding parse_ipv4
  parse_ipv4-Ranges at = either Ip (ltb caplen (u32 (at + 20))) _ _ tt (
      Gives-bind Ip (rd p at) _ (λ ihl _.
        let hlen = ihl % 16 * 4 in
        either Ip (ltb hlen 20 || ltb caplen (u32 (at + hlen))) _ _ tt (
          sized-then Ip zero_ip.src_ip _ _ (memcpy-SameSize zero_ip.src_ip 12 p (at + 12) 4)
            (λ src s.
              sized-then Ip zero_ip.dst_ip _ _ (memcpy-SameSize zero_ip.dst_ip 12 p (at + 16) 4)
                (λ dst d. rd-then Ip p (at + 9) all _ (λ protocol hp.
                  rd-then Ip p (at + 8) all _ (λ ttl ht. rd-then Ip p (at + 1) all _ (λ tos ho.
                    be16-then Ip p (at + 4) all _ (λ id hi.
                      Gives-bind Ip (be16 p (at + 6)) _ (λ off _. record {
                        src_ip = s;
                        dst_ip = d;
                        protocol = hp;
                        ttl = ht;
                        tos = ho;
                        id = hi;
                      }))))))))))

  parse_ipv6-Ranges : (at : ℕ) → Gives (parse_ipv6 p caplen at) Ip
  unfolding parse_ipv6
  parse_ipv6-Ranges at = either Ip (ltb caplen (u32 (at + 40))) _ _ tt (
      sized-then Ip zero_ip.src_ip _ _ (memcpy-SameSize zero_ip.src_ip 0 p (at + 8) 16) (λ src s.
        sized-then Ip zero_ip.dst_ip _ _ (memcpy-SameSize zero_ip.dst_ip 0 p (at + 24) 16) (λ dst d.
          rd-then Ip p (at + 6) all _ (λ protocol hp. rd-then Ip p (at + 7) all _ (λ ttl ht.
            Gives-bind Ip (be32 p at) _ (λ flow _. record {
              src_ip = s;
              dst_ip = d;
              protocol = hp;
              ttl = ht;
              tos = omega arith;
              id = omega arith;
            }))))))

  pub parse_ip_layer-Ranges : (at : ℕ) → Gives (parse_ip_layer p caplen at) (Maybe IpRanges)
  unfolding parse_ip_layer
  parse_ip_layer-Ranges at = either Ip (ltb caplen (u32 (at + 1))) _ _ tt (
      Gives-bind Ip (rd p at) _ (λ first _.
        either Ip (first / 16 % 16 == 4) _ _ (parse_ipv4-Ranges at)
          (either Ip (first / 16 % 16 == 6) _ _ (parse_ipv6-Ranges at) tt)))

  abbrev Transport : Option TransportInfo → Type 0
  Transport = Maybe TransportRanges

  parse_tcp-Ranges : (at : ℕ) (ip : IpInfo) → Gives (parse_tcp p caplen at ip) Transport
  unfolding parse_tcp
  parse_tcp-Ranges at ip = either Transport (ltb caplen (u32 (at + 20))) _ _ tt (
      Gives-bind Transport (rd p (at + 12)) _ (λ off _.
        let hlen = off / 16 % 16 * 4 in
        either Transport (ltb hlen 20 || ltb caplen (u32 (at + hlen))) _ _ tt (
          be16-then Transport p at all _ (λ src s. be16-then Transport p (at + 2) all _ (λ dst d.
            be32-then Transport p (at + 4) all _ (λ seq q.
              be32-then Transport p (at + 8) all _ (λ ack a.
                be16-then Transport p (at + 14) all _ (λ window w.
                  rd-then Transport p (at + 13) all _ (λ flags f.
                    Gives-bind Transport (ip_total_length p ip.header) _ (λ total _. record {
                      src_port = s;
                      dst_port = d;
                      seq = q;
                      ack = a;
                      window = w;
                      flags = f;
                    }))))))))))

  parse_udp-Ranges : (at : ℕ) → Gives (parse_udp p caplen at) Transport
  unfolding parse_udp
  parse_udp-Ranges at = either Transport (ltb caplen (u32 (at + 8))) _ _ tt (
      be16-then Transport p at all _ (λ src s. be16-then Transport p (at + 2) all _ (λ dst d.
        Gives-bind Transport (be16 p (at + 4)) _ (λ total _. record {
          src_port = s;
          dst_port = d;
          seq = omega arith;
          ack = omega arith;
          window = omega arith;
          flags = omega arith;
        }))))

  pub parse_transport_layer-Ranges :
      (eth_hlen : ℕ) (ip : IpInfo)
      → Gives (parse_transport_layer p caplen eth_hlen ip) (Maybe TransportRanges)
  unfolding parse_transport_layer
  parse_transport_layer-Ranges eth_hlen ip =
      either Transport (ip.protocol == 6) _ _ (parse_tcp-Ranges (eth_hlen + ip.header_len) ip) (
        either Transport (ip.protocol == 17) _ _ (parse_udp-Ranges (eth_hlen + ip.header_len))
          (record {
            src_port = omega arith;
            dst_port = omega arith;
            seq = omega arith;
            ack = omega arith;
            window = omega arith;
            flags = omega arith;
          }))
