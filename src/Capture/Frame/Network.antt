-- ===== src/Capture/Frame/Network.antt =====
-- The parts of dissect_raw_packet above the Ethernet header.
use pacsni.Prelude.{
  ℕ, ◌+◌, Bool, true, false, Bool-cases, inl, inr, ◌==◌, ◌&&◌, ◌||◌, Option, none, some, ap,
  if◌then◌else◌, ℤ, arith, ◌≡◌, ◌∙◌, ltb_int, replicate, drop, ret, Gives, Gives-bind, Gives-then,
  Gives-mono,
}
use pacsni.Memory.{Bytes, rd}
use pacsni.Memory.Laws.{rd-eq-ret}
use pacsni.Packet.{PacketInfo, IpInfo, TransportInfo}
use pacsni.Layers.{parse_transport_layer}
use pacsni.Dissect.Dns.{dissect_dns}
use pacsni.Dissect.Dhcp.{dissect_dhcp}
use pacsni.Dissect.Http.{dissect_http}
use pacsni.Capture.Text.{dissect_app_common, dissect_ospf, dissect_gre}
use pacsni.Capture.Network.{
  dissect_ext, dissect_icmp4, dissect_icmp6, dissect_icmp, dissect_tcp_payload, tcp_header_len,
  dissect_tcp, dissect_udp, dissect_other, dissect_transport, with_ip, dissect_ip, is_some,
  tcp_payload, is_port, rest_len, at_pointer,
}
use pacsni.Capture.Frame.{SameFrame, same, compose}
use pacsni.Capture.Frame.Pieces.{
  dissect_vxlan-SameFrame, dissect_igmp-SameFrame, dissect_ntp-SameFrame,
  dissect_ntp_core-SameFrame, check_tcp_anomalies-SameFrame, parse_tcp_options_extended-SameFrame,
}

dissect_ext-SameFrame :
    (packet : Bytes) (caplen ip_at : ℕ) (i : PacketInfo)
    → Gives (dissect_ext packet caplen ip_at i) (SameFrame i)
unfolding dissect_ext
dissect_ext-SameFrame packet caplen ip_at i = ground arith

pub dissect_icmp-SameFrame :
    (packet : Bytes) (caplen : ℕ) (i : PacketInfo)
    → Gives (dissect_icmp packet caplen i) (SameFrame i)
unfolding dissect_icmp dissect_icmp4 dissect_icmp6
dissect_icmp-SameFrame packet caplen i = ground arith

-- While no server name is written, dissect_tls_sni is not called.
dissect_tcp_payload-SameFrame :
    (p : Bytes) (l : ℤ) (i : PacketInfo)
    → i.tls_sni ≡ replicate 64 0
    → Gives (dissect_tcp_payload p l i) (SameFrame i)
unfolding dissect_tcp_payload
dissect_tcp_payload-SameFrame p l i blank = elim (Bool-cases (is_port i 80)) [
  | inl http ↦
      rw http (Gives-bind (SameFrame i) (dissect_http p l i.extra_info 128) _ (λ text _. same i))
  | inr t₁ ↦ rw t₁ (elim (Bool-cases (is_port i 4789)) [
    | inl vxlan ↦ rw vxlan (dissect_vxlan-SameFrame p l i)
    | inr t₂ ↦
        rw (t₂, first_zero)
          (Gives-bind (SameFrame i) (dissect_app_common p l i.extra_info 128) _ (λ text _. same i))
  ])
]
  where
    first_zero : rd i.tls_sni 0 ≡ ret 0
    first_zero = ap (λ b. rd b 0) blank ∙ rd-eq-ret (replicate 64 0) 0 (omega arith)

dissect_udp-SameFrame :
    (packet : Bytes) (t : TransportInfo) (i : PacketInfo)
    → Gives (dissect_udp packet t i) (SameFrame i)
unfolding dissect_udp
dissect_udp-SameFrame packet t i = elim (Bool-cases (is_port i 53 && is_some t.payload_ptr)) [
  | inl dns ↦
      rw dns (Gives-bind (SameFrame i) (dissect_dns p len i.dns_query 64) _ (λ name _. same i))
  | inr t₁ ↦ rw t₁ (elim (Bool-cases (is_port i 67 || is_port i 68)) [
    | inl dhcp ↦
        rw dhcp
          (Gives-bind (SameFrame i) (dissect_dhcp p len i.extra_info 128) _ (λ text _. same i))
    | inr t₂ ↦ rw t₂ (elim (Bool-cases (is_port i 123)) [
      | inl ntp ↦ rw ntp (
          Gives-then (SameFrame i) (SameFrame i) _ _ (dissect_ntp-SameFrame p len i) (λ j h.
            Gives-mono (SameFrame j) (SameFrame i) _ (dissect_ntp_core-SameFrame p len j)
              (λ k g. compose i j k h g)))
      | inr other ↦ rw other (same i)
    ])
  ])
]
  where
    p : Bytes
    p = at_pointer packet t.payload_ptr

    len : ℤ
    len = t.payload_len

dissect_other-SameFrame :
    (packet : Bytes) (caplen : ℕ) (i : PacketInfo)
    → Gives (dissect_other packet caplen i) (SameFrame i)
unfolding dissect_other
dissect_other-SameFrame packet caplen i = elim (Bool-cases (i.protocol == 89)) [
  | inl ospf ↦
      rw ospf (Gives-bind (SameFrame i) (dissect_ospf p len i.extra_info 128) _ (λ text _. same i))
  | inr t₁ ↦ rw t₁ (elim (Bool-cases (i.protocol == 47)) [
    | inl gre ↦
        rw gre (Gives-bind (SameFrame i) (dissect_gre p len i.extra_info 128) _ (λ text _. same i))
    | inr t₂ ↦ rw t₂ (elim (Bool-cases (i.protocol == 2)) [
      | inl igmp ↦ rw igmp (dissect_igmp-SameFrame p len i)
      | inr other ↦ rw other (same i)
    ])
  ])
]
  where
    p : Bytes
    p = drop i.l4_offset packet

    len : ℤ
    len = rest_len caplen i.l4_offset

tcp_payload-SameFrame :
    (packet : Bytes) (len : ℤ) (i k : PacketInfo) (ptr : Option ℕ)
    → i.tls_sni ≡ replicate 64 0
    → SameFrame i k
    → Gives (tcp_payload packet len k ptr) (SameFrame i)
unfolding tcp_payload
tcp_payload-SameFrame packet len i k none blank h = h
tcp_payload-SameFrame packet len i k (some at) blank h = elim (Bool-cases (ltb_int len 1)) [
  | inl empty ↦ rw empty h
  | inr full ↦ rw full (
      Gives-mono (SameFrame k) (SameFrame i) _
        (dissect_tcp_payload-SameFrame (drop at packet) len k (h.tls_sni ∙ blank))
        (λ l g. compose i k l h g))
]

dissect_tcp-SameFrame :
    (packet : Bytes) (ip : IpInfo) (t : TransportInfo) (i : PacketInfo)
    → i.tls_sni ≡ replicate 64 0
    → Gives (dissect_tcp packet ip t i) (SameFrame i)
unfolding dissect_tcp
dissect_tcp-SameFrame packet ip t i blank =
    let start = i.l3_offset + ip.header_len in
    let named : PacketInfo = record i {
      tcp_flags = t.flags;
      tcp_seq = t.seq;
      tcp_ack = t.ack;
      tcp_win = t.window;
    } in
    Gives-then (SameFrame i) (SameFrame i) _ _
      (parse_tcp_options_extended-SameFrame packet start (tcp_header_len t.payload_ptr start) named)
      (λ j h. Gives-then (SameFrame j) (SameFrame i) _ _ (check_tcp_anomalies-SameFrame j t) (λ k g.
        tcp_payload-SameFrame packet t.payload_len i k t.payload_ptr blank (compose i j k h g)))

dissect_transport-SameFrame :
    (packet : Bytes) (caplen : ℕ) (ip : IpInfo) (o : Option TransportInfo) (i : PacketInfo)
    → i.tls_sni ≡ replicate 64 0
    → Gives (dissect_transport packet caplen ip o i) (SameFrame i)
unfolding dissect_transport
dissect_transport-SameFrame packet caplen ip none i blank = same i
dissect_transport-SameFrame packet caplen ip (some t) i blank =
    let ported : PacketInfo = record i { src_port = t.src_port; dst_port = t.dst_port } in
    Gives-then (SameFrame i) (SameFrame i) _ _
      (elim (Bool-cases (i.protocol == 6)) [
        | inl tcp ↦ rw tcp (dissect_tcp-SameFrame packet ip t ported blank)
        | inr t₁ ↦ rw t₁ (elim (Bool-cases (i.protocol == 17)) [
          | inl udp ↦ rw udp (dissect_udp-SameFrame packet t ported)
          | inr other ↦ rw other (same i)
        ])
      ])
      (λ j h.
        Gives-mono (SameFrame j) (SameFrame i) _ (dissect_other-SameFrame packet caplen j)
          (λ k g. compose i j k h g))

pub with_ip-SameFrame :
    (eth_hlen : ℕ) (ip : IpInfo) (i : PacketInfo) → SameFrame i (with_ip eth_hlen ip i)
unfolding with_ip
with_ip-SameFrame eth_hlen ip i = same i

pub extended-SameFrame :
    (six : Bool) (packet : Bytes) (caplen ip_at : ℕ) (i : PacketInfo)
    → Gives (if six then dissect_ext packet caplen ip_at i else ret i) (SameFrame i)
extended-SameFrame true packet caplen ip_at i = dissect_ext-SameFrame packet caplen ip_at i
extended-SameFrame false packet caplen ip_at i = same i

pub dissect_ip-SameFrame :
    (packet : Bytes) (caplen eth_hlen : ℕ) (o : Option IpInfo) (i : PacketInfo)
    → i.tls_sni ≡ replicate 64 0
    → Gives (dissect_ip packet caplen eth_hlen o i) (SameFrame i)
unfolding dissect_ip
dissect_ip-SameFrame packet caplen eth_hlen none i blank = same i
dissect_ip-SameFrame packet caplen eth_hlen (some ip) i blank =
    let known = with_ip eth_hlen ip i in
    let e = with_ip-SameFrame eth_hlen ip i in
    Gives-then (SameFrame known) (SameFrame i) _ _
      (extended-SameFrame ip.is_ipv6 packet caplen eth_hlen known)
      (λ j h.
        Gives-then (SameFrame j) (SameFrame i) _ _ (dissect_icmp-SameFrame packet caplen j) (λ k g.
          Gives-bind (SameFrame i) (parse_transport_layer packet caplen eth_hlen ip) _ (λ t _.
            Gives-mono (SameFrame k) (SameFrame i) _
              (dissect_transport-SameFrame packet caplen ip t k
                (g.tls_sni ∙ h.tls_sni ∙ e.tls_sni ∙ blank))
              (λ l f. compose i j l (compose i known j e h) (compose j k l g f)))))
