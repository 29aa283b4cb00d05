-- ===== src/Capture/Network.antt =====
-- The parts of dissect_raw_packet of cpp/packet_capture.cpp above the IP header: the IPv6 extension
-- headers, ICMP, and the choice of a dissector by transport and port.
use pacsni.Prelude.{
  ℕ, zero, suc, ◌+◌, ◌-◌, ◌*◌, ◌%◌, ◌^◌, Bool, true, false, ◌&&◌, ◌||◌, Option, none, some, leb,
  ◌==◌, if◌then◌else◌, [], drop, ℤ, pos, negsuc, ltb_int, Exec, ret, ◌>>=◌,
}
use pacsni.Memory.{Bytes, u8, u32, rd, be32}
use pacsni.Packet.{PacketInfo, IpInfo, TransportInfo}
use pacsni.Layers.{parse_transport_layer}
use pacsni.Dissect.Dns.{dissect_dns}
use pacsni.Dissect.Tls.{dissect_tls_sni}
use pacsni.Dissect.Dhcp.{dissect_dhcp}
use pacsni.Dissect.Http.{dissect_http}
use pacsni.Dissect.TcpOptions.{parse_tcp_options_extended, check_tcp_anomalies}
use pacsni.Dissect.Info.{dissect_ntp, dissect_ntp_core, dissect_igmp, dissect_vxlan}
use pacsni.Capture.Text.{
  check_icmp_unreachable, dissect_app_common, dissect_icmp_details, dissect_icmp6_details,
  dissect_ospf, dissect_gre,
}

-- The conversion of a uint32_t to int.
abbrev pub to_int : ℕ → ℤ
to_int w = if leb (2 ^ 31) w then negsuc (2 ^ 32 - (w + 1)) else pos w

-- `caplen - offset` as uint32_t, given to a dissector as an int.
abbrev pub rest_len : ℕ → ℕ → ℤ
rest_len caplen offset = to_int (u32 (caplen + 2 ^ 32 - offset))

-- What a pointer points to; nothing can be read through a null pointer.
abbrev pub at_pointer : Bytes → Option ℕ → Bytes
at_pointer packet none = []
at_pointer packet (some i) = drop i packet

-- The variables `nxt`, `info.is_fragment` and `info.ipv6_ext_count`.
pub record ExtState : Type 0 where
  pub nxt : ℕ
  pub fragment : ℕ
  pub count : ℕ

-- The loop over the extension headers; it runs while `ipv6_ext_count < 10`, and each round adds one.
unfoldable pub ext_loop : ℕ → Bytes → ℕ → ℕ → ExtState → Exec ExtState
ext_loop zero packet caplen v6_off s = ret s
ext_loop (suc n) packet caplen v6_off s = elim (s.nxt == 0 || s.nxt == 43 || s.nxt == 60) [
  | true ↦ elim (ltb_int (to_int caplen) (v6_off + 8)) [
    | true ↦ ret s
    | false ↦ do
      nxt ← rd packet v6_off
      len ← rd packet (v6_off + 1)
      ext_loop n packet caplen (v6_off + (len + 1) * 8)
          (record { nxt = nxt; fragment = s.fragment; count = s.count + 1 })
  ]
  | false ↦ elim (s.nxt == 44) [
    | true ↦ do
      nxt ← rd packet v6_off
      ext_loop n packet caplen (v6_off + 8)
          (record { nxt = nxt; fragment = 1; count = s.count + 1 })
    | false ↦ ret s
  ]
]

-- `if (info.is_ipv6) { … }`
unfoldable pub dissect_ext : Bytes → ℕ → ℕ → PacketInfo → Exec PacketInfo
dissect_ext packet caplen ip_at info = do
  flow ← be32 packet ip_at
  nxt ← rd packet (ip_at + 6)
  s ←
      ext_loop (10 - info.ipv6_ext_count) packet caplen (info.l3_offset + 40)
        (record { nxt = nxt; fragment = info.is_fragment; count = info.ipv6_ext_count })
  ret (record info {
    ipv6_flow = flow % 2 ^ 20;
    is_fragment = s.fragment;
    ipv6_ext_count = s.count;
    protocol = s.nxt;
  })

unfoldable pub dissect_icmp4 : Bytes → PacketInfo → Exec PacketInfo
dissect_icmp4 packet info = do
  t ← rd packet info.l4_offset
  c ← rd packet (info.l4_offset + 1)
  named ← dissect_icmp_details t c info.extra_info 128
  text ← check_icmp_unreachable t c named 128
  ret (record info { icmp_type = t; icmp_code = c; extra_info = text })

unfoldable pub dissect_icmp6 : Bytes → PacketInfo → Exec PacketInfo
dissect_icmp6 packet info = do
  t ← rd packet info.l4_offset
  c ← rd packet (info.l4_offset + 1)
  text ← dissect_icmp6_details t c info.extra_info 128
  ret (record info { icmp_type = t; icmp_code = c; extra_info = text })

-- `if (info.protocol == IPPROTO_ICMP || info.protocol == IPPROTO_ICMPV6) { … }`
unfoldable pub dissect_icmp : Bytes → ℕ → PacketInfo → Exec PacketInfo
dissect_icmp packet caplen info =
    if info.protocol == 1 && leb (info.l4_offset + 8) caplen
    then dissect_icmp4 packet info
    else if info.protocol == 58 && leb (info.l4_offset + 8) caplen
    then dissect_icmp6 packet info
    else ret info

abbrev pub is_port : PacketInfo → ℕ → Bool
is_port info n = info.src_port == n || info.dst_port == n

-- The choice for a TCP payload of more than 0 bytes.
unfoldable pub dissect_tcp_payload : Bytes → ℤ → PacketInfo → Exec PacketInfo
dissect_tcp_payload p len info =
    if is_port info 80
    then dissect_http p len info.extra_info 128
      >>= (λ text. ret (record info { extra_info = text }))
    else if is_port info 4789
    then dissect_vxlan p len info
    else do
      first ← rd info.tls_sni 0
      if first == 0
          then dissect_app_common p len info.extra_info 128
            >>= (λ text. ret (record info { extra_info = text }))
          else dissect_tls_sni p len info.tls_sni 64
            >>= (λ name. ret (record info { tls_sni = name }))

-- `if (transport_info.payload_ptr && transport_info.payload_len > 0) { … }`
unfoldable pub tcp_payload : Bytes → ℤ → PacketInfo → Option ℕ → Exec PacketInfo
tcp_payload packet len info none = ret info
tcp_payload packet len info (some i) =
    if ltb_int len 1 then ret info else dissect_tcp_payload (drop i packet) len info

-- The header length given to parse_tcp_options_extended.
abbrev pub tcp_header_len : Option ℕ → ℕ → ℕ
tcp_header_len none start = 20
tcp_header_len (some i) start = i - start

unfoldable pub dissect_tcp : Bytes → IpInfo → TransportInfo → PacketInfo → Exec PacketInfo
dissect_tcp packet ip t info = do
  let named = record info {
    tcp_flags = t.flags;
    tcp_seq = t.seq;
    tcp_ack = t.ack;
    tcp_win = t.window;
  }
  let start = info.l3_offset + ip.header_len
  opts ← parse_tcp_options_extended packet start (tcp_header_len t.payload_ptr start) named
  checked ← check_tcp_anomalies opts t
  tcp_payload packet t.payload_len checked t.payload_ptr

abbrev pub is_some : Option ℕ → Bool
is_some none = false
is_some (some i) = true

unfoldable pub dissect_udp : Bytes → TransportInfo → PacketInfo → Exec PacketInfo
dissect_udp packet t info =
    if is_port info 53 && is_some t.payload_ptr
    then dissect_dns (at_pointer packet t.payload_ptr) t.payload_len info.dns_query 64
      >>= (λ name. ret (record info { dns_query = name }))
    else if is_port info 67 || is_port info 68
    then dissect_dhcp (at_pointer packet t.payload_ptr) t.payload_len info.extra_info 128
      >>= (λ text. ret (record info { extra_info = text }))
    else if is_port info 123
    then dissect_ntp (at_pointer packet t.payload_ptr) t.payload_len info
      >>= (λ i. dissect_ntp_core (at_pointer packet t.payload_ptr) t.payload_len i)
    else ret info

-- The three tests on protocols with no ports; none of the three branches changes the protocol.
unfoldable pub dissect_other : Bytes → ℕ → PacketInfo → Exec PacketInfo
dissect_other packet caplen info =
    if info.protocol == 89
    then dissect_ospf (drop info.l4_offset packet) (rest_len caplen info.l4_offset) info.extra_info
        128
      >>= (λ text. ret (record info { extra_info = text }))
    else if info.protocol == 47
    then dissect_gre (drop info.l4_offset packet) (rest_len caplen info.l4_offset) info.extra_info
        128
      >>= (λ text. ret (record info { extra_info = text }))
    else if info.protocol == 2
    then dissect_igmp (drop info.l4_offset packet) (rest_len caplen info.l4_offset) info
    else ret info

-- `if (transport_info_opt) { … }`
unfoldable pub dissect_transport :
    Bytes → ℕ → IpInfo → Option TransportInfo → PacketInfo → Exec PacketInfo
dissect_transport packet caplen ip none info = ret info
dissect_transport packet caplen ip (some t) info = do
  let ported = record info { src_port = t.src_port; dst_port = t.dst_port }
  done ←
      (if info.protocol == 6
        then dissect_tcp packet ip t ported
        else if info.protocol == 17
        then dissect_udp packet t ported
        else ret ported)
  dissect_other packet caplen done

abbrev pub flag : Bool → ℕ
flag true = 1
flag false = 0

-- `info` with what the IP header says.
unfoldable pub with_ip : ℕ → IpInfo → PacketInfo → PacketInfo
with_ip eth_hlen ip info = record info {
  src_ip = ip.src_ip;
  dst_ip = ip.dst_ip;
  protocol = ip.protocol;
  l4_offset = u8 (eth_hlen + ip.header_len);
  ip_ttl = ip.ttl;
  ip_tos = ip.tos;
  ip_id = ip.id;
  is_ipv6 = flag ip.is_ipv6;
  is_fragment = flag ip.is_fragment;
}

-- `if (ip_info_opt) { … }`
unfoldable pub dissect_ip : Bytes → ℕ → ℕ → Option IpInfo → PacketInfo → Exec PacketInfo
dissect_ip packet caplen eth_hlen none info = ret info
dissect_ip packet caplen eth_hlen (some ip) info = do
  let known = with_ip eth_hlen ip info
  extended ← (if ip.is_ipv6 then dissect_ext packet caplen eth_hlen known else ret known)
  pinged ← dissect_icmp packet caplen extended
  t ← parse_transport_layer packet caplen eth_hlen ip
  dissect_transport packet caplen ip t pinged
