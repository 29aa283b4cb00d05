-- ===== src/Send/Layout.antt =====
-- The bytes of a PacketInfo (cpp/packet_types.h), a packed struct on a machine that stores the low
-- byte first, and how the packet service reads them (rust/packet_service/src/handlers.rs).
pub mod RoundTrip
use pacsni.Prelude.{
  ℕ, zero, suc, ◌+◌, ◌*◌, ◌/◌, ◌%◌, List, [], ◌∷◌, ◌++◌, ◌==◌, if◌then◌else◌, take, drop, concat,
  get_or, replicate,
}
use pacsni.Memory.{Bytes}
use pacsni.Packet.{PacketInfo}

-- A number in `w` bytes, and the number that bytes stand for: `get_u16_le` and the like.
unfoldable pub le : ℕ → ℕ → Bytes
le zero n = []
le (suc w) n = (n % 256) ∷ le w (n / 256)

unfoldable pub value : Bytes → ℕ
value [] = 0
value (b ∷ bs) = b + 256 * value bs

-- The members in their order.
unfoldable pub members : PacketInfo → List Bytes
members i =
    (le 8 i.timestamp)
    ∷ i.src_ip
    ∷ i.dst_ip
    ∷ (le 2 i.src_port)
    ∷ (le 2 i.dst_port)
    ∷ (le 1 i.protocol)
    ∷ (le 1 i.has_tcp_ao)
    ∷ (le 1 i.tcp_flags)
    ∷ (le 1 i.l3_offset)
    ∷ (le 1 i.l4_offset)
    ∷ (le 4 i.tcp_seq)
    ∷ (le 4 i.tcp_ack)
    ∷ (le 1 i.icmp_type)
    ∷ (le 1 i.icmp_code)
    ∷ (le 4 i.delta_time)
    ∷ (le 2 i.vlan_id)
    ∷ (le 1 i.ip_ttl)
    ∷ (le 1 i.ip_tos)
    ∷ (le 2 i.tcp_win)
    ∷ (le 2 i.ip_id)
    ∷ (le 1 i.is_ipv6)
    ∷ (le 1 i.is_fragment)
    ∷ (le 2 i.tcp_mss)
    ∷ (le 1 i.tcp_ws)
    ∷ (le 1 i.ipv6_ext_count)
    ∷ (le 4 i.ipv6_flow)
    ∷ (le 4 i.wire_len)
    ∷ (le 4 i.tcp_ts_val)
    ∷ (le 4 i.tcp_ts_ecr)
    ∷ (le 1 i.tcp_sack)
    ∷ (le 4 i.tcp_rtt)
    ∷ (le 4 i.vxlan_vni)
    ∷ (le 4 i.entropy_scaled)
    ∷ (le 1 i.ntp_stratum)
    ∷ (le 1 i.ntp_mode)
    ∷ (le 1 i.igmp_type)
    ∷ i.igmp_group
    ∷ i.lldp_chassis
    ∷ i.lldp_port
    ∷ i.tcp_sack_edges
    ∷ (le 1 i.top_byte)
    ∷ (le 1 i.top_byte_freq)
    ∷ i.pad
    ∷ (le 2 i.payload_len)
    ∷ i.src_mac
    ∷ i.dst_mac
    ∷ i.dns_query
    ∷ i.tls_sni
    ∷ i.extra_info
    ∷ i.app_layer_info
    ∷ i.payload
    ∷ i.final_pad
    ∷ []

-- `reinterpret_cast<const unsigned char*>(&info)`
unfoldable pub bytes_of : PacketInfo → Bytes
unfolding members
bytes_of i = concat (members i)

-- The sizes that the service reads, one after the other.
abbrev pub widths : List ℕ
widths =
    8 ∷ 16 ∷ 16 ∷ 2 ∷ 2 ∷ 1 ∷ 1 ∷ 1 ∷ 1 ∷ 1 ∷ 4 ∷ 4 ∷ 1 ∷ 1 ∷ 4 ∷ 2 ∷ 1 ∷ 1 ∷ 2 ∷ 2 ∷ 1 ∷ 1 ∷ 2 ∷ 1
    ∷ 1 ∷ 4 ∷ 4 ∷ 4 ∷ 4 ∷ 1 ∷ 4 ∷ 4 ∷ 4 ∷ 1 ∷ 1 ∷ 1 ∷ 4 ∷ 32 ∷ 32 ∷ 32 ∷ 1 ∷ 1 ∷ 151 ∷ 2 ∷ 6 ∷ 6
    ∷ 64 ∷ 64 ∷ 128 ∷ 128 ∷ 256 ∷ 8 ∷ []

-- Reads of these sizes.
unfoldable pub cut : List ℕ → Bytes → List Bytes
cut [] b = []
cut (w ∷ ws) b = take w b ∷ cut ws (drop w b)

-- `get_u8() != 0`
unfoldable pub truth : Bytes → ℕ
truth b = if value b == 0 then 0 else 1

-- What the service has read: the two paddings are skipped, and the eight SACK edges are kept as
-- their bytes.
unfoldable pub assemble : List Bytes → PacketInfo
assemble c = record {
  timestamp = value (get_or c 0 []);
  src_ip = get_or c 1 [];
  dst_ip = get_or c 2 [];
  src_port = value (get_or c 3 []);
  dst_port = value (get_or c 4 []);
  protocol = value (get_or c 5 []);
  has_tcp_ao = truth (get_or c 6 []);
  tcp_flags = value (get_or c 7 []);
  l3_offset = value (get_or c 8 []);
  l4_offset = value (get_or c 9 []);
  tcp_seq = value (get_or c 10 []);
  tcp_ack = value (get_or c 11 []);
  icmp_type = value (get_or c 12 []);
  icmp_code = value (get_or c 13 []);
  delta_time = value (get_or c 14 []);
  vlan_id = value (get_or c 15 []);
  ip_ttl = value (get_or c 16 []);
  ip_tos = value (get_or c 17 []);
  tcp_win = value (get_or c 18 []);
  ip_id = value (get_or c 19 []);
  is_ipv6 = truth (get_or c 20 []);
  is_fragment = truth (get_or c 21 []);
  tcp_mss = value (get_or c 22 []);
  tcp_ws = value (get_or c 23 []);
  ipv6_ext_count = value (get_or c 24 []);
  ipv6_flow = value (get_or c 25 []);
  wire_len = value (get_or c 26 []);
  tcp_ts_val = value (get_or c 27 []);
  tcp_ts_ecr = value (get_or c 28 []);
  tcp_sack = truth (get_or c 29 []);
  tcp_rtt = value (get_or c 30 []);
  vxlan_vni = value (get_or c 31 []);
  entropy_scaled = value (get_or c 32 []);
  ntp_stratum = value (get_or c 33 []);
  ntp_mode = value (get_or c 34 []);
  igmp_type = value (get_or c 35 []);
  igmp_group = get_or c 36 [];
  lldp_chassis = get_or c 37 [];
  lldp_port = get_or c 38 [];
  tcp_sack_edges = get_or c 39 [];
  top_byte = value (get_or c 40 []);
  top_byte_freq = value (get_or c 41 []);
  pad = replicate 151 0;
  payload_len = value (get_or c 43 []);
  src_mac = get_or c 44 [];
  dst_mac = get_or c 45 [];
  dns_query = get_or c 46 [];
  tls_sni = get_or c 47 [];
  extra_info = get_or c 48 [];
  app_layer_info = get_or c 49 [];
  payload = get_or c 50 [];
  final_pad = replicate 8 0;
}

unfoldable pub read_record : Bytes → PacketInfo
unfolding cut assemble
read_record b = assemble (cut widths b)
