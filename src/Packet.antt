-- ===== src/Packet.antt =====
-- The data types of cpp/packet_types.h and cpp/protocol_dissectors.h. A pointer into the captured
-- packet is an offset into it; a null pointer is `none`. An array field is the list of its bytes
-- (`tcp_sack_edges` of its 32 bytes).
pub mod Info
use pacsni.Prelude.{ℕ, Bool, false, Option, replicate, ℤ}
use pacsni.Memory.{Bytes}

-- `MAX_PAYLOAD_SIZE`
abbrev pub max_payload_size : ℕ
max_payload_size = 256

pub record PacketInfo : Type 0 where
  pub timestamp : ℕ
  pub src_ip : Bytes
  pub dst_ip : Bytes
  pub src_port : ℕ
  pub dst_port : ℕ
  pub protocol : ℕ
  pub has_tcp_ao : ℕ
  pub tcp_flags : ℕ
  pub l3_offset : ℕ
  pub l4_offset : ℕ
  pub tcp_seq : ℕ
  pub tcp_ack : ℕ
  pub icmp_type : ℕ
  pub icmp_code : ℕ
  pub delta_time : ℕ
  pub vlan_id : ℕ
  pub ip_ttl : ℕ
  pub ip_tos : ℕ
  pub tcp_win : ℕ
  pub ip_id : ℕ
  pub is_ipv6 : ℕ
  pub is_fragment : ℕ
  pub tcp_mss : ℕ
  pub tcp_ws : ℕ
  pub ipv6_ext_count : ℕ
  pub ipv6_flow : ℕ
  pub wire_len : ℕ
  pub tcp_ts_val : ℕ
  pub tcp_ts_ecr : ℕ
  pub tcp_sack : ℕ
  pub tcp_rtt : ℕ
  pub vxlan_vni : ℕ
  pub entropy_scaled : ℕ
  pub ntp_stratum : ℕ
  pub ntp_mode : ℕ
  pub igmp_type : ℕ
  pub igmp_group : Bytes
  pub lldp_chassis : Bytes
  pub lldp_port : Bytes
  pub tcp_sack_edges : Bytes
  pub top_byte : ℕ
  pub top_byte_freq : ℕ
  pub pad : Bytes
  pub payload_len : ℕ
  pub src_mac : Bytes
  pub dst_mac : Bytes
  pub dns_query : Bytes
  pub tls_sni : Bytes
  pub extra_info : Bytes
  pub app_layer_info : Bytes
  pub payload : Bytes
  pub final_pad : Bytes

-- `memset(&info, 0, sizeof(info))`
abbrev pub zero_info : PacketInfo
zero_info = record {
  timestamp = 0;
  src_ip = replicate 16 0;
  dst_ip = replicate 16 0;
  src_port = 0;
  dst_port = 0;
  protocol = 0;
  has_tcp_ao = 0;
  tcp_flags = 0;
  l3_offset = 0;
  l4_offset = 0;
  tcp_seq = 0;
  tcp_ack = 0;
  icmp_type = 0;
  icmp_code = 0;
  delta_time = 0;
  vlan_id = 0;
  ip_ttl = 0;
  ip_tos = 0;
  tcp_win = 0;
  ip_id = 0;
  is_ipv6 = 0;
  is_fragment = 0;
  tcp_mss = 0;
  tcp_ws = 0;
  ipv6_ext_count = 0;
  ipv6_flow = 0;
  wire_len = 0;
  tcp_ts_val = 0;
  tcp_ts_ecr = 0;
  tcp_sack = 0;
  tcp_rtt = 0;
  vxlan_vni = 0;
  entropy_scaled = 0;
  ntp_stratum = 0;
  ntp_mode = 0;
  igmp_type = 0;
  igmp_group = replicate 4 0;
  lldp_chassis = replicate 32 0;
  lldp_port = replicate 32 0;
  tcp_sack_edges = replicate 32 0;
  top_byte = 0;
  top_byte_freq = 0;
  pad = replicate 151 0;
  payload_len = 0;
  src_mac = replicate 6 0;
  dst_mac = replicate 6 0;
  dns_query = replicate 64 0;
  tls_sni = replicate 64 0;
  extra_info = replicate 128 0;
  app_layer_info = replicate 128 0;
  payload = replicate 256 0;
  final_pad = replicate 8 0;
}

pub record EthernetInfo : Type 0 where
  pub header : ℕ
  pub header_len : ℕ
  pub ether_type : ℕ
  pub vlan_id : ℕ

pub record IpInfo : Type 0 where
  pub header : Option ℕ
  pub header_len : ℕ
  pub src_ip : Bytes
  pub dst_ip : Bytes
  pub protocol : ℕ
  pub ttl : ℕ
  pub tos : ℕ
  pub id : ℕ
  pub is_ipv6 : Bool
  pub is_fragment : Bool

-- `memset(&info, 0, sizeof(info))`
abbrev pub zero_ip : IpInfo
zero_ip = record {
  header = Option.none;
  header_len = 0;
  src_ip = replicate 16 0;
  dst_ip = replicate 16 0;
  protocol = 0;
  ttl = 0;
  tos = 0;
  id = 0;
  is_ipv6 = false;
  is_fragment = false;
}

pub record TransportInfo : Type 0 where
  pub src_port : ℕ
  pub dst_port : ℕ
  pub seq : ℕ
  pub ack : ℕ
  pub window : ℕ
  pub flags : ℕ
  pub mss : ℕ
  pub ws : ℕ
  pub has_ao : Bool
  pub payload_ptr : Option ℕ
  pub payload_len : ℤ

-- `memset(&t, 0, sizeof(t))`
abbrev pub zero_transport : TransportInfo
zero_transport = record {
  src_port = 0;
  dst_port = 0;
  seq = 0;
  ack = 0;
  window = 0;
  flags = 0;
  mss = 0;
  ws = 0;
  has_ao = false;
  payload_ptr = Option.none;
  payload_len = ℤ.pos 0;
}

-- `struct timeval` and `struct pcap_pkthdr`
pub record Timeval : Type 0 where
  pub tv_sec : ℕ
  pub tv_usec : ℕ

pub record PcapHeader : Type 0 where
  pub ts : Timeval
  pub caplen : ℕ
  pub len : ℕ

pub record RawPacket : Type 0 where
  pub pkthdr : PcapHeader
  pub contents : Bytes
  pub delta_time : ℕ
