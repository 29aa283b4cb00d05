-- ===== src/Packet/Info.antt =====
-- The records that PacketInfo's types allow, and that the packet service reads as they were sent.
use pacsni.Prelude.{◌^◌, ◌<◌, ◌≡◌, ap, length, replicate}
use pacsni.Packet.{PacketInfo}

-- The members are in the ranges of their types, the flags are 0 or 1, and the paddings are zero.
pub record IsInfo (i : PacketInfo) : Type 0 where
  pub timestamp : i.timestamp < 2 ^ 64
  pub src_ip : length i.src_ip ≡ 16
  pub dst_ip : length i.dst_ip ≡ 16
  pub src_port : i.src_port < 2 ^ 16
  pub dst_port : i.dst_port < 2 ^ 16
  pub protocol : i.protocol < 2 ^ 8
  pub has_tcp_ao : i.has_tcp_ao < 2
  pub tcp_flags : i.tcp_flags < 2 ^ 8
  pub l3_offset : i.l3_offset < 2 ^ 8
  pub l4_offset : i.l4_offset < 2 ^ 8
  pub tcp_seq : i.tcp_seq < 2 ^ 32
  pub tcp_ack : i.tcp_ack < 2 ^ 32
  pub icmp_type : i.icmp_type < 2 ^ 8
  pub icmp_code : i.icmp_code < 2 ^ 8
  pub delta_time : i.delta_time < 2 ^ 32
  pub vlan_id : i.vlan_id < 2 ^ 16
  pub ip_ttl : i.ip_ttl < 2 ^ 8
  pub ip_tos : i.ip_tos < 2 ^ 8
  pub tcp_win : i.tcp_win < 2 ^ 16
  pub ip_id : i.ip_id < 2 ^ 16
  pub is_ipv6 : i.is_ipv6 < 2
  pub is_fragment : i.is_fragment < 2
  pub tcp_mss : i.tcp_mss < 2 ^ 16
  pub tcp_ws : i.tcp_ws < 2 ^ 8
  pub ipv6_ext_count : i.ipv6_ext_count < 2 ^ 8
  pub ipv6_flow : i.ipv6_flow < 2 ^ 32
  pub wire_len : i.wire_len < 2 ^ 32
  pub tcp_ts_val : i.tcp_ts_val < 2 ^ 32
  pub tcp_ts_ecr : i.tcp_ts_ecr < 2 ^ 32
  pub tcp_sack : i.tcp_sack < 2
  pub tcp_rtt : i.tcp_rtt < 2 ^ 32
  pub vxlan_vni : i.vxlan_vni < 2 ^ 32
  pub entropy_scaled : i.entropy_scaled < 2 ^ 32
  pub ntp_stratum : i.ntp_stratum < 2 ^ 8
  pub ntp_mode : i.ntp_mode < 2 ^ 8
  pub igmp_type : i.igmp_type < 2 ^ 8
  pub igmp_group : length i.igmp_group ≡ 4
  pub lldp_chassis : length i.lldp_chassis ≡ 32
  pub lldp_port : length i.lldp_port ≡ 32
  pub tcp_sack_edges : length i.tcp_sack_edges ≡ 32
  pub top_byte : i.top_byte < 2 ^ 8
  pub top_byte_freq : i.top_byte_freq < 2 ^ 8
  pub pad : i.pad ≡ replicate 151 0
  pub payload_len : i.payload_len < 2 ^ 16
  pub src_mac : length i.src_mac ≡ 6
  pub dst_mac : length i.dst_mac ≡ 6
  pub dns_query : length i.dns_query ≡ 64
  pub tls_sni : length i.tls_sni ≡ 64
  pub extra_info : length i.extra_info ≡ 128
  pub app_layer_info : length i.app_layer_info ≡ 128
  pub payload : length i.payload ≡ 256
  pub final_pad : i.final_pad ≡ replicate 8 0

-- The arrays have the lengths that the struct gives them, whatever the members hold.
pub record HasLayout (i : PacketInfo) : Type 0 where
  pub src_ip : length i.src_ip ≡ 16
  pub dst_ip : length i.dst_ip ≡ 16
  pub igmp_group : length i.igmp_group ≡ 4
  pub lldp_chassis : length i.lldp_chassis ≡ 32
  pub lldp_port : length i.lldp_port ≡ 32
  pub tcp_sack_edges : length i.tcp_sack_edges ≡ 32
  pub pad : length i.pad ≡ 151
  pub src_mac : length i.src_mac ≡ 6
  pub dst_mac : length i.dst_mac ≡ 6
  pub dns_query : length i.dns_query ≡ 64
  pub tls_sni : length i.tls_sni ≡ 64
  pub extra_info : length i.extra_info ≡ 128
  pub app_layer_info : length i.app_layer_info ≡ 128
  pub payload : length i.payload ≡ 256
  pub final_pad : length i.final_pad ≡ 8

pub IsInfo-HasLayout : {i : PacketInfo} → IsInfo i → HasLayout i
IsInfo-HasLayout v = record {
  src_ip = v.src_ip;
  dst_ip = v.dst_ip;
  igmp_group = v.igmp_group;
  lldp_chassis = v.lldp_chassis;
  lldp_port = v.lldp_port;
  tcp_sack_edges = v.tcp_sack_edges;
  pad = ap length v.pad;
  src_mac = v.src_mac;
  dst_mac = v.dst_mac;
  dns_query = v.dns_query;
  tls_sni = v.tls_sni;
  extra_info = v.extra_info;
  app_layer_info = v.app_layer_info;
  payload = v.payload;
  final_pad = ap length v.final_pad;
}
