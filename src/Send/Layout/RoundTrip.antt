-- ===== src/Send/Layout/RoundTrip.antt =====
-- The packet service reads what the sender wrote.
use pacsni.Prelude.{
  ℕ, zero, suc, ◌+◌, ◌/◌, ◌^◌, ◌<◌, ◌≡◌, refl, sym, ap, ap₂, ◌∙◌, List, [], ◌∷◌, ◌++◌, length,
  length-append, append_assoc, take-append, drop-append, take, drop, concat, arith,
}
use native.Mathlib.Nat.{pow-suc}
use pacsni.Memory.{Bytes}
use pacsni.Packet.{PacketInfo}
use pacsni.Packet.Info.{IsInfo, HasLayout, IsInfo-HasLayout}
use pacsni.Send.Layout.{le, value, members, bytes_of, widths, cut, truth, assemble, read_record}

length-le : (w n : ℕ) → length (le w n) ≡ w
unfolding le
length-le zero n = refl
length-le (suc w) n = ap suc (length-le w (n / 256))

value-le : (w n : ℕ) → n < 256 ^ w → value (le w n) ≡ n
unfolding le value
value-le zero n h = omega arith
value-le (suc w) n h =
    omega (arith, value-le w (n / 256) (omega (arith, pow-suc 256 w)), pow-suc 256 w)

truth-le : (n : ℕ) → n < 2 → truth (le 1 n) ≡ n
unfolding truth
truth-le n h = ground (arith, value-le 1 n)

-- The sizes of the members.
abbrev sizes : List Bytes → List ℕ
sizes [] = []
sizes (b ∷ bs) = length b ∷ sizes bs

cut-concat : (bs : List Bytes) (rest : Bytes) → cut (sizes bs) (concat bs ++ rest) ≡ bs
unfolding cut
cut-concat [] rest = refl
cut-concat (b ∷ bs) rest =
    let whole : length b ≡ length b + 0 = omega arith in
    let group : (b ++ concat bs) ++ rest ≡ b ++ (concat bs ++ rest) =
      append_assoc b (concat bs) rest in
    let front : take (length b) ((b ++ concat bs) ++ rest) ≡ b =
      ap (take (length b)) group ∙ take-append b (concat bs ++ rest) in
    let back : drop (length b) ((b ++ concat bs) ++ rest) ≡ concat bs ++ rest =
      ap (drop (length b)) group
      ∙ ap (λ n. drop n (b ++ (concat bs ++ rest))) whole
      ∙ drop-append b (concat bs ++ rest) 0 in
    ap₂ ◌∷◌ front (ap (cut (sizes bs)) back ∙ cut-concat bs rest)

sizes-members : (i : PacketInfo) → HasLayout i → sizes (members i) ≡ widths
unfolding members
sizes-members i v = λ j.
    length-le 8 i.timestamp j
    ∷ v.src_ip j
    ∷ v.dst_ip j
    ∷ length-le 2 i.src_port j
    ∷ length-le 2 i.dst_port j
    ∷ length-le 1 i.protocol j
    ∷ length-le 1 i.has_tcp_ao j
    ∷ length-le 1 i.tcp_flags j
    ∷ length-le 1 i.l3_offset j
    ∷ length-le 1 i.l4_offset j
    ∷ length-le 4 i.tcp_seq j
    ∷ length-le 4 i.tcp_ack j
    ∷ length-le 1 i.icmp_type j
    ∷ length-le 1 i.icmp_code j
    ∷ length-le 4 i.delta_time j
    ∷ length-le 2 i.vlan_id j
    ∷ length-le 1 i.ip_ttl j
    ∷ length-le 1 i.ip_tos j
    ∷ length-le 2 i.tcp_win j
    ∷ length-le 2 i.ip_id j
    ∷ length-le 1 i.is_ipv6 j
    ∷ length-le 1 i.is_fragment j
    ∷ length-le 2 i.tcp_mss j
    ∷ length-le 1 i.tcp_ws j
    ∷ length-le 1 i.ipv6_ext_count j
    ∷ length-le 4 i.ipv6_flow j
    ∷ length-le 4 i.wire_len j
    ∷ length-le 4 i.tcp_ts_val j
    ∷ length-le 4 i.tcp_ts_ecr j
    ∷ length-le 1 i.tcp_sack j
    ∷ length-le 4 i.tcp_rtt j
    ∷ length-le 4 i.vxlan_vni j
    ∷ length-le 4 i.entropy_scaled j
    ∷ length-le 1 i.ntp_stratum j
    ∷ length-le 1 i.ntp_mode j
    ∷ length-le 1 i.igmp_type j
    ∷ v.igmp_group j
    ∷ v.lldp_chassis j
    ∷ v.lldp_port j
    ∷ v.tcp_sack_edges j
    ∷ length-le 1 i.top_byte j
    ∷ length-le 1 i.top_byte_freq j
    ∷ v.pad j
    ∷ length-le 2 i.payload_len j
    ∷ v.src_mac j
    ∷ v.dst_mac j
    ∷ v.dns_query j
    ∷ v.tls_sni j
    ∷ v.extra_info j
    ∷ v.app_layer_info j
    ∷ v.payload j
    ∷ v.final_pad j
    ∷ []

sum : List ℕ → ℕ
sum [] = 0
sum (n ∷ ns) = n + sum ns

length-concat : (bs : List Bytes) → length (concat bs) ≡ sum (sizes bs)
unfolding sum
length-concat [] = refl
length-concat (b ∷ bs) = omega (arith, length-append b (concat bs), length-concat bs)

-- The struct has 1024 bytes, as the code asserts when it is compiled.
pub length-bytes_of : (i : PacketInfo) → HasLayout i → length (bytes_of i) ≡ 1024
unfolding bytes_of sum
length-bytes_of i v = length-concat (members i) ∙ ap sum (sizes-members i v)

assemble-members : (i : PacketInfo) → IsInfo i → assemble (members i) ≡ i
unfolding assemble members
assemble-members i v = λ j. record {
  timestamp = value-le 8 i.timestamp (omega (arith, v.timestamp)) j;
  src_ip = i.src_ip;
  dst_ip = i.dst_ip;
  src_port = value-le 2 i.src_port (omega (arith, v.src_port)) j;
  dst_port = value-le 2 i.dst_port (omega (arith, v.dst_port)) j;
  protocol = value-le 1 i.protocol (omega (arith, v.protocol)) j;
  has_tcp_ao = truth-le i.has_tcp_ao v.has_tcp_ao j;
  tcp_flags = value-le 1 i.tcp_flags (omega (arith, v.tcp_flags)) j;
  l3_offset = value-le 1 i.l3_offset (omega (arith, v.l3_offset)) j;
  l4_offset = value-le 1 i.l4_offset (omega (arith, v.l4_offset)) j;
  tcp_seq = value-le 4 i.tcp_seq (omega (arith, v.tcp_seq)) j;
  tcp_ack = value-le 4 i.tcp_ack (omega (arith, v.tcp_ack)) j;
  icmp_type = value-le 1 i.icmp_type (omega (arith, v.icmp_type)) j;
  icmp_code = value-le 1 i.icmp_code (omega (arith, v.icmp_code)) j;
  delta_time = value-le 4 i.delta_time (omega (arith, v.delta_time)) j;
  vlan_id = value-le 2 i.vlan_id (omega (arith, v.vlan_id)) j;
  ip_ttl = value-le 1 i.ip_ttl (omega (arith, v.ip_ttl)) j;
  ip_tos = value-le 1 i.ip_tos (omega (arith, v.ip_tos)) j;
  tcp_win = value-le 2 i.tcp_win (omega (arith, v.tcp_win)) j;
  ip_id = value-le 2 i.ip_id (omega (arith, v.ip_id)) j;
  is_ipv6 = truth-le i.is_ipv6 v.is_ipv6 j;
  is_fragment = truth-le i.is_fragment v.is_fragment j;
  tcp_mss = value-le 2 i.tcp_mss (omega (arith, v.tcp_mss)) j;
  tcp_ws = value-le 1 i.tcp_ws (omega (arith, v.tcp_ws)) j;
  ipv6_ext_count = value-le 1 i.ipv6_ext_count (omega (arith, v.ipv6_ext_count)) j;
  ipv6_flow = value-le 4 i.ipv6_flow (omega (arith, v.ipv6_flow)) j;
  wire_len = value-le 4 i.wire_len (omega (arith, v.wire_len)) j;
  tcp_ts_val = value-le 4 i.tcp_ts_val (omega (arith, v.tcp_ts_val)) j;
  tcp_ts_ecr = value-le 4 i.tcp_ts_ecr (omega (arith, v.tcp_ts_ecr)) j;
  tcp_sack = truth-le i.tcp_sack v.tcp_sack j;
  tcp_rtt = value-le 4 i.tcp_rtt (omega (arith, v.tcp_rtt)) j;
  vxlan_vni = value-le 4 i.vxlan_vni (omega (arith, v.vxlan_vni)) j;
  entropy_scaled = value-le 4 i.entropy_scaled (omega (arith, v.entropy_scaled)) j;
  ntp_stratum = value-le 1 i.ntp_stratum (omega (arith, v.ntp_stratum)) j;
  ntp_mode = value-le 1 i.ntp_mode (omega (arith, v.ntp_mode)) j;
  igmp_type = value-le 1 i.igmp_type (omega (arith, v.igmp_type)) j;
  igmp_group = i.igmp_group;
  lldp_chassis = i.lldp_chassis;
  lldp_port = i.lldp_port;
  tcp_sack_edges = i.tcp_sack_edges;
  top_byte = value-le 1 i.top_byte (omega (arith, v.top_byte)) j;
  top_byte_freq = value-le 1 i.top_byte_freq (omega (arith, v.top_byte_freq)) j;
  pad = sym v.pad j;
  payload_len = value-le 2 i.payload_len (omega (arith, v.payload_len)) j;
  src_mac = i.src_mac;
  dst_mac = i.dst_mac;
  dns_query = i.dns_query;
  tls_sni = i.tls_sni;
  extra_info = i.extra_info;
  app_layer_info = i.app_layer_info;
  payload = i.payload;
  final_pad = sym v.final_pad j;
}

-- Of the bytes of a record whose members are in the ranges of their types, whose flags are 0 or 1,
-- and whose paddings are zero, the packet service reads that record, whatever follows them.
pub read_record-bytes_of :
    (i : PacketInfo) (rest : Bytes) → IsInfo i → read_record (bytes_of i ++ rest) ≡ i
unfolding bytes_of read_record
read_record-bytes_of i rest v =
    ap (λ ws. assemble (cut ws (concat (members i) ++ rest)))
      (sym (sizes-members i (IsInfo-HasLayout v)))
    ∙ ap assemble (cut-concat (members i) rest)
    ∙ assemble-members i v
