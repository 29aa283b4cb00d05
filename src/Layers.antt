-- ===== src/Layers.antt =====
-- The three header parsers of cpp/protocol_dissectors.cpp: parse_ethernet_layer, parse_ip_layer and
-- parse_transport_layer. `packet` is the array that the pointer of the same name points to.
pub mod Ethernet
pub mod Ip
pub mod Transport
use pacsni.Prelude.{
  ℕ, zero, suc, ◌^◌, ◌*◌, ◌+◌, ◌%◌, ◌/◌, ◌-◌, Bool, true, false, not, ◌&&◌, ◌||◌, Option, none,
  some, ltb, leb, ◌==◌, if◌then◌else◌, length, pos, sub_ℕ, Exec, ret, fault, diverge, ◌>>=◌,
}
use pacsni.Memory.{Bytes, u32, rd, be16, be32, memcpy}
use pacsni.Packet.{EthernetInfo, IpInfo, zero_ip, TransportInfo, zero_transport}

unfoldable pub is_vlan : ℕ → Bool
is_vlan etype = etype == 0x8100 || etype == 0x88a8

-- The loop's test.
unfoldable pub more_tags : ℕ → ℕ → ℕ → Bool
more_tags etype hlen caplen = is_vlan etype && leb (u32 (hlen + 4)) caplen

-- The loop over the VLAN tags; it returns `hlen`, `etype` and `v_id`.
unfoldable pub vlan_loop : ℕ → Bytes → ℕ → ℕ → ℕ → ℕ → Exec (ℕ × ℕ × ℕ)
vlan_loop zero packet caplen hlen etype v_id = diverge
vlan_loop (suc f) packet caplen hlen etype v_id = elim (more_tags etype hlen caplen) [
  | true ↦ do
    v ← be16 packet hlen
    t ← be16 packet (hlen + 2)
    vlan_loop f packet caplen (hlen + 4) t (v % 4096)
  | false ↦ ret (hlen, etype, v_id)
]

abbrev pub ethernet_info : ℕ × ℕ × ℕ → Option EthernetInfo
ethernet_info (hlen, etype, v_id) =
    some (record { header = 0; header_len = hlen; ether_type = etype; vlan_id = v_id })

-- Each round reads four bytes that no round before it has read: the fuel is one more than the
-- array's length.
unfoldable pub parse_ethernet_layer : Bytes → ℕ → Exec (Option EthernetInfo)
parse_ethernet_layer packet caplen = if ltb caplen 14 then ret none else do
  etype ← be16 packet 12
  tags ← vlan_loop (length packet + 1) packet caplen 14 etype 0
  ret (ethernet_info tags)

-- `version == 4`: the fields of `struct ip` by their offsets.
unfoldable pub parse_ipv4 : Bytes → ℕ → ℕ → Exec (Option IpInfo)
parse_ipv4 packet caplen eth_hlen = if ltb caplen (u32 (eth_hlen + 20)) then ret none else do
  ihl ← rd packet eth_hlen
  let hlen = ihl % 16 * 4
  if ltb hlen 20 || ltb caplen (u32 (eth_hlen + hlen)) then ret none else do
    src ← memcpy zero_ip.src_ip 12 packet (eth_hlen + 12) 4
    dst ← memcpy zero_ip.dst_ip 12 packet (eth_hlen + 16) 4
    protocol ← rd packet (eth_hlen + 9)
    ttl ← rd packet (eth_hlen + 8)
    tos ← rd packet (eth_hlen + 1)
    id ← be16 packet (eth_hlen + 4)
    off ← be16 packet (eth_hlen + 6)
    ret (
        some (record {
          header = some eth_hlen;
          header_len = hlen;
          src_ip = src;
          dst_ip = dst;
          protocol = protocol;
          ttl = ttl;
          tos = tos;
          id = id;
          is_ipv6 = false;
          is_fragment = not (off % 0x4000 == 0);
        }))

-- `version == 6`: the fields of `struct ip6_hdr` by their offsets. `info.id` and
-- `info.is_fragment` stay as memset has left them.
unfoldable pub parse_ipv6 : Bytes → ℕ → ℕ → Exec (Option IpInfo)
parse_ipv6 packet caplen eth_hlen = if ltb caplen (u32 (eth_hlen + 40)) then ret none else do
  src ← memcpy zero_ip.src_ip 0 packet (eth_hlen + 8) 16
  dst ← memcpy zero_ip.dst_ip 0 packet (eth_hlen + 24) 16
  protocol ← rd packet (eth_hlen + 6)
  ttl ← rd packet (eth_hlen + 7)
  flow ← be32 packet eth_hlen
  ret (
      some (record zero_ip {
        header = some eth_hlen;
        header_len = 40;
        src_ip = src;
        dst_ip = dst;
        protocol = protocol;
        ttl = ttl;
        tos = flow / 2 ^ 20 % 256;
        is_ipv6 = true;
      }))

unfoldable pub parse_ip_layer : Bytes → ℕ → ℕ → Exec (Option IpInfo)
parse_ip_layer packet caplen eth_hlen = if ltb caplen (u32 (eth_hlen + 1)) then ret none else do
  first ← rd packet eth_hlen
  let version = first / 16 % 16
  if version == 4
      then parse_ipv4 packet caplen eth_hlen
      else if version == 6
      then parse_ipv6 packet caplen eth_hlen
      else ret none

-- `ntohs(((const struct ip*)ip_i.header)->ip_len)`
unfoldable pub ip_total_length : Bytes → Option ℕ → Exec ℕ
ip_total_length packet none = fault
ip_total_length packet (some header) = be16 packet (header + 2)

unfoldable pub parse_tcp : Bytes → ℕ → ℕ → IpInfo → Exec (Option TransportInfo)
parse_tcp packet caplen offset ip_i = if ltb caplen (u32 (offset + 20)) then ret none else do
  data_offset ← rd packet (offset + 12)
  let hlen = data_offset / 16 % 16 * 4
  if ltb hlen 20 || ltb caplen (u32 (offset + hlen)) then ret none else do
    src ← be16 packet offset
    dst ← be16 packet (offset + 2)
    seq ← be32 packet (offset + 4)
    ack ← be32 packet (offset + 8)
    window ← be16 packet (offset + 14)
    flags ← rd packet (offset + 13)
    total ← ip_total_length packet ip_i.header
    ret (
        some (record zero_transport {
          src_port = src;
          dst_port = dst;
          seq = seq;
          ack = ack;
          window = window;
          flags = flags;
          payload_ptr = some (offset + hlen);
          payload_len = sub_ℕ total (ip_i.header_len + hlen);
        }))

unfoldable pub parse_udp : Bytes → ℕ → ℕ → Exec (Option TransportInfo)
parse_udp packet caplen offset = if ltb caplen (u32 (offset + 8)) then ret none else do
  src ← be16 packet offset
  dst ← be16 packet (offset + 2)
  total ← be16 packet (offset + 4)
  ret (
      some (record zero_transport {
        src_port = src;
        dst_port = dst;
        payload_ptr = some (offset + 8);
        payload_len = sub_ℕ total 8;
      }))

unfoldable pub parse_transport_layer : Bytes → ℕ → ℕ → IpInfo → Exec (Option TransportInfo)
parse_transport_layer packet caplen eth_hlen ip_i =
    let offset = eth_hlen + ip_i.header_len in
    if ip_i.protocol == 6
    then parse_tcp packet caplen offset ip_i
    else if ip_i.protocol == 17
    then parse_udp packet caplen offset
    else ret (some zero_transport)
