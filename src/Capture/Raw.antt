-- ===== src/Capture/Raw.antt =====
-- dissect_raw_packet of cpp/packet_capture.cpp: from the captured bytes to the record that is sent.
use pacsni.Prelude.{
  ℕ, ◌+◌, ◌*◌, ◌%◌, ◌^◌, ◌&&◌, ◌||◌, none, some, [], ◌∷◌, ltb, leb, ◌==◌, if◌then◌else◌, drop, pos,
  Exec, ret, ◌>>=◌,
}
use pacsni.Memory.{Bytes, u8, u16, u32, rd, be16, agree, memcpy, read_at}
use pacsni.Packet.{PacketInfo, zero_info, EthernetInfo, RawPacket, max_payload_size}
use pacsni.Layers.{parse_ethernet_layer, parse_ip_layer}
use pacsni.Dissect.Info.{dissect_lldp}
use pacsni.Dissect.Stats.{calculate_byte_stats}
use pacsni.Capture.Text.{dissect_stp}
use pacsni.Capture.Entropy.{Floats, calculate_entropy_scaled}
use pacsni.Capture.Network.{rest_len, dissect_ip}

-- The record after memset and what the Ethernet header says.
unfoldable pub with_ethernet : RawPacket → EthernetInfo → Exec PacketInfo
with_ethernet raw eth = do
  src ← memcpy zero_info.src_mac 0 raw.contents (eth.header + 6) 6
  dst ← memcpy zero_info.dst_mac 0 raw.contents eth.header 6
  ret (record zero_info {
    timestamp = (raw.pkthdr.ts.tv_sec * 1000000 + raw.pkthdr.ts.tv_usec) % 2 ^ 64;
    delta_time = raw.delta_time;
    src_mac = src;
    dst_mac = dst;
    l3_offset = u8 eth.header_len;
    vlan_id = eth.vlan_id;
    wire_len = raw.pkthdr.len;
  })

unfoldable pub copy_arp : Bytes → ℕ → ℕ → PacketInfo → Exec PacketInfo
copy_arp packet sender target info = do
  src ← memcpy info.src_ip 12 packet sender 4
  dst ← memcpy info.dst_ip 12 packet target 4
  ret (record info { src_ip = src; dst_ip = dst })

-- The sender's and the target's address, where the protocol is IPv4.
unfoldable pub read_arp : Bytes → ℕ → PacketInfo → Exec PacketInfo
read_arp packet eth_hlen info = do
  pro ← be16 packet (eth_hlen + 2)
  hln ← rd packet (eth_hlen + 4)
  pln ← rd packet (eth_hlen + 5)
  let arp_ptr = eth_hlen + 8 + 2 * hln
  if pro == 0x0800 && pln == 4 then copy_arp packet arp_ptr (arp_ptr + 4 + hln) info else ret info

-- The branch for ETHERTYPE_ARP.
unfoldable pub dissect_arp : Bytes → ℕ → ℕ → PacketInfo → Exec PacketInfo
dissect_arp packet caplen eth_hlen info =
    if leb (u32 (u32 eth_hlen + 28)) caplen
    then read_arp packet eth_hlen (record info { protocol = 200 })
    else ret (record info { protocol = 200 })

abbrev pub bridge_group : Bytes
bridge_group = 0x01 ∷ 0x80 ∷ 0xC2 ∷ 0x00 ∷ 0x00 ∷ 0x00 ∷ []

-- The branch for a length field: the destination address is compared byte by byte.
unfoldable pub dissect_llc : Bytes → ℕ → EthernetInfo → PacketInfo → Exec PacketInfo
dissect_llc packet caplen eth info = do
  dhost ← read_at packet eth.header 6
  if agree dhost bridge_group
      then dissect_stp (drop eth.header_len packet) (rest_len caplen eth.header_len) info.extra_info
          128
        >>= (λ text. ret (record info { protocol = 202; extra_info = text }))
      else ret info

module _ (F : Floats) where
  -- The lines behind the branches.
  unfoldable pub finish_packet : Bytes → ℕ → PacketInfo → Exec PacketInfo
  finish_packet packet caplen info = do
    let capture_len = if ltb caplen max_payload_size then caplen else max_payload_size
    entropy ← calculate_entropy_scaled F packet (pos capture_len)
    counted ←
        calculate_byte_stats packet (pos capture_len)
          (record info { payload_len = u16 capture_len; entropy_scaled = entropy })
    copied ← memcpy counted.payload 0 packet 0 capture_len
    ret (record counted { payload = copied })

  -- The branches by the Ethernet type; the last one returns before the lines behind.
  unfoldable pub dissect_frame : RawPacket → EthernetInfo → PacketInfo → Exec PacketInfo
  dissect_frame raw eth info =
      if eth.ether_type == 0x0800 || eth.ether_type == 0x86DD
      then parse_ip_layer raw.contents raw.pkthdr.caplen eth.header_len >>= (λ ip.
        dissect_ip raw.contents raw.pkthdr.caplen eth.header_len ip info
        >>= finish_packet raw.contents raw.pkthdr.caplen)
      else if eth.ether_type == 0x0806
      then dissect_arp raw.contents raw.pkthdr.caplen eth.header_len info
        >>= finish_packet raw.contents raw.pkthdr.caplen
      else if leb eth.ether_type 1500
      then dissect_llc raw.contents raw.pkthdr.caplen eth info
        >>= finish_packet raw.contents raw.pkthdr.caplen
      else if eth.ether_type == 0x88cc
      then dissect_lldp (drop eth.header_len raw.contents)
          (rest_len raw.pkthdr.caplen eth.header_len) info
        >>= finish_packet raw.contents raw.pkthdr.caplen
      else ret info

  -- `info` is what the caller's variable holds; a frame that is too short leaves it alone.
  unfoldable pub dissect_raw_packet : RawPacket → PacketInfo → Exec PacketInfo
  dissect_raw_packet raw info = do
    eth ← parse_ethernet_layer raw.contents raw.pkthdr.caplen
    elim eth [ none ↦ ret info | some e ↦ with_ethernet raw e >>= dissect_frame raw e ]
