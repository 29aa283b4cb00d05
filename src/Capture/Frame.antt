-- ===== src/Capture/Frame.antt =====
-- What every dissector leaves alone: the fields of the record that come from the capture and the
-- Ethernet header, the server name, and the payload.
pub mod Pieces
pub mod Network
use pacsni.Prelude.{◌≡◌, ◌∙◌, refl}
use pacsni.Packet.{PacketInfo}

abbrev pub SameFrame : PacketInfo → PacketInfo → Type 0
SameFrame i j = record {
  timestamp : j.timestamp ≡ i.timestamp;
  delta_time : j.delta_time ≡ i.delta_time;
  src_mac : j.src_mac ≡ i.src_mac;
  dst_mac : j.dst_mac ≡ i.dst_mac;
  l3_offset : j.l3_offset ≡ i.l3_offset;
  vlan_id : j.vlan_id ≡ i.vlan_id;
  wire_len : j.wire_len ≡ i.wire_len;
  tls_sni : j.tls_sni ≡ i.tls_sni;
  payload : j.payload ≡ i.payload;
}

pub same : (i : PacketInfo) → SameFrame i i
same i = record {
  timestamp = refl;
  delta_time = refl;
  src_mac = refl;
  dst_mac = refl;
  l3_offset = refl;
  vlan_id = refl;
  wire_len = refl;
  tls_sni = refl;
  payload = refl;
}

pub compose : (a b c : PacketInfo) → SameFrame a b → SameFrame b c → SameFrame a c
compose a b c h g = record {
  timestamp = g.timestamp ∙ h.timestamp;
  delta_time = g.delta_time ∙ h.delta_time;
  src_mac = g.src_mac ∙ h.src_mac;
  dst_mac = g.dst_mac ∙ h.dst_mac;
  l3_offset = g.l3_offset ∙ h.l3_offset;
  vlan_id = g.vlan_id ∙ h.vlan_id;
  wire_len = g.wire_len ∙ h.wire_len;
  tls_sni = g.tls_sni ∙ h.tls_sni;
  payload = g.payload ∙ h.payload;
}
