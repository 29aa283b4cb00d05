-- ===== src/Capture/Fields.antt =====
-- What the record of a frame says, and the parts of dissect_raw_packet that keep it.
use pacsni.Prelude.{
  ℤ, ℕ, ◌+◌, ◌*◌, ◌%◌, ◌^◌, ◌≡◌, ◌∙◌, refl, Bool, Bool-cases, inl, inr, ◌||◌, some, ltb, leb, ◌==◌,
  if◌then◌else◌, arith, length, replicate, Gives, Gives-then,
}
use pacsni.Memory.{Bytes, u8, u16, slice, splice, read_at, write_at, memcpy}
use pacsni.Packet.{PacketInfo, EthernetInfo, RawPacket, max_payload_size}
use pacsni.Layers.Ethernet.{EthernetResult}
use pacsni.Dissect.Stats.{calculate_byte_stats}
use pacsni.Capture.Raw.{copy_arp, read_arp, dissect_arp, dissect_llc}
use pacsni.Capture.Frame.{SameFrame}

-- How many bytes of the frame are kept.
abbrev pub kept : RawPacket → ℕ
kept raw = if ltb raw.pkthdr.caplen max_payload_size then raw.pkthdr.caplen else max_payload_size

-- What the record says of the frame `raw` whose Ethernet header is `e`, whatever the frame carries.
abbrev pub IsRecord : RawPacket → EthernetInfo → PacketInfo → Type 0
IsRecord raw e i = record {
  timestamp : i.timestamp ≡ (raw.pkthdr.ts.tv_sec * 1000000 + raw.pkthdr.ts.tv_usec) % 2 ^ 64;
  delta_time : i.delta_time ≡ raw.delta_time;
  src_mac : i.src_mac ≡ slice raw.contents 6 6;
  dst_mac : i.dst_mac ≡ slice raw.contents 0 6;
  l3_offset : i.l3_offset ≡ u8 e.header_len;
  vlan_id : i.vlan_id ≡ e.vlan_id;
  wire_len : i.wire_len ≡ raw.pkthdr.len;
  tls_sni : i.tls_sni ≡ replicate 64 0;
}

-- The Ethernet types behind which the payload is copied.
abbrev pub is_kept_type : ℕ → Bool
is_kept_type t = t == 0x0800 || t == 0x86DD || t == 0x0806 || leb t 1500 || t == 0x88cc

-- The first `n` bytes of the frame stand in the payload, and zeros behind them.
abbrev pub HasPayload : RawPacket → ℕ → PacketInfo → Type 0
HasPayload raw n i = record {
  len_is : i.payload_len ≡ n;
  bytes_are : i.payload ≡ splice (replicate 256 0) 0 (slice raw.contents 0 n);
}

abbrev pub IsCaptured : RawPacket → PacketInfo → Type 0
IsCaptured raw i =
    (e : EthernetInfo) × IsRecord raw e i
    × HasPayload raw (if is_kept_type e.ether_type then kept raw else 0) i
    × EthernetResult raw.contents raw.pkthdr.caplen (some e)

pub SameFrame-IsRecord :
    (raw : RawPacket) (e : EthernetInfo) (i j : PacketInfo)
    → SameFrame i j
    → IsRecord raw e i
    → IsRecord raw e j
SameFrame-IsRecord raw e i j s r = record {
  timestamp = s.timestamp ∙ r.timestamp;
  delta_time = s.delta_time ∙ r.delta_time;
  src_mac = s.src_mac ∙ r.src_mac;
  dst_mac = s.dst_mac ∙ r.dst_mac;
  l3_offset = s.l3_offset ∙ r.l3_offset;
  vlan_id = s.vlan_id ∙ r.vlan_id;
  wire_len = s.wire_len ∙ r.wire_len;
  tls_sni = s.tls_sni ∙ r.tls_sni;
}

read_at-Gives : (p : Bytes) (i n : ℕ) → Gives (read_at p i n) (λ x. x ≡ slice p i n)
unfolding read_at
read_at-Gives p i n = elim (Bool-cases (leb (i + n) (length p))) [
  | inl inside ↦ rw inside refl
  | inr outside ↦ rw outside tt
]

write_at-Gives : (d : Bytes) (j : ℕ) (xs : Bytes) → Gives (write_at d j xs) (λ x. x ≡ splice d j xs)
unfolding write_at
write_at-Gives d j xs = elim (Bool-cases (leb (j + length xs) (length d))) [
  | inl inside ↦ rw inside refl
  | inr outside ↦ rw outside tt
]

pub memcpy-Gives :
    (d : Bytes) (j : ℕ) (s : Bytes) (i n : ℕ)
    → Gives (memcpy d j s i n) (λ x. x ≡ splice d j (slice s i n))
unfolding memcpy
memcpy-Gives d j s i n =
    Gives-then (λ xs. xs ≡ slice s i n) (λ x. x ≡ splice d j (slice s i n)) _ _
      (read_at-Gives s i n) (λ xs h. rw h (write_at-Gives d j (slice s i n)))

pub byte_stats-payload_len :
    (d : Bytes) (l : ℤ) (i : PacketInfo)
    → Gives (calculate_byte_stats d l i) (λ j. j.payload_len ≡ i.payload_len)
unfolding calculate_byte_stats
byte_stats-payload_len d l i = ground arith

pub dissect_arp-SameFrame :
    (packet : Bytes) (caplen eth_hlen : ℕ) (i : PacketInfo)
    → Gives (dissect_arp packet caplen eth_hlen i) (SameFrame i)
unfolding dissect_arp read_arp copy_arp
dissect_arp-SameFrame packet caplen eth_hlen i = ground arith

pub dissect_llc-SameFrame :
    (packet : Bytes) (caplen : ℕ) (e : EthernetInfo) (i : PacketInfo)
    → Gives (dissect_llc packet caplen e i) (SameFrame i)
unfolding dissect_llc
dissect_llc-SameFrame packet caplen e i = ground arith

pub u16-kept : (raw : RawPacket) → u16 (kept raw) ≡ kept raw
u16-kept raw = ground arith
