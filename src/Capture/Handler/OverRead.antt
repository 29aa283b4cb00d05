-- ===== src/Capture/Handler/OverRead.antt =====
-- A frame of more captured bytes than the array of RawPacket (cpp/packet_types.h) has, from
-- packet_handler to dissect_raw_packet (cpp/packet_capture.cpp).
use pacsni.Prelude.{
  ℕ, zero, suc, ◌+◌, ◌*◌, ◌-◌, ◌≤◌, ◌<◌, ◌^◌, ◌==◌, min, ◌≡◌, refl, ap, ◌∙◌, sym, true, false, List,
  ret, le→leb, le→ltb, arith, [], ◌∷◌, ◌++◌, length, length-append, length-take, length-drop, take,
  drop, fault,
}
use pacsni.Memory.{Bytes, byte, u32}
use pacsni.Memory.Laws.{word16, be16-eq-ret, be16-eq-fault}
use pacsni.Packet.{PacketInfo, PcapHeader, RawPacket, Timeval}
use pacsni.Layers.{is_vlan, more_tags, vlan_loop, parse_ethernet_layer}
use pacsni.Capture.Entropy.{Floats}
use pacsni.Capture.Raw.{dissect_raw_packet}
use pacsni.Ring.Valid.{Holds}
use pacsni.Capture.Handler.{HandlerState, packet_handler}
use pacsni.Capture.Handler.Queue.{IsFrame, packet_handler_refines}

-- A VLAN tag stands at each of the first 61 places for a type: at 12, 16, ..., 252.
abbrev pub AllTags : Bytes → Type 0
AllTags p = (i : ℕ) → i < 61 → word16 p (12 + 4 * i) ≡ 0x8100

more_tags-true : (hlen caplen : ℕ) → 260 ≤ caplen → hlen ≤ 254 → more_tags 0x8100 hlen caplen ≡ true
unfolding more_tags is_vlan
more_tags-true hlen caplen long small = le→leb (u32 (hlen + 4)) caplen (omega arith)

-- The loop over the tags runs out of an array of 256 bytes.
vlan_loop-fault :
    (r f : ℕ) (p : Bytes) (caplen hlen v_id : ℕ)
    → length p ≡ 256
    → 260 ≤ caplen
    → AllTags p
    → hlen + 4 * r ≡ 254
    → r < f
    → 14 ≤ hlen
    → vlan_loop f p caplen hlen 0x8100 v_id ≡ fault
unfolding vlan_loop
vlan_loop-fault r zero p caplen hlen v_id size long tags at enough from = absurd (omega arith)
vlan_loop-fault zero (suc f) p caplen hlen v_id size long tags at enough from = rw (
  more_tags-true hlen caplen long (omega arith),
  vlan_loop,
  be16-eq-ret p hlen (omega arith),
  be16-eq-fault p (hlen + 2) (omega arith),
)
vlan_loop-fault (suc r) (suc f) p caplen hlen v_id size long tags at enough from =
    let there : 12 + 4 * (60 - r) ≡ hlen + 2 = omega arith in
    let tag : word16 p (hlen + 2) ≡ 0x8100 =
      ap (word16 p) (sym there) ∙ tags (60 - r) (omega arith) in
    rw
      (
        more_tags-true hlen caplen long (omega arith),
        vlan_loop,
        be16-eq-ret p hlen (omega arith),
        be16-eq-ret p (hlen + 2) (omega arith),
        tag,
      )
      (vlan_loop-fault r f p caplen (hlen + 4) _ size long tags (omega arith) (omega arith)
        (omega arith))

byte-front :
    (n : ℕ) (xs ys : Bytes) (i : ℕ) → i < n → i < length xs → byte (take n xs ++ ys) i ≡ byte xs i
byte-front zero xs ys i h g = absurd (omega arith)
byte-front (suc n) [] ys i h g = absurd (omega arith)
byte-front (suc n) (x ∷ xs) ys zero h g = refl
byte-front (suc n) (x ∷ xs) ys (suc i) h g = byte-front n xs ys i (omega arith) (omega arith)

module _ {stale : Bytes} {h : PcapHeader} {packet : Bytes} {last : Timeval} {raw : RawPacket}
    (queued : IsFrame stale h packet last raw) (size : length stale ≡ 256)
    (there : h.caplen ≤ length packet) (long : 260 ≤ h.caplen) where
  length-contents : length raw.contents ≡ 256
  length-contents = omega (
    arith,
    ap (λ (c : Bytes). length c) queued.contents,
    length-append (take (min h.caplen 256) packet) (drop (min h.caplen 256) stale),
    length-take (min h.caplen 256) packet,
    length-drop (min h.caplen 256) stale,
  )

  byte-contents : (i : ℕ) → i < 256 → byte raw.contents i ≡ byte packet i
  byte-contents i inside =
      ap (λ (c : Bytes). byte c i) queued.contents
      ∙ byte-front (min h.caplen 256) packet (drop (min h.caplen 256) stale) i (omega arith)
          (omega arith)

  AllTags-contents : AllTags packet → AllTags raw.contents
  unfolding word16
  AllTags-contents tags i inside = omega (
    arith,
    tags i inside,
    byte-contents (12 + 4 * i) (omega arith),
    byte-contents (12 + 4 * i + 1) (omega arith),
  )

  dissect_raw_packet-over_read :
      (F : Floats) (info : PacketInfo) → AllTags packet → dissect_raw_packet F raw info ≡ fault
  unfolding dissect_raw_packet parse_ethernet_layer
  dissect_raw_packet-over_read F info tags =
      let inside = AllTags-contents tags in
      let captured : raw.pkthdr.caplen ≡ h.caplen =
        ap (λ (g : PcapHeader). g.caplen) queued.pkthdr in
      rw (
        le→ltb raw.pkthdr.caplen 14 (omega arith),
        be16-eq-ret raw.contents 12 (omega (arith, length-contents)),
        inside 0 (omega arith),
        vlan_loop-fault 60 (length raw.contents + 1) raw.contents raw.pkthdr.caplen 14 0
            length-contents (omega arith) inside refl (omega (arith, length-contents))
            (omega arith),
      )

-- For a frame of which at least 260 bytes are captured, with a VLAN tag at each of the first 61 places
-- for a type (12, 16, ..., 252), a variable of 256 bytes, and a valid queue with room: packet_handler
-- returns, and puts an item into the queue that makes dissect_raw_packet read behind the 256 bytes of
-- the item's array.
pub packet_handler-over_read :
    (F : Floats) (info : PacketInfo) {k : ℕ} (s : HandlerState) (items : List RawPacket) {head : ℕ}
    (weak : ℕ) (stale : Bytes) (h : PcapHeader) (packet : Bytes)
    → Holds k s.raw_queue items head
    → length items < 2 ^ k
    → h.caplen ≤ length packet
    → length stale ≡ 256
    → 260 ≤ h.caplen
    → AllTags packet
    → (after : HandlerState) × (raw : RawPacket) × (packet_handler weak stale h packet s
        ≡ ret after)
      × Holds k after.raw_queue (items ++ (raw ∷ [])) head
      × (length raw.contents ≡ 256)
      × (dissect_raw_packet F raw info ≡ fault)
packet_handler-over_read F info {k} s items weak stale h packet v room there size long tags =
    let (raw, f, p) = packet_handler_refines s items weak stale h packet v there size in
    let free : (length items == 2 ^ k) ≡ false = ground arith in
    (
      p.after,
      raw,
      p.returns,
      rw free at p.holds,
      length-contents f size there long,
      dissect_raw_packet-over_read f size there long F info tags,
    )
