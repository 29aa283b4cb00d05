-- ===== src/Capture/Returns/Frame.antt =====
-- dissect_raw_packet of cpp/packet_capture.cpp as a whole: for which frames it returns.
use pacsni.Prelude.{
  ℕ, ◌+◌, ◌-◌, ◌*◌, ◌^◌, ◌≤◌, ◌<◌, ◌≡◌, refl, arith, true, ltb, leb, ◌==◌, ◌&&◌, ◌||◌, Option, none,
  some, if◌then◌else◌, replicate, length, length-drop, pos, pos_part, drop, ret, Exec, ◌>>=◌,
  Ensures, Ensures-bind, Gives, Gives-bind,
}
use pacsni.Memory.{Bytes, byte, u16, u32, agree, memcpy, read_at}
use pacsni.Memory.Laws.{word16, be16-eq-ret, rd-eq-ret, read_at-eq-ret}
use pacsni.Packet.{PacketInfo, zero_info, EthernetInfo, IpInfo, RawPacket, max_payload_size}
use pacsni.Packet.Info.{IsInfo}
use pacsni.Layers.{parse_ethernet_layer, parse_ip_layer}
use pacsni.Layers.Ethernet.{EthernetResult, parse_ethernet_layer_lem}
use pacsni.Layers.Ip.{IpResult, parse_ip_layer_lem}
use pacsni.Capture.Entropy.{Floats}
use pacsni.Capture.Network.{rest_len}
use pacsni.Capture.Raw.{
  with_ethernet, copy_arp, read_arp, dissect_arp, bridge_group, dissect_llc, finish_packet,
  dissect_frame, dissect_raw_packet,
}
use pacsni.Capture.Ranges.Headers.{
  IpRanges, Maybe, Found, parse_ethernet_layer-Found, parse_ip_layer-Ranges,
}
use pacsni.Capture.Ranges.Network.{dissect_ip-IsInfo}
use pacsni.Capture.Ranges.Pieces.{dissect_lldp-IsInfo}
use pacsni.Dissect.Info.{dissect_lldp}
use pacsni.Capture.Ranges.Frame.{
  IsRawPacket, IsU32, calculate_entropy_scaled-U32, calculate_byte_stats-IsInfo, dissect_arp-IsInfo,
  dissect_llc-IsInfo, with_ethernet-IsInfo, dissect_raw_packet-IsInfo,
}
use pacsni.Capture.Returns.Steps.{
  Returns, Returns-ret, Returns-bind, Returns-then, Gives-both, Ensures-with, with_result, choose,
  memcpy-Returns,
}
use pacsni.Capture.Returns.Texts.{dissect_stp-Returns}
use pacsni.Capture.Returns.Pieces.{calculate_byte_stats-Returns, calculate_entropy_scaled-Returns}
use pacsni.Capture.Returns.Lldp.{ids_filled, dissect_lldp-Returns}
use pacsni.Capture.Returns.Ip.{IsHonestIp, dissect_ip-Returns}

-- The frame of an Ethernet header that ends at `at`: the two addresses that the ARP branch reads
-- lie in the array, no LLDP identifier is empty, and the IP header is honest.
pub record IsHonestFrame (raw : RawPacket) (e : EthernetInfo) : Type 0 where
  pub arp :
      e.ether_type ≡ 0x0806
      → e.header_len + 16 + 3 * byte raw.contents (e.header_len + 4) ≤ length raw.contents
  pub lldp :
      e.ether_type ≡ 0x88cc
      → ids_filled
          (raw.pkthdr.caplen - e.header_len + 1)
          (drop e.header_len raw.contents)
          (raw.pkthdr.caplen - e.header_len)
          0
        ≡ true
  pub ip :
      (e.ether_type == 0x0800 || e.ether_type == 0x86DD) ≡ true
      → Gives
          (parse_ip_layer raw.contents raw.pkthdr.caplen e.header_len)
          (Maybe (IsHonestIp raw.contents raw.pkthdr.caplen e.header_len))

-- All captured bytes are in the array.
pub record IsHonest (raw : RawPacket) : Type 0 where
  pub captured : raw.pkthdr.caplen ≤ length raw.contents
  pub small : raw.pkthdr.caplen < 2 ^ 31
  pub long : 14 ≤ raw.pkthdr.caplen
  pub frame :
      Gives (parse_ethernet_layer raw.contents raw.pkthdr.caplen) (Maybe (IsHonestFrame raw))

-- The length given to a dissector of what is behind the Ethernet header.
rest_len-eq : (caplen o : ℕ) → caplen < 2 ^ 31 → o ≤ caplen → rest_len caplen o ≡ pos (caplen - o)
rest_len-eq caplen o small h = ground arith

module _ (p : Bytes) (caplen : ℕ) (within : caplen ≤ length p) (small : caplen < 2 ^ 31) where
  copy_arp-Returns :
      (sender target : ℕ) (i : PacketInfo)
      → sender + 4 ≤ length p
      → target + 4 ≤ length p
      → IsInfo i
      → Returns (copy_arp p sender target i)
  unfolding copy_arp
  copy_arp-Returns sender target i a b v =
      Returns-bind _ _ (memcpy-Returns i.src_ip 12 p sender 4 a (omega (arith, v.src_ip))) (λ src.
        Returns-bind _ _ (memcpy-Returns i.dst_ip 12 p target 4 b (omega (arith, v.dst_ip)))
          (λ dst. tt))

  read_arp-Returns :
      (at : ℕ) (i : PacketInfo)
      → at + 8 ≤ length p
      → at + 16 + 3 * byte p (at + 4) ≤ length p
      → IsInfo i
      → Returns (read_arp p at i)
  unfolding read_arp
  read_arp-Returns at i eight h v =
      let hln = byte p (at + 4) in
      let sender = at + 8 + 2 * hln in
      let target = sender + 4 + hln in
      rw
        (
          be16-eq-ret p (at + 2) (omega arith),
          rd-eq-ret p (at + 4) (omega arith),
          rd-eq-ret p (at + 5) (omega arith),
        )
        (choose (word16 p (at + 2) == 0x0800 && byte p (at + 5) == 4) (copy_arp p sender target i)
          (ret i) (λ _. copy_arp-Returns sender target i (omega arith) (omega arith) v) (λ _. tt))

  dissect_arp-Returns :
      (at : ℕ) (i : PacketInfo)
      → at ≤ caplen
      → at + 16 + 3 * byte p (at + 4) ≤ length p
      → IsInfo i
      → Returns (dissect_arp p caplen at i)
  unfolding dissect_arp
  dissect_arp-Returns at i inside h v =
      choose (leb (u32 (u32 at + 28)) caplen) _ _
        (λ room. read_arp-Returns at (record i { protocol = 200 }) (omega arith) h (ground arith))
        (λ _. tt)

  dissect_llc-Returns :
      (e : EthernetInfo) (i : PacketInfo)
      → e.header + 6 ≤ length p
      → e.header_len ≤ caplen
      → IsInfo i
      → Returns (dissect_llc p caplen e i)
  unfolding dissect_llc
  dissect_llc-Returns e i six inside v =
      Returns-bind _ _ (Returns-ret (read_at p e.header 6) (read_at-eq-ret p e.header 6 six))
        (λ dhost.
          choose (agree dhost bridge_group) _ _
            (λ _.
              Returns-bind _ _
                (dissect_stp-Returns i.extra_info 128 (omega arith) (omega (arith, v.extra_info))
                  (drop e.header_len p) (rest_len caplen e.header_len) readable)
                (λ text. tt))
            (λ _. tt))
    where
      readable : pos_part (rest_len caplen e.header_len) ≤ length (drop e.header_len p)
      readable =
          rw (rest_len-eq caplen e.header_len small inside)
            (omega (arith, length-drop e.header_len p))

module _ (F : Floats) (raw : RawPacket) (u32s : IsU32 F) (r : IsRawPacket raw)
    (captured : raw.pkthdr.caplen ≤ length raw.contents) (small : raw.pkthdr.caplen < 2 ^ 31) where
  finish_packet-Returns :
      (i : PacketInfo) → IsInfo i → Returns (finish_packet F raw.contents raw.pkthdr.caplen i)
  unfolding finish_packet
  finish_packet-Returns i v =
      let p = raw.contents in
      let n =
        if ltb raw.pkthdr.caplen max_payload_size then raw.pkthdr.caplen else max_payload_size in
      let inside : n ≤ length p = ground arith in
      Returns-then (λ e. e < 2 ^ 32) _ _
        (calculate_entropy_scaled-Returns p r.contents F (pos n) inside)
        (calculate_entropy_scaled-U32 F p (pos n) u32s)
        (λ entropy h.
          let known : PacketInfo = record i { payload_len = u16 n; entropy_scaled = entropy } in
          Returns-then IsInfo _ _ (calculate_byte_stats-Returns p r.contents (pos n) known inside)
            (calculate_byte_stats-IsInfo p r.contents (pos n) known (ground arith))
            (λ j w.
              Returns-bind _ _
                (memcpy-Returns j.payload 0 p 0 n (omega arith) (ground (arith, w.payload)))
                (λ payload. tt)))

  finished :
      (m : Exec PacketInfo)
      → Returns m
      → Gives m IsInfo
      → Returns (m >>= finish_packet F raw.contents raw.pkthdr.caplen)
  finished m h v = Returns-then IsInfo m _ h v finish_packet-Returns

  -- A new record: no server name and no identifiers.
  Clean : PacketInfo → Type 0
  Clean i =
      (i.tls_sni ≡ replicate 64 0)
      × (i.lldp_chassis ≡ replicate 32 0)
      × (i.lldp_port ≡ replicate 32 0)

  with_ethernet-Clean : (e : EthernetInfo) → Gives (with_ethernet raw e) Clean
  unfolding with_ethernet Clean
  with_ethernet-Clean e =
      Gives-bind Clean (memcpy zero_info.src_mac 0 raw.contents (e.header + 6) 6) _ (λ src _.
        Gives-bind Clean (memcpy zero_info.dst_mac 0 raw.contents e.header 6) _
          (λ dst _. (refl, refl, refl)))

  with_ethernet-Returns :
      (e : EthernetInfo) → e.header ≡ 0 → 14 ≤ raw.pkthdr.caplen → Returns (with_ethernet raw e)
  unfolding with_ethernet
  with_ethernet-Returns e zero long =
      Returns-bind _ _
        (memcpy-Returns zero_info.src_mac 0 raw.contents (e.header + 6) 6 (omega arith)
          (omega arith))
        (λ src.
          Returns-bind _ _
            (memcpy-Returns zero_info.dst_mac 0 raw.contents e.header 6 (omega arith) (omega arith))
            (λ dst. tt))

  dissect_frame-Returns :
      (e : EthernetInfo) (i : PacketInfo)
      → e.header ≡ 0
      → 14 ≤ raw.pkthdr.caplen
      → e.header_len ≤ raw.pkthdr.caplen
      → IsHonestFrame raw e
      → IsInfo i
      → Clean i
      → Returns (dissect_frame F raw e i)
  unfolding dissect_frame Clean
  dissect_frame-Returns e i zero long inside h v (blank, chassis, port) =
      choose (t == 0x0800 || t == 0x86DD) _ _
        (λ ip.
          Ensures-bind Parsed (λ _. Unit {0}) _ _ (parsed ip)
            (λ o (a, (b, c)).
              finished _
                (dissect_ip-Returns p r.contents caplen captured small at o i a b c (v, blank))
                (dissect_ip-IsInfo p r.contents caplen at o i c v)))
        (λ _.
          choose (t == 0x0806) _ _
            (λ arp.
              finished _
                (dissect_arp-Returns p caplen captured small at i inside (h.arp (ground arith)) v)
                (dissect_arp-IsInfo p caplen at i v))
            (λ _.
              choose (leb t 1500) _ _
                (λ _.
                  finished _
                    (dissect_llc-Returns p caplen captured small e i (omega arith) inside v)
                    (dissect_llc-IsInfo p caplen e i v))
                (λ _.
                  choose (t == 0x88cc) _ _
                    (λ lldp.
                      finished _ (lldp_Returns (h.lldp (ground arith)))
                        (dissect_lldp-IsInfo (drop at p) (rest_len caplen at) i v))
                    (λ _. tt))))
    where
      p : Bytes
      p = raw.contents

      caplen : ℕ
      caplen = raw.pkthdr.caplen

      at : ℕ
      at = e.header_len

      t : ℕ
      t = e.ether_type

      Read : Option IpInfo → Type 0
      Read o = Maybe (IsHonestIp p caplen at) o × Maybe IpRanges o

      Parsed : Option IpInfo → Type 0
      Parsed o = IpResult p caplen at o × Read o

      parsed : (t == 0x0800 || t == 0x86DD) ≡ true → Ensures (parse_ip_layer p caplen at) Parsed
      parsed is_ip =
          Ensures-with (IpResult p caplen at) Read _
            (parse_ip_layer_lem p caplen at captured small (omega arith))
            (Gives-both (Maybe (IsHonestIp p caplen at)) (Maybe IpRanges) _ (h.ip is_ip)
              (parse_ip_layer-Ranges p r.contents caplen at))

      lldp_Returns :
          ids_filled (caplen - at + 1) (drop at p) (caplen - at) 0 ≡ true
          → Returns (dissect_lldp (drop at p) (rest_len caplen at) i)
      lldp_Returns filled = rw (rest_len-eq caplen at small inside) (
          dissect_lldp-Returns (drop at p) (pos (caplen - at)) i (omega (arith, length-drop at p))
            filled v chassis port)

dissect_raw_packet-Returns :
    (F : Floats) (raw : RawPacket) (info : PacketInfo)
    → IsU32 F
    → IsRawPacket raw
    → IsHonest raw
    → Returns (dissect_raw_packet F raw info)
unfolding dissect_raw_packet
dissect_raw_packet-Returns F raw info u32s r h =
    Ensures-bind Header (λ _. Unit {0}) _ _ header dissected
  where
    p : Bytes
    p = raw.contents

    caplen : ℕ
    caplen = raw.pkthdr.caplen

    Known : Option EthernetInfo → Type 0
    Known o = Maybe (IsHonestFrame raw) o × Found caplen o

    Header : Option EthernetInfo → Type 0
    Header o = EthernetResult p caplen o × Known o

    header : Ensures (parse_ethernet_layer p caplen) Header
    header =
        Ensures-with (EthernetResult p caplen) Known _
          (parse_ethernet_layer_lem p caplen h.captured h.small)
          (Gives-both (Maybe (IsHonestFrame raw)) (Found caplen) _ h.frame
            (parse_ethernet_layer-Found p r.contents caplen))

    dissected :
        (o : Option EthernetInfo)
        → Header o
        → Returns
            (elim o [ none ↦ ret info | some e ↦ with_ethernet raw e >>= dissect_frame F raw e ])
    dissected none k = tt
    dissected (some e) ((long, v), (honest, tag)) =
        Returns-then (λ i. IsInfo i × Clean F raw u32s r h.captured h.small i) _ _
          (with_ethernet-Returns F raw u32s r h.captured h.small e v.header_is long)
          (Gives-both IsInfo (Clean F raw u32s r h.captured h.small) _
            (with_ethernet-IsInfo F raw u32s r e tag)
            (with_ethernet-Clean F raw u32s r h.captured h.small e))
          (λ i (x, c).
            dissect_frame-Returns F raw u32s r h.captured h.small e i v.header_is long v.read.within
              honest x c)

-- For every frame whose captured bytes are in its array, at least 14 and fewer than 2 ^ 31, whose
-- bytes, lengths and time difference are in range, and whose headers are honest (the payload that the IP
-- and transport lengths state, and 32 bytes behind it, lie in the array; an IPv6 header has no
-- extension headers; the addresses that the ARP branch reads lie in the array; no chassis or port TLV
-- of LLDP is empty), and where the conversion of the entropy to uint32_t is in range:
-- dissect_raw_packet reads and writes inside of its arrays, ends, and returns a record of which
-- every member is in the range of its type.
pub dissect_raw_packet-Ensures :
    (F : Floats) (raw : RawPacket) (info : PacketInfo)
    → IsU32 F
    → IsRawPacket raw
    → IsHonest raw
    → Ensures (dissect_raw_packet F raw info) IsInfo
dissect_raw_packet-Ensures F raw info u32s r h =
    with_result IsInfo (dissect_raw_packet F raw info)
      (dissect_raw_packet-Returns F raw info u32s r h)
      (dissect_raw_packet-IsInfo F raw info u32s r (λ short. absurd (omega (arith, h.long))))
