-- ===== src/Capture/Ranges/Frame.antt =====
-- dissect_raw_packet of cpp/packet_capture.cpp as a whole: the ranges of the members of its record.
use pacsni.Prelude.{
  ℕ, zero, suc, ◌+◌, ◌^◌, ◌<◌, arith, length-replicate, ltb_int, ltb, leb, ◌==◌, ◌&&◌, ◌||◌, Option,
  none, some, if◌then◌else◌, replicate, ℤ, pos, pos_part, drop, ret, Exec, ◌>>=◌, Gives, Gives-bind,
  Gives-then,
}
use pacsni.Memory.{Bytes, AllBytes, u16, u32, rd, wr, be16, agree, read_at}
use pacsni.Packet.{PacketInfo, zero_info, EthernetInfo, RawPacket, max_payload_size}
use pacsni.Packet.Info.{IsInfo}
use pacsni.Dissect.Stats.{StatsState, count_byte, stats_loop, calculate_byte_stats}
use pacsni.Capture.Entropy.{Floats, histogram, calculate_entropy_scaled}
use pacsni.Capture.Network.{rest_len}
use pacsni.Capture.Raw.{
  with_ethernet, copy_arp, read_arp, dissect_arp, bridge_group, dissect_llc, finish_packet,
  dissect_frame, dissect_raw_packet,
}
use pacsni.Capture.Ranges.Accesses.{memcpy-SameSize, either, rd-then, sized-then}
use pacsni.Capture.Ranges.Texts.{dissect_stp-SameSize}
use pacsni.Capture.Ranges.Pieces.{dissect_lldp-IsInfo}
use pacsni.Capture.Ranges.Headers.{
  IpRanges, Maybe, Found, parse_ethernet_layer-Found, parse_ip_layer-Ranges,
}
use pacsni.Capture.Ranges.Network.{dissect_ip-IsInfo}

-- The members of a queued frame are in the ranges of their types.
pub record IsRawPacket (raw : RawPacket) : Type 0 where
  pub len : raw.pkthdr.len < 2 ^ 32
  pub delta_time : raw.delta_time < 2 ^ 32
  pub contents : AllBytes raw.contents

-- The conversion to uint32_t stays in its range.
abbrev pub IsU32 : Floats → Type 0
IsU32 F = (d : F.Double) → F.to_u32 d < 2 ^ 32

abbrev TopByte : StatsState → Type 0
TopByte s = s.top < 2 ^ 8

module _ (p : Bytes) (all : AllBytes p) where
  stats_loop-TopByte : (n j : ℕ) (s : StatsState) → TopByte s → Gives (stats_loop n p j s) TopByte
  unfolding stats_loop count_byte
  stats_loop-TopByte zero j s h = h
  stats_loop-TopByte (suc n) j s h = rd-then TopByte p j all _ (λ b hb.
      Gives-then TopByte TopByte (count_byte b s) _
        (Gives-bind TopByte (rd s.counts b) _
          (λ c _. Gives-bind TopByte (wr s.counts b (u32 (c + 1))) _ (λ counts _. ground arith)))
        (λ s' h'. stats_loop-TopByte n (j + 1) s' h'))

  pub calculate_byte_stats-IsInfo :
      (l : ℤ) (i : PacketInfo) → IsInfo i → Gives (calculate_byte_stats p l i) IsInfo
  unfolding calculate_byte_stats
  calculate_byte_stats-IsInfo l i v = either IsInfo (ltb_int l 1) _ _ v (
      Gives-then TopByte IsInfo _ _ (stats_loop-TopByte (pos_part l) 0 _ v.top_byte)
        (λ s h. ground arith))

pub calculate_entropy_scaled-U32 :
    (F : Floats) (d : Bytes) (l : ℤ)
    → IsU32 F
    → Gives (calculate_entropy_scaled F d l) (λ e. e < 2 ^ 32)
unfolding calculate_entropy_scaled
calculate_entropy_scaled-U32 F d l f =
    either (λ e. e < 2 ^ 32) (ltb_int l 1) _ _ (omega arith)
      (Gives-bind (λ e. e < 2 ^ 32) (histogram (pos_part l) d 0 (replicate 256 0)) _
        (λ counts _. f _))

copy_arp-IsInfo :
    (p : Bytes) (sender target : ℕ) (i : PacketInfo)
    → IsInfo i
    → Gives (copy_arp p sender target i) IsInfo
unfolding copy_arp
copy_arp-IsInfo p sender target i v =
    sized-then IsInfo i.src_ip _ _ (memcpy-SameSize i.src_ip 12 p sender 4) (λ src s.
      sized-then IsInfo i.dst_ip _ _ (memcpy-SameSize i.dst_ip 12 p target 4)
        (λ dst d. ground arith))

pub dissect_arp-IsInfo :
    (p : Bytes) (caplen at : ℕ) (i : PacketInfo)
    → IsInfo i
    → Gives (dissect_arp p caplen at i) IsInfo
unfolding dissect_arp read_arp
dissect_arp-IsInfo p caplen at i v =
    let named : PacketInfo = record i { protocol = 200 } in
    let w : IsInfo named = ground arith in
    either IsInfo (leb (u32 (u32 at + 28)) caplen) _ _
      (Gives-bind IsInfo (be16 p (at + 2)) _ (λ pro _. Gives-bind IsInfo (rd p (at + 4)) _ (λ hln _.
        Gives-bind IsInfo (rd p (at + 5)) _ (λ pln _.
          either IsInfo (pro == 0x0800 && pln == 4) _ _ (copy_arp-IsInfo p _ _ named w) w))))
      w

pub dissect_llc-IsInfo :
    (p : Bytes) (caplen : ℕ) (e : EthernetInfo) (i : PacketInfo)
    → IsInfo i
    → Gives (dissect_llc p caplen e i) IsInfo
unfolding dissect_llc
dissect_llc-IsInfo p caplen e i v = Gives-bind IsInfo (read_at p e.header 6) _ (λ dhost _.
    either IsInfo (agree dhost bridge_group) _ _
      (sized-then IsInfo i.extra_info _ _ (dissect_stp-SameSize i.extra_info _ _ 128)
        (λ text s. ground arith))
      v)

zero_info-IsInfo : IsInfo zero_info
zero_info-IsInfo =
    let x = length-replicate {A = ℕ} 16 0 in
    let y = length-replicate {A = ℕ} 4 0 in let z = length-replicate {A = ℕ} 32 0 in ground arith

module _ (F : Floats) (raw : RawPacket) (u32s : IsU32 F) (r : IsRawPacket raw) where
  pub with_ethernet-IsInfo :
      (e : EthernetInfo) → e.vlan_id < 2 ^ 16 → Gives (with_ethernet raw e) IsInfo
  unfolding with_ethernet
  with_ethernet-IsInfo e h =
      sized-then IsInfo zero_info.src_mac _ _
        (memcpy-SameSize zero_info.src_mac 0 raw.contents (e.header + 6) 6)
        (λ src s.
          sized-then IsInfo zero_info.dst_mac _ _
            (memcpy-SameSize zero_info.dst_mac 0 raw.contents e.header 6)
            (λ dst d. let v = zero_info-IsInfo in ground (arith, r.len, r.delta_time)))

  pub finish_packet-IsInfo :
      (i : PacketInfo) → IsInfo i → Gives (finish_packet F raw.contents raw.pkthdr.caplen i) IsInfo
  unfolding finish_packet
  finish_packet-IsInfo i v =
      let n =
        if ltb raw.pkthdr.caplen max_payload_size then raw.pkthdr.caplen else max_payload_size in
      Gives-then (λ e. e < 2 ^ 32) IsInfo _ _
        (calculate_entropy_scaled-U32 F raw.contents (pos n) u32s)
        (λ entropy h.
          let known : PacketInfo = record i { payload_len = u16 n; entropy_scaled = entropy } in
          Gives-then IsInfo IsInfo _ _
            (calculate_byte_stats-IsInfo raw.contents r.contents (pos n) known (ground arith))
            (λ j w.
              sized-then IsInfo j.payload _ _ (memcpy-SameSize j.payload 0 raw.contents 0 n)
                (λ payload s. ground arith)))

  finished-IsInfo :
      (m : Exec PacketInfo)
      → Gives m IsInfo
      → Gives (m >>= finish_packet F raw.contents raw.pkthdr.caplen) IsInfo
  finished-IsInfo m h = Gives-then IsInfo IsInfo m _ h finish_packet-IsInfo

  pub dissect_frame-IsInfo :
      (e : EthernetInfo) (i : PacketInfo) → IsInfo i → Gives (dissect_frame F raw e i) IsInfo
  unfolding dissect_frame
  dissect_frame-IsInfo e i v =
      let p = raw.contents in
      let caplen = raw.pkthdr.caplen in
      let t = e.ether_type in
      either IsInfo (t == 0x0800 || t == 0x86DD) _ _
        (Gives-then (Maybe IpRanges) IsInfo _ _
          (parse_ip_layer-Ranges p r.contents caplen e.header_len)
          (λ o h. finished-IsInfo _ (dissect_ip-IsInfo p r.contents caplen e.header_len o i h v)))
        (either IsInfo (t == 0x0806) _ _
          (finished-IsInfo _ (dissect_arp-IsInfo p caplen e.header_len i v))
          (either IsInfo (leb t 1500) _ _ (finished-IsInfo _ (dissect_llc-IsInfo p caplen e i v)) (
            either IsInfo (t == 0x88cc) _ _
              (finished-IsInfo _
                (dissect_lldp-IsInfo (drop e.header_len p) (rest_len caplen e.header_len) i v))
              v)))

-- Whatever the bytes of the frame are: where its lengths and its time difference are in range, the
-- conversion of the entropy to uint32_t is in range, and what the caller's variable held is so
-- when the capture is shorter than 14 bytes, every member of the record that dissect_raw_packet
-- returns, if it returns, is in the range of its type: the arrays have their lengths, the flags
-- are 0 or 1, and the paddings are zero.
pub dissect_raw_packet-IsInfo :
    (F : Floats) (raw : RawPacket) (info : PacketInfo)
    → IsU32 F
    → IsRawPacket raw
    → (raw.pkthdr.caplen < 14 → IsInfo info)
    → Gives (dissect_raw_packet F raw info) IsInfo
unfolding dissect_raw_packet
dissect_raw_packet-IsInfo F raw info u32s r short =
    Gives-then (Found raw.pkthdr.caplen) IsInfo _ _
      (parse_ethernet_layer-Found raw.contents r.contents raw.pkthdr.caplen) dissected
  where
    dissected :
        (o : Option EthernetInfo)
        → Found raw.pkthdr.caplen o
        → Gives
            (elim o [ none ↦ ret info | some e ↦ with_ethernet raw e >>= dissect_frame F raw e ])
            IsInfo
    dissected none h = short h
    dissected (some e) h =
        Gives-then IsInfo IsInfo _ _ (with_ethernet-IsInfo F raw u32s r e h)
          (dissect_frame-IsInfo F raw u32s r e)
