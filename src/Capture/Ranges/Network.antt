-- ===== src/Capture/Ranges/Network.antt =====
-- The ranges of the record's members, in the parts of dissect_raw_packet above the Ethernet header.
use pacsni.Prelude.{
  ℕ, zero, suc, ◌+◌, ◌-◌, ◌^◌, ◌<◌, arith, Bool, true, false, ltb_int, leb, ◌==◌, ◌&&◌, ◌||◌,
  Option, none, some, ℤ, drop, Gives, Gives-bind, Gives-then,
}
use pacsni.Memory.{Bytes, AllBytes, rd}
use pacsni.Memory.Laws.{AllBytes-drop}
use pacsni.Packet.{PacketInfo, IpInfo, TransportInfo}
use pacsni.Packet.Info.{IsInfo}
use pacsni.Capture.Network.{
  ExtState, ext_loop, dissect_ext, dissect_icmp4, dissect_icmp6, dissect_icmp, dissect_tcp_payload,
  tcp_header_len, dissect_tcp, dissect_udp, dissect_other, dissect_transport, with_ip, dissect_ip,
  is_some, tcp_payload, is_port, rest_len, to_int, at_pointer, flag,
}
use pacsni.Capture.Ranges.Accesses.{either, split, rd-then, be32-then, sized-then}
use pacsni.Capture.Ranges.Texts.{
  check_icmp_unreachable-SameSize, dissect_icmp_details-SameSize, dissect_icmp6_details-SameSize,
  dissect_ospf-SameSize, dissect_gre-SameSize, dissect_app_common-SameSize, dissect_http-SameSize,
}
use pacsni.Capture.Ranges.Names.{
  dissect_dns-SameSize, dissect_dhcp-SameSize, dissect_tls_sni-SameSize,
}
use pacsni.Capture.Ranges.Pieces.{
  IsInfo-extra_info, dissect_vxlan-IsInfo, dissect_igmp-IsInfo, dissect_ntp-IsInfo,
  dissect_ntp_core-IsInfo, check_tcp_anomalies-IsInfo, parse_tcp_options_extended-IsInfo,
}
use pacsni.Capture.Ranges.Headers.{IpRanges, TransportRanges, Maybe, parse_transport_layer-Ranges}

record ExtRanges (rounds : ℕ) (s : ExtState) : Type 0 where
  nxt : s.nxt < 2 ^ 8
  fragment : s.fragment < 2
  count : s.count + rounds < 2 ^ 8

at_pointer-AllBytes : (p : Bytes) (o : Option ℕ) → AllBytes p → AllBytes (at_pointer p o)
at_pointer-AllBytes p none all = tt
at_pointer-AllBytes p (some i) all = AllBytes-drop i p all

module _ (p : Bytes) (all : AllBytes p) where
  ext_loop-Ranges :
      (n caplen at : ℕ) (s : ExtState)
      → ExtRanges n s
      → Gives (ext_loop n p caplen at s) (ExtRanges 0)
  unfolding ext_loop
  ext_loop-Ranges zero caplen at s r = r
  ext_loop-Ranges (suc n) caplen at s r =
      split (ExtRanges 0) (s.nxt == 0 || s.nxt == 43 || s.nxt == 60) _ _
        (split (ExtRanges 0) (ltb_int (to_int caplen) (at + 8)) _ _ stop (
          rd-then (ExtRanges 0) p at all _ (λ nxt h.
            Gives-bind (ExtRanges 0) (rd p (at + 1)) _ (λ len _.
              ext_loop-Ranges n caplen _ _
                (record { nxt = h; fragment = r.fragment; count = omega (arith, r.count) })))))
        (split (ExtRanges 0) (s.nxt == 44) _ _
          (rd-then (ExtRanges 0) p at all _ (λ nxt h.
            ext_loop-Ranges n caplen _ _
              (record { nxt = h; fragment = omega arith; count = omega (arith, r.count) })))
          stop)
    where
      stop : ExtRanges 0 s
      stop = record { nxt = r.nxt; fragment = r.fragment; count = omega (arith, r.count) }

  pub dissect_ext-IsInfo :
      (caplen at : ℕ) (i : PacketInfo) → IsInfo i → Gives (dissect_ext p caplen at i) IsInfo
  unfolding dissect_ext
  dissect_ext-IsInfo caplen at i v = be32-then IsInfo p at all _ (λ flow hf.
      rd-then IsInfo p (at + 6) all _ (λ nxt hn.
        Gives-then (ExtRanges 0) IsInfo _ _
          (ext_loop-Ranges (10 - i.ipv6_ext_count) caplen (i.l3_offset + 40) _ (record {
            nxt = hn;
            fragment = v.is_fragment;
            count = omega (arith, v.ipv6_ext_count);
          }))
          (λ s r. let n = r.nxt in let f = r.fragment in let c = r.count in ground arith)))

  dissect_icmp4-IsInfo : (i : PacketInfo) → IsInfo i → Gives (dissect_icmp4 p i) IsInfo
  unfolding dissect_icmp4
  dissect_icmp4-IsInfo i v = rd-then IsInfo p i.l4_offset all _ (λ t ht.
      rd-then IsInfo p (i.l4_offset + 1) all _ (λ c hc.
        sized-then IsInfo i.extra_info _ _ (dissect_icmp_details-SameSize i.extra_info t c 128)
          (λ named n.
            sized-then IsInfo named _ _ (check_icmp_unreachable-SameSize named t c 128)
              (λ text s. ground arith))))

  dissect_icmp6-IsInfo : (i : PacketInfo) → IsInfo i → Gives (dissect_icmp6 p i) IsInfo
  unfolding dissect_icmp6
  dissect_icmp6-IsInfo i v = rd-then IsInfo p i.l4_offset all _ (λ t ht.
      rd-then IsInfo p (i.l4_offset + 1) all _ (λ c hc.
        sized-then IsInfo i.extra_info _ _ (dissect_icmp6_details-SameSize i.extra_info t c 128)
          (λ text s. ground arith)))

  pub dissect_icmp-IsInfo :
      (caplen : ℕ) (i : PacketInfo) → IsInfo i → Gives (dissect_icmp p caplen i) IsInfo
  unfolding dissect_icmp
  dissect_icmp-IsInfo caplen i v =
      either IsInfo (i.protocol == 1 && leb (i.l4_offset + 8) caplen) _ _ (dissect_icmp4-IsInfo i v)
        (either IsInfo (i.protocol == 58 && leb (i.l4_offset + 8) caplen) _ _
          (dissect_icmp6-IsInfo i v) v)

  dissect_tcp_payload-IsInfo :
      (l : ℤ) (i : PacketInfo) → IsInfo i → Gives (dissect_tcp_payload p l i) IsInfo
  unfolding dissect_tcp_payload
  dissect_tcp_payload-IsInfo l i v =
      either IsInfo (is_port i 80) _ _
        (IsInfo-extra_info i _ v (dissect_http-SameSize i.extra_info p l 128))
        (either IsInfo (is_port i 4789) _ _ (dissect_vxlan-IsInfo p all l i v) (
          Gives-bind IsInfo (rd i.tls_sni 0) _ (λ first _.
            either IsInfo (first == 0) _ _
              (IsInfo-extra_info i _ v (dissect_app_common-SameSize i.extra_info p l 128))
              (sized-then IsInfo i.tls_sni _ _ (dissect_tls_sni-SameSize i.tls_sni p l 64)
                (λ name s. ground arith)))))

  dissect_other-IsInfo :
      (caplen : ℕ) (i : PacketInfo) → IsInfo i → Gives (dissect_other p caplen i) IsInfo
  unfolding dissect_other
  dissect_other-IsInfo caplen i v =
      let q = drop i.l4_offset p in
      let l = rest_len caplen i.l4_offset in
      either IsInfo (i.protocol == 89) _ _
        (IsInfo-extra_info i _ v (dissect_ospf-SameSize i.extra_info q l 128))
        (either IsInfo (i.protocol == 47) _ _
          (IsInfo-extra_info i _ v (dissect_gre-SameSize i.extra_info q l 128))
          (either IsInfo (i.protocol == 2) _ _
            (dissect_igmp-IsInfo q (AllBytes-drop i.l4_offset p all) l i v) v))

module _ (p : Bytes) (all : AllBytes p) where
  tcp_payload-IsInfo :
      (l : ℤ) (i : PacketInfo) (o : Option ℕ) → IsInfo i → Gives (tcp_payload p l i o) IsInfo
  unfolding tcp_payload
  tcp_payload-IsInfo l i none v = v
  tcp_payload-IsInfo l i (some at) v =
      either IsInfo (ltb_int l 1) _ _ v
        (dissect_tcp_payload-IsInfo (drop at p) (AllBytes-drop at p all) l i v)

  pub dissect_tcp-IsInfo :
      (ip : IpInfo) (t : TransportInfo) (i : PacketInfo)
      → TransportRanges t
      → IsInfo i
      → Gives (dissect_tcp p ip t i) IsInfo
  unfolding dissect_tcp
  dissect_tcp-IsInfo ip t i r v =
      let start = i.l3_offset + ip.header_len in
      let named : PacketInfo = record i {
        tcp_flags = t.flags;
        tcp_seq = t.seq;
        tcp_ack = t.ack;
        tcp_win = t.window;
      } in
      let w : IsInfo named = ground (arith, r.flags, r.seq, r.ack, r.window) in
      Gives-then IsInfo IsInfo _ _
        (parse_tcp_options_extended-IsInfo p all start (tcp_header_len t.payload_ptr start) named w)
        (λ j x.
          Gives-then IsInfo IsInfo _ _ (check_tcp_anomalies-IsInfo j t x)
            (λ k y. tcp_payload-IsInfo t.payload_len k t.payload_ptr y))

  pub dissect_udp-IsInfo :
      (t : TransportInfo) (i : PacketInfo) → IsInfo i → Gives (dissect_udp p t i) IsInfo
  unfolding dissect_udp
  dissect_udp-IsInfo t i v =
      let q = at_pointer p t.payload_ptr in
      let all_q = at_pointer-AllBytes p t.payload_ptr all in
      let l = t.payload_len in
      either IsInfo (is_port i 53 && is_some t.payload_ptr) _ _
        (sized-then IsInfo i.dns_query _ _ (dissect_dns-SameSize i.dns_query q l 64)
          (λ name s. ground arith))
        (either IsInfo (is_port i 67 || is_port i 68) _ _
          (IsInfo-extra_info i _ v (dissect_dhcp-SameSize i.extra_info q l 128))
          (either IsInfo (is_port i 123) _ _
            (Gives-then IsInfo IsInfo _ _ (dissect_ntp-IsInfo q all_q l i v)
              (λ j w. dissect_ntp_core-IsInfo q all_q l j w))
            v))

  dissect_transport-IsInfo :
      (caplen : ℕ) (ip : IpInfo) (o : Option TransportInfo) (i : PacketInfo)
      → Maybe TransportRanges o
      → IsInfo i
      → Gives (dissect_transport p caplen ip o i) IsInfo
  unfolding dissect_transport
  dissect_transport-IsInfo caplen ip none i r v = v
  dissect_transport-IsInfo caplen ip (some t) i r v =
      let ported : PacketInfo = record i { src_port = t.src_port; dst_port = t.dst_port } in
      let w : IsInfo ported = ground (arith, r.src_port, r.dst_port) in
      Gives-then IsInfo IsInfo _ _
        (either IsInfo (i.protocol == 6) _ _ (dissect_tcp-IsInfo ip t ported r w)
          (either IsInfo (i.protocol == 17) _ _ (dissect_udp-IsInfo t ported w) w))
        (λ j x. dissect_other-IsInfo p all caplen j x)

  pub with_ip-IsInfo :
      (at : ℕ) (ip : IpInfo) (i : PacketInfo) → IpRanges ip → IsInfo i → IsInfo (with_ip at ip i)
  unfolding with_ip
  with_ip-IsInfo at ip i r v =
      let s = r.src_ip in
      let d = r.dst_ip in
      let six = flag_bound ip.is_ipv6 in
      let cut = flag_bound ip.is_fragment in ground (arith, r.protocol, r.ttl, r.tos, r.id)
    where
      flag_bound : (b : Bool) → flag b < 2
      flag_bound true = omega arith
      flag_bound false = omega arith

  pub dissect_ip-IsInfo :
      (caplen at : ℕ) (o : Option IpInfo) (i : PacketInfo)
      → Maybe IpRanges o
      → IsInfo i
      → Gives (dissect_ip p caplen at o i) IsInfo
  unfolding dissect_ip
  dissect_ip-IsInfo caplen at none i r v = v
  dissect_ip-IsInfo caplen at (some ip) i r v =
      let known = with_ip at ip i in
      let w = with_ip-IsInfo at ip i r v in
      Gives-then IsInfo IsInfo _ _
        (either IsInfo ip.is_ipv6 _ _ (dissect_ext-IsInfo p all caplen at known w) w)
        (λ j x. Gives-then IsInfo IsInfo _ _ (dissect_icmp-IsInfo p all caplen j x) (λ k y.
          Gives-then (Maybe TransportRanges) IsInfo _ _
            (parse_transport_layer-Ranges p all caplen at ip)
            (λ t h. dissect_transport-IsInfo caplen ip t k h y)))
