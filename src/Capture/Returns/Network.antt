-- ===== src/Capture/Returns/Network.antt =====
-- The parts of dissect_raw_packet above the Ethernet header: for which payloads they return.
use pacsni.Prelude.{
  ℕ, zero, suc, ◌+◌, ◌-◌, ◌^◌, ◌≤◌, ◌<◌, ◌≡◌, ◌∙◌, ap, arith, Bool, false, ◌&&◌, ◌||◌, ltb_int, leb,
  ◌==◌, Option, none, some, ℤ, pos_part, length, length-drop, replicate, drop, ret,
}
use pacsni.Memory.{Bytes, AllBytes, byte, rd}
use pacsni.Memory.Laws.{Named, rd-eq-ret, be32-eq-ret}
use pacsni.Packet.{PacketInfo, IpInfo, TransportInfo}
use pacsni.Packet.Info.{IsInfo}
use pacsni.Dissect.Dns.{dissect_dns}
use pacsni.Dissect.Dhcp.{dissect_dhcp}
use pacsni.Dissect.Dns.Safe.{dissect_dns-Ensures}
use pacsni.Dissect.Dhcp.Safe.{dissect_dhcp-Ensures}
use pacsni.Capture.Network.{
  ExtState, ext_loop, dissect_ext, dissect_icmp4, dissect_icmp6, dissect_icmp, dissect_tcp_payload,
  tcp_header_len, dissect_tcp, dissect_udp, dissect_other, is_some, tcp_payload, is_port, rest_len,
  at_pointer,
}
use pacsni.Capture.Frame.{SameFrame}
use pacsni.Capture.Frame.Pieces.{
  parse_tcp_options_extended-SameFrame, check_tcp_anomalies-SameFrame,
}
use pacsni.Capture.Ranges.Texts.{dissect_icmp_details-SameSize}
use pacsni.Capture.Ranges.Pieces.{parse_tcp_options_extended-IsInfo, check_tcp_anomalies-IsInfo}
use pacsni.Capture.Ranges.Headers.{TransportRanges}
use pacsni.Capture.Returns.Steps.{
  Returns, Returns-Ensures, Returns-bind, Returns-then, Gives-both, choose, choose_elim, rd-Returns,
}
use pacsni.Capture.Returns.Texts.{
  check_icmp_unreachable-Returns, dissect_icmp_details-Returns, dissect_icmp6_details-Returns,
  dissect_ospf-Returns, dissect_gre-Returns, dissect_app_common-Returns, dissect_http-Returns,
}
use pacsni.Capture.Returns.Pieces.{
  dissect_vxlan-Returns, dissect_igmp-Returns, dissect_ntp-Returns, check_tcp_anomalies-Returns,
  parse_tcp_options_extended-Returns,
}

-- The types of the IPv6 extension headers that the loop goes through.
abbrev pub is_ext : ℕ → Bool
is_ext nxt = nxt == 0 || nxt == 43 || nxt == 60 || nxt == 44

-- The payload and 32 bytes behind it lie in the array.
abbrev pub Within : Bytes → Option ℕ → ℤ → Type 0
Within p none l = pos_part l ≡ 0
Within p (some at) l = at + pos_part l + 32 ≤ length p

-- The length that is given to a dissector at an offset below 256 is no more than there is.
pub rest_len-le :
    (caplen o : ℕ) → caplen < 2 ^ 31 → o < 2 ^ 8 → pos_part (rest_len caplen o) ≤ caplen - o
rest_len-le caplen o small h = ground arith

module _ (p : Bytes) (caplen : ℕ) (fits : caplen ≤ length p) (small : caplen < 2 ^ 31) where
  ext_loop-Returns :
      (n at : ℕ) (s : ExtState) → is_ext s.nxt ≡ false → Returns (ext_loop n p caplen at s)
  unfolding ext_loop
  ext_loop-Returns zero at s h = tt
  ext_loop-Returns (suc n) at s h =
      choose_elim (s.nxt == 0 || s.nxt == 43 || s.nxt == 60) _ _ (λ e. ground arith)
        (λ _. choose_elim (s.nxt == 44) _ _ (λ e. ground arith) (λ _. tt))

  pub dissect_ext-Returns :
      (at : ℕ) (i : PacketInfo)
      → at + 7 ≤ caplen
      → is_ext (byte p (at + 6)) ≡ false
      → Returns (dissect_ext p caplen at i)
  unfolding dissect_ext
  dissect_ext-Returns at i inside h =
      rw (be32-eq-ret p at (omega arith), rd-eq-ret p (at + 6) (omega arith))
        (Returns-bind _ _ (ext_loop-Returns _ _ _ h) (λ s. tt))

  pub dissect_icmp-Returns : (i : PacketInfo) → IsInfo i → Returns (dissect_icmp p caplen i)
  unfolding dissect_icmp dissect_icmp4 dissect_icmp6
  dissect_icmp-Returns i v =
      choose (i.protocol == 1 && leb (i.l4_offset + 8) caplen) _ _
        (λ four. rd-Returns p i.l4_offset _ (ground arith) (λ t.
          rd-Returns p (i.l4_offset + 1) _ (ground arith) (λ c.
            Returns-then (λ r. length r ≡ length i.extra_info) _ _
              (dissect_icmp_details-Returns i.extra_info 128 (omega arith) room t c)
              (dissect_icmp_details-SameSize i.extra_info t c 128)
              (λ named s.
                Returns-bind _ _
                  (check_icmp_unreachable-Returns named 128 (omega arith) (omega arith) t c)
                  (λ text. tt)))))
        (λ _.
          choose (i.protocol == 58 && leb (i.l4_offset + 8) caplen) _ _
            (λ six. rd-Returns p i.l4_offset _ (ground arith) (λ t.
              rd-Returns p (i.l4_offset + 1) _ (ground arith) (λ c.
                Returns-bind _ _
                  (dissect_icmp6_details-Returns i.extra_info 128 (omega arith) room t c)
                  (λ text. tt))))
            (λ _. tt))
    where
      room : 128 ≤ length i.extra_info
      room = omega (arith, v.extra_info)

  pub dissect_other-Returns : (i : PacketInfo) → IsInfo i → Returns (dissect_other p caplen i)
  unfolding dissect_other
  dissect_other-Returns i v =
      choose (i.protocol == 89) _ _
        (λ _.
          Returns-bind _ _ (dissect_ospf-Returns i.extra_info 128 (omega arith) room q l readable)
            (λ text. tt))
        (λ _.
          choose (i.protocol == 47) _ _
            (λ _.
              Returns-bind _ _
                (dissect_gre-Returns i.extra_info 128 (omega arith) room q l readable) (λ text. tt))
            (λ _.
              choose (i.protocol == 2) _ _ (λ _. dissect_igmp-Returns q l i readable v) (λ _. tt)))
    where
      q : Bytes
      q = drop i.l4_offset p

      l : ℤ
      l = rest_len caplen i.l4_offset

      room : 128 ≤ length i.extra_info
      room = omega (arith, v.extra_info)

      readable : pos_part l ≤ length q
      readable =
          omega (arith, rest_len-le caplen i.l4_offset small v.l4_offset, length-drop i.l4_offset p)

-- While no server name is written, dissect_tls_sni is not called.
dissect_tcp_payload-Returns :
    (p : Bytes) (l : ℤ) (i : PacketInfo)
    → pos_part l + 32 ≤ length p
    → IsInfo i
    → i.tls_sni ≡ replicate 64 0
    → Returns (dissect_tcp_payload p l i)
unfolding dissect_tcp_payload
dissect_tcp_payload-Returns p l i h v blank =
    choose (is_port i 80) _ _
      (λ _.
        Returns-bind _ _ (dissect_http-Returns i.extra_info 128 (omega arith) room p l h)
          (λ text. tt))
      (λ _.
        choose (is_port i 4789) _ _ (λ _. dissect_vxlan-Returns p l i (omega arith) v)
          (λ _. rw first_zero (
            Returns-bind _ _
              (dissect_app_common-Returns i.extra_info 128 (omega arith) room p l (omega arith))
              (λ text. tt))))
  where
    room : 128 ≤ length i.extra_info
    room = omega (arith, v.extra_info)

    first_zero : rd i.tls_sni 0 ≡ ret 0
    first_zero = ap (λ b. rd b 0) blank ∙ rd-eq-ret (replicate 64 0) 0 (omega arith)

module _ (p : Bytes) where
  tcp_payload-Returns :
      (l : ℤ) (i : PacketInfo) (o : Option ℕ)
      → Within p o l
      → IsInfo i
      → i.tls_sni ≡ replicate 64 0
      → Returns (tcp_payload p l i o)
  unfolding tcp_payload
  tcp_payload-Returns l i none h v blank = tt
  tcp_payload-Returns l i (some at) h v blank =
      choose (ltb_int l 1) _ _ (λ _. tt)
        (λ _. dissect_tcp_payload-Returns (drop at p) l i (omega (arith, length-drop at p)) v blank)

  header-inside :
      (o : Option ℕ) (l : ℤ) (start : ℕ)
      → Within p o l
      → 20 < tcp_header_len o start
      → start + tcp_header_len o start ≤ length p
  header-inside none l start h long = absurd (omega arith)
  header-inside (some at) l start h long = omega arith

  pub dissect_tcp-Returns :
      (all : AllBytes p) (ip : IpInfo) (t : TransportInfo) (i : PacketInfo)
      → Within p t.payload_ptr t.payload_len
      → TransportRanges t
      → IsInfo i
      → i.tls_sni ≡ replicate 64 0
      → Returns (dissect_tcp p ip t i)
  unfolding dissect_tcp
  dissect_tcp-Returns all ip t i h r v blank =
      let start = i.l3_offset + ip.header_len in
      let len = tcp_header_len t.payload_ptr start in
      let named : PacketInfo = record i {
        tcp_flags = t.flags;
        tcp_seq = t.seq;
        tcp_ack = t.ack;
        tcp_win = t.window;
      } in
      let w : IsInfo named = ground (arith, r.flags, r.seq, r.ack, r.window) in
      Returns-then (λ j. IsInfo j × SameFrame named j) _ _
        (parse_tcp_options_extended-Returns p start len named
          (header-inside t.payload_ptr t.payload_len start h) w)
        (Gives-both IsInfo (SameFrame named) _
          (parse_tcp_options_extended-IsInfo p all start len named w)
          (parse_tcp_options_extended-SameFrame p start len named))
        (λ j (x, s).
          Returns-then (λ k. IsInfo k × SameFrame j k) _ _ (check_tcp_anomalies-Returns j t x)
            (Gives-both IsInfo (SameFrame j) _ (check_tcp_anomalies-IsInfo j t x)
              (check_tcp_anomalies-SameFrame j t))
            (λ k (y, u).
              tcp_payload-Returns t.payload_len k t.payload_ptr h y
                (u.tls_sni ∙ s.tls_sni ∙ blank)))

  Within-pointer : (o : Option ℕ) (l : ℤ) → Within p o l → pos_part l ≤ length (at_pointer p o)
  Within-pointer none l h = omega arith
  Within-pointer (some at) l h = omega (arith, length-drop at p)

  pub dissect_udp-Returns :
      (t : TransportInfo) (i : PacketInfo)
      → Within p t.payload_ptr t.payload_len
      → IsInfo i
      → Returns (dissect_udp p t i)
  unfolding dissect_udp
  dissect_udp-Returns t i h v =
      let q = at_pointer p t.payload_ptr in
      let l = t.payload_len in
      let readable = Within-pointer t.payload_ptr l h in
      choose (is_port i 53 && is_some t.payload_ptr) _ _
        (λ _.
          Returns-bind _ _
            (Returns-Ensures (Named i.dns_query 64) (dissect_dns q l i.dns_query 64)
              (dissect_dns-Ensures q l i.dns_query 64 readable (omega (arith, v.dns_query))))
            (λ name. tt))
        (λ _.
          choose (is_port i 67 || is_port i 68) _ _
            (λ _.
              Returns-bind _ _
                (Returns-Ensures (Named i.extra_info 128) (dissect_dhcp q l i.extra_info 128) (
                  dissect_dhcp-Ensures q l i.extra_info 128 readable (omega arith)
                    (omega (arith, v.extra_info))))
                (λ text. tt))
            (λ _. choose (is_port i 123) _ _ (λ _. dissect_ntp-Returns q l i readable v) (λ _. tt)))
