-- ===== src/Capture/Returns/Ip.antt =====
-- The branch of dissect_raw_packet for IP: for which headers it returns.
use pacsni.Prelude.{
  ℕ, ◌+◌, ◌^◌, ◌≤◌, ◌<◌, ◌≡◌, ◌∙◌, arith, true, false, inl, inr, ◌==◌, Option, none, some, length,
  replicate, Exec, Gives, Gives-mono,
}
use pacsni.Memory.{Bytes, AllBytes, byte}
use pacsni.Packet.{PacketInfo, IpInfo, TransportInfo}
use pacsni.Packet.Info.{IsInfo}
use pacsni.Layers.{parse_transport_layer}
use pacsni.Layers.Ip.{IpResult}
use pacsni.Layers.Transport.{TransportResult, parse_transport_layer_lem}
use pacsni.Capture.Network.{dissect_transport, with_ip, dissect_ip}
use pacsni.Capture.Frame.{SameFrame}
use pacsni.Capture.Frame.Network.{extended-SameFrame, dissect_icmp-SameFrame, with_ip-SameFrame}
use pacsni.Capture.Ranges.Accesses.{either}
use pacsni.Capture.Ranges.Headers.{IpRanges, TransportRanges, Maybe, parse_transport_layer-Ranges}
use pacsni.Capture.Ranges.Network.{
  dissect_ext-IsInfo, dissect_icmp-IsInfo, with_ip-IsInfo, dissect_tcp-IsInfo, dissect_udp-IsInfo,
}
use pacsni.Capture.Returns.Steps.{Returns, Returns-Ensures, Returns-then, Gives-both, choose}
use pacsni.Capture.Returns.Network.{
  is_ext, Within, dissect_ext-Returns, dissect_icmp-Returns, dissect_other-Returns,
  dissect_tcp-Returns, dissect_udp-Returns,
}

-- The payload of the length that the headers state, and 32 bytes more, lie in the array.
abbrev pub Fits : Bytes → TransportInfo → Type 0
Fits p t = Within p t.payload_ptr t.payload_len

-- An IPv6 header has no extension header behind it, and the payload fits.
pub record IsHonestIp (p : Bytes) (caplen at : ℕ) (ip : IpInfo) : Type 0 where
  pub plain : ip.is_ipv6 ≡ true → is_ext (byte p (at + 6)) ≡ false
  pub fits : Gives (parse_transport_layer p caplen at ip) (Maybe (Fits p))

-- Where the header is, by what parse_ip_layer returns.
record IsPlaced (p : Bytes) (caplen at : ℕ) (ip : IpInfo) : Type 0 where
  header : ip.header ≡ some at
  header_inside : at + 4 ≤ caplen
  inside : at + ip.header_len ≤ caplen
  six : ip.is_ipv6 ≡ true → at + 40 ≤ caplen

IpResult-IsPlaced :
    (p : Bytes) (caplen at : ℕ) (ip : IpInfo)
    → IpResult p caplen at (some ip)
    → IsPlaced p caplen at ip
IpResult-IsPlaced p caplen at ip (inl (v, f)) =
    let l = f.len_is in
    let w = v.whole in
    let m = v.min_len in
    record {
      header = f.header_is;
      header_inside = omega arith;
      inside = omega arith;
      six = λ e. ground (arith, f.version_is);
    }
IpResult-IsPlaced p caplen at ip (inr (v, f)) =
    let l = f.len_is in
    let w = v.whole in
    record { header = f.header_is; header_inside = omega arith; inside = omega arith; six = λ e. w }

-- A record in range that has no server name.
abbrev pub Blank : PacketInfo → Type 0
Blank i = IsInfo i × (i.tls_sni ≡ replicate 64 0)

module _ (p : Bytes) (all : AllBytes p) (caplen : ℕ) (within : caplen ≤ length p)
    (small : caplen < 2 ^ 31) where
  dissect_transport-Returns :
      (ip : IpInfo) (o : Option TransportInfo) (i : PacketInfo)
      → Maybe (Fits p) o
      → Maybe TransportRanges o
      → Blank i
      → Returns (dissect_transport p caplen ip o i)
  unfolding dissect_transport
  dissect_transport-Returns ip none i h r b = tt
  dissect_transport-Returns ip (some t) i h r (v, blank) =
      let ported : PacketInfo = record i { src_port = t.src_port; dst_port = t.dst_port } in
      let w : IsInfo ported = ground (arith, r.src_port, r.dst_port) in
      Returns-then IsInfo _ _
        (choose (i.protocol == 6) _ _ (λ _. dissect_tcp-Returns p all ip t ported h r w blank)
          (λ _. choose (i.protocol == 17) _ _ (λ _. dissect_udp-Returns p t ported h w) (λ _. tt)))
        (either IsInfo (i.protocol == 6) _ _ (dissect_tcp-IsInfo p all ip t ported r w)
          (either IsInfo (i.protocol == 17) _ _ (dissect_udp-IsInfo p all t ported w) w))
        (λ j x. dissect_other-Returns p caplen within small j x)

  Blank-of :
      (i : PacketInfo) (m : Exec PacketInfo)
      → (i.tls_sni ≡ replicate 64 0)
      → Gives m IsInfo
      → Gives m (SameFrame i)
      → Gives m Blank
  Blank-of i m blank v s =
      Gives-mono (λ j. IsInfo j × SameFrame i j) Blank m (Gives-both IsInfo (SameFrame i) m v s)
        (λ j (x, e). (x, e.tls_sni ∙ blank))

  pub dissect_ip-Returns :
      (at : ℕ) (o : Option IpInfo) (i : PacketInfo)
      → IpResult p caplen at o
      → Maybe (IsHonestIp p caplen at) o
      → Maybe IpRanges o
      → Blank i
      → Returns (dissect_ip p caplen at o i)
  unfolding dissect_ip
  dissect_ip-Returns at none i placed h r b = tt
  dissect_ip-Returns at (some ip) i placed h r (v, blank) =
      let known = with_ip at ip i in
      let w = with_ip-IsInfo p all at ip i r v in
      let e = with_ip-SameFrame at ip i in
      let q = IpResult-IsPlaced p caplen at ip placed in
      Returns-then Blank _ _
        (choose ip.is_ipv6 _ _
          (λ six.
            dissect_ext-Returns p caplen within small at known (omega (arith, q.six six))
              (h.plain six))
          (λ _. tt))
        (Blank-of known _ (e.tls_sni ∙ blank)
          (either IsInfo ip.is_ipv6 _ _ (dissect_ext-IsInfo p all caplen at known w) w)
          (extended-SameFrame ip.is_ipv6 p caplen at known))
        (λ j (x, c).
          Returns-then Blank _ _ (dissect_icmp-Returns p caplen within small j x)
            (Blank-of j _ c (dissect_icmp-IsInfo p all caplen j x)
              (dissect_icmp-SameFrame p caplen j))
            (λ k y.
              Returns-then (λ t. Maybe (Fits p) t × Maybe TransportRanges t) _ _
                (Returns-Ensures (TransportResult p caplen (at + ip.header_len) at ip) _ (
                  parse_transport_layer_lem p caplen at at ip within small q.inside q.header
                    q.header_inside))
                (Gives-both (Maybe (Fits p)) (Maybe TransportRanges) _ h.fits
                  (parse_transport_layer-Ranges p all caplen at ip))
                (λ t (f, g). dissect_transport-Returns ip t k f g y)))
