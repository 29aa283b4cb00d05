-- ===== src/Capture/Record.antt =====
-- dissect_raw_packet of cpp/packet_capture.cpp as a whole: the record that leaves it.
use pacsni.Prelude.{
  ℕ, ◌+◌, ◌^◌, ◌≤◌, ◌<◌, ◌≡◌, ◌∙◌, refl, ap, Bool, true, Bool-cases, inl, inr, ◌||◌, Option, none,
  some, leb, ◌==◌, if◌then◌else◌, lt→ltb, arith, length, replicate, drop, pos, Exec, ret, fault,
  diverge, ◌>>=◌, Ensures, Gives, Gives-bind, Gives-then, Gives-mono, Gives-ret,
}
use pacsni.Memory.{Bytes, u16, slice, splice, memcpy}
use pacsni.Memory.Laws.{memcpy-eq-ret, memcpy-eq-fault, splice_end, length-slice}
use native.Mathlib.Decide.{dec_lt}
use pacsni.Packet.{PacketInfo, EthernetInfo, RawPacket}
use pacsni.Layers.{parse_ethernet_layer, parse_ip_layer}
use pacsni.Layers.Ethernet.{EthernetResult, parse_ethernet_layer_lem}
use pacsni.Dissect.Stats.{calculate_byte_stats}
use pacsni.Capture.Entropy.{Floats, calculate_entropy_scaled}
use pacsni.Capture.Network.{rest_len}
use pacsni.Capture.Raw.{with_ethernet, finish_packet, dissect_frame, dissect_raw_packet}
use pacsni.Capture.Frame.{SameFrame}
use pacsni.Capture.Frame.Pieces.{calculate_byte_stats-SameFrame, dissect_lldp-SameFrame}
use pacsni.Capture.Frame.Network.{dissect_ip-SameFrame}
use pacsni.Capture.Fields.{
  kept, IsRecord, is_kept_type, HasPayload, IsCaptured, SameFrame-IsRecord, memcpy-Gives,
  byte_stats-payload_len, dissect_arp-SameFrame, dissect_llc-SameFrame, u16-kept,
}

module _ (F : Floats) (raw : RawPacket) (e : EthernetInfo) where
  Finished : Bool → PacketInfo → Type 0
  Finished b i = IsRecord raw e i × HasPayload raw (if b then kept raw else 0) i

  finish_packet-Gives :
      (i : PacketInfo)
      → IsRecord raw e i
      → i.payload ≡ replicate 256 0
      → Gives (finish_packet F raw.contents raw.pkthdr.caplen i) (Finished true)
  unfolding finish_packet Finished
  finish_packet-Gives i r zeros =
      let n = kept raw in
      Gives-bind (Finished true) (calculate_entropy_scaled F raw.contents (pos n)) _ (λ entropy _.
        let known : PacketInfo = record i { payload_len = u16 n; entropy_scaled = entropy } in
        Gives-bind (Finished true) (calculate_byte_stats raw.contents (pos n) known) _ (λ j counted.
          let s =
            Gives-ret (SameFrame known) _ counted
              (calculate_byte_stats-SameFrame raw.contents (pos n) known) in
          let l =
            Gives-ret (λ k. k.payload_len ≡ known.payload_len) _ counted
              (byte_stats-payload_len raw.contents (pos n) known) in
          Gives-then (λ x. x ≡ splice j.payload 0 (slice raw.contents 0 n)) (Finished true) _ _
            (memcpy-Gives j.payload 0 raw.contents 0 n)
            (λ x h. (
              SameFrame-IsRecord raw e i j s r,
              record {
                len_is = l ∙ u16-kept raw;
                bytes_are = h ∙ ap (λ d. splice d 0 (slice raw.contents 0 n)) (s.payload ∙ zeros);
              },
            ))))

  -- A branch that leaves the fields of the frame alone, and the lines behind it.
  finished :
      (m : Exec PacketInfo) (i : PacketInfo)
      → IsRecord raw e i
      → i.payload ≡ replicate 256 0
      → Gives m (SameFrame i)
      → Gives (m >>= finish_packet F raw.contents raw.pkthdr.caplen) (Finished true)
  finished m i r zeros h =
      Gives-then (SameFrame i) (Finished true) m _ h
        (λ j s. finish_packet-Gives j (SameFrame-IsRecord raw e i j s r) (s.payload ∙ zeros))

  dissect_frame-Gives :
      (i : PacketInfo)
      → IsRecord raw e i
      → HasPayload raw 0 i
      → Gives (dissect_frame F raw e i) (Finished (is_kept_type e.ether_type))
  unfolding dissect_frame Finished splice slice
  dissect_frame-Gives i r empty =
      let zeros : i.payload ≡ replicate 256 0 = empty.bytes_are in
      let packet = raw.contents in
      let caplen = raw.pkthdr.caplen in
      let t = e.ether_type in
      elim (Bool-cases (t == 0x0800 || t == 0x86DD)) [
        | inl ip ↦ rw ip (
            Gives-bind (Finished true) (parse_ip_layer packet caplen e.header_len) _ (λ o _.
              finished _ i r zeros (dissect_ip-SameFrame packet caplen e.header_len o i r.tls_sni)))
        | inr t₁ ↦ rw t₁ (elim (Bool-cases (t == 0x0806)) [
          | inl arp ↦
              rw arp (finished _ i r zeros (dissect_arp-SameFrame packet caplen e.header_len i))
          | inr t₂ ↦ rw t₂ (elim (Bool-cases (leb t 1500)) [
            | inl llc ↦ rw llc (finished _ i r zeros (dissect_llc-SameFrame packet caplen e i))
            | inr t₃ ↦ rw t₃ (elim (Bool-cases (t == 0x88cc)) [
              | inl lldp ↦ rw lldp (
                  finished _ i r zeros (
                    dissect_lldp-SameFrame (drop e.header_len packet) (rest_len caplen e.header_len)
                      i))
              | inr other ↦ rw other (r, empty)
            ])
          ])
        ])
      ]

mac-Gives : (s : Bytes) (i : ℕ) → Gives (memcpy (replicate 6 0) 0 s i 6) (λ x. x ≡ slice s i 6)
mac-Gives s i = elim (dec_lt (length s) (i + 6)) [
  | yes short ↦ rw (memcpy-eq-fault (replicate 6 0) 0 s i 6 short) tt
  | no long ↦
      let inside : i + 6 ≤ length s = omega arith in
      rw (memcpy-eq-ret (replicate 6 0) 0 s i 6 inside (omega arith))
        (splice_end (replicate 6 0) 0 (slice s i 6) (omega (arith, length-slice s i 6 inside)))
]

with_ethernet-Gives :
    (raw : RawPacket) (e : EthernetInfo)
    → e.header ≡ 0
    → Gives (with_ethernet raw e) (λ i. IsRecord raw e i × HasPayload raw 0 i)
unfolding with_ethernet splice slice
with_ethernet-Gives raw e zero = rw zero (
    Gives-then (λ x. x ≡ slice raw.contents 6 6) _ _ _ (mac-Gives raw.contents 6)
      (λ src s.
        Gives-then (λ x. x ≡ slice raw.contents 0 6) _ _ _ (mac-Gives raw.contents 0)
          (λ dst d. (
            record {
              timestamp = refl;
              delta_time = refl;
              src_mac = s;
              dst_mac = d;
              l3_offset = refl;
              vlan_id = refl;
              wire_len = refl;
              tls_sni = refl;
            },
            record { len_is = refl; bytes_are = refl },
          ))))

-- For a capture of at least 14 and fewer than 2 ^ 31 bytes, all in the array: whatever the frame
-- carries, where dissect_raw_packet returns, the record has the capture's
-- time and lengths, the frame's two addresses, its tag, and no server name, whatever the caller's
-- variable held; and the payload is a copy of the first bytes of the frame, at most 256, followed
-- by zeros, for the Ethernet types that are dissected, and empty for the others.
pub dissect_raw_packet-IsCaptured :
    (F : Floats) (raw : RawPacket) (info : PacketInfo)
    → raw.pkthdr.caplen ≤ length raw.contents
    → raw.pkthdr.caplen < 2 ^ 31
    → 14 ≤ raw.pkthdr.caplen
    → Gives (dissect_raw_packet F raw info) (IsCaptured raw)
unfolding dissect_raw_packet Finished
dissect_raw_packet-IsCaptured F raw info fits small long =
    start (parse_ethernet_layer raw.contents raw.pkthdr.caplen)
      (parse_ethernet_layer_lem raw.contents raw.pkthdr.caplen fits small)
  where
    start :
        (m : Exec (Option EthernetInfo))
        → Ensures m (EthernetResult raw.contents raw.pkthdr.caplen)
        → Gives
            (m >>= (λ eth. elim eth [
              | none ↦ ret info
              | some e ↦ with_ethernet raw e >>= dissect_frame F raw e
            ]))
            (IsCaptured raw)
    start (ret none) h = absurd (omega (arith, h, long))
    start (ret (some e)) (l, h) =
        Gives-then (λ i. IsRecord raw e i × HasPayload raw 0 i) (IsCaptured raw) _ _
          (with_ethernet-Gives raw e h.header_is)
          (λ i (r, p).
            Gives-mono (Finished F raw e (is_kept_type e.ether_type)) (IsCaptured raw) _
              (dissect_frame-Gives F raw e i r p) (λ j (q, k). (e, q, k, (l, h))))
    start fault h = tt
    start diverge h = tt

-- For a capture of less than 14 bytes dissect_raw_packet returns and leaves what the caller's
-- variable held, whatever that is.
pub dissect_raw_packet-short :
    (F : Floats) (raw : RawPacket) (info : PacketInfo)
    → raw.pkthdr.caplen < 14
    → dissect_raw_packet F raw info ≡ ret info
unfolding dissect_raw_packet parse_ethernet_layer
dissect_raw_packet-short F raw info h = rw (lt→ltb raw.pkthdr.caplen 14 h) refl
