-- ===== src/Capture/Arp.antt =====
-- The addresses that the ARP branch of dissect_raw_packet reads.
use pacsni.Prelude.{
  ℕ, ◌+◌, ◌*◌, ◌%◌, ◌^◌, ◌≤◌, ◌<◌, ◌≡◌, refl, arith, leb, le→leb, lt→leb, if◌then◌else◌, length,
  ret, fault,
}
use native.Mathlib.Decide.{dec_lt}
use pacsni.Memory.{Bytes, byte, slice, splice}
use pacsni.Memory.Laws.{word16, rd-eq-ret, be16-eq-ret, memcpy-eq-ret, memcpy-eq-fault}
use pacsni.Packet.{PacketInfo}
use pacsni.Capture.Raw.{copy_arp, read_arp, dissect_arp}

module _ (p : Bytes) (caplen at : ℕ) (i : PacketInfo) (within : caplen ≤ length p)
    (small : caplen < 2 ^ 31) (src_ip : length i.src_ip ≡ 16) (dst_ip : length i.dst_ip ≡ 16) where
  copy_arp_lem :
      (sender target : ℕ)
      → sender + 4 ≤ length p
      → copy_arp p sender target i ≡ (
          if leb (target + 4) (length p)
          then ret (record i {
            src_ip = splice i.src_ip 12 (slice p sender 4);
            dst_ip = splice i.dst_ip 12 (slice p target 4);
          })
          else fault)
  unfolding copy_arp
  copy_arp_lem sender target inside = elim (dec_lt (length p) (target + 4)) [
    | yes short ↦
        rw
          (
            memcpy-eq-ret i.src_ip 12 p sender 4 inside (omega arith),
            memcpy-eq-fault i.dst_ip 12 p target 4 short,
            lt→leb (target + 4) (length p) short,
          )
          refl
    | no long ↦
        rw
          (
            memcpy-eq-ret i.src_ip 12 p sender 4 inside (omega arith),
            memcpy-eq-ret i.dst_ip 12 p target 4 (omega arith) (omega arith),
            le→leb (target + 4) (length p) (omega arith),
          )
          refl
  ]

module _ (p : Bytes) (caplen at : ℕ) (i : PacketInfo) where
  -- For an ARP message of 28 captured bytes at `at` that names Ethernet and IPv4 addresses (of 6 and
  -- 4 bytes), with fewer than 2 ^ 31 captured bytes, all in the array, and with address members of
  -- 16 bytes: dissect_arp sets the protocol to 200 and reports the bytes 20 to 23 of the message as
  -- the source and the bytes 30 to 33, which are behind the message, as the destination; where the
  -- array ends before those, it reads behind the array.
  pub dissect_arp_lem :
      caplen ≤ length p
      → caplen < 2 ^ 31
      → at + 28 ≤ caplen
      → word16 p (at + 2) ≡ 0x0800
      → byte p (at + 4) ≡ 6
      → byte p (at + 5) ≡ 4
      → length i.src_ip ≡ 16
      → length i.dst_ip ≡ 16
      → dissect_arp p caplen at i ≡ (
          if leb (at + 34) (length p)
          then ret (record i {
            protocol = 200;
            src_ip = splice i.src_ip 12 (slice p (at + 20) 4);
            dst_ip = splice i.dst_ip 12 (slice p (at + 30) 4);
          })
          else fault)
  unfolding dissect_arp read_arp
  dissect_arp_lem within small whole protocol hardware size src_ip dst_ip =
      let room : (at % 2 ^ 32 + 28) % 2 ^ 32 ≤ caplen = omega arith in
      let sender : at + 8 + 2 * 6 ≡ at + 20 = omega arith in
      let target : at + 20 + 4 + 6 ≡ at + 30 = omega arith in
      let end : at + 30 + 4 ≡ at + 34 = omega arith in
      rw
        (
          le→leb ((at % 2 ^ 32 + 28) % 2 ^ 32) caplen room,
          be16-eq-ret p (at + 2) (omega arith),
          rd-eq-ret p (at + 4) (omega arith),
          rd-eq-ret p (at + 5) (omega arith),
          protocol,
          hardware,
          size,
          sender,
          target,
          ← end,
        )
        (copy_arp_lem p caplen at (record i { protocol = 200 }) within small src_ip dst_ip (at + 20)
          (at + 30) (omega arith))
