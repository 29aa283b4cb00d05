-- ===== src/Tests/Data.antt =====
-- The frame that the tests use.
use pacsni.Prelude.{ℕ, ◌-◌, ◌*◌, ◌/◌, [], ◌∷◌, some}
use pacsni.Memory.{Bytes}
use pacsni.Packet.{IpInfo, zero_ip, RawPacket, PcapHeader}
use pacsni.Capture.Entropy.{Floats}

-- A TCP segment with an MSS option, in IPv4, behind a VLAN tag: 18, 20 and 24 bytes.
abbrev pub frame : Bytes
frame =
    1 ∷ 2 ∷ 3 ∷ 4 ∷ 5 ∷ 6 ∷ 10 ∷ 11 ∷ 12 ∷ 13 ∷ 14 ∷ 15 ∷ 0x81 ∷ 0 ∷ 0 ∷ 5 ∷ 8 ∷ 0 ∷ 0x45 ∷ 0 ∷ 0
    ∷ 44 ∷ 0 ∷ 7 ∷ 0x40 ∷ 0 ∷ 64 ∷ 6 ∷ 0 ∷ 0 ∷ 10 ∷ 0 ∷ 0 ∷ 1 ∷ 10 ∷ 0 ∷ 0 ∷ 2 ∷ 0x1F ∷ 0x90 ∷ 0
    ∷ 80 ∷ 0 ∷ 0 ∷ 0 ∷ 9 ∷ 0 ∷ 0 ∷ 0 ∷ 1 ∷ 0x60 ∷ 0x10 ∷ 0 ∷ 16 ∷ 0 ∷ 0 ∷ 0 ∷ 0 ∷ 2 ∷ 4 ∷ 5 ∷ 180
    ∷ []

abbrev pub frame_ip : IpInfo
frame_ip = record zero_ip { header = some 18; header_len = 20; protocol = 6 }

abbrev pub pcap_header : ℕ → PcapHeader
pcap_header n = record { ts = record { tv_sec = 3; tv_usec = 250 }; caplen = n; len = n }

abbrev pub captured : RawPacket
captured = record { pkthdr = pcap_header 62; contents = frame; delta_time = 0 }

-- The same frame, of which the capture has 10 bytes.
abbrev pub cut_off : RawPacket
cut_off = record { pkthdr = pcap_header 10; contents = frame; delta_time = 0 }

-- Whole numbers in place of `double`, with a logarithm that is 0.
abbrev pub whole : Floats
whole = record {
  Double = ℕ;
  of_int = λ n. n;
  minus = λ a b. a - b;
  times = λ a b. a * b;
  over = λ a b. a / b;
  log2 = λ _. 0;
  to_u32 = λ n. n;
}
