-- ===== src/Tests/Honest.antt =====
-- A frame that tells the truth about its lengths.
use pacsni.Prelude.{[], ◌∷◌, ◌++◌, ◌%◌, ◌^◌, replicate, arith}
use pacsni.Memory.{codes, rd, be16, be32, memcpy, of_option, read_at, write_at}
use pacsni.Packet.{RawPacket, PcapHeader}
use pacsni.Layers.{
  parse_ethernet_layer, vlan_loop, more_tags, is_vlan, parse_ip_layer, parse_ipv4, parse_ipv6,
  parse_transport_layer, parse_tcp, ip_total_length,
}
use pacsni.Capture.Entropy.{Floats}
use pacsni.Capture.Ranges.Frame.{IsRawPacket, IsU32}
use pacsni.Capture.Returns.Frame.{IsHonest}
use pacsni.Tests.Data.{frame, pcap_header, whole}

-- Whole numbers, and their remainders as uint32_t.
abbrev pub rounded : Floats
rounded = record whole { to_u32 = λ n. n % 2 ^ 32 }

-- The frame of the tests, in the array of 256 bytes that packet_handler copies it to.
abbrev pub padded : RawPacket
padded = record { pkthdr = pcap_header 62; contents = frame ++ replicate 194 0; delta_time = 0 }

pub rounded-IsU32 : IsU32 rounded
rounded-IsU32 d = omega arith

pub padded-IsRawPacket : IsRawPacket padded
padded-IsRawPacket = record { len = omega arith; delta_time = omega arith; contents = omega arith }

pub padded-IsHonest : IsHonest padded
unfolding rd be16 be32 memcpy parse_ethernet_layer vlan_loop more_tags is_vlan parse_ip_layer
    parse_ipv4 parse_ipv6 parse_transport_layer parse_tcp ip_total_length of_option read_at write_at
padded-IsHonest = record {
  captured = omega arith;
  small = omega arith;
  long = omega arith;
  frame = record {
    arp = λ e. absurd (omega arith);
    lldp = λ e. absurd (omega arith);
    ip = λ _. record { plain = λ e. ground arith; fits = omega arith };
  };
}

-- The same frame, 999850 microseconds later.
abbrev pub later_header : PcapHeader
later_header = record { ts = record { tv_sec = 4; tv_usec = 100 }; caplen = 62; len = 62 }

abbrev pub later_padded : RawPacket
later_padded = record padded { pkthdr = later_header; delta_time = 999850 }

pub later_padded-IsHonest : IsHonest later_padded
unfolding rd be16 be32 memcpy parse_ethernet_layer vlan_loop more_tags is_vlan parse_ip_layer
    parse_ipv4 parse_ipv6 parse_transport_layer parse_tcp ip_total_length of_option read_at write_at
later_padded-IsHonest = record {
  captured = omega arith;
  small = omega arith;
  long = omega arith;
  frame = record {
    arp = λ e. absurd (omega arith);
    lldp = λ e. absurd (omega arith);
    ip = λ _. record { plain = λ e. ground arith; fits = omega arith };
  };
}

-- A request to port 80 in TCP and IPv4: 14, 20, 20 and 37 bytes of 256.
abbrev pub web : RawPacket
web = record {
  pkthdr = pcap_header 91;
  contents =
      (1 ∷ 2 ∷ 3 ∷ 4 ∷ 5 ∷ 6 ∷ 10 ∷ 11 ∷ 12 ∷ 13 ∷ 14 ∷ 15 ∷ 8 ∷ 0 ∷ 0x45 ∷ 0 ∷ 0 ∷ 77 ∷ 0 ∷ 7
        ∷ 0x40 ∷ 0 ∷ 64 ∷ 6 ∷ 0 ∷ 0 ∷ 10 ∷ 0 ∷ 0 ∷ 1 ∷ 10 ∷ 0 ∷ 0 ∷ 2 ∷ 0x1F ∷ 0x90 ∷ 0 ∷ 80 ∷ 0 ∷ 0
        ∷ 0 ∷ 9 ∷ 0 ∷ 0 ∷ 0 ∷ 1 ∷ 0x50 ∷ 0x10 ∷ 0 ∷ 16 ∷ 0 ∷ 0 ∷ 0 ∷ 0 ∷ [])
      ++ (codes "GET / HTTP/1.1\r\nHost: pac.example\r\n\r\n" ++ replicate 165 0);
  delta_time = 0;
}

pub web-IsRawPacket : IsRawPacket web
web-IsRawPacket = record { len = omega arith; delta_time = omega arith; contents = omega arith }

pub web-IsHonest : IsHonest web
unfolding rd be16 be32 memcpy parse_ethernet_layer vlan_loop more_tags is_vlan parse_ip_layer
    parse_ipv4 parse_ipv6 parse_transport_layer parse_tcp ip_total_length of_option read_at write_at
web-IsHonest = record {
  captured = omega arith;
  small = omega arith;
  long = omega arith;
  frame = record {
    arp = λ e. absurd (omega arith);
    lldp = λ e. absurd (omega arith);
    ip = λ _. record { plain = λ e. ground arith; fits = omega arith };
  };
}
