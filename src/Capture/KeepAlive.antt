-- ===== src/Capture/KeepAlive.antt =====
-- check_tcp_anomalies of cpp/protocol_dissectors.cpp, as the TCP branch of dissect_raw_packet
-- (cpp/packet_capture.cpp) calls it.
use pacsni.Prelude.{
  ◌+◌, ◌^◌, ◌≤◌, ◌<◌, ◌≡◌, refl, ap, Bool, true, false, not, ◌&&◌, bit_and, ◌==◌, if◌then◌else◌,
  arith, length, Exec, ret, ◌>>=◌, Ensures-get,
}
use pacsni.Memory.{Bytes, codes, u32, snprintf}
use pacsni.Packet.{PacketInfo, IpInfo, TransportInfo}
use pacsni.Dissect.TcpOptions.{parse_tcp_options_extended, check_tcp_anomalies}
use pacsni.Dissect.TcpOptions.Safe.{SameOutside, parse_tcp_options_extended-Ensures}
use pacsni.Capture.Network.{tcp_header_len, tcp_payload, dissect_tcp}

-- The record with what the TCP header says.
abbrev pub with_header : TransportInfo → PacketInfo → PacketInfo
with_header t info = record info {
  tcp_flags = t.flags;
  tcp_seq = t.seq;
  tcp_ack = t.ack;
  tcp_win = t.window;
}

-- All that can be reported: a window of 0 in a segment with ACK and without SYN, FIN and RST.
abbrev pub report_zero_window : TransportInfo → PacketInfo → Exec PacketInfo
report_zero_window t info =
    if t.window == 0 && not (bit_and t.flags 16 == 0) && bit_and t.flags 7 == 0
    then snprintf info.extra_info 0 128 (codes "TCP ZeroWindow")
      >>= (λ text. ret (record info { extra_info = text }))
    else ret info

not-not : (b : Bool) → not (not b) ≡ b
not-not true = refl
not-not false = refl

never : (a b : Bool) → (a && false && b) ≡ false
never true b = refl
never false b = refl

-- A sequence number is not its own successor.
check_tcp_anomalies-own_seq :
    (info : PacketInfo) (t : TransportInfo)
    → info.tcp_seq ≡ t.seq
    → t.seq < 2 ^ 32
    → check_tcp_anomalies info t ≡ report_zero_window t info
unfolding check_tcp_anomalies
check_tcp_anomalies-own_seq info t same small =
    let s : (u32 (t.seq + 1) == info.tcp_seq) ≡ false = ground arith in
    rw (s, not-not (bit_and t.flags 7 == 0), never (info.payload_len == 1) (bit_and t.flags 7 == 0))
      refl

-- Where the TCP header, of the length that dissect_raw_packet takes it to have, lies inside of the
-- packet, the array for the SACK edges has 32 bytes, and the sequence number is below 2 ^ 32: the
-- TCP branch of dissect_raw_packet reads the options, reports a window of 0 where the segment has
-- ACK and none of SYN, FIN and RST, goes on with the payload, and does nothing else. It never reports
-- a keep-alive, whatever the segment is.
pub dissect_tcp-no_keep_alive :
    (packet : Bytes) (ip : IpInfo) (t : TransportInfo) (info : PacketInfo)
    → info.l3_offset + ip.header_len + tcp_header_len t.payload_ptr (info.l3_offset + ip.header_len)
      ≤ length packet
    → length info.tcp_sack_edges ≡ 32
    → t.seq < 2 ^ 32
    → dissect_tcp packet ip t info ≡ (
        parse_tcp_options_extended packet
          (info.l3_offset + ip.header_len)
          (tcp_header_len t.payload_ptr (info.l3_offset + ip.header_len))
          (with_header t info)
        >>= (λ opts.
            report_zero_window t opts
            >>= (λ checked. tcp_payload packet t.payload_len checked t.payload_ptr)))
unfolding dissect_tcp
dissect_tcp-no_keep_alive packet ip t info inside edges small =
    let start = info.l3_offset + ip.header_len in
    let (opts, e, v) = Ensures-get (SameOutside (with_header t info)) _ (
      parse_tcp_options_extended-Ensures packet start (tcp_header_len t.payload_ptr start)
        (with_header t info) inside edges) in
    let own : opts.tcp_seq ≡ t.seq = ap (λ (i : PacketInfo). i.tcp_seq) v.others in
    rw (e, check_tcp_anomalies-own_seq opts t own small) refl
