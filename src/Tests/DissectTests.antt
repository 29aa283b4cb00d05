-- ===== src/Tests/DissectTests.antt =====
-- Of the dissectors.
use pacsni.Prelude.{
  ℕ, ◌≡◌, ◌≤◌, ◌+◌, ◌*◌, ◌/◌, refl, inl, some, drop, arith, [], ◌∷◌, ◌++◌, ret, fault, Ensures,
  replicate, length, List, take, pos,
}
use pacsni.Memory.{Bytes, codes, memcmp, read_at, slice, agree}
use pacsni.Memory.Laws.{Named, word16}
use pacsni.Packet.{zero_info}
use pacsni.Dissect.Dns.{dissect_dns}
use pacsni.Dissect.Dns.Safe.{dissect_dns-Ensures}
use pacsni.Dissect.Dns.Names.{dissect_dns-shown}
use pacsni.Dissect.Tls.{dissect_tls_sni}
use pacsni.Dissect.Tls.Safe.{dissect_tls_sni-Ensures, dissect_tls_sni-fault}
use pacsni.Dissect.Dhcp.{dissect_dhcp, cookie}
use pacsni.Dissect.Dhcp.Options.{MessageType, HasName, Shown, dissect_dhcp-MessageType}
use pacsni.Dissect.Http.{memmem, memmem_loop, methods, host_mark, dissect_http}
use pacsni.Dissect.Http.Line.{first_line, Starts}
use pacsni.Dissect.Http.Request.{NoNul, request_text, dissect_http-shown}
use pacsni.Dissect.Http.Search.{IsFirst, memmem-IsFirst}
use pacsni.Dissect.TcpOptions.{parse_tcp_options_extended}
use pacsni.Dissect.TcpOptions.Safe.{SameOutside, parse_tcp_options_extended-Ensures}
use pacsni.Dissect.TcpOptions.RoundTrip.{
  TcpOption, mss, nop, timestamps, encode_all, apply_all, parse_tcp_options_extended-encode_all,
}
use pacsni.Dissect.Stats.{calculate_byte_stats}
use pacsni.Dissect.Stats.Mode.{count, calculate_byte_stats-Ensures}
use pacsni.Dissect.Info.{dissect_lldp}
use pacsni.Dissect.Info.Lldp.{dissect_lldp-fault}
use pacsni.Tests.Data.{frame}

-- A query for `a.b`.
abbrev query : Bytes
query = replicate 12 0 ++ (1 ∷ 97 ∷ 1 ∷ 98 ∷ 0 ∷ [])

dissect_dns-Ensures_example :
    Ensures (dissect_dns query (pos 17) (replicate 64 0) 64) (Named (replicate 64 0) 64)
dissect_dns-Ensures_example =
    dissect_dns-Ensures query (pos 17) (replicate 64 0) 64 (omega arith) (omega arith)

dissect_dns-shown_example :
    dissect_dns
      (replicate 12 0 ++ (3 ∷ (codes "www" ++ (2 ∷ (codes "de" ++ (0 ∷ []))))))
      (pos 20)
      (replicate 64 9)
      64
    ≡ ret (codes "www.de" ++ (0 ∷ replicate 57 9))
dissect_dns-shown_example =
    dissect_dns-shown (codes "www") (codes "de" ∷ []) (replicate 12 0) (replicate 64 9) 64 refl
      (omega arith) (omega arith) (omega arith)

-- A ClientHello without a session id, cut off behind 43 and behind 60 bytes.
abbrev hello : Bytes
hello = 0x16 ∷ 3 ∷ 1 ∷ 0 ∷ 60 ∷ 1 ∷ replicate 37 0

dissect_tls_sni-Ensures_example :
    Ensures
      (dissect_tls_sni (hello ++ replicate 17 0) (pos 60) (replicate 64 0) 64)
      (Named (replicate 64 0) 64)
dissect_tls_sni-Ensures_example =
    dissect_tls_sni-Ensures (hello ++ replicate 17 0) (pos 60) (replicate 64 0) 64 (omega arith)
      (λ e. omega arith) (omega arith) (omega arith)

dissect_tls_sni-fault_example : dissect_tls_sni hello (pos 43) (replicate 64 0) 64 ≡ fault
dissect_tls_sni-fault_example = dissect_tls_sni-fault hello (replicate 64 0) 64 refl refl refl

-- An address request, padding, and a message of type 3.
abbrev options : Bytes
options = 50 ∷ 4 ∷ ((10 ∷ 0 ∷ 0 ∷ 9 ∷ []) ++ (0 ∷ 53 ∷ 1 ∷ 3 ∷ 255 ∷ []))

options-MessageType : MessageType 3 options
options-MessageType =
    MessageType.other 50 4 (10 ∷ 0 ∷ 0 ∷ 9 ∷ []) (omega arith) (omega arith)
      (inl (λ e. omega arith)) refl (MessageType.pad (MessageType.here (255 ∷ [])))

dissect_dhcp-MessageType_example :
    dissect_dhcp
      (replicate 236 0 ++ (cookie ++ options))
      (pos (240 + length options))
      (replicate 128 9)
      128
    ≡ ret (codes "DHCP REQUEST" ++ (0 ∷ replicate 115 9))
dissect_dhcp-MessageType_example =
    dissect_dhcp-MessageType (replicate 236 0) (replicate 128 9) 128 options-MessageType
      (Shown.named (codes "REQUEST") (codes "DHCP REQUEST") (HasName.request refl) refl) refl
      (omega arith) (omega arith)

memmem-IsFirst_example : Ensures (memmem frame 62 (10 ∷ 0 ∷ [])) (IsFirst frame 62 (10 ∷ 0 ∷ []))
memmem-IsFirst_example = memmem-IsFirst frame 62 (10 ∷ 0 ∷ []) (omega arith)

parse_tcp_options_extended-Ensures_example :
    Ensures (parse_tcp_options_extended frame 38 24 zero_info) (SameOutside zero_info)
parse_tcp_options_extended-Ensures_example =
    parse_tcp_options_extended-Ensures frame 38 24 zero_info (omega arith) refl

abbrev said : List TcpOption
said = mss 1460 ∷ nop ∷ timestamps 70000 1 ∷ []

parse_tcp_options_extended-encode_all_example :
    parse_tcp_options_extended
      (replicate 54 0 ++ (encode_all said ++ (1 ∷ [])))
      34
      (20 + length (encode_all said))
      zero_info
    ≡ ret (apply_all zero_info said)
parse_tcp_options_extended-encode_all_example =
    parse_tcp_options_extended-encode_all said (replicate 54 0) (1 ∷ []) 34 zero_info refl

abbrev text : Bytes
text = codes "abba b"

calculate_byte_stats-Ensures_example : Ensures (calculate_byte_stats text (pos 6) zero_info) (λ j.
    ((b : ℕ) → count b (take 6 text) ≤ count j.top_byte (take 6 text))
    × (j.top_byte_freq ≡ count j.top_byte (take 6 text) * 100 / 6)
    × (j.top_byte_freq ≤ 100))
calculate_byte_stats-Ensures_example =
    calculate_byte_stats-Ensures text 6 zero_info (omega arith) (omega arith) (omega arith)
      (omega arith)

dissect_lldp-fault_example : dissect_lldp (2 ∷ 0 ∷ 0 ∷ 0 ∷ []) (pos 4) zero_info ≡ fault
unfolding word16
dissect_lldp-fault_example =
    dissect_lldp-fault (2 ∷ 0 ∷ 0 ∷ 0 ∷ []) 4 zero_info (omega arith) (omega arith) (omega arith)
      (inl refl)

-- A request of 37 bytes, and 40 bytes behind it.
abbrev get_request : Bytes
get_request = codes "GET / HTTP/1.1\r\nHost: pac.example\r\n\r\n" ++ replicate 40 0

host_place : IsFirst get_request 37 host_mark (some 14)
unfolding memmem memmem_loop memcmp read_at slice agree
host_place = memmem-IsFirst get_request 37 host_mark (omega arith)

get_request-Starts : Starts methods get_request 37
unfolding slice
get_request-Starts = inl (omega arith, refl)

get_request-NoNul : NoNul (first_line 37 get_request)
unfolding first_line
get_request-NoNul = ground arith

dissect_http-shown_example :
    dissect_http get_request (pos 37) (replicate 128 0) 128
    ≡ ret (
        request_text get_request 37 128 (some 14)
        ++ drop (length (request_text get_request 37 128 (some 14))) (replicate 128 0))
dissect_http-shown_example =
    dissect_http-shown get_request 37 (replicate 128 0) 128 (some 14) (omega arith) (omega arith)
      (omega arith) (omega arith) get_request-Starts get_request-NoNul host_place
