-- ===== src/Tests/SendTests.antt =====
-- Of the sender and the packet service.
use pacsni.Prelude.{
  ℕ, ◌^◌, ◌≤◌, ◌<◌, ◌≡◌, ◌⊎◌, refl, sym, ap, arith, Bool, true, false, ℤ, pos, negsuc, pos_part,
  ltb_int, Option, some, List, [], ◌∷◌, ◌++◌, length, append-nil, take, concat, ret, Ensures, ◌>>=◌,
  replicate,
}
use pacsni.Memory.{Bytes, agree, c_string}
use pacsni.Packet.{PacketInfo, RawPacket, PcapHeader, Timeval, zero_info}
use pacsni.Capture.Worker.{WorkerState, worker_thread_main}
use pacsni.Send.Sender.Pipeline.{frames-service}
use pacsni.Capture.Worker.Order.{Dissects}
use pacsni.Capture.Handler.Captures.{Callback, IsCallback, AreFrames}
use pacsni.Capture.Worker.Captures.{capture}
use pacsni.Send.Sender.Captures.{captures-service}
use pacsni.Tests.Data.{frame as tagged, pcap_header}
use pacsni.Tests.Honest.{
  later_header, later_padded, later_padded-IsHonest, rounded, padded, rounded-IsU32,
  padded-IsRawPacket, padded-IsHonest,
}
use pacsni.Ring.{create}
use pacsni.Ring.Valid.{create-Holds}
use pacsni.Send.{Tls, want_write, secret_key, send_packet_info}
use pacsni.Send.Layout.{bytes_of, read_record}
use pacsni.Packet.Info.{IsInfo, HasLayout}
use pacsni.Send.Layout.RoundTrip.{read_record-bytes_of}
use pacsni.Send.Delivery.{
  IsWriter, IsStream, IsDelayed, HasTaken, Keeps, frame, send_packet_info-HasTaken,
}
use pacsni.Send.Service.{handle_cpp_connection}
use pacsni.Send.Service.Stream.{AllInfo, AllReads, stream, handle_cpp_connection-stream}
use pacsni.Send.Sender.{SenderState, sender_thread_main}
use pacsni.Send.Sender.Round.{IsSteady, Ready}
use pacsni.Send.Sender.Drain.{sender_thread_main-stream}
use pacsni.Send.Sender.Service.{IsNetwork, bytes_taken}

-- A record of a TCP segment to port 443.
abbrev segment_from : ℕ → PacketInfo
segment_from port = record zero_info {
  src_port = port;
  dst_port = 443;
  protocol = 6;
  has_tcp_ao = 1;
  wire_len = 1500;
}

abbrev segment : PacketInfo
segment = segment_from 40000

segment_from-IsInfo : (port : ℕ) → port < 2 ^ 16 → IsInfo (segment_from port)
segment_from-IsInfo port h = record {
  timestamp = omega arith;
  src_ip = refl;
  dst_ip = refl;
  src_port = omega arith;
  dst_port = omega arith;
  protocol = omega arith;
  has_tcp_ao = omega arith;
  tcp_flags = omega arith;
  l3_offset = omega arith;
  l4_offset = omega arith;
  tcp_seq = omega arith;
  tcp_ack = omega arith;
  icmp_type = omega arith;
  icmp_code = omega arith;
  delta_time = omega arith;
  vlan_id = omega arith;
  ip_ttl = omega arith;
  ip_tos = omega arith;
  tcp_win = omega arith;
  ip_id = omega arith;
  is_ipv6 = omega arith;
  is_fragment = omega arith;
  tcp_mss = omega arith;
  tcp_ws = omega arith;
  ipv6_ext_count = omega arith;
  ipv6_flow = omega arith;
  wire_len = omega arith;
  tcp_ts_val = omega arith;
  tcp_ts_ecr = omega arith;
  tcp_sack = omega arith;
  tcp_rtt = omega arith;
  vxlan_vni = omega arith;
  entropy_scaled = omega arith;
  ntp_stratum = omega arith;
  ntp_mode = omega arith;
  igmp_type = omega arith;
  igmp_group = refl;
  lldp_chassis = refl;
  lldp_port = refl;
  tcp_sack_edges = refl;
  top_byte = omega arith;
  top_byte_freq = omega arith;
  pad = refl;
  payload_len = omega arith;
  src_mac = refl;
  dst_mac = refl;
  dns_query = refl;
  tls_sni = refl;
  extra_info = refl;
  app_layer_info = refl;
  payload = refl;
  final_pad = refl;
}

segment-IsInfo : IsInfo segment
segment-IsInfo = segment_from-IsInfo 40000 (omega arith)

read_record-bytes_of_example : read_record (bytes_of segment ++ (1 ∷ 2 ∷ [])) ≡ segment
read_record-bytes_of_example = read_record-bytes_of segment (1 ∷ 2 ∷ []) segment-IsInfo

-- A connection that takes one byte at a time, and asks for each write once more.
abbrev write_slowly : Bytes × Bool → Bytes → ℤ × (Bytes × Bool)
write_slowly (t, true) b = (negsuc 0, (t, false))
write_slowly (t, false) [] = (negsuc 0, (t, false))
write_slowly (t, false) (x ∷ b) = (pos 1, (t ++ (x ∷ []), true))

abbrev slow : Tls
slow = record {
  Ssl = Bytes × Bool;
  ssl_write = write_slowly;
  ssl_get_error = λ c n. want_write;
  taken = λ c. c.0;
}

abbrev waits : Bool → ℕ
waits true = 1
waits false = 0

at_most : (w : Bool) → waits w ≤ 1
at_most true = omega arith
at_most false = omega arith

counted :
    (t : Bytes) (w : Bool) (b : Bytes)
    → ltb_int (write_slowly (t, w) b).0 1 ≡ false
    → pos_part (write_slowly (t, w) b).0 ≤ length b
counted t true b h = omega arith
counted t false [] h = omega arith
counted t false (x ∷ b) h = omega arith

advances :
    (t : Bytes) (w : Bool) (b : Bytes)
    → ltb_int (write_slowly (t, w) b).0 1 ≡ false
    → (write_slowly (t, w) b).1.0 ≡ t ++ take (pos_part (write_slowly (t, w) b).0) b
advances t true b h = sym (append-nil t)
advances t false [] h = sym (append-nil t)
advances t false (x ∷ b) h = refl

keeps :
    (t : Bytes) (w : Bool) (b : Bytes)
    → ltb_int (write_slowly (t, w) b).0 1 ≡ true
    → (write_slowly (t, w) b).1.0 ≡ t
keeps t true b h = refl
keeps t false [] h = refl
keeps t false (x ∷ b) h = cc

patient :
    (t : Bytes) (w : Bool) (b : Bytes)
    → 1 ≤ length b
    → ltb_int (write_slowly (t, w) b).0 1 ≡ true
    → waits (write_slowly (t, w) b).1.1 < waits w
patient t true b some_bytes h = omega arith
patient t false [] some_bytes h = absurd (omega arith)
patient t false (x ∷ b) some_bytes h = cc

slow-IsWriter : IsWriter slow
slow-IsWriter = record {
  counted = λ c b. counted c.0 c.1 b;
  advances = λ c b. advances c.0 c.1 b;
  waits = λ c b. keeps c.0 c.1 b;
}

abbrev slow-IsStream : IsStream slow
slow-IsStream = record {
  writer = slow-IsWriter;
  limit = 1;
  patience = λ c. waits c.1;
  bounded = λ c. at_most c.1;
  patient = λ c b some_bytes h. patient c.0 c.1 b some_bytes h.0;
}

slow-IsSteady : IsSteady slow
slow-IsSteady c b some_bytes h = refl

-- Instead of a hash: the length of the key, 64 times.
abbrev mac : Bytes → Bytes → Bytes
mac key b = replicate 64 (length key)

length-mac : (key b : Bytes) → length (mac key b) ≡ 64
length-mac key b = refl

abbrev secret : Option Bytes
secret = some (97 ∷ 98 ∷ 0 ∷ [])

abbrev key : Bytes
key = 97 ∷ 98 ∷ []

secret_known : secret_key secret ≡ ret key
unfolding secret_key c_string
secret_known = refl

-- A record that nothing has written to: neither its flags nor its paddings are what they should be.
abbrev garbage : PacketInfo
garbage = record zero_info { has_tcp_ao = 171; tcp_sack = 9; pad = replicate 151 205 }

garbage-HasLayout : HasLayout garbage
garbage-HasLayout = record {
  src_ip = refl;
  dst_ip = refl;
  igmp_group = refl;
  lldp_chassis = refl;
  lldp_port = refl;
  tcp_sack_edges = refl;
  pad = refl;
  src_mac = refl;
  dst_mac = refl;
  dns_query = refl;
  tls_sni = refl;
  extra_info = refl;
  app_layer_info = refl;
  payload = refl;
  final_pad = refl;
}

send_packet_info-HasTaken_example :
    Ensures
      (send_packet_info slow 3000 mac secret (some ([], true)) garbage)
      (Keeps slow (HasTaken slow ([], true) (frame mac key garbage)))
    ⊎ IsDelayed slow ([], true) (frame mac key garbage) 3000
send_packet_info-HasTaken_example =
    send_packet_info-HasTaken slow slow-IsWriter 3000 mac secret key ([], true) garbage length-mac
      secret_known garbage-HasLayout

abbrev verify : Bytes → Bytes → Bool
verify b m = agree m (mac key b)

verify-mac : (b : Bytes) → verify b (mac key b) ≡ true
unfolding agree
verify-mac b = refl

-- A network that brings each byte by itself.
abbrev bytewise : Bytes → List Bytes
bytewise [] = []
bytewise (x ∷ b) = (x ∷ []) ∷ bytewise b

concat-bytewise : (b : Bytes) → concat (bytewise b) ≡ b
concat-bytewise [] = refl
concat-bytewise (x ∷ b) = ap (λ l. x ∷ l) (concat-bytewise b)

bytewise-AllReads : (b : Bytes) → AllReads (bytewise b)
bytewise-AllReads [] = tt
bytewise-AllReads (x ∷ b) = (omega arith, omega arith, bytewise-AllReads b)

bytewise-IsNetwork : IsNetwork bytewise
bytewise-IsNetwork = record { all = concat-bytewise; reads = bytewise-AllReads }

abbrev two_segments : List PacketInfo
two_segments = segment ∷ segment_from 40001 ∷ []

two_segments-AllInfo : AllInfo two_segments
two_segments-AllInfo = (segment-IsInfo, (segment_from-IsInfo 40001 (omega arith), tt))

handle_cpp_connection-stream_example :
    handle_cpp_connection verify (bytewise (stream (mac key) two_segments)) [] []
    ≡ ret (true, two_segments)
handle_cpp_connection-stream_example =
    handle_cpp_connection-stream verify (mac key) (length-mac key) verify-mac
      (bytewise (stream (mac key) two_segments)) two_segments
      (bytewise-AllReads (stream (mac key) two_segments)) two_segments-AllInfo
      (concat-bytewise (stream (mac key) two_segments))

-- A queue of four places; the workers push one record, then nothing, then another one.
abbrev fresh : SenderState slow
fresh = record { dissected_queue = create 4; ssl = some ([], false) }

abbrev arrivals : List (List PacketInfo)
arrivals = (segment ∷ []) ∷ [] ∷ (segment_from 40001 ∷ []) ∷ []

fresh-Ready : Ready slow 2 [] [] fresh
fresh-Ready = record {
  head = 0;
  holds = create-Holds PacketInfo 2 (omega arith) (omega arith);
  connection = ([], false);
  connected = refl;
  taken = refl;
}

sender_thread_main-stream_example :
    Ensures
      (sender_thread_main slow 1 3000 mac secret 3 arrivals fresh)
      (Ready slow 2 [] (stream (mac key) two_segments))
sender_thread_main-stream_example =
    sender_thread_main-stream slow slow-IsStream slow-IsSteady 1 3000 mac secret key length-mac
      secret_known (omega arith) 3 2 arrivals [] [] fresh fresh-Ready two_segments-AllInfo
      (omega arith) (omega arith)

abbrev queues : WorkerState
queues = record { raw_queue = create 2; dissected_queue = create 2 }

-- Two frames of a TCP segment each.
abbrev captures : List (List RawPacket)
captures = (padded ∷ []) ∷ (padded ∷ []) ∷ []

frames-service_example :
    (infos : List PacketInfo) × Dissects rounded segment (padded ∷ padded ∷ []) infos
    × ((do
      w ← worker_thread_main rounded 1 1 segment 3 captures queues
      s ←
          sender_thread_main slow 1 3000 mac secret 3 []
            (record { dissected_queue = w.dissected_queue; ssl = some ([], false) })
      handle_cpp_connection verify (bytewise (bytes_taken slow s.ssl)) [] [])
        ≡ ret (true, infos))
frames-service_example =
    frames-service rounded segment slow slow-IsStream 1 0 3000 mac secret key verify bytewise 3 1 1
      [] captures queues ([], false) slow-IsSteady length-mac secret_known (omega arith) verify-mac
      bytewise-IsNetwork (create-Holds RawPacket 1 (omega arith) (omega arith))
      (create-Holds PacketInfo 1 (omega arith) (omega arith)) refl rounded-IsU32
      (padded-IsRawPacket, padded-IsHonest, (padded-IsRawPacket, padded-IsHonest, tt)) (omega arith)
      (omega arith) (omega arith)

-- The callbacks for two such frames; the stack holds zeros.
abbrev callback : PcapHeader → Callback
callback h = record { stale = replicate 256 0; pkthdr = h; packet = tagged }

callback-IsCallback : (h : PcapHeader) → h.caplen ≡ 62 → h.len ≡ 62 → IsCallback (callback h)
callback-IsCallback h captured wire = record {
  there = omega arith;
  size = refl;
  stale = omega arith;
  packet = omega arith;
  len = omega arith;
}

-- One comes before the first round of the worker, and the other before the third.
abbrev callbacks : List (List Callback)
callbacks = (callback (pcap_header 62) ∷ []) ∷ [] ∷ (callback later_header ∷ []) ∷ []

abbrev at_first : Timeval
at_first = record { tv_sec = 0; tv_usec = 0 }

callbacks-AreFrames : AreFrames at_first (concat callbacks) (padded ∷ later_padded ∷ [])
callbacks-AreFrames = (
  record {
    pkthdr = refl;
    contents = refl;
    first = λ _. refl;
    later = λ e. absurd (e refl);
    range = omega arith;
  },
  (
    record {
      pkthdr = refl;
      contents = refl;
      first = λ e. absurd (omega arith);
      later = λ _. refl;
      range = omega arith;
    },
    tt,
  ),
)

captures-service_example :
    (infos : List PacketInfo) × Dissects rounded segment (padded ∷ later_padded ∷ []) infos
    × ((do
      w ←
          capture rounded 1 1 segment 3 callbacks at_first
            (record { raw_queue = create 2; dissected_queue = create 2 })
      s ←
          sender_thread_main slow 1 3000 mac secret 3 []
            (record { dissected_queue = w.dissected_queue; ssl = some ([], false) })
      handle_cpp_connection verify (bytewise (bytes_taken slow s.ssl)) [] [])
        ≡ ret (true, infos))
captures-service_example =
    captures-service rounded segment slow slow-IsStream 1 0 3000 mac secret key verify bytewise 3 1
      1 at_first callbacks (padded ∷ later_padded ∷ [])
      (record { raw_queue = create 2; dissected_queue = create 2 }) ([], false) slow-IsSteady
      length-mac secret_known (omega arith) verify-mac bytewise-IsNetwork
      (create-Holds RawPacket 1 (omega arith) (omega arith))
      (create-Holds PacketInfo 1 (omega arith) (omega arith)) refl rounded-IsU32
      (
        (callback-IsCallback (pcap_header 62) refl refl, tt),
        (tt, ((callback-IsCallback later_header refl refl, tt), tt)),
      )
      callbacks-AreFrames (padded-IsHonest, (later_padded-IsHonest, tt)) (omega arith) (omega arith)
      (omega arith)
