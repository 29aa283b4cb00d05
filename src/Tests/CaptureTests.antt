-- ===== src/Tests/CaptureTests.antt =====
-- Of the callback, the worker and the record.
use pacsni.Prelude.{
  ◌≡◌, refl, arith, [], ◌∷◌, ret, diverge, ◌>>=◌, some, pos, Gives, Ensures, Both, List, replicate,
  ◌++◌,
}
use pacsni.Memory.{Bytes, slice, splice}
use pacsni.Packet.{PacketInfo, zero_info, zero_transport, TransportInfo, RawPacket, Timeval}
use pacsni.Ring.{create}
use pacsni.Ring.Valid.{create-Holds}
use pacsni.Ring.Refine.{push_refines}
use pacsni.Capture.Network.{dissect_tcp, tcp_payload}
use pacsni.Capture.KeepAlive.{with_header, report_zero_window, dissect_tcp-no_keep_alive}
use pacsni.Capture.Raw.{dissect_arp, dissect_raw_packet}
use pacsni.Capture.Fields.{IsCaptured}
use pacsni.Capture.Record.{dissect_raw_packet-short, dissect_raw_packet-IsCaptured}
use pacsni.Capture.Handler.{HandlerState}
use pacsni.Capture.Handler.Queue.{IsFrame, Pushes, packet_handler_refines}
use pacsni.Capture.Worker.{WorkerState, push_until}
use pacsni.Capture.Worker.Full.{push_until-full}
use pacsni.Capture.Worker.Running.{Finished, worker_thread_main-Drained}
use pacsni.Capture.Options.{parse_tcp_options}
use pacsni.Capture.Options.Same.{SameOptions, parse_tcp_options-extended}
use pacsni.Dissect.TcpOptions.{parse_tcp_options_extended}
use pacsni.Memory.Laws.{word16}
use pacsni.Capture.Arp.{dissect_arp_lem}
use pacsni.Packet.Info.{IsInfo}
use pacsni.Capture.Ranges.Frame.{dissect_raw_packet-IsInfo}
use pacsni.Capture.Returns.Frame.{dissect_raw_packet-Ensures}
use pacsni.Tests.Honest.{web, rounded, rounded-IsU32, web-IsRawPacket, web-IsHonest}
use pacsni.Tests.Data.{frame, frame_ip, captured, cut_off, pcap_header, whole}

-- A record that the stack may have held.
abbrev stale_info : PacketInfo
stale_info = record zero_info { protocol = 17; tcp_seq = 99 }

dissect_raw_packet-IsCaptured_example :
    Gives (dissect_raw_packet whole captured stale_info) (IsCaptured captured)
dissect_raw_packet-IsCaptured_example =
    dissect_raw_packet-IsCaptured whole captured stale_info (omega arith) (omega arith)
      (omega arith)

abbrev earlier : Timeval
earlier = record { tv_sec = 2; tv_usec = 999000 }

abbrev idle : HandlerState
idle = record { last_ts = earlier; raw_queue = create 2 }

packet_handler_refines_example :
    (raw : RawPacket) × IsFrame (replicate 256 170) (pcap_header 62) frame earlier raw
    × Pushes 1 idle [] 0 0 (replicate 256 170) (pcap_header 62) frame raw
packet_handler_refines_example =
    packet_handler_refines idle [] 0 (replicate 256 170) (pcap_header 62) frame
      (create-Holds RawPacket 1 (omega arith) (omega arith)) (omega arith) refl

abbrev empty_queues : WorkerState
empty_queues = record { raw_queue = create 2; dissected_queue = create 2 }

-- A frame before the first round, none before the second, and one before the third.
abbrev turns : List (List RawPacket)
turns = (cut_off ∷ []) ∷ [] ∷ (cut_off ∷ []) ∷ []

worker_thread_main-Drained_example :
    Finished whole 1 1 stale_info 3 1 1 turns empty_queues (stale_info ∷ stale_info ∷ []) 0
worker_thread_main-Drained_example =
    worker_thread_main-Drained whole 1 0 stale_info 3 turns empty_queues [] []
      (stale_info ∷ stale_info ∷ []) (create-Holds RawPacket 1 (omega arith) (omega arith))
      (create-Holds PacketInfo 1 (omega arith) (omega arith))
      (
        dissect_raw_packet-short whole cut_off stale_info (omega arith),
        (dissect_raw_packet-short whole cut_off stale_info (omega arith), tt),
      )
      (omega arith) (omega arith) (omega arith)

-- A segment size, and the authentication option with a key of one byte.
abbrev header_end : Bytes
header_end = 2 ∷ 4 ∷ 5 ∷ 180 ∷ 1 ∷ 29 ∷ 3 ∷ 7 ∷ []

parse_tcp_options-extended_example :
    Both SameOptions
      (parse_tcp_options (replicate 54 0 ++ header_end) 34 28 zero_transport)
      (parse_tcp_options_extended (replicate 54 0 ++ header_end) 34 28 zero_info)
parse_tcp_options-extended_example =
    parse_tcp_options-extended (replicate 54 0 ++ header_end) 34 28 zero_transport zero_info
      (omega arith) (record { mss = refl; ws = refl; has_ao = refl; edges = refl })

-- Two places, both taken.
push_until-full_example :
    push_until 1000 1
      (push_refines 0 stale_info
        (push_refines 0 stale_info
          (create-Holds PacketInfo 1 (omega arith) (omega arith))).holds).after
      stale_info
    ≡ diverge
push_until-full_example =
    push_until-full 1000 1 stale_info
      (push_refines 0 stale_info
        (push_refines 0 stale_info
          (create-Holds PacketInfo 1 (omega arith) (omega arith))).holds).holds
      (omega arith)

dissect_raw_packet-Ensures_example : Ensures (dissect_raw_packet rounded web stale_info) IsInfo
dissect_raw_packet-Ensures_example =
    dissect_raw_packet-Ensures rounded web stale_info rounded-IsU32 web-IsRawPacket web-IsHonest

dissect_raw_packet-IsInfo_example : Gives (dissect_raw_packet rounded captured stale_info) IsInfo
dissect_raw_packet-IsInfo_example =
    dissect_raw_packet-IsInfo rounded captured stale_info rounded-IsU32
      (record { len = omega arith; delta_time = omega arith; contents = omega arith })
      (λ h. absurd (omega arith))

-- A request from 10.0.0.1 for 10.0.0.2, in the array that packet_handler copies it to.
abbrev request : Bytes
request =
    replicate 14 0
    ++ (0
        ∷ 1
        ∷ 8
        ∷ 0
        ∷ 6
        ∷ 4
        ∷ 0
        ∷ 1
        ∷ 2
        ∷ 2
        ∷ 2
        ∷ 2
        ∷ 2
        ∷ 2
        ∷ 10
        ∷ 0
        ∷ 0
        ∷ 1
        ∷ 0
        ∷ 0
        ∷ 0
        ∷ 0
        ∷ 0
        ∷ 0
        ∷ 10
        ∷ 0
        ∷ 0
        ∷ 2
        ∷ replicate 214 0)

-- Neither address is in the record.
dissect_arp_lem_example :
    dissect_arp request 42 14 zero_info
    ≡ ret (record zero_info {
      protocol = 200;
      src_ip = splice (replicate 16 0) 12 (slice request 34 4);
      dst_ip = splice (replicate 16 0) 12 (slice request 44 4);
    })
unfolding word16
dissect_arp_lem_example =
    dissect_arp_lem request 42 14 zero_info (omega arith) (omega arith) (omega arith) refl refl refl
      refl refl

-- The segment of the frame of the tests, which has no payload.
abbrev segment : TransportInfo
segment = record zero_transport { seq = 9; window = 16; flags = 16; payload_ptr = some 62 }

abbrev at_ip : PacketInfo
at_ip = record zero_info { l3_offset = 18; protocol = 6 }

dissect_tcp-no_keep_alive_example : dissect_tcp frame frame_ip segment at_ip ≡ (
    parse_tcp_options_extended frame 38 24 (with_header segment at_ip) >>= (λ opts.
      report_zero_window segment opts >>= (λ checked. tcp_payload frame (pos 0) checked (some 62))))
dissect_tcp-no_keep_alive_example =
    dissect_tcp-no_keep_alive frame frame_ip segment at_ip (omega arith) refl (omega arith)
