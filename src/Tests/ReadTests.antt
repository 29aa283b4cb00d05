-- ===== src/Tests/ReadTests.antt =====
-- Of packet_handler and the worker, with frames that are too long or too short.
use pacsni.Prelude.{
  ℕ, zero, suc, ◌+◌, ◌*◌, ◌<◌, ◌≡◌, refl, arith, List, [], ◌∷◌, ◌++◌, concat, length, replicate,
  get_or-append, ret, fault,
}
use pacsni.Memory.{Bytes, byte}
use pacsni.Memory.Laws.{word16}
use pacsni.Packet.{PacketInfo, zero_info, RawPacket, Timeval}
use pacsni.Ring.{create}
use pacsni.Ring.Valid.{Holds, create-Holds}
use pacsni.Capture.Raw.{dissect_raw_packet}
use pacsni.Capture.Handler.{HandlerState, packet_handler}
use pacsni.Capture.Handler.OverRead.{AllTags, packet_handler-over_read}
use pacsni.Capture.Handler.Captures.{Callback, IsCallback}
use pacsni.Capture.Worker.{WorkerState}
use pacsni.Capture.Worker.Captures.{capture, capture-short}
use pacsni.Tests.Data.{frame, pcap_header, whole}

-- VLAN tags of the network 1.
abbrev tags : ℕ → Bytes
tags zero = []
tags (suc n) = 0x81 ∷ 0 ∷ 0 ∷ 1 ∷ tags n

abbrev only_tags : Bytes
only_tags = replicate 12 0 ++ tags 62

four_more : (i : ℕ) → 4 * suc i ≡ suc (suc (suc (suc (4 * i))))
four_more i = omega arith

byte-tags : (n i : ℕ) → i < n → byte (tags n) (4 * i) ≡ 0x81
byte-tags zero i h = absurd (omega arith)
byte-tags (suc n) zero h = refl
byte-tags (suc n) (suc i) h = rw (four_more i) (byte-tags n i (omega arith))

byte-tags_next : (n i : ℕ) → i < n → byte (tags n) (suc (4 * i)) ≡ 0
byte-tags_next zero i h = absurd (omega arith)
byte-tags_next (suc n) zero h = refl
byte-tags_next (suc n) (suc i) h = rw (four_more i) (byte-tags_next n i (omega arith))

only_tags-AllTags : AllTags only_tags
unfolding word16
only_tags-AllTags i h =
    let next : 12 + 4 * i + 1 ≡ 12 + suc (4 * i) = omega arith in
    rw next (
      omega (
        arith,
        get_or-append (replicate 12 0) (tags 62) (4 * i) 0,
        get_or-append (replicate 12 0) (tags 62) (suc (4 * i)) 0,
        byte-tags 62 i (omega arith),
        byte-tags_next 62 i (omega arith),
      ))

abbrev before : Timeval
before = record { tv_sec = 2; tv_usec = 999000 }

abbrev idle : HandlerState
idle = record { last_ts = before; raw_queue = create 2 }

packet_handler-over_read_example :
    (after : HandlerState) × (raw : RawPacket) × (packet_handler 0
        (replicate 256 170)
        (pcap_header 260)
        only_tags
        idle
      ≡ ret after)
    × Holds 1 after.raw_queue ([] ++ (raw ∷ [])) 0
    × (length raw.contents ≡ 256)
    × (dissect_raw_packet whole raw zero_info ≡ fault)
packet_handler-over_read_example =
    packet_handler-over_read whole zero_info idle [] 0 (replicate 256 170) (pcap_header 260)
      only_tags (create-Holds RawPacket 1 (omega arith) (omega arith)) (omega arith) (omega arith)
      refl (omega arith) only_tags-AllTags

-- A record that the worker's variable may have held, and two frames of ten bytes.
abbrev left_over : PacketInfo
left_over = record zero_info { protocol = 17; tcp_seq = 99 }

abbrev short_frame : Callback
short_frame = record { stale = replicate 256 170; pkthdr = pcap_header 10; packet = frame }

short_frame-IsCallback : IsCallback short_frame
short_frame-IsCallback = record {
  there = omega arith;
  size = refl;
  stale = omega arith;
  packet = omega arith;
  len = omega arith;
}

abbrev turns : List (List Callback)
turns = (short_frame ∷ []) ∷ [] ∷ (short_frame ∷ []) ∷ []

abbrev new_queues : WorkerState
new_queues = record { raw_queue = create 2; dissected_queue = create 2 }

capture-short_example :
    (after : WorkerState) × (capture whole 1 1 left_over 3 turns before new_queues ≡ ret after)
    × Holds 1 after.dissected_queue ([] ++ replicate (length (concat turns)) left_over) 0
capture-short_example =
    capture-short whole 1 0 left_over 3 turns before new_queues []
      (create-Holds RawPacket 1 (omega arith) (omega arith))
      (create-Holds PacketInfo 1 (omega arith) (omega arith))
      ((short_frame-IsCallback, tt), (tt, ((short_frame-IsCallback, tt), tt))) (omega arith)
      (omega arith) (omega arith) (omega arith)
