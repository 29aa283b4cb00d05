-- ===== src/Capture/Handler.antt =====
-- packet_handler of cpp/packet_capture.cpp: the callback for a captured frame. Its static variable
-- `last_ts` and the queue of the context are its state; `stale` is what the stack held where its
-- variable `raw` lies, and `weak` how often the queue's exchange fails for no reason.
pub mod Queue
pub mod Captures
pub mod OverRead
use pacsni.Prelude.{ℕ, ◌+◌, ◌-◌, ◌*◌, ◌^◌, ltb, ◌==◌, if◌then◌else◌, Exec, ret, ◌>>=◌}
use pacsni.Memory.{Bytes, u32, memcpy}
use pacsni.Packet.{RawPacket, PcapHeader, Timeval, max_payload_size}
use pacsni.Ring.{LockFreeQueue, push}

pub record HandlerState : Type 0 where
  pub last_ts : Timeval
  pub raw_queue : LockFreeQueue RawPacket

-- The microseconds since the last frame, as the conversion to uint32_t leaves them.
unfoldable pub elapsed : Timeval → Timeval → ℕ
elapsed last ts =
    if last.tv_sec == 0
    then 0
    else u32
        (ts.tv_sec * 1000000 + ts.tv_usec + 2 ^ 32 - u32 (last.tv_sec * 1000000 + last.tv_usec))

-- The number of bytes that are copied.
abbrev pub copied_len : PcapHeader → ℕ
copied_len h = if ltb h.caplen max_payload_size then h.caplen else max_payload_size

unfoldable pub packet_handler : ℕ → Bytes → PcapHeader → Bytes → HandlerState → Exec HandlerState
packet_handler weak stale pkthdr packet s = do
  contents ← memcpy stale 0 packet 0 (copied_len pkthdr)
  (_, queue) ←
      push weak s.raw_queue
        (record { pkthdr = pkthdr; contents = contents; delta_time = elapsed s.last_ts pkthdr.ts })
  ret (record { last_ts = pkthdr.ts; raw_queue = queue })
