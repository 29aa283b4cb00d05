-- ===== src/Capture/Handler/Queue.antt =====
-- What packet_handler does to the queue of captured frames.
use pacsni.Prelude.{
  ℕ, ◌+◌, ◌*◌, ◌%◌, ◌^◌, ◌≤◌, ◌<◌, min, ◌≡◌, ◌≢◌, ◌∙◌, refl, sym, ap, false, Bool-cases, inl, inr,
  List, ◌++◌, ◌==◌, arith, length, take, drop, ret, ◌>>=◌,
}
use pacsni.Memory.{Bytes, slice, splice}
use pacsni.Memory.Laws.{memcpy-eq-ret, length-slice}
use pacsni.Packet.{RawPacket, PcapHeader, Timeval}
use pacsni.Ring.{push}
use pacsni.Ring.Fifo
use pacsni.Ring.Valid.{Holds}
use pacsni.Ring.Refine.{push_refines}
use pacsni.Capture.Handler.{HandlerState, elapsed, copied_len, packet_handler}

-- The frame as it is queued: the first bytes of the packet, at most 256, over what `stale` held.
abbrev pub queued : Bytes → PcapHeader → Bytes → Timeval → RawPacket
queued stale h packet last = record {
  pkthdr = h;
  contents = splice stale 0 (slice packet 0 (copied_len h));
  delta_time = elapsed last h.ts;
}

copied_len-le : (h : PcapHeader) → (copied_len h ≤ h.caplen) × (copied_len h ≤ 256)
copied_len-le h = ground arith

-- A time in microseconds.
abbrev pub micros : Timeval → ℕ
micros t = t.tv_sec * 1000000 + t.tv_usec

-- What a frame's callback is to queue, where the frame before it had the time `last`: the header as
-- it is, the first bytes of the packet, at most 256, over what `stale` held, and the microseconds
-- since the frame before, as a uint32_t; 0 where that one's seconds are 0.
pub record IsFrame (stale : Bytes) (h : PcapHeader) (packet : Bytes) (last : Timeval)
    (r : RawPacket) : Type 0 where
  pub pkthdr : r.pkthdr ≡ h
  pub contents : r.contents ≡ take (min h.caplen 256) packet ++ drop (min h.caplen 256) stale
  pub first : last.tv_sec ≡ 0 → r.delta_time ≡ 0
  pub later : last.tv_sec ≢ 0 → (r.delta_time + micros last) % 2 ^ 32 ≡ micros h.ts % 2 ^ 32
  pub range : r.delta_time < 2 ^ 32

copied_len-min : (h : PcapHeader) → copied_len h ≡ min h.caplen 256
copied_len-min h = ground arith

pub queued-IsFrame :
    (stale : Bytes) (h : PcapHeader) (packet : Bytes) (last : Timeval)
    → h.caplen ≤ length packet
    → IsFrame stale h packet last (queued stale h packet last)
unfolding splice slice elapsed
queued-IsFrame stale h packet last there =
    let n = copied_len h in
    let size : length (take n packet) ≡ n =
      length-slice packet 0 n (omega (arith, (copied_len-le h).0)) in
    record {
      pkthdr = refl;
      contents =
          let zero_first : 0 + min h.caplen 256 ≡ min h.caplen 256 = omega arith in
          rw (size, copied_len-min h)
            (ap (λ m. take (min h.caplen 256) packet ++ drop m stale) zero_first);
      first = λ e. ground arith;
      later = λ e. let z : (last.tv_sec == 0) ≡ false = ground arith in rw z (omega arith);
      range = ground arith;
    }

-- What is to be queued is determined.
pub IsFrame-unique :
    (stale : Bytes) (h : PcapHeader) (packet : Bytes) (last : Timeval) (r s : RawPacket)
    → IsFrame stale h packet last r
    → IsFrame stale h packet last s
    → r ≡ s
IsFrame-unique stale h packet last r s a b =
    let header : r.pkthdr ≡ s.pkthdr = a.pkthdr ∙ sym b.pkthdr in
    let bytes : r.contents ≡ s.contents = a.contents ∙ sym b.contents in
    let time : r.delta_time ≡ s.delta_time = elim (Bool-cases (last.tv_sec == 0)) [
      | inl z ↦ let e : last.tv_sec ≡ 0 = ground arith in a.first e ∙ sym (b.first e)
      | inr z ↦
          let e : last.tv_sec ≢ 0 = ground arith in
          omega (arith, a.later e, b.later e, a.range, b.range)
    ] in
    cc

-- The handler's push.
pub packet_handler-push :
    (weak : ℕ) (stale : Bytes) (h : PcapHeader) (packet : Bytes) (s : HandlerState)
    → h.caplen ≤ length packet
    → length stale ≡ 256
    → packet_handler weak stale h packet s ≡ (
        push weak s.raw_queue (queued stale h packet s.last_ts)
        >>= (λ r. ret (record { last_ts = h.ts; raw_queue = r.1 })))
unfolding packet_handler
packet_handler-push weak stale h packet s there size =
    let (l, m) = copied_len-le h in
    rw (memcpy-eq-ret stale 0 packet 0 (copied_len h) (omega arith) (omega arith)) refl

-- The handler returns, remembers the frame's time, and leaves a queue that holds what the bounded
-- FIFO holds when `raw` is pushed.
pub record Pushes (k : ℕ) (s : HandlerState) (items : List RawPacket) (head weak : ℕ)
    (stale : Bytes) (h : PcapHeader) (packet : Bytes) (raw : RawPacket) : Type 0 where
  pub after : HandlerState
  pub returns : packet_handler weak stale h packet s ≡ ret after
  pub time_is : after.last_ts ≡ h.ts
  pub holds : Holds k after.raw_queue (Fifo.push (2 ^ k) items raw).1 head

packet_handler-Pushes :
    {k : ℕ} (s : HandlerState) (items : List RawPacket) {head : ℕ} (weak : ℕ) (stale : Bytes)
    (h : PcapHeader) (packet : Bytes)
    → Holds k s.raw_queue items head
    → h.caplen ≤ length packet
    → length stale ≡ 256
    → Pushes k s items head weak stale h packet (queued stale h packet s.last_ts)
packet_handler-Pushes {k} s items {head} weak stale h packet v there size =
    let p = push_refines weak (queued stale h packet s.last_ts) v in
    record {
      after = record { last_ts = h.ts; raw_queue = p.after };
      returns = rw (packet_handler-push weak stale h packet s there size, p.returns) refl;
      time_is = refl;
      holds = p.holds;
    }

-- For a frame whose captured bytes are there, a variable of 256 bytes and a valid queue of capacity
-- 2 ^ k, packet_handler returns, remembers the frame's time, and puts one item behind the others in
-- the queue: the frame's header as it is, the frame's captured bytes cut to 256 over what the
-- variable held, and a number of microseconds below 2 ^ 32, which is 0 where the seconds of the time
-- remembered are 0, and else leads from the time remembered to the frame's time, modulo 2 ^ 32. A
-- full queue keeps what it holds, and the frame is lost.
pub packet_handler_refines :
    {k : ℕ} (s : HandlerState) (items : List RawPacket) {head : ℕ} (weak : ℕ) (stale : Bytes)
    (h : PcapHeader) (packet : Bytes)
    → Holds k s.raw_queue items head
    → h.caplen ≤ length packet
    → length stale ≡ 256
    → (raw : RawPacket) × IsFrame stale h packet s.last_ts raw
      × Pushes k s items head weak stale h packet raw
packet_handler_refines s items weak stale h packet v there size = (
  queued stale h packet s.last_ts,
  queued-IsFrame stale h packet s.last_ts there,
  packet_handler-Pushes s items weak stale h packet v there size,
)
