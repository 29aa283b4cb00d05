-- ===== src/Capture/Handler/Captures.antt =====
-- packet_handler called for one frame after the other, as pcap_loop does.
use pacsni.Prelude.{
  ℕ, zero, suc, ◌+◌, ◌^◌, ◌≤◌, ◌<◌, ◌≡◌, refl, ap, arith, List, [], ◌∷◌, ◌++◌, length, take, drop,
  Exec, ret, ◌>>=◌,
}
use pacsni.Memory.{Bytes, AllBytes, slice, splice}
use pacsni.Memory.Laws.{AllBytes-drop}
use pacsni.Packet.{RawPacket, PcapHeader, Timeval}
use pacsni.Capture.Handler.{HandlerState, elapsed, copied_len, packet_handler}
use pacsni.Capture.Handler.Queue.{queued, queued-IsFrame, IsFrame, IsFrame-unique}
use pacsni.Capture.Ranges.Frame.{IsRawPacket}

-- What pcap gives to the callback, and what the stack holds there at that time.
pub record Callback : Type 0 where
  pub stale : Bytes
  pub pkthdr : PcapHeader
  pub packet : Bytes

-- The captured bytes are there, and all members are in the ranges of their types.
pub record IsCallback (c : Callback) : Type 0 where
  pub there : c.pkthdr.caplen ≤ length c.packet
  pub size : length c.stale ≡ 256
  pub stale : AllBytes c.stale
  pub packet : AllBytes c.packet
  pub len : c.pkthdr.len < 2 ^ 32

abbrev pub AllCallbacks : List Callback → Type 0
AllCallbacks [] = Unit {0}
AllCallbacks (c ∷ cs) = IsCallback c × AllCallbacks cs

unfoldable pub handle_all : ℕ → List Callback → HandlerState → Exec HandlerState
handle_all weak [] s = ret s
handle_all weak (c ∷ cs) s = packet_handler weak c.stale c.pkthdr c.packet s >>= handle_all weak cs

-- The frames that are queued, where the frame before them had the time `last`.
abbrev pub queued_all : Timeval → List Callback → List RawPacket
queued_all last [] = []
queued_all last (c ∷ cs) = queued c.stale c.pkthdr c.packet last ∷ queued_all c.pkthdr.ts cs

-- The time of the last of the frames.
abbrev pub last_time : Timeval → List Callback → Timeval
last_time last [] = last
last_time last (c ∷ cs) = last_time c.pkthdr.ts cs

pub queued_all-append :
    (last : Timeval) (cs ds : List Callback)
    → queued_all last (cs ++ ds) ≡ queued_all last cs ++ queued_all (last_time last cs) ds
queued_all-append last [] ds = refl
queued_all-append last (c ∷ cs) ds =
    ap (λ l. queued c.stale c.pkthdr c.packet last ∷ l) (queued_all-append c.pkthdr.ts cs ds)

AllBytes-append : (p q : Bytes) → AllBytes p → AllBytes q → AllBytes (p ++ q)
AllBytes-append [] q h g = g
AllBytes-append (x ∷ p) q (b, h) g = (b, AllBytes-append p q h g)

AllBytes-take : (n : ℕ) (p : Bytes) → AllBytes p → AllBytes (take n p)
AllBytes-take zero p h = tt
AllBytes-take (suc n) [] h = tt
AllBytes-take (suc n) (x ∷ p) (b, h) = (b, AllBytes-take n p h)

-- A queued frame is in the ranges of its types.
pub queued-IsRawPacket :
    (c : Callback) (last : Timeval)
    → IsCallback c
    → IsRawPacket (queued c.stale c.pkthdr c.packet last)
unfolding slice splice elapsed
queued-IsRawPacket c last v = record {
  len = v.len;
  delta_time = ground arith;
  contents =
      let part = take (copied_len c.pkthdr) (drop 0 c.packet) in
      AllBytes-append part _ (AllBytes-take (copied_len c.pkthdr) c.packet v.packet)
        (AllBytes-drop (0 + length part) c.stale v.stale);
}

-- The frames that the callbacks are to queue, where the frame before them had the time `last`.
abbrev pub AreFrames : Timeval → List Callback → List RawPacket → Type 0
AreFrames last [] [] = Unit {0}
AreFrames last (c ∷ cs) (r ∷ rs) =
    IsFrame c.stale c.pkthdr c.packet last r × AreFrames c.pkthdr.ts cs rs
AreFrames last _ _ = ⊥

pub AreFrames-queued_all :
    (last : Timeval) (cs : List Callback) (raws : List RawPacket)
    → AllCallbacks cs
    → AreFrames last cs raws
    → raws ≡ queued_all last cs
AreFrames-queued_all last [] [] h f = refl
AreFrames-queued_all last [] (r ∷ rs) h f = elim f [ ]
AreFrames-queued_all last (c ∷ cs) [] h f = elim f [ ]
AreFrames-queued_all last (c ∷ cs) (r ∷ rs) (w, h) (f, g) =
    let this : r ≡ queued c.stale c.pkthdr c.packet last =
      IsFrame-unique c.stale c.pkthdr c.packet last r _ f
        (queued-IsFrame c.stale c.pkthdr c.packet last w.there) in
    let rest : rs ≡ queued_all c.pkthdr.ts cs = AreFrames-queued_all c.pkthdr.ts cs rs h g in cc
