-- ===== src/Send/Sender/Captures.antt =====
-- From pcap's callbacks to the packet service's channel.
use pacsni.Prelude.{
  ℕ, suc, ◌+◌, ◌*◌, ◌^◌, ◌≤◌, ◌<◌, ◌≡◌, sym, ap, ◌∙◌, Bool, true, Option, some, List, [], ◌∷◌, ◌++◌,
  concat, length, ret, ◌>>=◌, arith,
}
use mathlib.Core.Path.{subst}
use pacsni.Memory.{Bytes}
use pacsni.Packet.{PacketInfo, RawPacket, Timeval}
use pacsni.Capture.Ranges.Frame.{IsU32}
use pacsni.Capture.Returns.Frame.{IsHonest}
use pacsni.Ring.Valid.{Holds}
use pacsni.Capture.Entropy.{Floats}
use pacsni.Capture.Handler.Captures.{
  Callback, AllCallbacks, AreFrames, AreFrames-queued_all, queued_all, queued-IsRawPacket,
}
use pacsni.Capture.Worker.{WorkerState}
use pacsni.Capture.Worker.Captures.{
  AllTurns, capture, queued_turns, concat-queued_turns, capture-worker_thread_main,
}
use pacsni.Capture.Worker.Order.{Dissects}
use pacsni.Send.{Tls, secret_key}
use pacsni.Send.Delivery.{IsStream}
use pacsni.Send.Service.{handle_cpp_connection}
use pacsni.Send.Sender.{sender_thread_main}
use pacsni.Send.Sender.Round.{IsSteady}
use pacsni.Send.Sender.Service.{IsNetwork, bytes_taken}
use pacsni.Send.Sender.Pipeline.{AllHonest, frames-service}

-- The frames tell the truth about their lengths.
abbrev pub AllTruthful : List RawPacket → Type 0
AllTruthful [] = Unit {0}
AllTruthful (r ∷ rs) = IsHonest r × AllTruthful rs

queued_all-AllHonest :
    (last : Timeval) (cs : List Callback)
    → AllCallbacks cs
    → AllTruthful (queued_all last cs)
    → AllHonest (queued_all last cs)
queued_all-AllHonest last [] v h = tt
queued_all-AllHonest last (c ∷ cs) (v, vs) (h, hs) =
    (queued-IsRawPacket c last v, h, queued_all-AllHonest c.pkthdr.ts cs vs hs)

AllCallbacks-append :
    (cs ds : List Callback) → AllCallbacks cs → AllCallbacks ds → AllCallbacks (cs ++ ds)
AllCallbacks-append [] ds h g = g
AllCallbacks-append (c ∷ cs) ds (w, h) g = (w, AllCallbacks-append cs ds h g)

AllTurns-concat : (turns : List (List Callback)) → AllTurns turns → AllCallbacks (concat turns)
AllTurns-concat [] h = tt
AllTurns-concat (cs ∷ more) (h, g) = AllCallbacks-append cs (concat more) h (AllTurns-concat more g)

-- From pcap's callbacks to the packet service's channel, where pcap calls packet_handler before any
-- rounds of one worker's first loop, keep_running is false behind the last of them, the worker then
-- empties the queue of frames, and the sender starts behind the worker and runs its last loop only.
-- `raws` are the frames as they are to be queued: the header as it is, the first 256 bytes at most
-- over what the handler's variable held, and the microseconds since the frame before. Where both
-- queues are new and have room for all frames, each callback's arguments are in the ranges of their
-- types with the captured bytes there, each of `raws` is honest (at least 14 bytes are captured, all
-- are among the 256 of its array, and so are the payload that the IP and transport lengths state, 32
-- bytes behind it, and the addresses that the ARP branch reads; an IPv6 header has no extension
-- headers; no chassis or port TLV of LLDP is empty), the conversion of the entropy to uint32_t is in
-- range, no write fails for good and each is asked for again only a bounded number of times, the
-- rounds given are enough for that, the secret is a C string, the HMACs have 64 bytes and the
-- service accepts them, and the network keeps the bytes and their order: packet_handler returns for
-- every frame, the dissection of each of `raws` returns a record, the worker and then the sender
-- end, and the service gives out these records, each once and in the order of the callbacks.
pub captures-service :
    (F : Floats) (stack : PacketInfo) (T : Tls) (S : IsStream T) (weak tries f : ℕ)
    (hmac : Bytes → Bytes → Bytes) (secret : Option Bytes) (key : Bytes)
    (verify : Bytes → Bytes → Bool) (cut : Bytes → List Bytes) (n k j : ℕ) (last : Timeval)
    (turns : List (List Callback)) (raws : List RawPacket) (w : WorkerState) (c : T.Ssl)
    → IsSteady T
    → ((k b : Bytes) → length (hmac k b) ≡ 64)
    → secret_key secret ≡ ret key
    → 1088 * suc S.limit + S.limit < f
    → ((b : Bytes) → verify b (hmac key b) ≡ true)
    → IsNetwork cut
    → Holds k w.raw_queue [] 0
    → Holds j w.dissected_queue [] 0
    → T.taken c ≡ []
    → IsU32 F
    → AllTurns turns
    → AreFrames last (concat turns) raws
    → AllTruthful raws
    → length raws ≤ 2 ^ k
    → length raws ≤ 2 ^ j
    → length raws < n
    → (infos : List PacketInfo) × Dissects F stack raws infos
      × ((do
        w' ← capture F weak (suc tries) stack n turns last w
        s' ←
            sender_thread_main T weak f hmac secret n []
              (record { dissected_queue = w'.dissected_queue; ssl = some c })
        handle_cpp_connection verify (cut (bytes_taken T s'.ssl)) [] [])
          ≡ ret (true, infos))
captures-service F stack T S weak tries f hmac secret key verify cut n k j last turns raws w c
      steady size known enough accepts net frames records fresh u callbacks queued honest few room
      rounds =
    let all = AllTurns-concat turns callbacks in
    let same : raws ≡ queued_all last (concat turns) =
      AreFrames-queued_all last (concat turns) raws all queued in
    let arrived : raws ≡ concat (queued_turns last turns) =
      same ∙ sym (concat-queued_turns last turns) in
    let truthful : AllHonest raws =
      subst AllHonest (sym same)
        (queued_all-AllHonest last (concat turns) all (subst AllTruthful same honest)) in
    let count : length (concat (queued_turns last turns)) ≡ length raws =
      ap (λ (l : List RawPacket). length l) (sym arrived) in
    let (infos, d, e) =
      frames-service F stack T S weak tries f hmac secret key verify cut n k j []
        (queued_turns last turns) w c steady size known enough accepts net frames records fresh u
        (subst AllHonest arrived truthful) (omega arith) (omega arith) (omega arith) in
    (
      infos,
      subst (λ l. Dissects F stack l infos) (sym arrived) d,
      rw (capture-worker_thread_main F weak (suc tries) stack n turns last w callbacks) e,
    )
