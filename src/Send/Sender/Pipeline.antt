-- ===== src/Send/Sender/Pipeline.antt =====
-- From the queue of frames to the packet service's channel.
use pacsni.Prelude.{
  ℕ, suc, ◌+◌, ◌*◌, ◌^◌, ◌≤◌, ◌<◌, ◌≡◌, refl, sym, ap, ◌∙◌, Bool, true, Option, some, List, [], ◌∷◌,
  ◌++◌, concat, append-nil, length, ret, ◌>>=◌, arith, Ensures-get,
}
use mathlib.Core.Path.{subst}
use pacsni.Memory.{Bytes}
use pacsni.Packet.{PacketInfo, RawPacket}
use pacsni.Packet.Info.{IsInfo}
use pacsni.Capture.Raw.{dissect_raw_packet}
use pacsni.Capture.Ranges.Frame.{IsRawPacket, IsU32}
use pacsni.Capture.Returns.Frame.{IsHonest, dissect_raw_packet-Ensures}
use pacsni.Ring.Valid.{Holds}
use pacsni.Capture.Entropy.{Floats}
use pacsni.Capture.Worker.{WorkerState, worker_thread_main}
use pacsni.Capture.Worker.Order.{Dissects}
use pacsni.Capture.Worker.Running.{worker_thread_main-Drained}
use pacsni.Send.{Tls, secret_key}
use pacsni.Send.Delivery.{IsStream}
use pacsni.Send.Service.{handle_cpp_connection}
use pacsni.Send.Service.Stream.{AllInfo}
use pacsni.Send.Sender.{SenderState, sender_thread_main}
use pacsni.Send.Sender.Round.{IsSteady, Ready}
use pacsni.Send.Sender.Service.{IsNetwork, bytes_taken, sender-service}

length-Dissects :
    (F : Floats) (stack : PacketInfo) (raws : List RawPacket) (infos : List PacketInfo)
    → Dissects F stack raws infos
    → length infos ≡ length raws
length-Dissects F stack [] [] d = refl
length-Dissects F stack [] (i ∷ is) d = elim d [ ]
length-Dissects F stack (r ∷ rs) [] d = elim d [ ]
length-Dissects F stack (r ∷ rs) (i ∷ is) (d, ds) = ap suc (length-Dissects F stack rs is ds)

-- Every frame is in the ranges of its types and tells the truth about its lengths.
abbrev pub AllHonest : List RawPacket → Type 0
AllHonest [] = Unit {0}
AllHonest (r ∷ rs) = IsRawPacket r × IsHonest r × AllHonest rs

-- The records of honest frames, whatever the worker's variable held.
dissections :
    (F : Floats) (stack : PacketInfo) (raws : List RawPacket)
    → IsU32 F
    → AllHonest raws
    → (infos : List PacketInfo) × Dissects F stack raws infos × AllInfo infos
dissections F stack [] u h = ([], tt, tt)
dissections F stack (r ∷ rs) u (raw, honest, later) =
    let (i, e, v) =
      Ensures-get IsInfo (dissect_raw_packet F r stack)
        (dissect_raw_packet-Ensures F r stack u raw honest) in
    let (is, d, vs) = dissections F stack rs u later in (i ∷ is, (e, d), (v, vs))

-- Where the queue of frames is valid, the queue of records is new, and both have room for all frames, their dissections return records in the
-- ranges of their types, no write fails for good and each is asked for again only a bounded number
-- of times, the rounds given are enough for that, the secret is a C string, the HMACs have 64
-- bytes and the service accepts them, and the network keeps the bytes and their order, a worker
-- and then the sender end, and the service gives out the record of each frame, once and in the
-- order of the frames.
worker-sender-service :
    (F : Floats) (stack : PacketInfo) (T : Tls) (S : IsStream T) (weak tries f : ℕ)
    (hmac : Bytes → Bytes → Bytes) (secret : Option Bytes) (key : Bytes)
    (verify : Bytes → Bytes → Bool) (cut : Bytes → List Bytes) (n k j : ℕ)
    (waiting : List RawPacket) (arrivals : List (List RawPacket)) {raw_head : ℕ}
    (infos : List PacketInfo) (w : WorkerState) (c : T.Ssl)
    → IsSteady T
    → ((k b : Bytes) → length (hmac k b) ≡ 64)
    → secret_key secret ≡ ret key
    → 1088 * suc S.limit + S.limit < f
    → ((b : Bytes) → verify b (hmac key b) ≡ true)
    → IsNetwork cut
    → Holds k w.raw_queue waiting raw_head
    → Holds j w.dissected_queue [] 0
    → T.taken c ≡ []
    → Dissects F stack (waiting ++ concat arrivals) infos
    → AllInfo infos
    → length waiting + length (concat arrivals) ≤ 2 ^ k
    → length (waiting ++ concat arrivals) ≤ 2 ^ j
    → length (waiting ++ concat arrivals) < n
    → (do
      w' ← worker_thread_main F weak (suc tries) stack n arrivals w
      s' ←
          sender_thread_main T weak f hmac secret n []
            (record { dissected_queue = w'.dissected_queue; ssl = some c })
      handle_cpp_connection verify (cut (bytes_taken T s'.ssl)) [] [])
      ≡ ret (true, infos)
worker-sender-service F stack T S weak tries f hmac secret key verify cut n k j waiting arrivals
      infos w c steady size known enough accepts net frames records fresh d v few room rounds =
    let t =
      worker_thread_main-Drained F weak tries stack n arrivals w waiting [] infos frames records d
        (omega arith) (omega arith) (omega arith) in
    let count : length infos ≡ length (waiting ++ concat arrivals) =
      length-Dissects F stack (waiting ++ concat arrivals) infos d in
    let s : SenderState T = record { dissected_queue = t.after.dissected_queue; ssl = some c } in
    let r : Ready T j infos [] s = record {
      head = 0;
      holds = t.records;
      connection = c;
      connected = refl;
      taken = fresh;
    } in
    let back : infos ++ [] ≡ infos = append-nil infos in
    rw t.returns (
      sender-service T S weak f hmac secret key verify cut n j [] infos s steady size known enough
        accepts net r (subst AllInfo (sym back) v) (omega arith) (omega arith)
      ∙ ap (λ l. ret (true, l)) back)

-- Where the queue of frames is valid, the queue of records is new, both have room for all frames,
-- those that wait and those that arrive, every frame is in the ranges of its types and honest (its
-- captured bytes, at least 14 and fewer than 2 ^ 31, are in its array, and so are the payload that
-- the IP and transport lengths state, 32 bytes behind it, and the addresses that the ARP branch
-- reads; an IPv6 header has no extension headers; no chassis or port TLV of LLDP is empty), the
-- conversion of the entropy to uint32_t is in range, no write fails for good and each is asked for
-- again only a bounded number of times, the rounds given are enough for that, the secret is a C
-- string, the HMACs have 64 bytes and the service accepts them, and the network keeps the bytes and
-- their order: each frame's dissection returns a record, a worker and then the sender end, and the
-- service gives out the record of each frame, once and in the order of the frames.
pub frames-service :
    (F : Floats) (stack : PacketInfo) (T : Tls) (S : IsStream T) (weak tries f : ℕ)
    (hmac : Bytes → Bytes → Bytes) (secret : Option Bytes) (key : Bytes)
    (verify : Bytes → Bytes → Bool) (cut : Bytes → List Bytes) (n k j : ℕ)
    (waiting : List RawPacket) (arrivals : List (List RawPacket)) {raw_head : ℕ} (w : WorkerState)
    (c : T.Ssl)
    → IsSteady T
    → ((k b : Bytes) → length (hmac k b) ≡ 64)
    → secret_key secret ≡ ret key
    → 1088 * suc S.limit + S.limit < f
    → ((b : Bytes) → verify b (hmac key b) ≡ true)
    → IsNetwork cut
    → Holds k w.raw_queue waiting raw_head
    → Holds j w.dissected_queue [] 0
    → T.taken c ≡ []
    → IsU32 F
    → AllHonest (waiting ++ concat arrivals)
    → length waiting + length (concat arrivals) ≤ 2 ^ k
    → length (waiting ++ concat arrivals) ≤ 2 ^ j
    → length (waiting ++ concat arrivals) < n
    → (infos : List PacketInfo) × Dissects F stack (waiting ++ concat arrivals) infos
      × ((do
        w' ← worker_thread_main F weak (suc tries) stack n arrivals w
        s' ←
            sender_thread_main T weak f hmac secret n []
              (record { dissected_queue = w'.dissected_queue; ssl = some c })
        handle_cpp_connection verify (cut (bytes_taken T s'.ssl)) [] [])
          ≡ ret (true, infos))
frames-service F stack T S weak tries f hmac secret key verify cut n k j waiting arrivals w c steady
      size known enough accepts net frames records fresh u honest few room rounds =
    let (infos, d, v) = dissections F stack (waiting ++ concat arrivals) u honest in
    (
      infos,
      d,
      worker-sender-service F stack T S weak tries f hmac secret key verify cut n k j waiting
          arrivals infos w c steady size known enough accepts net frames records fresh d v few room
          rounds,
    )
