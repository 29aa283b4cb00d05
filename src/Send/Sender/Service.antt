-- ===== src/Send/Sender/Service.antt =====
-- From the queue of records to the packet service's channel.
use pacsni.Prelude.{
  ℕ, suc, ◌+◌, ◌*◌, ◌^◌, ◌≤◌, ◌<◌, ◌≡◌, ap, ◌∙◌, Bool, true, Option, none, some, List, [], ◌++◌,
  concat, length, ret, Ensures-get, ◌>>=◌,
}
use pacsni.Memory.{Bytes}
use pacsni.Packet.{PacketInfo}
use pacsni.Send.{Tls, secret_key}
use pacsni.Send.Delivery.{IsStream}
use pacsni.Send.Service.{handle_cpp_connection}
use pacsni.Send.Service.Stream.{AllInfo, AllReads, stream, handle_cpp_connection-stream}
use pacsni.Send.Sender.{SenderState, sender_thread_main}
use pacsni.Send.Sender.Round.{IsSteady, Ready}
use pacsni.Send.Sender.Drain.{sender_thread_main-stream}

abbrev pub bytes_taken : (T : Tls) → Option T.Ssl → Bytes
bytes_taken T none = []
bytes_taken T (some c) = T.taken c

-- A network that brings the bytes in reads of its own choice.
pub record IsNetwork (cut : Bytes → List Bytes) : Type 0 where
  pub all : (b : Bytes) → concat (cut b) ≡ b
  pub reads : (b : Bytes) → AllReads (cut b)

-- Where the queue of a new connection holds `items` and has room for all that the workers push, the
-- records are in the ranges of their types, no write fails for good, the service accepts the HMACs
-- that the sender makes, and the network keeps the bytes, the sender ends, and the service gives out
-- `items` and what was pushed, each once and in their order.
pub sender-service :
    (T : Tls) (S : IsStream T) (weak f : ℕ) (hmac : Bytes → Bytes → Bytes) (secret : Option Bytes)
    (key : Bytes) (verify : Bytes → Bytes → Bool) (cut : Bytes → List Bytes) (n k : ℕ)
    (arrivals : List (List PacketInfo)) (items : List PacketInfo) (s : SenderState T)
    → IsSteady T
    → ((k b : Bytes) → length (hmac k b) ≡ 64)
    → secret_key secret ≡ ret key
    → 1088 * suc S.limit + S.limit < f
    → ((b : Bytes) → verify b (hmac key b) ≡ true)
    → IsNetwork cut
    → Ready T k items [] s
    → AllInfo (items ++ concat arrivals)
    → length items + length (concat arrivals) ≤ 2 ^ k
    → length items + length (concat arrivals) < n
    → (sender_thread_main T weak f hmac secret n arrivals s
        >>= (λ s'. handle_cpp_connection verify (cut (bytes_taken T s'.ssl)) [] []))
      ≡ ret (true, items ++ concat arrivals)
sender-service T S weak f hmac secret key verify cut n k arrivals items s steady size known enough
      accepts net r v room rounds =
    let all = items ++ concat arrivals in
    let (s', returns, r') =
      Ensures-get (Ready T k [] (stream (hmac key) all))
        (sender_thread_main T weak f hmac secret n arrivals s)
        (sender_thread_main-stream T S steady weak f hmac secret key size known enough n k arrivals
          items [] s r v room rounds) in
    let taken : bytes_taken T s'.ssl ≡ stream (hmac key) all =
      ap (bytes_taken T) r'.connected ∙ r'.taken in
    rw returns (
      handle_cpp_connection-stream verify (hmac key) (size key) accepts (cut (bytes_taken T s'.ssl))
        all (net.reads (bytes_taken T s'.ssl)) v (net.all (bytes_taken T s'.ssl) ∙ taken))
