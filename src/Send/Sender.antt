-- ===== src/Send/Sender.antt =====
-- sender_thread_main of cpp/packet_capture.cpp. `weak` is how often each exchange of the queue fails,
-- and `f` a bound of the writes in each call of send_packet_info.
pub mod Round
pub mod Drain
pub mod Service
pub mod Pipeline
pub mod Captures
use pacsni.Prelude.{
  ℕ, zero, suc, Bool, true, false, Option, none, some, List, [], ◌∷◌, Exec, ret, diverge, ◌>>=◌,
}
use pacsni.Memory.{Bytes}
use pacsni.Packet.{PacketInfo}
use pacsni.Ring.{LockFreeQueue, pop}
use pacsni.Capture.Worker.{push_until}
use pacsni.Send.{Tls, send_packet_info}

-- The members of CaptureContext that the thread uses.
pub record SenderState (T : Tls) : Type 0 where
  pub dissected_queue : LockFreeQueue PacketInfo
  pub ssl : Option T.Ssl

-- What the worker threads push.
unfoldable pub arrive :
    ℕ → LockFreeQueue PacketInfo → List PacketInfo → Exec (LockFreeQueue PacketInfo)
arrive weak q [] = ret q
arrive weak q (i ∷ is) = do q' ← push_until 1 weak q i; arrive weak q' is

module _ (T : Tls) (weak f : ℕ) (hmac : Bytes → Bytes → Bytes) (secret : Option Bytes) where
  -- `if (ctx->dissected_queue.pop(info)) send_packet_info(ctx->ssl, info);`, and what the pop gave.
  unfoldable pub send_next : SenderState T → Exec (Bool × SenderState T)
  send_next s = do
    (_, popped, q) ← pop weak s.dissected_queue
    elim popped [
      | none ↦ ret (false, record { dissected_queue = q; ssl = s.ssl })
      | some info ↦ do
        ssl' ← send_packet_info T f hmac secret s.ssl info
        ret (true, record { dissected_queue = q; ssl = ssl' })
    ]

  -- The first loop, with what has been pushed before each of its rounds; `keep_running` is false
  -- behind the last one.
  unfoldable pub send_running : List (List PacketInfo) → SenderState T → Exec (SenderState T)
  send_running [] s = ret s
  send_running (arrived ∷ more) s = do
    q ← arrive weak s.dissected_queue arrived
    (_, s') ← send_next (record { dissected_queue = q; ssl = s.ssl })
    send_running more s'

  -- The second loop, for `n` rounds.
  unfoldable pub send_rest : ℕ → SenderState T → Exec (SenderState T)
  send_rest zero s = diverge
  send_rest (suc n) s = do
    (popped, s') ← send_next s
    elim popped [ true ↦ send_rest n s' | false ↦ ret s' ]

  unfoldable pub sender_thread_main :
      ℕ → List (List PacketInfo) → SenderState T → Exec (SenderState T)
  sender_thread_main n arrivals s = do s' ← send_running arrivals s; send_rest n s'
