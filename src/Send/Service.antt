-- ===== src/Send/Service.antt =====
-- The side of the packet service that reads from the capture's connection: handle_cpp_connection of
-- rust/packet_service/src/handlers.rs. `verify` is hmac::verify with the service's key; the records
-- go to `out`.
pub mod Stream
use pacsni.Prelude.{
  ℕ, zero, suc, ◌+◌, Bool, true, false, List, [], ◌∷◌, ◌++◌, length, take, drop, ltb, ◌==◌, Exec,
  ret, diverge, ◌>>=◌,
}
use pacsni.Memory.{Bytes, slice}
use pacsni.Packet.{PacketInfo}
use pacsni.Send.Layout.{read_record}

module _ (verify : Bytes → Bytes → Bool) where
  -- The inner loop, for `n` rounds: whether the connection goes on, what has been sent out, and what
  -- is left in the buffer.
  unfoldable pub take_messages : ℕ → List PacketInfo → Bytes → Exec (Bool × List PacketInfo × Bytes)
  take_messages zero out buffer = diverge
  take_messages (suc n) out buffer = elim (ltb (length buffer) 1088) [
    | true ↦ ret (true, out, buffer)
    | false ↦ elim (verify (take 1024 buffer) (slice buffer 1024 64)) [
      | true ↦ take_messages n (out ++ (read_record buffer ∷ [])) (drop 1088 buffer)
      | false ↦ ret (false, out, buffer)
    ]
  ]

  -- The outer loop, for the reads that the socket answers with these bytes. A round of the inner
  -- loop takes bytes away, so as many rounds as there are bytes, and one, are enough.
  unfoldable pub handle_cpp_connection :
      List Bytes → List PacketInfo → Bytes → Exec (Bool × List PacketInfo)
  handle_cpp_connection [] out buffer = ret (true, out)
  handle_cpp_connection (read ∷ reads) out buffer = elim (length read == 0) [
    | true ↦ ret (true, out)
    | false ↦ elim (ltb 2097152 (length (buffer ++ read))) [
      | true ↦ handle_cpp_connection reads out []
      | false ↦ do
        (good, out', buffer') ← take_messages (suc (length (buffer ++ read))) out (buffer ++ read)
        elim good [ true ↦ handle_cpp_connection reads out' buffer' | false ↦ ret (false, out') ]
    ]
  ]
