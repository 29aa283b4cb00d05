-- ===== src/Capture/Worker.antt =====
-- worker_thread_main of cpp/packet_capture.cpp, which takes frames from one queue and puts their
-- records into another: while the capture runs, and then until the queue of frames is empty. `stack`
-- is what the stack held where the variable `info` lies, and `weak` how often each exchange of the
-- queues fails.
pub mod Order
pub mod Running
pub mod Full
pub mod Captures
use pacsni.Prelude.{ℕ, zero, suc, true, false, none, some, List, [], ◌∷◌, Exec, ret, diverge, ◌>>=◌}
use pacsni.Packet.{PacketInfo, RawPacket}
use pacsni.Ring.{LockFreeQueue, push, pop}
use pacsni.Capture.Entropy.{Floats}
use pacsni.Capture.Raw.{dissect_raw_packet}

pub record WorkerState : Type 0 where
  pub raw_queue : LockFreeQueue RawPacket
  pub dissected_queue : LockFreeQueue PacketInfo

-- `while (!ctx->dissected_queue.push(info)) { … }`, for `n` rounds.
unfoldable pub push_until :
    ℕ → ℕ → LockFreeQueue PacketInfo → PacketInfo → Exec (LockFreeQueue PacketInfo)
push_until zero weak q info = diverge
push_until (suc n) weak q info = do
  (pushed, q') ← push weak q info
  elim pushed [ true ↦ ret q' | false ↦ push_until n weak q' info ]

-- `while (!ctx->dissected_queue.push(info) && keep_running) { … }`, where keep_running is read as true
-- behind the first `n` pushes that fail, and as false behind the next.
unfoldable pub push_while :
    ℕ → ℕ → LockFreeQueue PacketInfo → PacketInfo → Exec (LockFreeQueue PacketInfo)
push_while zero weak q info = do (_, q') ← push weak q info; ret q'
push_while (suc n) weak q info = do
  (pushed, q') ← push weak q info
  elim pushed [ true ↦ ret q' | false ↦ push_while n weak q' info ]

-- What packet_handler pushes; it does not look at the result.
unfoldable pub deliver :
    ℕ → LockFreeQueue RawPacket → List RawPacket → Exec (LockFreeQueue RawPacket)
deliver weak q [] = ret q
deliver weak q (r ∷ rs) = do (_, q') ← push weak q r; deliver weak q' rs

module _ (F : Floats) (weak tries : ℕ) (stack : PacketInfo) where
  -- The loop, for `n` rounds. A pop gives true just when it gives a frame.
  unfoldable pub drain : ℕ → WorkerState → Exec WorkerState
  drain zero s = diverge
  drain (suc n) s = do
    (_, popped, raws) ← pop weak s.raw_queue
    elim popped [
      | none ↦ ret (record { raw_queue = raws; dissected_queue = s.dissected_queue })
      | some raw ↦ do
        info ← dissect_raw_packet F raw stack
        records ← push_until tries weak s.dissected_queue info
        drain n (record { raw_queue = raws; dissected_queue = records })
    ]

  -- A round of the first loop.
  unfoldable pub work_next : WorkerState → Exec WorkerState
  work_next s = do
    (_, popped, raws) ← pop weak s.raw_queue
    elim popped [
      | none ↦ ret (record { raw_queue = raws; dissected_queue = s.dissected_queue })
      | some raw ↦ do
        info ← dissect_raw_packet F raw stack
        records ← push_while tries weak s.dissected_queue info
        ret (record { raw_queue = raws; dissected_queue = records })
    ]

  -- The first loop, with the frames that arrive before each of its rounds; keep_running is false
  -- behind the last one.
  unfoldable pub work_running : List (List RawPacket) → WorkerState → Exec WorkerState
  work_running [] s = ret s
  work_running (arrived ∷ more) s = do
    raws ← deliver weak s.raw_queue arrived
    s' ← work_next (record { raw_queue = raws; dissected_queue = s.dissected_queue })
    work_running more s'

  unfoldable pub worker_thread_main : ℕ → List (List RawPacket) → WorkerState → Exec WorkerState
  worker_thread_main n arrivals s = do s' ← work_running arrivals s; drain n s'
