-- ===== src/Capture/Worker/Captures.antt =====
-- packet_handler called between the rounds of worker_thread_main: while the worker's first loop runs,
-- pcap_loop (cpp/packet_capture.cpp, in main) calls it for frame after frame.
use pacsni.Prelude.{
  ℕ, suc, ◌+◌, ◌^◌, ◌≤◌, ◌<◌, ◌≡◌, refl, sym, ap, ◌∙◌, Bool, List, [], ◌∷◌, ◌++◌, concat, length,
  replicate, arith, Exec, ret, fault, diverge, ◌>>=◌,
}
use mathlib.Core.Path.{subst}
use pacsni.Packet.{PacketInfo, RawPacket, Timeval}
use pacsni.Ring.{LockFreeQueue, push}
use pacsni.Capture.Entropy.{Floats}
use pacsni.Ring.Valid.{Holds}
use pacsni.Capture.Record.{dissect_raw_packet-short}
use pacsni.Capture.Handler.{HandlerState}
use pacsni.Capture.Handler.Queue.{queued, packet_handler-push}
use pacsni.Capture.Handler.Captures.{
  Callback, AllCallbacks, handle_all, queued_all, last_time, queued_all-append,
}
use pacsni.Capture.Worker.{WorkerState, deliver, work_next, work_running, drain, worker_thread_main}
use pacsni.Capture.Worker.Order.{Dissects}
use pacsni.Capture.Worker.Running.{worker_thread_main-Drained}

-- The worker's first loop, where pcap calls packet_handler with the callbacks of a turn before each
-- of its rounds; `last` is the handler's static variable.
unfoldable pub capture_running :
    Floats → ℕ → ℕ → PacketInfo → List (List Callback) → Timeval → WorkerState → Exec WorkerState
capture_running F weak tries stack [] last s = ret s
capture_running F weak tries stack (cs ∷ more) last s = do
  h ← handle_all weak cs (record { last_ts = last; raw_queue = s.raw_queue })
  s' ←
      work_next F weak tries stack
        (record { raw_queue = h.raw_queue; dissected_queue = s.dissected_queue })
  capture_running F weak tries stack more h.last_ts s'

-- The worker with its callbacks; behind them keep_running is false.
unfoldable pub capture :
    Floats
    → ℕ
    → ℕ
    → PacketInfo
    → ℕ
    → List (List Callback)
    → Timeval
    → WorkerState
    → Exec WorkerState
capture F weak tries stack n turns last s = do
  s' ← capture_running F weak tries stack turns last s
  drain F weak tries stack n s'

-- The frames of each turn.
abbrev pub queued_turns : Timeval → List (List Callback) → List (List RawPacket)
queued_turns last [] = []
queued_turns last (cs ∷ more) = queued_all last cs ∷ queued_turns (last_time last cs) more

pub concat-queued_turns :
    (last : Timeval) (turns : List (List Callback))
    → concat (queued_turns last turns) ≡ queued_all last (concat turns)
concat-queued_turns last [] = refl
concat-queued_turns last (cs ∷ more) =
    ap (λ l. queued_all last cs ++ l) (concat-queued_turns (last_time last cs) more)
    ∙ sym (queued_all-append last cs (concat more))

abbrev pub AllTurns : List (List Callback) → Type 0
AllTurns [] = Unit {0}
AllTurns (cs ∷ more) = AllCallbacks cs × AllTurns more

abbrev Queue : Type 0
Queue = LockFreeQueue RawPacket

-- Two ways to bracket a push, what follows it, and the time that is kept.
bracket :
    (m : Exec (Bool × Queue)) (g : Queue → Exec Queue) (t t' : Timeval)
    (k : HandlerState → Exec HandlerState)
    → ((q : Queue)
        → k (record { last_ts = t; raw_queue = q })
          ≡ (g q >>= (λ r. ret (record { last_ts = t'; raw_queue = r }))))
    → ((m >>= (λ r. ret (record { last_ts = t; raw_queue = r.1 }))) >>= k)
      ≡ ((m >>= (λ r. g r.1)) >>= (λ r. ret (record { last_ts = t'; raw_queue = r })))
bracket (ret a) g t t' k h = h a.1
bracket fault g t t' k h = refl
bracket diverge g t t' k h = refl

-- What the callbacks do to the queue is what the pushes of their frames do.
handle_all-deliver :
    (weak : ℕ) (cs : List Callback) (last : Timeval) (q : Queue)
    → AllCallbacks cs
    → handle_all weak cs (record { last_ts = last; raw_queue = q }) ≡ (
        deliver weak q (queued_all last cs)
        >>= (λ r. ret (record { last_ts = last_time last cs; raw_queue = r })))
unfolding handle_all deliver
handle_all-deliver weak [] last q h = refl
handle_all-deliver weak (c ∷ cs) last q (w, h) =
    rw
      (packet_handler-push weak c.stale c.pkthdr c.packet (record { last_ts = last; raw_queue = q })
        w.there w.size)
      (bracket (push weak q (queued c.stale c.pkthdr c.packet last))
        (λ r. deliver weak r (queued_all c.pkthdr.ts cs)) c.pkthdr.ts (last_time c.pkthdr.ts cs)
        (handle_all weak cs) (λ r. handle_all-deliver weak cs c.pkthdr.ts r h))

bind-congr {ℓ κ} :
    {A : Type ℓ} {B : Type κ} (m : Exec A) (f g : A → Exec B)
    → ((a : A) → f a ≡ g a)
    → (m >>= f) ≡ (m >>= g)
bind-congr (ret a) f g h = h a
bind-congr fault f g h = refl
bind-congr diverge f g h = refl

bind_assoc {ℓ κ μ} :
    {A : Type ℓ} {B : Type κ} {C : Type μ} (m : Exec A) (f : A → Exec B) (g : B → Exec C)
    → ((m >>= f) >>= g) ≡ (m >>= (λ a. f a >>= g))
bind_assoc (ret a) f g = refl
bind_assoc fault f g = refl
bind_assoc diverge f g = refl

capture_running-work_running :
    (F : Floats) (weak tries : ℕ) (stack : PacketInfo) (turns : List (List Callback))
    (last : Timeval) (s : WorkerState)
    → AllTurns turns
    → capture_running F weak tries stack turns last s
      ≡ work_running F weak tries stack (queued_turns last turns) s
unfolding capture_running work_running
capture_running-work_running F weak tries stack [] last s h = refl
capture_running-work_running F weak tries stack (cs ∷ more) last s (h, g) =
    rw (handle_all-deliver weak cs last s.raw_queue h, bind_assoc)
      (bind-congr (deliver weak s.raw_queue (queued_all last cs)) _ _ (λ q.
        bind-congr
          (work_next F weak tries stack
            (record { raw_queue = q; dissected_queue = s.dissected_queue }))
          _ _
          (λ s'. capture_running-work_running F weak tries stack more (last_time last cs) s' g)))

-- The worker with its callbacks is the worker to which their frames arrive.
pub capture-worker_thread_main :
    (F : Floats) (weak tries : ℕ) (stack : PacketInfo) (n : ℕ) (turns : List (List Callback))
    (last : Timeval) (s : WorkerState)
    → AllTurns turns
    → capture F weak tries stack n turns last s
      ≡ worker_thread_main F weak tries stack n (queued_turns last turns) s
unfolding capture worker_thread_main
capture-worker_thread_main F weak tries stack n turns last s h =
    rw (capture_running-work_running F weak tries stack turns last s h) refl

-- Fewer than 14 bytes are captured of each frame.
abbrev pub AllShort : List Callback → Type 0
AllShort [] = Unit {0}
AllShort (c ∷ cs) = (c.pkthdr.caplen < 14) × AllShort cs

queued_all-Dissects :
    (F : Floats) (stack : PacketInfo) (last : Timeval) (cs : List Callback)
    → AllShort cs
    → Dissects F stack (queued_all last cs) (replicate (length cs) stack)
queued_all-Dissects F stack last [] h = tt
queued_all-Dissects F stack last (c ∷ cs) (short, h) = (
  dissect_raw_packet-short F (queued c.stale c.pkthdr c.packet last) stack short,
  queued_all-Dissects F stack c.pkthdr.ts cs h,
)

length-queued_all : (last : Timeval) (cs : List Callback) → length (queued_all last cs) ≡ length cs
length-queued_all last [] = refl
length-queued_all last (c ∷ cs) = ap suc (length-queued_all c.pkthdr.ts cs)

-- Where pcap calls packet_handler before any rounds of the worker's first loop, with frames of which
-- fewer than 14 bytes are captured, both queues are valid and have room, and the queue of frames is
-- empty: packet_handler returns each time, the worker ends, and for each of the frames the queue of
-- records holds what the worker's variable held before, whatever that is.
pub capture-short :
    (F : Floats) (weak tries : ℕ) (stack : PacketInfo) {k j : ℕ} (n : ℕ)
    (turns : List (List Callback)) (last : Timeval) (s : WorkerState) {raw_head head : ℕ}
    (old : List PacketInfo)
    → Holds k s.raw_queue [] raw_head
    → Holds j s.dissected_queue old head
    → AllTurns turns
    → AllShort (concat turns)
    → length (concat turns) ≤ 2 ^ k
    → length old + length (concat turns) ≤ 2 ^ j
    → length (concat turns) < n
    → (after : WorkerState) × (capture F weak (suc tries) stack n turns last s ≡ ret after)
      × Holds j after.dissected_queue (old ++ replicate (length (concat turns)) stack) head
capture-short F weak tries stack n turns last s old v w h short few room rounds =
    let same : concat (queued_turns last turns) ≡ queued_all last (concat turns) =
      concat-queued_turns last turns in
    let count : length (concat (queued_turns last turns)) ≡ length (concat turns) =
      ap (λ (l : List RawPacket). length l) same ∙ length-queued_all last (concat turns) in
    let t =
      worker_thread_main-Drained F weak tries stack n (queued_turns last turns) s [] old
        (replicate (length (concat turns)) stack) v w
        (subst (λ l. Dissects F stack l (replicate (length (concat turns)) stack)) (sym same)
          (queued_all-Dissects F stack last (concat turns) short))
        (omega arith) (omega arith) (omega arith) in
    (
      t.after,
      capture-worker_thread_main F weak (suc tries) stack n turns last s h ∙ t.returns,
      t.records,
    )
