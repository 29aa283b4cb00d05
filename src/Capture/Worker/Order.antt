-- ===== src/Capture/Worker/Order.antt =====
-- The worker keeps the order of the frames and loses none.
use pacsni.Prelude.{
  ℕ, zero, suc, ◌+◌, ◌^◌, ◌≤◌, ◌<◌, ◌≡◌, refl, true, false, List, [], ◌∷◌, ◌++◌, append-nil,
  append_assoc, ◌==◌, arith, length, length-append, ret,
}
use pacsni.Packet.{PacketInfo, RawPacket}
use pacsni.Ring.{LockFreeQueue}
use pacsni.Ring.Fifo
use pacsni.Ring.Valid.{Holds}
use pacsni.Ring.Refine.{push_refines, pop_refines}
use pacsni.Capture.Entropy.{Floats}
use pacsni.Capture.Raw.{dissect_raw_packet}
use pacsni.Capture.Worker.{WorkerState, push_until, drain}

pub Fifo_push-room {ℓ} :
    {T : Type ℓ} (cap : ℕ) (q : List T) (x : T)
    → length q < cap
    → Fifo.push cap q x ≡ (true, q ++ (x ∷ []))
Fifo_push-room cap q x h = let e : (length q == cap) ≡ false = ground arith in rw e refl

-- A push to a queue with room, by a loop of any length.
pub record Pushed (k : ℕ) (q : LockFreeQueue PacketInfo) (items : List PacketInfo) (head n weak : ℕ)
    (x : PacketInfo) : Type 0 where
  pub after : LockFreeQueue PacketInfo
  pub returns : push_until (suc n) weak q x ≡ ret after
  pub holds : Holds k after (items ++ (x ∷ [])) head

pub push_until-Pushed :
    {k : ℕ} {q : LockFreeQueue PacketInfo} {items : List PacketInfo} {head : ℕ} (n weak : ℕ)
    (x : PacketInfo)
    → Holds k q items head
    → length items < 2 ^ k
    → Pushed k q items head n weak x
unfolding push_until
push_until-Pushed {k} {q} {items} {head} n weak x v room =
    let p = push_refines weak x v in
    let e = Fifo_push-room (2 ^ k) items x room in
    record { after = p.after; returns = rw (p.returns, e) refl; holds = rw e at p.holds }

-- Each frame's dissection returns the record at its place.
abbrev pub Dissects : Floats → PacketInfo → List RawPacket → List PacketInfo → Type 0
Dissects F stack [] [] = Unit
Dissects F stack (r ∷ rs) (i ∷ is) = (dissect_raw_packet F r stack ≡ ret i) × Dissects F stack rs is
Dissects F stack _ _ = ⊥

pub record Drained (F : Floats) (weak tries : ℕ) (stack : PacketInfo) (n k j : ℕ) (s : WorkerState)
    (infos : List PacketInfo) (head : ℕ) : Type 0 where
  pub after : WorkerState
  pub raw_head : ℕ
  pub returns : drain F weak tries stack n s ≡ ret after
  pub empty : Holds k after.raw_queue [] raw_head
  pub records : Holds j after.dissected_queue infos head

pub drain_enough :
    (F : Floats) (weak tries : ℕ) (stack : PacketInfo) {k j : ℕ} (n : ℕ) (s : WorkerState)
    {raw_head head : ℕ} (raws : List RawPacket) (old infos : List PacketInfo)
    → Holds k s.raw_queue raws raw_head
    → Holds j s.dissected_queue old head
    → Dissects F stack raws infos
    → length old + length raws ≤ 2 ^ j
    → length raws < n
    → Drained F weak (suc tries) stack n k j s (old ++ infos) head
unfolding drain
drain_enough F weak tries stack zero s raws old infos v w d room enough = absurd (omega arith)
drain_enough F weak tries stack (suc n) s {raw_head} [] old [] v w d room enough =
    let p = pop_refines weak [] v in
    record {
      after = record { raw_queue = p.after; dissected_queue = s.dissected_queue };
      raw_head = p.head';
      returns = rw p.returns refl;
      empty = p.holds;
      records = rw (append-nil old) w;
    }
drain_enough F weak tries stack (suc n) s [] old (i ∷ is) v w d room enough = elim d [ ]
drain_enough F weak tries stack (suc n) s (r ∷ rs) old [] v w d room enough = elim d [ ]
drain_enough F weak tries stack (suc n) s (r ∷ rs) old (i ∷ is) v w (d, ds) room enough =
    let p = pop_refines weak (r ∷ rs) v in
    let u = push_until-Pushed tries weak i w (omega arith) in
    let t =
      drain_enough F weak tries stack n (record { raw_queue = p.after; dissected_queue = u.after })
        rs (old ++ (i ∷ [])) is p.holds u.holds ds (omega (arith, length-append old (i ∷ [])))
        (omega arith) in
    record {
      after = t.after;
      raw_head = t.raw_head;
      returns = rw (p.returns, d, u.returns) t.returns;
      empty = t.empty;
      records = rw (append_assoc old (i ∷ []) is) at t.records;
    }

-- Where both queues are valid, the queue of records has room for one of each frame, and the frames'
-- dissections return, the loop ends after one round for each frame and one more: the queue of frames
-- is empty, and the records stand behind the others in the order of their frames.
pub drain_in_order :
    (F : Floats) (weak tries : ℕ) (stack : PacketInfo) {k j : ℕ} (s : WorkerState)
    {raw_head head : ℕ} (raws : List RawPacket) (old infos : List PacketInfo)
    → Holds k s.raw_queue raws raw_head
    → Holds j s.dissected_queue old head
    → Dissects F stack raws infos
    → length old + length raws ≤ 2 ^ j
    → Drained F weak (suc tries) stack (suc (length raws)) k j s (old ++ infos) head
drain_in_order F weak tries stack s raws old infos v w d room =
    drain_enough F weak tries stack (suc (length raws)) s raws old infos v w d room (omega arith)
