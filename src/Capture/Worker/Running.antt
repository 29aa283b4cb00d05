-- ===== src/Capture/Worker/Running.antt =====
-- The whole of worker_thread_main keeps the order of the frames and loses none.
use pacsni.Prelude.{
  ℕ, zero, suc, ◌+◌, ◌^◌, ◌≤◌, ◌<◌, ◌≡◌, refl, sym, ap, ◌∙◌, List, [], ◌∷◌, ◌++◌, concat,
  append-nil, append_assoc, arith, length, length-append, Exec, ret,
}
use mathlib.Core.Path.{subst}
use pacsni.Packet.{PacketInfo, RawPacket}
use pacsni.Ring.{LockFreeQueue}
use pacsni.Ring.Valid.{Holds}
use pacsni.Ring.Refine.{push_refines, pop_refines}
use pacsni.Capture.Entropy.{Floats}
use pacsni.Capture.Worker.{
  WorkerState, push_while, deliver, work_next, work_running, worker_thread_main,
}
use pacsni.Capture.Worker.Order.{Fifo_push-room, Dissects, drain_enough}

-- A push to a queue with room, with any reads of keep_running.
record PushedOnce (k : ℕ) (q : LockFreeQueue PacketInfo) (items : List PacketInfo) (head n weak : ℕ)
    (x : PacketInfo) : Type 0 where
  after : LockFreeQueue PacketInfo
  returns : push_while n weak q x ≡ ret after
  holds : Holds k after (items ++ (x ∷ [])) head

push_while-PushedOnce :
    {k : ℕ} {q : LockFreeQueue PacketInfo} {items : List PacketInfo} {head : ℕ} (n weak : ℕ)
    (x : PacketInfo)
    → Holds k q items head
    → length items < 2 ^ k
    → PushedOnce k q items head n weak x
unfolding push_while
push_while-PushedOnce {k} {q} {items} {head} zero weak x v room =
    let p = push_refines weak x v in
    let e = Fifo_push-room (2 ^ k) items x room in
    record { after = p.after; returns = rw p.returns refl; holds = rw e at p.holds }
push_while-PushedOnce {k} {q} {items} {head} (suc n) weak x v room =
    let p = push_refines weak x v in
    let e = Fifo_push-room (2 ^ k) items x room in
    record { after = p.after; returns = rw (p.returns, e) refl; holds = rw e at p.holds }

record Delivered (k : ℕ) (q : LockFreeQueue RawPacket) (items new : List RawPacket) (head weak : ℕ)
    : Type 0 where
  after : LockFreeQueue RawPacket
  returns : deliver weak q new ≡ ret after
  holds : Holds k after (items ++ new) head

deliver-Delivered :
    {k : ℕ} {head : ℕ} (weak : ℕ) (q : LockFreeQueue RawPacket) (items new : List RawPacket)
    → Holds k q items head
    → length items + length new ≤ 2 ^ k
    → Delivered k q items new head weak
unfolding deliver
deliver-Delivered weak q items [] v room = record {
  after = q;
  returns = refl;
  holds = rw (append-nil items) v;
}
deliver-Delivered {k} weak q items (r ∷ new) v room =
    let p = push_refines weak r v in
    let e = Fifo_push-room (2 ^ k) items r (omega arith) in
    let t =
      deliver-Delivered weak p.after (items ++ (r ∷ [])) new (rw e at p.holds)
        (omega (arith, length-append items (r ∷ []))) in
    record {
      after = t.after;
      returns = rw p.returns t.returns;
      holds = rw (append_assoc items (r ∷ []) new) at t.holds;
    }

-- Where the worker stands: the frames that it still has, the records that it has made, and those
-- that it will make.
record Stands (F : Floats) (stack : PacketInfo) (k j head : ℕ) (raws : List RawPacket)
    (old infos : List PacketInfo) (later : List RawPacket) (s : WorkerState) : Type 0 where
  raw_head : ℕ
  frames : Holds k s.raw_queue raws raw_head
  records : Holds j s.dissected_queue old head
  dissects : Dissects F stack (raws ++ later) infos
  room : length old + length (raws ++ later) ≤ 2 ^ j

-- A step of the worker to where `raws` are left.
record Works (F : Floats) (stack : PacketInfo) (k j head : ℕ) (raws : List RawPacket)
    (old infos : List PacketInfo) (later : List RawPacket) (code : Exec WorkerState) : Type 0 where
  after : WorkerState
  left : List RawPacket
  made : List PacketInfo
  to_come : List PacketInfo
  returns : code ≡ ret after
  stands : Stands F stack k j head left made to_come later after
  order : made ++ to_come ≡ old ++ infos
  fewer : length left ≤ length raws

module _ (F : Floats) (weak tries : ℕ) (stack : PacketInfo) {k j head : ℕ} where
  work_next-Works :
      (raws : List RawPacket) (old infos : List PacketInfo) (later : List RawPacket)
      (s : WorkerState)
      → Stands F stack k j head raws old infos later s
      → Works F stack k j head raws old infos later (work_next F weak tries stack s)
  unfolding work_next
  work_next-Works [] old infos later s t =
      let p = pop_refines weak [] t.frames in
      record {
        after = record { raw_queue = p.after; dissected_queue = s.dissected_queue };
        left = [];
        made = old;
        to_come = infos;
        returns = rw p.returns refl;
        stands = record {
          raw_head = p.head';
          frames = p.holds;
          records = t.records;
          dissects = t.dissects;
          room = t.room;
        };
        order = refl;
        fewer = omega arith;
      }
  work_next-Works (r ∷ raws) old [] later s t = elim t.dissects [ ]
  work_next-Works (r ∷ raws) old (i ∷ is) later s t =
      let p = pop_refines weak (r ∷ raws) t.frames in
      let u = push_while-PushedOnce tries weak i t.records (omega (arith, t.room)) in
      record {
        after = record { raw_queue = p.after; dissected_queue = u.after };
        left = raws;
        made = old ++ (i ∷ []);
        to_come = is;
        returns = rw (p.returns, t.dissects.0, u.returns) refl;
        stands = record {
          raw_head = p.head';
          frames = p.holds;
          records = u.holds;
          dissects = t.dissects.1;
          room = omega (arith, t.room, length-append old (i ∷ []));
        };
        order = append_assoc old (i ∷ []) is;
        fewer = omega arith;
      }

  work_running-Works :
      (arrivals : List (List RawPacket)) (raws : List RawPacket) (old infos : List PacketInfo)
      (s : WorkerState)
      → Stands F stack k j head raws old infos (concat arrivals) s
      → length raws + length (concat arrivals) ≤ 2 ^ k
      → Works F stack k j head
          (raws ++ concat arrivals)
          old
          infos
          []
          (work_running F weak tries stack arrivals s)
  unfolding work_running
  work_running-Works [] raws old infos s t few = record {
    after = s;
    left = raws;
    made = old;
    to_come = infos;
    returns = refl;
    stands = t;
    order = refl;
    fewer = omega (arith, length-append raws []);
  }
  work_running-Works (new ∷ arrivals) raws old infos s t few =
      let later = concat arrivals in
      let group : (raws ++ new) ++ later ≡ raws ++ (new ++ later) = append_assoc raws new later in
      let d =
        deliver-Delivered weak s.raw_queue raws new t.frames
          (omega (arith, length-append new later)) in
      let n =
        work_next-Works (raws ++ new) old infos later
          (record { raw_queue = d.after; dissected_queue = s.dissected_queue })
          (record {
            raw_head = t.raw_head;
            frames = d.holds;
            records = t.records;
            dissects = subst (λ l. Dissects F stack l infos) (sym group) t.dissects;
            room = omega (arith, t.room, ap length group);
          }) in
      let u =
        work_running-Works arrivals n.left n.made n.to_come n.after n.stands
          (omega (arith, n.fewer, length-append raws new, length-append new later)) in
      record {
        after = u.after;
        left = u.left;
        made = u.made;
        to_come = u.to_come;
        returns = rw (d.returns, n.returns) u.returns;
        stands = u.stands;
        order = u.order ∙ n.order;
        fewer = omega (
          arith,
          u.fewer,
          n.fewer,
          length-append n.left later,
          length-append raws new,
          length-append raws (new ++ later),
          length-append new later,
        );
      }

pub record Finished (F : Floats) (weak tries : ℕ) (stack : PacketInfo) (n k j : ℕ)
    (arrivals : List (List RawPacket)) (s : WorkerState) (infos : List PacketInfo) (head : ℕ)
    : Type 0 where
  pub after : WorkerState
  pub raw_head : ℕ
  pub returns : worker_thread_main F weak tries stack n arrivals s ≡ ret after
  pub empty : Holds k after.raw_queue [] raw_head
  pub records : Holds j after.dissected_queue infos head

-- Where both queues are valid and have room, and the dissections of the frames in the queue and of
-- those that packet_handler pushes return, the thread ends, in whatever turn the frames arrive, with
-- one round of its last loop for each frame and one more: the queue of frames is empty, and the
-- records stand behind the others, one for each frame, in the order of the frames.
pub worker_thread_main-Drained :
    (F : Floats) (weak tries : ℕ) (stack : PacketInfo) {k j : ℕ} (n : ℕ)
    (arrivals : List (List RawPacket)) (s : WorkerState) {raw_head head : ℕ} (raws : List RawPacket)
    (old infos : List PacketInfo)
    → Holds k s.raw_queue raws raw_head
    → Holds j s.dissected_queue old head
    → Dissects F stack (raws ++ concat arrivals) infos
    → length raws + length (concat arrivals) ≤ 2 ^ k
    → length old + length (raws ++ concat arrivals) ≤ 2 ^ j
    → length (raws ++ concat arrivals) < n
    → Finished F weak (suc tries) stack n k j arrivals s (old ++ infos) head
unfolding worker_thread_main
worker_thread_main-Drained F weak tries stack n arrivals s {raw_head} {head} raws old infos v w d
      few room rounds =
    let u =
      work_running-Works F weak (suc tries) stack arrivals raws old infos s
        (record { raw_head = raw_head; frames = v; records = w; dissects = d; room = room }) few in
    let left : Dissects F stack u.left u.to_come =
      subst (λ l. Dissects F stack l u.to_come) (append-nil u.left) u.stands.dissects in
    let t =
      drain_enough F weak tries stack n u.after u.left u.made u.to_come u.stands.frames
        u.stands.records left (omega (arith, u.stands.room, length-append u.left []))
        (omega (arith, u.fewer)) in
    record {
      after = t.after;
      raw_head = t.raw_head;
      returns = rw u.returns t.returns;
      empty = t.empty;
      records = rw u.order at t.records;
    }
