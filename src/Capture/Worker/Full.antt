-- ===== src/Capture/Worker/Full.antt =====
-- The worker at a queue of records that is full.
use pacsni.Prelude.{ℕ, zero, suc, ◌^◌, ◌≡◌, refl, true, false, List, length, ◌==◌, diverge, arith}
use pacsni.Packet.{PacketInfo}
use pacsni.Ring.{LockFreeQueue}
use pacsni.Ring.Fifo
use pacsni.Ring.Valid.{Holds}
use pacsni.Ring.Refine.{push_refines}
use pacsni.Capture.Worker.{push_until}

Fifo_push-full {ℓ} :
    {T : Type ℓ} (cap : ℕ) (q : List T) (x : T) → length q ≡ cap → Fifo.push cap q x ≡ (false, q)
Fifo_push-full cap q x h = let e : (length q == cap) ≡ true = ground arith in rw e refl

-- At a queue that is full and from which no other thread takes a record, the loop of pushes does not
-- end, in any number of rounds.
pub push_until-full :
    (n weak : ℕ) {k : ℕ} {q : LockFreeQueue PacketInfo} {items : List PacketInfo} {head : ℕ}
    (x : PacketInfo)
    → Holds k q items head
    → length items ≡ 2 ^ k
    → push_until n weak q x ≡ diverge
unfolding push_until
push_until-full zero weak x v full = refl
push_until-full (suc n) weak {k} {q} {items} x v full =
    let p = push_refines weak x v in
    let e = Fifo_push-full (2 ^ k) items x full in
    let held = rw e at p.holds in rw (p.returns, e) (push_until-full n weak x held full)
