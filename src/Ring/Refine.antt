-- ===== src/Ring/Refine.antt =====
-- `push` and `pop` on a valid representation are those of the bounded FIFO.
use native.Mathlib.Nat.{add-zero, add-mod_right}
use native.Mathlib.Decide.{ℕ_discrete}
use pacsni.Prelude.{
  ℕ, zero, suc, ◌+◌, ◌%◌, ◌^◌, ◌<◌, ◌≡◌, refl, ap, ◌∙◌, inl, inr, Bool, false, Bool-cases, ◌==◌,
  arith, Option, none, some, List, [], ◌∷◌, length, length-set, get_elem?, set, Exec, ret,
}
use pacsni.Ring.{
  LockFreeQueue, wrap, equal, negative, diff_sign, slot, publish, push, consume, pop_decide,
  pop_round, pop,
}
use pacsni.Ring.Fifo
use pacsni.Ring.Valid.{Holds, cap_bounds}
use pacsni.Ring.Push.{
  diff_sign-equal, diff_sign-negative, same_node, pop_round_lem, dequeue-slot, push-full, push-free,
  cap_pos, write_self, write_ne, publish-Holds,
}

module _ {ℓ} {T : Type ℓ} {k : ℕ} {q : LockFreeQueue T} {head : ℕ} where
  -- The round of `pop` at an empty and at a full slot.
  pop_round-empty :
      (go : Option T → Exec (Bool × Option T × LockFreeQueue T))
      → Holds k q [] head
      → pop_round go q ≡ ret (false, none, q)
  unfolding pop_decide
  pop_round-empty go v =
      let (lo, hi) = cap_bounds k v.some_room v.small in
      let (it, at) = v.free 0 (omega arith) (omega arith) in
      pop_round_lem q _ negative go (ap (get_elem? q.buffer) (dequeue-slot v) ∙ at) (
        ap (λ d. diff_sign (wrap (head + 0)) (wrap (d + 1))) v.deq
        ∙ ap (diff_sign (wrap (head + 0))) (omega arith)
        ∙ diff_sign-negative (head + 0) (head + 1) 1 (omega arith) (omega arith) (omega arith))

  pop_round-some :
      (x : T) (items : List T) (go : Option T → Exec (Bool × Option T × LockFreeQueue T))
      → Holds k q (x ∷ items) head
      → pop_round go q ≡ go (some x)
  unfolding pop_decide
  pop_round-some x items go v =
      pop_round_lem q _ equal go (ap (get_elem? q.buffer) (dequeue-slot v) ∙ v.full 0 (omega arith))
        (ap (λ d. diff_sign (wrap (head + 0 + 1)) (wrap (d + 1))) v.deq
          ∙ ap (diff_sign (wrap (head + 0 + 1))) (omega arith)
          ∙ diff_sign-equal (head + 0 + 1))

  pop-empty : (weak : ℕ) → Holds k q [] head → pop weak q ≡ ret (false, none, q)
  unfolding pop
  pop-empty zero v = pop_round-empty _ v
  pop-empty (suc weak) v = pop_round-empty _ v

  pop-some :
      (weak : ℕ) (x : T) (items : List T)
      → Holds k q (x ∷ items) head
      → pop weak q ≡ consume q (some x)
  unfolding pop
  pop-some zero x items v = pop_round-some x items _ v
  pop-some (suc weak) x items v = pop_round-some x items _ v ∙ pop-some weak x items v

abbrev popped {ℓ} : {T : Type ℓ} → LockFreeQueue T → T → LockFreeQueue T
popped q x = record q {
  dequeue_pos = wrap (q.dequeue_pos + 1);
  buffer =
      set q.buffer (slot q q.dequeue_pos)
        (record { sequence = wrap (q.dequeue_pos + q.capacity_mask + 1); item = some x });
}

popped-Holds {ℓ} :
    {T : Type ℓ} {k : ℕ} {q : LockFreeQueue T} {head : ℕ} (x : T) (items : List T)
    → Holds k q (x ∷ items) head
    → Holds k (popped q x) items (head + 1)
popped-Holds {k} {q} {head} x items v = record {
  some_room = v.some_room;
  small = v.small;
  mask = v.mask;
  size = length-set q.buffer _ _ ∙ v.size;
  room = omega (arith, v.room);
  deq = omega (arith, v.deq);
  enq = v.enq ∙ ap wrap (omega arith);
  full = λ i hi.
      let next : head + 1 + i ≡ head + (i + 1) = omega arith in
      let index : i + 1 ≡ suc i = omega arith in
      rw next (
        write_ne v 0 (i + 1) _ _ (dequeue-slot v) (cap_pos v) (omega (arith, v.room)) (omega arith)
        ∙ v.full (i + 1) (omega arith)
        ∙ same_node refl (ap (get_elem? (x ∷ items)) index));
  free = λ i lo hi. elim (ℕ_discrete (i + 1) (2 ^ k)) [
    | yes last ↦
        let next : head + 1 + i ≡ head + 2 ^ k = omega arith in
        let around : (head + 1 + i) % 2 ^ k ≡ (head + 0) % 2 ^ k =
          rw (next, add-zero) (add-mod_right head (2 ^ k)) in
        (
          some x,
          rw around (
              write_self v 0 _ _ (dequeue-slot v)
              ∙ same_node (omega (arith, v.deq, v.mask, cap_pos v)) refl),
        )
    | no other ↦
        let next : head + 1 + i ≡ head + (i + 1) = omega arith in
        let (it, at) = v.free (i + 1) (omega arith) (omega arith) in
        rw next (
          it,
          write_ne v 0 (i + 1) _ _ (dequeue-slot v) (cap_pos v) (omega arith) (omega arith) ∙ at,
        )
  ];
}

-- What one call does to a queue that holds `items`: it returns as the bounded FIFO does, and the
-- queue that it leaves holds what the FIFO holds.
pub record PushRefines {ℓ} {T : Type ℓ} (k : ℕ) (q : LockFreeQueue T) (items : List T) (head : ℕ)
    (weak : ℕ) (x : T) : Type ℓ where
  pub after : LockFreeQueue T
  pub returns : push weak q x ≡ ret ((Fifo.push (2 ^ k) items x).0, after)
  pub holds : Holds k after (Fifo.push (2 ^ k) items x).1 head

pub record PopRefines {ℓ} {T : Type ℓ} (k : ℕ) (q : LockFreeQueue T) (items : List T) (head : ℕ)
    (weak : ℕ) : Type ℓ where
  pub after : LockFreeQueue T
  pub head' : ℕ
  pub returns : pop weak q ≡ ret ((Fifo.pop items).0, (Fifo.pop items).1, after)
  pub holds : Holds k after (Fifo.pop items).2 head'

-- However often its exchange fails, a push to a valid queue of capacity 2 ^ k, with k from 1 to 62,
-- returns, and as the bounded FIFO: false and the same items if there are 2 ^ k, and else true and
-- the item behind the others. The positions may have wrapped.
pub push_refines {ℓ} :
    {T : Type ℓ} {k : ℕ} {q : LockFreeQueue T} {items : List T} {head : ℕ} (weak : ℕ) (x : T)
    → Holds k q items head
    → PushRefines k q items head weak x
push_refines {k} {q} {items} {head} weak x v = elim (Bool-cases (length items == 2 ^ k)) [
  | inl full ↦ record {
    after = q;
    returns = rw full (push-full v weak x (ground arith));
    holds = rw full v;
  }
  | inr room ↦ record {
    after = publish q x;
    returns = rw room (push-free v weak x (below room));
    holds = rw room (publish-Holds v x (below room));
  }
]
  where
    below : (length items == 2 ^ k) ≡ false → length items < 2 ^ k
    below e = ground (arith, v.room)

-- However often its exchange fails, a pop from a valid queue of capacity 2 ^ k, with k from 1 to 62,
-- returns, and as the bounded FIFO: false if it is empty, and else true and the oldest item, which
-- the queue that it leaves no longer holds.
pub pop_refines {ℓ} :
    {T : Type ℓ} {k : ℕ} {q : LockFreeQueue T} {head : ℕ} (weak : ℕ) (items : List T)
    → Holds k q items head
    → PopRefines k q items head weak
unfolding consume
pop_refines {q} {head} weak [] v = record {
  after = q;
  head' = head;
  returns = pop-empty weak v;
  holds = v;
}
pop_refines {q} {head} weak (x ∷ items) v = record {
  after = popped q x;
  head' = head + 1;
  returns = pop-some weak x items v;
  holds = popped-Holds x items v;
}
