-- ===== src/Ring/Push.antt =====
-- A push to a valid representation, and the lemmas on its nodes.
use native.Mathlib.Nat.{mod-lt, add-zero, add-mod_right}
use native.Mathlib.Decide.{ℕ_discrete}
use pacsni.Prelude.{
  ℕ, zero, suc, ◌+◌, ◌-◌, ◌%◌, ◌^◌, ◌≤◌, ◌<◌, ◌≡◌, ◌≢◌, refl, sym, ap, ◌∙◌, Bool, true, false,
  arith, Option, some, List, [], ◌∷◌, ◌++◌, length, length-append, length-set, get_elem?-set_self,
  get_elem?-set_ne, get_elem?-concat, get_elem?-concat_last, get_elem?, set, Exec, ret,
}
use pacsni.Memory.{of_option}
use pacsni.Ring.{
  Node, LockFreeQueue, wrap, Sign, equal, negative, diff_sign, slot, publish, push_decide,
  push_round, push, pop_decide, pop_round,
}
use pacsni.Ring.Power.{bit_and_mask, wrap_mod, mod_injective}
use pacsni.Ring.Valid.{Holds, cap_bounds}

pub diff_sign-equal : (a : ℕ) → diff_sign (wrap a) (wrap a) ≡ equal
unfolding diff_sign
diff_sign-equal a = ground arith

-- A sequence number that is `d` behind.
pub diff_sign-negative :
    (a b d : ℕ) → b ≡ a + d → 0 < d → d ≤ 2 ^ 62 → diff_sign (wrap a) (wrap b) ≡ negative
unfolding diff_sign
diff_sign-negative a b d e lo hi = ground arith

pub same_node {ℓ} :
    {T : Type ℓ} {a b : ℕ} {x y : Option T}
    → a ≡ b
    → x ≡ y
    → ◌≡◌ {A = Option (Node T)}
        (some (record { sequence = a; item = x }))
        (some (record { sequence = b; item = y }))
same_node e f = λ i. some (record { sequence = e i; item = f i })

module _ {ℓ} {T : Type ℓ} (q : LockFreeQueue T) (n : Node T) (s : Sign) where
  push_round_lem :
      (go : Exec (Bool × LockFreeQueue T))
      → get_elem? q.buffer (slot q q.enqueue_pos) ≡ some n
      → diff_sign n.sequence q.enqueue_pos ≡ s
      → push_round go q ≡ push_decide go q s
  unfolding push_round of_option
  push_round_lem go at e = rw (at, e)

  pub pop_round_lem :
      (go : Option T → Exec (Bool × Option T × LockFreeQueue T))
      → get_elem? q.buffer (slot q q.dequeue_pos) ≡ some n
      → diff_sign n.sequence (wrap (q.dequeue_pos + 1)) ≡ s
      → pop_round go q ≡ pop_decide (go n.item) q s
  unfolding pop_round of_option
  pop_round_lem go at e = rw (at, e)

module _ {ℓ} {T : Type ℓ} {k : ℕ} {q : LockFreeQueue T} {items : List T} {head : ℕ}
    (v : Holds k q items head) where
  -- The node of a position.
  slot-position : (a : ℕ) → slot q (wrap a) ≡ a % 2 ^ k
  slot-position a = rw (v.mask, bit_and_mask k (wrap a)) (wrap_mod k a (omega (arith, v.small)))

  enqueue-slot : slot q q.enqueue_pos ≡ (head + length items) % 2 ^ k
  enqueue-slot = ap (slot q) v.enq ∙ slot-position (head + length items)

  pub dequeue-slot : slot q q.dequeue_pos ≡ (head + 0) % 2 ^ k
  dequeue-slot = ap (slot q) v.deq ∙ slot-position head ∙ ap (λ a. a % 2 ^ k) (omega arith)

  -- The round of `push` at a full and at a free slot.
  push_round-full :
      (go : Exec (Bool × LockFreeQueue T)) → length items ≡ 2 ^ k → push_round go q ≡ ret (false, q)
  unfolding push_decide
  push_round-full go e =
      let (lo, hi) = cap_bounds k v.some_room v.small in
      let around : (head + length items) % 2 ^ k ≡ (head + 0) % 2 ^ k =
        rw (e, add-zero) (add-mod_right head (2 ^ k)) in
      push_round_lem q _ negative go
        (ap (get_elem? q.buffer) (enqueue-slot ∙ around) ∙ v.full 0 (omega arith))
        (ap (diff_sign (wrap (head + 0 + 1))) v.enq
          ∙ diff_sign-negative (head + 0 + 1) (head + length items) (length items - 1) (omega arith)
              (omega arith) (omega arith))

  push_round-free :
      (go : Exec (Bool × LockFreeQueue T)) → length items < 2 ^ k → push_round go q ≡ go
  unfolding push_decide
  push_round-free go h =
      let (it, at) = v.free (length items) (omega arith) h in
      push_round_lem q _ equal go (ap (get_elem? q.buffer) enqueue-slot ∙ at)
        (ap (diff_sign (wrap (head + length items))) v.enq ∙ diff_sign-equal (head + length items))

  pub push-full : (weak : ℕ) (x : T) → length items ≡ 2 ^ k → push weak q x ≡ ret (false, q)
  unfolding push
  push-full zero x e = push_round-full _ e
  push-full (suc weak) x e = push_round-full _ e

  pub push-free :
      (weak : ℕ) (x : T) → length items < 2 ^ k → push weak q x ≡ ret (true, publish q x)
  unfolding push
  push-free zero x h = push_round-free _ h
  push-free (suc weak) x h = push_round-free _ h ∙ push-free weak x h

  pub cap_pos : 0 < 2 ^ k
  cap_pos = let (lo, hi) = cap_bounds k v.some_room v.small in omega arith

  -- A write to the node of position `head + a`, read there and at the other positions.
  pub write_self :
      (a p : ℕ) (n : Node T)
      → p ≡ (head + a) % 2 ^ k
      → get_elem? (set q.buffer p n) ((head + a) % 2 ^ k) ≡ some n
  write_self a p n e =
      rw e (get_elem?-set_self q.buffer _ n (rw v.size (mod-lt (head + a) cap_pos)))

  pub write_ne :
      (a b p : ℕ) (n : Node T)
      → p ≡ (head + a) % 2 ^ k
      → a < 2 ^ k
      → b < 2 ^ k
      → a ≢ b
      → get_elem? (set q.buffer p n) ((head + b) % 2 ^ k) ≡ get_elem? q.buffer ((head + b) % 2 ^ k)
  write_ne a b p n e ha hb ne =
      rw e
        (get_elem?-set_ne q.buffer _ _ n (λ same. ne (mod_injective head a b (2 ^ k) ha hb same)))

  -- A push to a queue with room.
  pub publish-Holds :
      (x : T) → length items < 2 ^ k → Holds k (publish q x) (items ++ (x ∷ [])) head
  unfolding publish
  publish-Holds x h = record {
    some_room = v.some_room;
    small = v.small;
    mask = v.mask;
    size = length-set q.buffer _ _ ∙ v.size;
    room = omega (arith, more);
    deq = v.deq;
    enq = omega (arith, v.enq, more);
    full = λ i hi. elim (ℕ_discrete i (length items)) [
      | yes last ↦ rw last (
          write_self (length items) _ _ enqueue-slot
          ∙ same_node (omega (arith, v.enq)) (sym (get_elem?-concat_last items x)))
      | no other ↦
          let old : i < length items = omega (arith, more) in
          write_ne (length items) i _ _ enqueue-slot h (omega arith) (λ e. other (sym e))
          ∙ v.full i old
          ∙ same_node refl (sym (get_elem?-concat items x i old))
    ];
    free = λ i lo hi.
        let (it, at) = v.free i (omega (arith, more)) hi in
        (it, write_ne (length items) i _ _ enqueue-slot h hi (omega (arith, more)) ∙ at);
  }
    where
      more : length (items ++ (x ∷ [])) ≡ length items + 1
      more = omega (arith, length-append items (x ∷ []))
