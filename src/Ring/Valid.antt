-- ===== src/Ring/Valid.antt =====
-- The representation invariant of LockFreeQueue between two operations, and the queue that a valid
-- representation holds.
use Prim.Native.Nat.add
use native.Mathlib.Nat.{mod-eq_of_lt, pow-le-pow_right}
use pacsni.Prelude.{
  ℕ, zero, suc, ◌+◌, ◌-◌, ◌%◌, ◌^◌, ◌≤◌, ◌<◌, ◌≡◌, refl, ap, arith, Option, none, some, List, [],
  length, get_elem?,
}
use pacsni.Ring.{Node, LockFreeQueue, wrap, fresh_nodes, create}

-- A node with a given sequence number, whatever it holds.
abbrev pub HasSequence {ℓ} : {T : Type ℓ} → Option (Node T) → ℕ → Type ℓ
HasSequence {T} o n = (it : Option T) × (o ≡ some (record { sequence = n; item = it }))

-- The queue holds `items`. `head` counts the pops since the start, and does not wrap. The node of
-- position `head + i` holds item `i` and the next position, and the nodes behind the last item hold
-- the position at which they will be written.
pub record Holds {ℓ} {T : Type ℓ} (k : ℕ) (q : LockFreeQueue T) (items : List T) (head : ℕ)
    : Type ℓ where
  pub some_room : 1 ≤ k
  pub small : k ≤ 62
  pub mask : q.capacity_mask ≡ 2 ^ k - 1
  pub size : length q.buffer ≡ 2 ^ k
  pub room : length items ≤ 2 ^ k
  pub deq : q.dequeue_pos ≡ wrap head
  pub enq : q.enqueue_pos ≡ wrap (head + length items)
  pub full :
      (i : ℕ)
      → i < length items
      → get_elem? q.buffer ((head + i) % 2 ^ k)
        ≡ some (record { sequence = wrap (head + i + 1); item = get_elem? items i })
  pub free :
      (i : ℕ)
      → length items ≤ i
      → i < 2 ^ k
      → HasSequence (get_elem? q.buffer ((head + i) % 2 ^ k)) (wrap (head + i))

pub cap_bounds : (k : ℕ) → 1 ≤ k → k ≤ 62 → (2 ≤ 2 ^ k) × (2 ^ k ≤ 2 ^ 62)
cap_bounds k lo hi =
    (pow-le-pow_right {n = 2} (omega arith) lo, pow-le-pow_right {n = 2} (omega arith) hi)

module _ {ℓ} (T : Type ℓ) where
  length-fresh_nodes : (n i : ℕ) → length (fresh_nodes {T = T} n i) ≡ n
  unfolding fresh_nodes
  length-fresh_nodes zero i = refl
  length-fresh_nodes (suc n) i = ap suc (length-fresh_nodes n (i + 1))

  get_elem?-fresh_nodes :
      (n i j : ℕ)
      → j < n
      → get_elem? (fresh_nodes {T = T} n i) j ≡ some (record { sequence = i + j; item = none })
  unfolding fresh_nodes
  get_elem?-fresh_nodes zero i j h = elim h [ ]
  get_elem?-fresh_nodes (suc n) i zero h =
      ap (λ s. some (record { sequence = s; item = none })) (omega arith)
  get_elem?-fresh_nodes (suc n) i (suc j) h =
      let e : i + suc j ≡ i + 1 + j = omega arith in
      rw e (get_elem?-fresh_nodes n (i + 1) j (omega arith))

  -- The constructor makes an empty queue of every capacity 2, 4, ..., 2 ^ 62.
  pub create-Holds : (k : ℕ) → 1 ≤ k → k ≤ 62 → Holds k (create {T = T} (2 ^ k)) [] 0
  unfolding create
  create-Holds k lo hi = record {
    some_room = lo;
    small = hi;
    mask = refl;
    size = length-fresh_nodes (2 ^ k) 0;
    room = omega arith;
    deq = refl;
    enq = refl;
    full = λ i h. absurd (omega arith);
    free = λ i _ h.
        let slot : (0 + i) % 2 ^ k ≡ i = rw add.zero (mod-eq_of_lt h) in
        let seq : wrap (0 + i) ≡ 0 + i = omega (arith, (cap_bounds k lo hi).1) in
        rw (slot, seq) (none, get_elem?-fresh_nodes (2 ^ k) 0 i h);
  }
