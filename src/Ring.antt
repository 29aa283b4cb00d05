-- ===== src/Ring.antt =====
-- LockFreeQueue of cpp/packet_types.h, run by one thread at a time. Positions are size_t values,
-- below 2 ^ 64. `compare_exchange_weak` may fail although nothing has changed: a push or a pop is
-- told how often it does so in its run.
pub mod Power
pub mod Fifo
pub mod Valid
pub mod Push
pub mod Refine
pub mod Run
pub mod Threads
use pacsni.Prelude.{
  ℕ, zero, suc, ◌+◌, ◌-◌, ◌*◌, ◌%◌, ◌^◌, ◌≤◌, Bool, true, false, Option, none, some, List, [], ◌∷◌,
  bit_and, ltb, ◌==◌, if◌then◌else◌, get_elem?, set, Exec, ret, fault, diverge, ◌>>=◌,
}
use pacsni.Memory.{of_option}

-- What memory holds before anything is written to it is `none`.
pub record Node {ℓ} (T : Type ℓ) : Type ℓ where
  pub sequence : ℕ
  pub item : Option T

pub record LockFreeQueue {ℓ} (T : Type ℓ) : Type ℓ where
  pub capacity_mask : ℕ
  pub buffer : List (Node T)
  pub enqueue_pos : ℕ
  pub dequeue_pos : ℕ

abbrev pub size_mod : ℕ
size_mod = 2 ^ 64

abbrev pub wrap : ℕ → ℕ
wrap n = n % size_mod

-- `(intptr_t)a - (intptr_t)b`, compared with 0.
pub data Sign : Type 0 where
  negative equal positive : Sign

unfoldable pub diff_sign : ℕ → ℕ → Sign
diff_sign a b =
    if wrap (a + size_mod - b) == 0
    then equal
    else if ltb (wrap (a + size_mod - b)) (2 ^ 63)
    then positive
    else negative

module _ {ℓ} {T : Type ℓ} where
  -- The nodes `buffer_[i]` for `i` from `i` on, `n` of them.
  pub fresh_nodes : ℕ → ℕ → List (Node T)
  fresh_nodes zero i = []
  fresh_nodes (suc n) i = record { sequence = i; item = none } ∷ fresh_nodes n (i + 1)

  -- The constructor.
  pub create : ℕ → LockFreeQueue T
  create capacity = record {
    capacity_mask = capacity - 1;
    buffer = fresh_nodes capacity 0;
    enqueue_pos = 0;
    dequeue_pos = 0;
  }

  abbrev pub slot : LockFreeQueue T → ℕ → ℕ
  slot q pos = bit_and pos q.capacity_mask

  -- The writes behind a successful exchange of `enqueue_pos`.
  pub publish : LockFreeQueue T → T → LockFreeQueue T
  publish q x = record q {
    enqueue_pos = wrap (q.enqueue_pos + 1);
    buffer =
        set q.buffer (slot q q.enqueue_pos)
          (record { sequence = wrap (q.enqueue_pos + 1); item = some x });
  }

  -- The three cases of a round of `push`; `exchange` is what follows where the node is free. With
  -- no other thread a `pos` that is behind is loaded again for ever.
  pub push_decide :
      Exec (Bool × LockFreeQueue T) → LockFreeQueue T → Sign → Exec (Bool × LockFreeQueue T)
  push_decide exchange q equal = exchange
  push_decide exchange q negative = ret (false, q)
  push_decide exchange q positive = diverge

  pub push_round : Exec (Bool × LockFreeQueue T) → LockFreeQueue T → Exec (Bool × LockFreeQueue T)
  push_round exchange q = do
    node ← of_option (get_elem? q.buffer (slot q q.enqueue_pos))
    push_decide exchange q (diff_sign node.sequence q.enqueue_pos)

  -- `push(data)`, in which the exchange fails `weak` times.
  pub push : ℕ → LockFreeQueue T → T → Exec (Bool × LockFreeQueue T)
  push zero q x = push_round (ret (true, publish q x)) q
  push (suc weak) q x = push_round (push weak q x) q

  -- `data = node.data` and the writes around it; the node's old item stays in its place.
  pub consume : LockFreeQueue T → Option T → Exec (Bool × Option T × LockFreeQueue T)
  consume q none = fault
  consume q (some x) = ret (
    true,
    some x,
    record q {
      dequeue_pos = wrap (q.dequeue_pos + 1);
      buffer =
          set q.buffer (slot q q.dequeue_pos)
            (record { sequence = wrap (q.dequeue_pos + q.capacity_mask + 1); item = some x });
    },
  )

  -- The three cases of a round of `pop`; `exchange` is what follows where the node is full.
  pub pop_decide :
      Exec (Bool × Option T × LockFreeQueue T)
      → LockFreeQueue T
      → Sign
      → Exec (Bool × Option T × LockFreeQueue T)
  pop_decide exchange q equal = exchange
  pop_decide exchange q negative = ret (false, none, q)
  pop_decide exchange q positive = diverge

  pub pop_round :
      (Option T → Exec (Bool × Option T × LockFreeQueue T))
      → LockFreeQueue T
      → Exec (Bool × Option T × LockFreeQueue T)
  pop_round exchange q = do
    node ← of_option (get_elem? q.buffer (slot q q.dequeue_pos))
    pop_decide (exchange node.item) q (diff_sign node.sequence (wrap (q.dequeue_pos + 1)))

  -- `pop(data)`: the result, what was written to `data`, and the queue.
  pub pop : ℕ → LockFreeQueue T → Exec (Bool × Option T × LockFreeQueue T)
  pop zero q = pop_round (consume q) q
  pop (suc weak) q = let again = pop weak q in pop_round (λ _. again) q
