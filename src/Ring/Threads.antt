-- ===== src/Ring/Threads.antt =====
-- LockFreeQueue of cpp/packet_types.h as several threads run it: an access of shared memory at a
-- time, interleaved in any order. Positions and sequence numbers are size_t values, below 2 ^ 64.
-- Memory orders are not modelled: an access sees the last write.
pub mod Window
pub mod Invariant
pub mod Moves
pub mod Advance
pub mod Receipts
pub mod Sound
pub mod Safety
use native.Mathlib.Decide.{ℕ_discrete}
use mathlib.Core.Logic.{ite}
use pacsni.Prelude.{
  ℕ, zero, suc, ◌+◌, ◌-◌, ◌^◌, ◌<◌, ◌≡◌, Option, none, some, List, [], ◌∷◌, ◌++◌, bit_and,
}
use pacsni.Ring.{Node, wrap, Sign, equal, negative, positive, diff_sign}

-- The members of a queue of capacity 2 ^ k that change; the nodes are indexed by their place.
pub record Shared {ℓ} (T : Type ℓ) : Type ℓ where
  pub enqueue_pos : ℕ
  pub dequeue_pos : ℕ
  pub nodes : ℕ → Node T

-- `pos & capacity_mask_`
unfoldable pub place : ℕ → ℕ → ℕ
place k pos = bit_and pos (2 ^ k - 1)

abbrev pub update {ℓ} : {A : Type ℓ} → (ℕ → A) → ℕ → A → ℕ → A
update f i a j = ite (ℕ_discrete i j) a (f j)

-- Where a thread stands in `push(data)` or `pop(data)`, with the local variables that are live there.
pub data Pc {ℓ} (T : Type ℓ) : Type ℓ where
  idle : Pc T
  push_load : (x : T) → Pc T
  push_check : (x : T) (pos : ℕ) → Pc T
  push_swap : (x : T) (pos : ℕ) → Pc T
  push_write : (x : T) (pos : ℕ) → Pc T
  push_publish : (x : T) (pos : ℕ) → Pc T
  pop_load : Pc T
  pop_check : (pos : ℕ) → Pc T
  pop_swap : (pos : ℕ) → Pc T
  pop_read : (pos : ℕ) → Pc T
  pop_release : (pos : ℕ) (x : Option T) → Pc T

-- What an observer notes of a step: an item that has its place in the order of the queue, and an
-- item that is handed over with its position. No step reads the notes.
pub data Event {ℓ} (T : Type ℓ) : Type ℓ where
  silent : Event T
  accepted : (x : T) → Event T
  delivered : (pos : ℕ) (x : Option T) → Event T

-- A step of a thread. A compare_exchange_weak may fail at any time, and then loads the position.
pub data Move {ℓ} {T : Type ℓ} (k : ℕ) (m : Shared T)
    : Pc T → Event T → Shared T → Pc T → Type ℓ where
  call_push : (x : T) → Move k m idle silent m (push_load x)
  load_tail : {x : T} → Move k m (push_load x) silent m (push_check x m.enqueue_pos)
  tail_free :
      {x : T} {pos : ℕ}
      → diff_sign (m.nodes (place k pos)).sequence pos ≡ equal
      → Move k m (push_check x pos) silent m (push_swap x pos)
  tail_full :
      {x : T} {pos : ℕ}
      → diff_sign (m.nodes (place k pos)).sequence pos ≡ negative
      → Move k m (push_check x pos) silent m idle
  tail_moved :
      {x : T} {pos : ℕ}
      → diff_sign (m.nodes (place k pos)).sequence pos ≡ positive
      → Move k m (push_check x pos) silent m (push_load x)
  tail_taken :
      {x : T} {pos : ℕ}
      → m.enqueue_pos ≡ pos
      → Move k m
          (push_swap x pos)
          (accepted x)
          (record m { enqueue_pos = wrap (pos + 1) })
          (push_write x pos)
  tail_lost : {x : T} {pos : ℕ} → Move k m (push_swap x pos) silent m (push_check x m.enqueue_pos)
  store_item :
      {x : T} {pos : ℕ}
      → Move k m
          (push_write x pos)
          silent
          (record m {
            nodes =
                update m.nodes
                  (place k pos)
                  (record { sequence = (m.nodes (place k pos)).sequence; item = some x });
          })
          (push_publish x pos)
  publish_item :
      {x : T} {pos : ℕ}
      → Move k m
          (push_publish x pos)
          silent
          (record m {
            nodes =
                update m.nodes
                  (place k pos)
                  (record { sequence = wrap (pos + 1); item = (m.nodes (place k pos)).item });
          })
          idle
  call_pop : Move k m idle silent m pop_load
  load_head : Move k m pop_load silent m (pop_check m.dequeue_pos)
  head_full :
      {pos : ℕ}
      → diff_sign (m.nodes (place k pos)).sequence (wrap (pos + 1)) ≡ equal
      → Move k m (pop_check pos) silent m (pop_swap pos)
  head_empty :
      {pos : ℕ}
      → diff_sign (m.nodes (place k pos)).sequence (wrap (pos + 1)) ≡ negative
      → Move k m (pop_check pos) silent m idle
  head_moved :
      {pos : ℕ}
      → diff_sign (m.nodes (place k pos)).sequence (wrap (pos + 1)) ≡ positive
      → Move k m (pop_check pos) silent m pop_load
  head_taken :
      {pos : ℕ}
      → m.dequeue_pos ≡ pos
      → Move k m (pop_swap pos) silent (record m { dequeue_pos = wrap (pos + 1) }) (pop_read pos)
  head_lost : {pos : ℕ} → Move k m (pop_swap pos) silent m (pop_check m.dequeue_pos)
  load_item :
      {pos : ℕ} → Move k m (pop_read pos) silent m (pop_release pos (m.nodes (place k pos)).item)
  release_node :
      {pos : ℕ} {x : Option T}
      → Move k m
          (pop_release pos x)
          (delivered pos x)
          (record m {
            nodes = update m.nodes (place k pos) (record {
              sequence = wrap (pos + (2 ^ k - 1) + 1);
              item = (m.nodes (place k pos)).item;
            });
          })
          idle

-- What has been noted: the items accepted, oldest first, and those handed over, the last first.
pub record Notes {ℓ} (T : Type ℓ) : Type ℓ where
  pub sent : List T
  pub received : List (ℕ × Option T)

abbrev pub note {ℓ} : {T : Type ℓ} → Event T → Notes T → Notes T
note silent h = h
note (accepted x) h = record h { sent = h.sent ++ (x ∷ []) }
note (delivered pos x) h = record h { received = (pos, x) ∷ h.received }

pub record System {ℓ} (T : Type ℓ) : Type ℓ where
  pub shared : Shared T
  pub pc : ℕ → Pc T
  pub notes : Notes T

-- One of `n` threads makes a step.
pub data Step {ℓ} {T : Type ℓ} (k n : ℕ) (s : System T) : System T → Type ℓ where
  pick :
      (i : ℕ) {e : Event T} {m : Shared T} {p : Pc T}
      → i < n
      → Move k s.shared (s.pc i) e m p
      → Step k n s (record { shared = m; pc = update s.pc i p; notes = note e s.notes })

-- The queue as the constructor makes it, before any call.
abbrev pub initial {ℓ} : {T : Type ℓ} → System T
initial = record {
  shared = record {
    enqueue_pos = 0;
    dequeue_pos = 0;
    nodes = λ i. record { sequence = i; item = none };
  };
  pc = λ _. Pc.idle;
  notes = record { sent = []; received = [] };
}

-- The states that `n` threads reach in `r` steps.
pub data Reach {ℓ} {T : Type ℓ} (k n : ℕ) : ℕ → System T → Type ℓ where
  start : Reach k n 0 initial
  later : {r : ℕ} {s t : System T} → Reach k n r s → Step k n s t → Reach k n (suc r) t
