-- ===== src/Ring/Threads/Invariant.antt =====
-- What holds between the steps of the threads: which position each place stands for, which thread
-- owns it, and where its item is. Positions are below 2 ^ 62 here, so none has wrapped.
use pacsni.Prelude.{ℕ, ◌+◌, ◌^◌, ◌≤◌, ◌<◌, ◌≡◌, ◌⊎◌, Option, none, some, List, length, get_elem?}
use pacsni.Ring.{Node}
use pacsni.Ring.Threads.{
  Shared, place, Pc, push_check, push_swap, push_write, push_publish, pop_check, pop_swap, pop_read,
  pop_release,
}

-- The position that a thread has taken, and has not finished with.
abbrev pub push_ticket : {T : Type 0} → Pc T → Option ℕ
push_ticket (push_write x pos) = some pos
push_ticket (push_publish x pos) = some pos
push_ticket _ = none

abbrev pub pop_ticket : {T : Type 0} → Pc T → Option ℕ
pop_ticket (pop_read pos) = some pos
pop_ticket (pop_release pos x) = some pos
pop_ticket _ = none

module _ {T : Type 0} (k : ℕ) (m : Shared T) (sent : List T) where
  abbrev pub node : ℕ → Node T
  node pos = m.nodes (place k pos)

  -- The place of the next position `q` is free, or it is that of the position `p` one round before:
  -- its item is on the way, or it is there.
  abbrev pub IsPlace : ℕ → Type 0
  IsPlace q =
      (((node q).sequence ≡ q) × (q < m.dequeue_pos + 2 ^ k))
      ⊎ ((p : ℕ) × (q ≡ p + 2 ^ k)
          × ((((node q).sequence ≡ p) × (m.dequeue_pos ≤ p))
              ⊎ (((node q).sequence ≡ p + 1) × ((node q).item ≡ get_elem? sent p))))

  -- A position that a push has taken, and one that a pop has taken.
  abbrev pub IsPushed : ℕ → Type 0
  IsPushed pos =
      (pos < m.enqueue_pos)
      × (m.enqueue_pos ≤ pos + 2 ^ k)
      × (m.dequeue_pos ≤ pos)
      × ((node pos).sequence ≡ pos)

  abbrev pub IsPopped : ℕ → Type 0
  IsPopped pos =
      (pos < m.dequeue_pos) × (m.enqueue_pos ≤ pos + 2 ^ k) × ((node pos).sequence ≡ pos + 1)

  -- What the local variables of a thread say of the shared members.
  abbrev pub IsFresh : Pc T → Type 0
  IsFresh (push_check x pos) = pos ≤ m.enqueue_pos
  IsFresh (push_swap x pos) =
      (pos ≤ m.enqueue_pos) × (m.enqueue_pos ≡ pos → (node pos).sequence ≡ pos)
  IsFresh (push_write x pos) = IsPushed pos × (get_elem? sent pos ≡ some x)
  IsFresh (push_publish x pos) =
      IsPushed pos × (get_elem? sent pos ≡ some x) × ((node pos).item ≡ some x)
  IsFresh (pop_check pos) = pos ≤ m.dequeue_pos
  IsFresh (pop_swap pos) =
      (pos ≤ m.dequeue_pos) × (m.dequeue_pos ≡ pos → (node pos).sequence ≡ pos + 1)
  IsFresh (pop_read pos) = IsPopped pos
  IsFresh (pop_release pos x) = IsPopped pos × (x ≡ get_elem? sent pos)
  IsFresh _ = Unit

  -- The shared members by themselves.
  pub record IsQueue : Type 0 where
    pub some_room : 1 ≤ k
    pub small_room : k ≤ 62
    pub small : m.enqueue_pos < 2 ^ 62
    pub order : m.dequeue_pos ≤ m.enqueue_pos
    pub room : m.enqueue_pos ≤ m.dequeue_pos + 2 ^ k
    pub words : (pos : ℕ) → (node pos).sequence < 2 ^ 64
    pub counted : length sent ≡ m.enqueue_pos
    pub places : (q : ℕ) → m.enqueue_pos ≤ q → q < m.enqueue_pos + 2 ^ k → IsPlace q

-- The threads: each is up to date, and no two have taken the same position.
pub record IsThreads {T : Type 0} (k : ℕ) (m : Shared T) (sent : List T) (pc : ℕ → Pc T)
    : Type 0 where
  pub fresh : (i : ℕ) → IsFresh k m sent (pc i)
  pub one_push :
      (i j pos : ℕ) → push_ticket (pc i) ≡ some pos → push_ticket (pc j) ≡ some pos → i ≡ j
  pub one_pop : (i j pos : ℕ) → pop_ticket (pc i) ≡ some pos → pop_ticket (pc j) ≡ some pos → i ≡ j
