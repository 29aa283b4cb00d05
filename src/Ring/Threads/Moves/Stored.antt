-- ===== src/Ring/Threads/Moves/Stored.antt =====
-- A write to the node of a position that a thread has taken.
use pacsni.Prelude.{ℕ, ◌+◌, ◌^◌, ◌≤◌, ◌<◌, ◌≡◌, ◌≢◌, sym, ap, ◌∙◌, List, arith}
use native.Mathlib.Decide.{ℕ_discrete, dec_lt}
use pacsni.Ring.{Node}
use pacsni.Ring.Threads.{Shared, place, update}
use pacsni.Ring.Threads.Window.{place-add, place_injective}
use pacsni.Ring.Threads.Invariant.{node, IsPlace, IsQueue}

-- Two positions of the last round with the same place.
pub same_position :
    (k e p q : ℕ) → p < e → e ≤ p + 2 ^ k → q < e → e ≤ q + 2 ^ k → place k p ≡ place k q → p ≡ q
same_position k e p q lp wp lq wq h = elim (dec_lt p q) [
  | yes lt ↦ place_injective k p q (omega arith) (omega arith) h
  | no ge ↦ sym (place_injective k q p (omega arith) (omega arith) (sym h))
]

module _ {T : Type 0} {k : ℕ} {m : Shared T} {sent : List T} (v : IsQueue k m sent) (pos : ℕ) where
  -- A position that stands for the place of `pos` a round later or less.
  pub same_next : (q : ℕ) → pos ≤ q → q < pos + 2 ^ k → place k pos ≡ place k q → pos ≡ q
  same_next q = place_injective k pos q

  -- The next position of the place of `p` has its place.
  pub place-next : (p q : ℕ) → q ≡ p + 2 ^ k → place k pos ≡ place k q → place k pos ≡ place k p
  place-next p q e h = h ∙ ap (place k) e ∙ place-add k p

  pub node-same :
      (q : ℕ) → place k pos ≡ place k q → (node k m sent q).sequence ≡ (node k m sent pos).sequence
  node-same q h = ap (λ j. (m.nodes j).sequence) (sym h)

  module _ (n : Node T) where
    abbrev pub stored : Shared T
    stored = record m { nodes = update m.nodes (place k pos) n }

    pub stored-node : (q : ℕ) → place k pos ≢ place k q → node k stored sent q ≡ node k m sent q
    stored-node q h = ground arith

    pub stored_self : (q : ℕ) → place k pos ≡ place k q → node k stored sent q ≡ n
    stored_self q h = ground arith

    -- The fields that a write to a node leaves alone.
    pub stored-IsQueue :
        n.sequence < 2 ^ 64
        → ((q : ℕ) → m.enqueue_pos ≤ q → q < m.enqueue_pos + 2 ^ k → IsPlace k stored sent q)
        → IsQueue k stored sent
    stored-IsQueue word places = record {
      some_room = v.some_room;
      small_room = v.small_room;
      small = v.small;
      order = v.order;
      room = v.room;
      words = λ q. elim (ℕ_discrete (place k pos) (place k q)) [
        | yes here ↦ rw (stored_self q here) word
        | no there ↦ rw (stored-node q there) (v.words q)
      ];
      counted = v.counted;
      places = places;
    }

    -- A place of another position stays what it was.
    pub stored-IsPlace_ne :
        (q : ℕ) → place k pos ≢ place k q → IsPlace k m sent q → IsPlace k stored sent q
    stored-IsPlace_ne q h t = rw (stored-node q h) t
