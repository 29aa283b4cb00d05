-- ===== src/Ring/Fifo.antt =====
-- What a client may rely on: a first-in first-out queue of at most `cap` items.
use pacsni.Prelude.{
  ℕ, Bool, true, false, Option, none, some, List, [], ◌∷◌, ◌++◌, length, ◌==◌, if◌then◌else◌,
}

module _ {ℓ} {T : Type ℓ} where
  abbrev pub push : ℕ → List T → T → Bool × List T
  push cap q x = if length q == cap then (false, q) else (true, q ++ (x ∷ []))

  abbrev pub pop : List T → Bool × Option T × List T
  pop [] = (false, none, [])
  pop (x ∷ q) = (true, some x, q)
