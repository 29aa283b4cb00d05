-- ===== src/Ring/Run.antt =====
-- Whole runs of a queue, from the constructor on, against the bounded FIFO.
use pacsni.Prelude.{ℕ, ◌^◌, ◌≤◌, ◌≡◌, refl, Bool, Option, none, List, [], ◌∷◌, Exec, ret, ◌>>=◌}
use pacsni.Ring.{LockFreeQueue, create, push, pop}
use pacsni.Ring.Fifo
use pacsni.Ring.Valid.{Holds, create-Holds}
use pacsni.Ring.Refine.{push_refines, pop_refines}

-- A call, with the number of times that its exchange fails for no reason.
pub data Op {ℓ} (T : Type ℓ) : Type ℓ where
  put : ℕ → T → Op T
  get : ℕ → Op T

-- What the caller sees of a call.
abbrev pub Reply {ℓ} : Type ℓ → Type ℓ
Reply T = Bool × Option T

module _ {ℓ} {T : Type ℓ} where
  pub run : LockFreeQueue T → List (Op T) → Exec (List (Reply T))
  run q [] = ret []
  run q (put weak x ∷ ops) = do
    (b, q') ← push weak q x
    replies ← run q' ops
    ret ((b, none) ∷ replies)
  run q (get weak ∷ ops) = do
    (b, out, q') ← pop weak q
    replies ← run q' ops
    ret ((b, out) ∷ replies)

  pub run_fifo : ℕ → List T → List (Op T) → List (Reply T)
  run_fifo cap q [] = []
  run_fifo cap q (put weak x ∷ ops) =
      let (b, q') = Fifo.push cap q x in (b, none) ∷ run_fifo cap q' ops
  run_fifo cap q (get weak ∷ ops) = let (b, out, q') = Fifo.pop q in (b, out) ∷ run_fifo cap q' ops

  run-Holds :
      (ops : List (Op T)) {k : ℕ} {q : LockFreeQueue T} {items : List T} {head : ℕ}
      → Holds k q items head
      → run q ops ≡ ret (run_fifo (2 ^ k) items ops)
  unfolding run run_fifo
  run-Holds [] v = refl
  run-Holds (put weak x ∷ ops) v =
      let step = push_refines weak x v in rw (step.returns, run-Holds ops step.holds)
  run-Holds (get weak ∷ ops) {items} v =
      let step = pop_refines weak items v in rw (step.returns, run-Holds ops step.holds)

  -- From the constructor with a capacity 2, 4, ..., 2 ^ 62 on, every sequence of pushes and pops by
  -- one thread returns, and with the results of the bounded FIFO of that capacity, however often
  -- the exchanges fail.
  pub run_refines :
      (k : ℕ) (ops : List (Op T))
      → 1 ≤ k
      → k ≤ 62
      → run (create (2 ^ k)) ops ≡ ret (run_fifo (2 ^ k) [] ops)
  run_refines k ops lo hi = run-Holds ops (create-Holds T k lo hi)
