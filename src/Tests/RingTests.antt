-- ===== src/Tests/RingTests.antt =====
-- Of the queue.
use pacsni.Prelude.{ℕ, ◌≡◌, arith, [], ◌∷◌, ret, List}
use pacsni.Ring.{create}
use pacsni.Ring.Valid.{create-Holds}
use pacsni.Ring.Refine.{PushRefines, push_refines}
use pacsni.Ring.Run.{Op, put, get, run, run_fifo, run_refines}

-- Three items for two places, and a pop too many.
abbrev calls : List (Op ℕ)
calls = put 0 7 ∷ put 2 8 ∷ put 0 9 ∷ get 1 ∷ get 0 ∷ get 0 ∷ []

push_refines_example : PushRefines 1 (create {T = ℕ} 2) [] 0 3 7
push_refines_example = push_refines 3 7 (create-Holds ℕ 1 (omega arith) (omega arith))

run_refines_example : run (create 2) calls ≡ ret (run_fifo 2 [] calls)
run_refines_example = run_refines 1 calls (omega arith) (omega arith)
