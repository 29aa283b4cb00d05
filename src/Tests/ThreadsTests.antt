-- ===== src/Tests/ThreadsTests.antt =====
-- Of the queue under several threads: one pushes while another pops.
use pacsni.Prelude.{ℕ, suc, ◌≡◌, refl, arith, some, [], ◌∷◌, length}
use native.Mathlib.Decide.{ℕ_discrete}
use pacsni.Ring.{diff_sign}
use pacsni.Ring.Threads.{
  place, idle, call_push, load_tail, tail_free, tail_taken, store_item, publish_item, call_pop,
  load_head, head_full, head_taken, load_item, release_node, System, Step, pick, initial, Reach,
  start, later,
}
use pacsni.Ring.Threads.Receipts.{AllDistinct, AllSent}
use pacsni.Ring.Threads.Safety.{delivered_once, IsAtRest, nothing_lost, one_owner}

record Run (n : ℕ) : Type 0 where
  last : System ℕ
  reach : Reach 1 2 n last

extend : {n : ℕ} {t : System ℕ} (r : Run n) → Step 1 2 r.last t → Run (suc n)
extend {t} r st = record { last = t; reach = later r.reach st }

-- Thread 0 has taken a position for 7, and thread 1 has asked for an item.
abbrev taken : Run 6
unfolding diff_sign place ℕ_discrete extend
taken =
    extend
      (extend
        (extend
          (extend
            (extend
              (extend (record { last = initial; reach = start })
                (pick 0 (omega arith) (call_push 7)))
              (pick 1 (omega arith) call_pop))
            (pick 0 (omega arith) load_tail))
          (pick 0 (omega arith) (tail_free refl)))
        (pick 1 (omega arith) load_head))
      (pick 0 (omega arith) (tail_taken refl))

-- The item is there, and thread 1 has it.
abbrev done : Run 12
unfolding diff_sign place ℕ_discrete extend
done =
    extend
      (extend
        (extend
          (extend
            (extend (extend taken (pick 0 (omega arith) store_item))
              (pick 0 (omega arith) publish_item))
            (pick 1 (omega arith) (head_full refl)))
          (pick 1 (omega arith) (head_taken refl)))
        (pick 1 (omega arith) load_item))
      (pick 1 (omega arith) release_node)

done_received : done.last.notes.received ≡ (0, some 7) ∷ []
unfolding diff_sign place ℕ_discrete extend
done_received = refl

delivered_once_example :
    AllDistinct done.last.notes.received
    × AllSent (length done.last.notes.sent) done.last.notes.sent done.last.notes.received
delivered_once_example = delivered_once (omega arith) (omega arith) (omega arith) done.reach

done_quiet : (i : ℕ) → done.last.pc i ≡ idle
unfolding diff_sign place ℕ_discrete extend
done_quiet i = ground arith

nothing_lost_example : IsAtRest 1 done.last
nothing_lost_example = nothing_lost (omega arith) (omega arith) (omega arith) done.reach done_quiet

one_owner_example : ◌≡◌ {A = ℕ} 0 0
unfolding diff_sign place ℕ_discrete extend
one_owner_example =
    one_owner (omega arith) (omega arith) (omega arith) taken.reach 0 0 0 0 refl refl refl
