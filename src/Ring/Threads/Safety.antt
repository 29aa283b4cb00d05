-- ===== src/Ring/Threads/Safety.antt =====
-- What holds in every state that threads reach.
use pacsni.Prelude.{
  ℕ, ◌+◌, ◌^◌, ◌≤◌, ◌<◌, ◌≡◌, sym, ap, ◌∙◌, ◌⊎◌, inl, inr, Option, none, some, List, length,
  get_elem?, arith,
}
use mathlib.Core.Path.{subst}
use pacsni.Ring.{Node}
use pacsni.Ring.Threads.{
  Shared, place, Pc, idle, push_write, push_publish, pop_read, pop_release, System, Reach,
}
use pacsni.Ring.Threads.Window.{place-add}
use pacsni.Ring.Threads.Invariant.{push_ticket, pop_ticket, IsFresh, IsPushed, IsPopped}
use pacsni.Ring.Threads.Moves.Stored.{same_position}
use pacsni.Ring.Threads.Receipts.{Handed, AllDistinct, AllSent, AllSent-le}
use pacsni.Ring.Threads.Sound.{IsSound, Reach-IsSound}

-- With a capacity 2, 4, ..., 2 ^ 62, any number of threads, and fewer than 2 ^ 62 steps in any order:
-- no position is handed over twice, and with each comes the item that was accepted at it.
pub delivered_once :
    {T : Type 0} {k n r : ℕ} {s : System T}
    → 1 ≤ k
    → k ≤ 62
    → r < 2 ^ 62
    → Reach k n r s
    → AllDistinct s.notes.received × AllSent (length s.notes.sent) s.notes.sent s.notes.received
delivered_once {s} lo hi few h =
    let v = Reach-IsSound lo hi few h in
    (
      v.handed_once,
      AllSent-le _ _ s.notes.sent s.notes.received (omega (arith, v.queue.counted, v.queue.order))
          v.handed_sent,
    )

-- What the queue holds while no thread is in a call: every item before `dequeue_pos` has been handed
-- over, and every item from there on is in its node, with the sequence number that lets it go.
pub record IsAtRest {T : Type 0} (k : ℕ) (s : System T) : Type 0 where
  pub accepted : s.shared.enqueue_pos ≡ length s.notes.sent
  pub past : (q : ℕ) → q < s.shared.dequeue_pos → Handed q s.notes.received
  pub waiting :
      (q : ℕ)
      → s.shared.dequeue_pos ≤ q
      → q < s.shared.enqueue_pos
      → s.shared.nodes (place k q) ≡ record { sequence = q + 1; item = get_elem? s.notes.sent q }

-- No item is lost: whatever the threads did before, in fewer than 2 ^ 62 steps, when none of them is
-- in a call, each item that was accepted has been handed over or is there for the next pop.
pub nothing_lost :
    {T : Type 0} {k n r : ℕ} {s : System T}
    → 1 ≤ k
    → k ≤ 62
    → r < 2 ^ 62
    → Reach k n r s
    → ((i : ℕ) → s.pc i ≡ idle)
    → IsAtRest k s
nothing_lost {T} {k} {s} lo hi few h quiet = record {
  accepted = sym v.queue.counted;
  past = λ q lt. elim (v.in_hand q lt) [
    | inl g ↦ g
    | inr (i, e) ↦
        let none_taken : pop_ticket (s.pc i) ≡ none = ap pop_ticket (quiet i) in absurd (cc)
  ];
  waiting = λ q le lt.
      elim (v.queue.places (q + 2 ^ k) (omega (arith, v.queue.room)) (omega arith)) [
        | inl (t, near) ↦ absurd (omega arith)
        | inr (p, e, inl (t, _)) ↦
            let at : p ≡ q = omega arith in
            let still = ap Node.sequence (sym (same q)) ∙ t ∙ at in
            let (i, g) = v.on_way q lt (omega (arith, v.queue.room)) still in
            let none_taken : push_ticket (s.pc i) ≡ none = ap push_ticket (quiet i) in absurd (cc)
        | inr (p, e, inr (t, there)) ↦
            let at : p ≡ q = omega arith in
            let number : (s.shared.nodes (place k q)).sequence ≡ q + 1 =
              ap Node.sequence (sym (same q)) ∙ t ∙ ap (λ a. a + 1) at in
            let content : (s.shared.nodes (place k q)).item ≡ get_elem? s.notes.sent q =
              ap Node.item (sym (same q)) ∙ there ∙ ap (get_elem? s.notes.sent) at in
            λ j. record { sequence = number j; item = content j }
      ];
}
  where
    v : IsSound k s
    v = Reach-IsSound lo hi few h

    same : (q : ℕ) → s.shared.nodes (place k (q + 2 ^ k)) ≡ s.shared.nodes (place k q)
    same q = ap s.shared.nodes (place-add k q)

-- The position whose node a thread may read or write.
abbrev pub owned : {T : Type 0} → Pc T → Option ℕ
owned (push_write x pos) = some pos
owned (push_publish x pos) = some pos
owned (pop_read pos) = some pos
owned (pop_release pos x) = some pos
owned _ = none

-- What owning a position means.
owned_cases :
    {T : Type 0} (k : ℕ) (m : Shared T) (sent : List T) (c : Pc T) (p : ℕ)
    → IsFresh k m sent c
    → owned c ≡ some p
    → ((push_ticket c ≡ some p) × IsPushed k m sent p)
      ⊎ ((pop_ticket c ≡ some p) × IsPopped k m sent p)
owned_cases k m sent (push_write x pos) p f e =
    let at : pos ≡ p = ground arith in inl (e, subst (IsPushed k m sent) at f.0)
owned_cases k m sent (push_publish x pos) p f e =
    let at : pos ≡ p = ground arith in inl (e, subst (IsPushed k m sent) at f.0)
owned_cases k m sent (pop_read pos) p f e =
    let at : pos ≡ p = ground arith in inr (e, subst (IsPopped k m sent) at f)
owned_cases k m sent (pop_release pos x) p f e =
    let at : pos ≡ p = ground arith in inr (e, subst (IsPopped k m sent) at f.0)
owned_cases k m sent _ p f e = cc

module _ {T : Type 0} {k : ℕ} {s : System T} (v : IsSound k s) where
  push_pop_apart :
      (p q : ℕ)
      → IsPushed k s.shared s.notes.sent p
      → IsPopped k s.shared s.notes.sent q
      → place k p ≡ place k q
      → ⊥
  push_pop_apart p q a b e =
      let at =
        same_position k s.shared.enqueue_pos p q a.0 a.1 (omega (arith, b.0, v.queue.order)) b.1
          e in
      omega (arith, a.2, b.0)

  owned_apart :
      (i j p q : ℕ)
      → owned (s.pc i) ≡ some p
      → owned (s.pc j) ≡ some q
      → place k p ≡ place k q
      → i ≡ j
  owned_apart i j p q x y e = elim (owned_cases k s.shared s.notes.sent (s.pc i) p (v.fresh i) x) [
    | inl (ti, a) ↦ elim (owned_cases k s.shared s.notes.sent (s.pc j) q (v.fresh j) y) [
      | inl (tj, b) ↦
          let at = same_position k s.shared.enqueue_pos p q a.0 a.1 b.0 b.1 e in
          v.one_push i j q (ti ∙ ap some at) tj
      | inr (tj, b) ↦ absurd (push_pop_apart p q a b e)
    ]
    | inr (ti, a) ↦ elim (owned_cases k s.shared s.notes.sent (s.pc j) q (v.fresh j) y) [
      | inl (tj, b) ↦ absurd (push_pop_apart q p b a (sym e))
      | inr (tj, b) ↦
          let at =
            same_position k s.shared.enqueue_pos p q (omega (arith, a.0, v.queue.order)) a.1
              (omega (arith, b.0, v.queue.order)) b.1 e in
          v.one_pop i j q (ti ∙ ap some at) tj
    ]
  ]

-- No two threads are ever between taking a position and letting go of it with the same node: an
-- item is not read while it is written, nor written twice at once.
pub one_owner :
    {T : Type 0} {k n r : ℕ} {s : System T}
    → 1 ≤ k
    → k ≤ 62
    → r < 2 ^ 62
    → Reach k n r s
    → (i j p q : ℕ) → owned (s.pc i) ≡ some p
    → owned (s.pc j) ≡ some q
    → place k p ≡ place k q
    → i ≡ j
one_owner lo hi few h = owned_apart (Reach-IsSound lo hi few h)
