-- ===== src/Ring/Threads/Sound.antt =====
-- The invariant of the threads: true at the start and kept by every step.
use pacsni.Prelude.{
  ℕ, ◌+◌, ◌^◌, ◌≤◌, ◌<◌, ◌≡◌, ◌≢◌, ◌⊎◌, refl, sym, ap, ◌∙◌, inl, inr, some, List, [], ◌∷◌, length,
  length-append, arith,
}
use native.Mathlib.Decide.{ℕ_discrete}
use pacsni.Ring.Valid.{cap_bounds}
use pacsni.Ring.Threads.{
  Shared, place, update, Pc, push_write, push_publish, pop_read, pop_release, Event, silent,
  accepted, delivered, Notes, note, System, Step, pick, initial, Reach, start, later,
}
use pacsni.Ring.Threads.Window.{place-lt, place-eq_self}
use pacsni.Ring.Threads.Invariant.{node, push_ticket, pop_ticket, IsQueue, IsFresh}
use pacsni.Ring.Threads.Advance.{Advance, Move-Advance}
use pacsni.Ring.Threads.Receipts.{Handed, AllDistinct, AllSent, AllSent-Handed, Noted, Move-Noted}

-- The queue is sound, every thread is up to date, no two threads have taken the same position, each
-- place that waits for an item has a thread that brings it, and each position that pops have passed
-- has been handed over once, or is in the hands of a thread.
pub record IsSound {T : Type 0} (k : ℕ) (s : System T) : Type 0 where
  pub queue : IsQueue k s.shared s.notes.sent
  pub fresh : (i : ℕ) → IsFresh k s.shared s.notes.sent (s.pc i)
  pub one_push :
      (i j pos : ℕ) → push_ticket (s.pc i) ≡ some pos → push_ticket (s.pc j) ≡ some pos → i ≡ j
  pub one_pop :
      (i j pos : ℕ) → pop_ticket (s.pc i) ≡ some pos → pop_ticket (s.pc j) ≡ some pos → i ≡ j
  pub on_way :
      (q : ℕ)
      → q < s.shared.enqueue_pos
      → s.shared.enqueue_pos ≤ q + 2 ^ k
      → (node k s.shared s.notes.sent q).sequence ≡ q
      → (i : ℕ) × (push_ticket (s.pc i) ≡ some q)
  pub in_hand :
      (q : ℕ)
      → q < s.shared.dequeue_pos
      → Handed q s.notes.received ⊎ ((i : ℕ) × (pop_ticket (s.pc i) ≡ some q))
  pub closed : (i q : ℕ) → pop_ticket (s.pc i) ≡ some q → Handed q s.notes.received → ⊥
  pub handed_once : AllDistinct s.notes.received
  pub handed_sent : AllSent s.shared.dequeue_pos s.notes.sent s.notes.received

module _ {T : Type 0} (k : ℕ) (m : Shared T) (sent : List T) where
  push_ticket-lt :
      (p : Pc T) (q : ℕ) → IsFresh k m sent p → push_ticket p ≡ some q → q < m.enqueue_pos
  push_ticket-lt (push_write x pos) q f e = ground (arith, f.0.0)
  push_ticket-lt (push_publish x pos) q f e = ground (arith, f.0.0)
  push_ticket-lt _ q f e = cc

  pop_ticket-lt :
      (p : Pc T) (q : ℕ) → IsFresh k m sent p → pop_ticket p ≡ some q → q < m.dequeue_pos
  pop_ticket-lt (pop_read pos) q f e = ground (arith, f.0)
  pop_ticket-lt (pop_release pos x) q f e = ground (arith, f.0.0)
  pop_ticket-lt _ q f e = cc

module _ {ℓ} {A : Type ℓ} (f : ℕ → A) (i : ℕ) (a : A) where
  update_self : update f i a i ≡ a
  update_self = ground arith

  -- An index that was written, and one that was not.
  update_cases : (j : ℕ) → ((i ≡ j) × (update f i a j ≡ a)) ⊎ ((i ≢ j) × (update f i a j ≡ f j))
  update_cases j = elim (ℕ_discrete i j) [
    | yes e ↦ inl (e, ground arith)
    | no e ↦ inr (e, ground arith)
  ]

module _ {T : Type 0} {k : ℕ} {s : System T} (v : IsSound k s)
    (small : length s.notes.sent + 1 < 2 ^ 62) (i : ℕ) {e : Event T} {m : Shared T} {p : Pc T}
    (a : Advance s.notes v.queue small (s.pc i) e m p)
    (b : Noted s.notes v.queue (s.pc i) e m p) where
  abbrev pc' : ℕ → Pc T
  pc' = update s.pc i p

  fresh' : (j : ℕ) → IsFresh k m (note e s.notes).sent (pc' j)
  fresh' j = elim (update_cases s.pc i p j) [
    | inl (_, u) ↦ rw u a.mine
    | inr (ne, u) ↦ rw u (
        a.others (s.pc j) (v.fresh j) (λ q x y. ne (v.one_push i j q x y))
          (λ q x y. ne (v.one_pop i j q x y)))
  ]

  -- The mover's position is no other thread's.
  push_apart : (j q : ℕ) → i ≢ j → push_ticket p ≡ some q → push_ticket (s.pc j) ≢ some q
  push_apart j q ne x y = elim (a.pushes q x) [
    | inl old ↦ ne (v.one_push i j q old y)
    | inr new ↦
        let lt = push_ticket-lt k s.shared s.notes.sent (s.pc j) q (v.fresh j) y in omega arith
  ]

  pop_apart : (j q : ℕ) → i ≢ j → pop_ticket p ≡ some q → pop_ticket (s.pc j) ≢ some q
  pop_apart j q ne x y = elim (a.pops q x) [
    | inl old ↦ ne (v.one_pop i j q old y)
    | inr new ↦
        let lt = pop_ticket-lt k s.shared s.notes.sent (s.pc j) q (v.fresh j) y in omega arith
  ]

  one_push' : (j l q : ℕ) → push_ticket (pc' j) ≡ some q → push_ticket (pc' l) ≡ some q → j ≡ l
  one_push' j l q x y = elim (update_cases s.pc i p j) [
    | inl (ej, uj) ↦ elim (update_cases s.pc i p l) [
      | inl (el, ul) ↦ sym ej ∙ el
      | inr (nl, ul) ↦ absurd (push_apart l q nl (rw uj at x) (rw ul at y))
    ]
    | inr (nj, uj) ↦ elim (update_cases s.pc i p l) [
      | inl (el, ul) ↦ absurd (push_apart j q nj (rw ul at y) (rw uj at x))
      | inr (nl, ul) ↦ v.one_push j l q (rw uj at x) (rw ul at y)
    ]
  ]

  one_pop' : (j l q : ℕ) → pop_ticket (pc' j) ≡ some q → pop_ticket (pc' l) ≡ some q → j ≡ l
  one_pop' j l q x y = elim (update_cases s.pc i p j) [
    | inl (ej, uj) ↦ elim (update_cases s.pc i p l) [
      | inl (el, ul) ↦ sym ej ∙ el
      | inr (nl, ul) ↦ absurd (pop_apart l q nl (rw uj at x) (rw ul at y))
    ]
    | inr (nj, uj) ↦ elim (update_cases s.pc i p l) [
      | inl (el, ul) ↦ absurd (pop_apart j q nj (rw ul at y) (rw uj at x))
      | inr (nl, ul) ↦ v.one_pop j l q (rw uj at x) (rw ul at y)
    ]
  ]

  on_way' :
      (q : ℕ)
      → q < m.enqueue_pos
      → m.enqueue_pos ≤ q + 2 ^ k
      → (m.nodes (place k q)).sequence ≡ q
      → (j : ℕ) × (push_ticket (pc' j) ≡ some q)
  on_way' q lt win w = elim (a.way q lt win w) [
    | inl mine ↦ (i, ap push_ticket (update_self s.pc i p) ∙ mine)
    | inr (lt, win, w, ne) ↦
        let (j, h) = v.on_way q lt win w in
        elim (update_cases s.pc i p j) [
          | inl (e, u) ↦ absurd (ne (ap (λ l. push_ticket (s.pc l)) e ∙ h))
          | inr (_, u) ↦ (j, ap push_ticket u ∙ h)
        ]
  ]

  in_hand' :
      (q : ℕ)
      → q < m.dequeue_pos
      → Handed q (note e s.notes).received ⊎ ((j : ℕ) × (pop_ticket (pc' j) ≡ some q))
  in_hand' q lt = elim (b.taken q lt) [
    | inr mine ↦ inr (i, ap pop_ticket (update_self s.pc i p) ∙ mine)
    | inl lt ↦ elim (v.in_hand q lt) [
      | inl g ↦ inl (b.old q g)
      | inr (j, h) ↦ elim (update_cases s.pc i p j) [
        | inl (e, u) ↦ elim (b.kept q (ap (λ l. pop_ticket (s.pc l)) e ∙ h)) [
          | inl still ↦ inr (i, ap pop_ticket (update_self s.pc i p) ∙ still)
          | inr g ↦ inl g
        ]
        | inr (_, u) ↦ inr (j, ap pop_ticket u ∙ h)
      ]
    ]
  ]

  closed' : (j q : ℕ) → pop_ticket (pc' j) ≡ some q → Handed q (note e s.notes).received → ⊥
  closed' j q h g = elim (update_cases s.pc i p j) [
    | inl (_, u) ↦
        let h' : pop_ticket p ≡ some q = rw u at h in
        elim (b.new q g) [
          | inl old ↦ elim (a.pops q h') [
            | inl before ↦ v.closed i q before old
            | inr new ↦
                let lt =
                  AllSent-Handed s.shared.dequeue_pos q s.notes.sent s.notes.received v.handed_sent
                    old in
                omega arith
          ]
          | inr (_, gone) ↦ cc
        ]
    | inr (ne, u) ↦
        let h' : pop_ticket (s.pc j) ≡ some q = rw u at h in
        elim (b.new q g) [
          | inl old ↦ v.closed j q h' old
          | inr (mine, _) ↦ ne (v.one_pop i j q mine h')
        ]
  ]

  pub Noted-IsSound : IsSound k (record { shared = m; pc = pc'; notes = note e s.notes })
  Noted-IsSound = record {
    queue = a.queue;
    fresh = fresh';
    one_push = one_push';
    one_pop = one_pop';
    on_way = on_way';
    in_hand = in_hand';
    closed = closed';
    handed_once = b.distinct_on (v.closed i) v.handed_once;
    handed_sent = b.sent_on v.handed_sent;
  }

pub Step-IsSound :
    {T : Type 0} {k n : ℕ} {s t : System T}
    → length s.notes.sent + 1 < 2 ^ 62
    → Step k n s t
    → IsSound k s
    → IsSound k t
Step-IsSound {s} small (pick i lt mv) v =
    Noted-IsSound v small i (Move-Advance s.notes v.queue small mv (v.fresh i))
      (Move-Noted s.notes v.queue mv (v.fresh i))

initial-IsSound : (T : Type 0) (k : ℕ) → 1 ≤ k → k ≤ 62 → IsSound {T = T} k initial
initial-IsSound T k lo hi =
    let b = cap_bounds k lo hi in
    record {
      queue = record {
        some_room = lo;
        small_room = hi;
        small = omega arith;
        order = omega arith;
        room = omega arith;
        words = λ p. omega (arith, place-lt k p, b);
        counted = refl;
        places = λ q _ lt. inl (place-eq_self k q (omega arith), omega arith);
      };
      fresh = λ _. tt;
      one_push = λ i j q x y. cc;
      one_pop = λ i j q x y. cc;
      on_way = λ q lt. absurd (omega arith);
      in_hand = λ q lt. absurd (omega arith);
      closed = λ i q x y. cc;
      handed_once = tt;
      handed_sent = tt;
    }

-- A step accepts one item at most.
length-note : {T : Type 0} (e : Event T) (h : Notes T) → length (note e h).sent ≤ length h.sent + 1
length-note silent h = omega arith
length-note (accepted x) h = omega (arith, length-append h.sent (x ∷ []))
length-note (delivered q x) h = omega arith

length-sent : {T : Type 0} {k n r : ℕ} {s : System T} → Reach k n r s → length s.notes.sent ≤ r
length-sent start = omega arith
length-sent (later {s} h (pick i {e} lt mv)) = omega (arith, length-sent h, length-note e s.notes)

pub Reach-IsSound :
    {T : Type 0} {k n r : ℕ} {s : System T}
    → 1 ≤ k
    → k ≤ 62
    → r < 2 ^ 62
    → Reach k n r s
    → IsSound k s
Reach-IsSound {T} {k} lo hi few start = initial-IsSound T k lo hi
Reach-IsSound lo hi few (later h st) =
    Step-IsSound (omega (arith, length-sent h)) st (Reach-IsSound lo hi (omega arith) h)
