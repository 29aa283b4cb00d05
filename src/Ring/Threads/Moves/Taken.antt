-- ===== src/Ring/Threads/Moves/Taken.antt =====
-- A position is taken: an exchange of `enqueue_pos` or `dequeue_pos` succeeds.
use pacsni.Prelude.{
  ℕ, ◌+◌, ◌^◌, ◌≤◌, ◌<◌, ◌≡◌, ◌≢◌, sym, ap, ◌∙◌, inl, inr, some, List, [], ◌∷◌, ◌++◌, length-append,
  get_elem?, get_elem?-concat, get_elem?-concat_last, arith,
}
use native.Mathlib.Decide.{ℕ_discrete, dec_lt}
use pacsni.Ring.{Node, wrap}
use pacsni.Ring.Valid.{cap_bounds}
use pacsni.Ring.Threads.{
  Shared, place, Pc, idle, push_load, push_check, push_swap, push_write, push_publish, pop_load,
  pop_check, pop_swap, pop_read, pop_release,
}
use pacsni.Ring.Threads.Window.{place-add}
use pacsni.Ring.Threads.Invariant.{node, IsPlace, IsQueue, IsPushed, IsPopped, IsFresh}

module _ {T : Type 0} {k : ℕ} {m : Shared T} {sent : List T} (v : IsQueue k m sent) where
  node-add : (q r : ℕ) → r ≡ q + 2 ^ k → node k m sent r ≡ node k m sent q
  node-add q r e = ap m.nodes (ap (place k) e ∙ place-add k q)

  -- The next position for a push is not one round behind a position whose place is not free.
  next_round :
      (q : ℕ)
      → (node k m sent m.enqueue_pos).sequence ≡ m.enqueue_pos
      → (node k m sent q).sequence ≢ q + 2 ^ k
      → m.enqueue_pos ≢ q + 2 ^ k
  next_round q free other e = other (sym (ap Node.sequence (node-add q m.enqueue_pos e)) ∙ free ∙ e)

  module _ (x : T) (free : (node k m sent m.enqueue_pos).sequence ≡ m.enqueue_pos)
      (small : m.enqueue_pos + 1 < 2 ^ 62) where
    abbrev tail_taken : Shared T
    tail_taken = record m { enqueue_pos = wrap (m.enqueue_pos + 1) }

    sent-before : (q : ℕ) → q < m.enqueue_pos → get_elem? (sent ++ (x ∷ [])) q ≡ get_elem? sent q
    sent-before q h = get_elem?-concat sent x q (omega (arith, v.counted))

    IsPushed-tail : (q : ℕ) → IsPushed k m sent q → IsPushed k tail_taken (sent ++ (x ∷ [])) q
    IsPushed-tail q (lt, win, le, seq) =
        let apart =
          next_round q free (λ e. omega (arith, (cap_bounds k v.some_room v.small_room).0)) in
        (omega arith, omega arith, le, seq)

    IsPopped-tail : (q : ℕ) → IsPopped k m sent q → IsPopped k tail_taken (sent ++ (x ∷ [])) q
    IsPopped-tail q (lt, win, seq) =
        let apart =
          next_round q free (λ e. omega (arith, (cap_bounds k v.some_room v.small_room).0)) in
        (lt, omega arith, seq)

    pub tail_taken-IsFresh :
        (p : Pc T) → IsFresh k m sent p → IsFresh k tail_taken (sent ++ (x ∷ [])) p
    tail_taken-IsFresh idle h = tt
    tail_taken-IsFresh (push_load y) h = tt
    tail_taken-IsFresh (push_check y q) h = omega arith
    tail_taken-IsFresh (push_swap y q) (le, h) = (omega arith, λ e. absurd (omega arith))
    tail_taken-IsFresh (push_write y q) (h, y_is) = (IsPushed-tail q h, sent-before q h.0 ∙ y_is)
    tail_taken-IsFresh (push_publish y q) (h, y_is, here) =
        (IsPushed-tail q h, sent-before q h.0 ∙ y_is, here)
    tail_taken-IsFresh pop_load h = tt
    tail_taken-IsFresh (pop_check q) h = h
    tail_taken-IsFresh (pop_swap q) h = h
    tail_taken-IsFresh (pop_read q) h = IsPopped-tail q h
    tail_taken-IsFresh (pop_release q y) (h, y_is) =
        (IsPopped-tail q h, y_is ∙ sym (sent-before q (omega (arith, v.order, h.0))))

    has_room : m.enqueue_pos < m.dequeue_pos + 2 ^ k
    has_room =
        let b = cap_bounds k v.some_room v.small_room in
        elim (v.places m.enqueue_pos (omega arith) (omega (arith, b.0))) [
          | inl (_, lt) ↦ lt
          | inr (p, e, inl (s, _)) ↦ absurd (omega (arith, b.0))
          | inr (p, e, inr (s, _)) ↦ absurd (omega (arith, b.0))
        ]

    tail_taken-IsPlace :
        (q : ℕ)
        → m.enqueue_pos + 1 ≤ q
        → q < m.enqueue_pos + 1 + 2 ^ k
        → IsPlace k tail_taken (sent ++ (x ∷ [])) q
    tail_taken-IsPlace q lo hi = elim (ℕ_discrete q (m.enqueue_pos + 2 ^ k)) [
      | yes new ↦ inr (
        m.enqueue_pos,
        new,
        inl (ap Node.sequence (node-add m.enqueue_pos q new) ∙ free, v.order),
      )
      | no old ↦ elim (v.places q (omega arith) (omega arith)) [
        | inl h ↦ inl h
        | inr (p, e, inl h) ↦ inr (p, e, inl h)
        | inr (p, e, inr (s, there)) ↦
            inr (p, e, inr (s, there ∙ sym (sent-before p (omega arith))))
      ]
    ]

    pub tail_taken-IsQueue : IsQueue k tail_taken (sent ++ (x ∷ []))
    tail_taken-IsQueue = record {
      some_room = v.some_room;
      small_room = v.small_room;
      small = omega arith;
      order = omega (arith, v.order);
      room = omega (arith, has_room);
      words = v.words;
      counted = omega (arith, v.counted, length-append sent (x ∷ []));
      places = λ q lo hi. tail_taken-IsPlace q (omega arith) (omega arith);
    }

    pub tail_taken-sent : get_elem? (sent ++ (x ∷ [])) m.enqueue_pos ≡ some x
    tail_taken-sent = rw (sym v.counted) (get_elem?-concat_last sent x)

    pub tail_taken-IsPushed : IsPushed k tail_taken (sent ++ (x ∷ [])) m.enqueue_pos
    tail_taken-IsPushed =
        (omega arith, omega (arith, (cap_bounds k v.some_room v.small_room).0), v.order, free)

  module _ (full : (node k m sent m.dequeue_pos).sequence ≡ m.dequeue_pos + 1) where
    abbrev head_taken : Shared T
    head_taken = record m { dequeue_pos = wrap (m.dequeue_pos + 1) }

    -- A place is full only behind a push.
    head_pushed : m.dequeue_pos < m.enqueue_pos
    head_pushed = elim (dec_lt m.dequeue_pos m.enqueue_pos) [
      | yes lt ↦ lt
      | no ge ↦
          let b = cap_bounds k v.some_room v.small_room in
          let e : m.dequeue_pos ≡ m.enqueue_pos = omega (arith, v.order) in
          let s₀ : (node k m sent m.enqueue_pos).sequence ≡ m.dequeue_pos + 1 =
            ap (λ p. (node k m sent p).sequence) (sym e) ∙ full in
          elim (v.places m.enqueue_pos (omega arith) (omega (arith, b.0))) [
            | inl (s, _) ↦ absurd (omega arith)
            | inr (p, d, inl (s, _)) ↦ absurd (omega (arith, b.0))
            | inr (p, d, inr (s, _)) ↦ absurd (omega (arith, b.0))
          ]
    ]

    not_head : (q : ℕ) → (node k m sent q).sequence ≡ q → m.dequeue_pos ≢ q
    not_head q s e =
        let s₀ : (node k m sent q).sequence ≡ m.dequeue_pos + 1 =
          ap (λ p. (node k m sent p).sequence) (sym e) ∙ full in
        omega arith

    IsPushed-head : (q : ℕ) → IsPushed k m sent q → IsPushed k head_taken sent q
    IsPushed-head q (lt, win, le, seq) =
        let apart = not_head q seq in (lt, win, omega (arith, v.small, v.order), seq)

    IsPopped-head : (q : ℕ) → IsPopped k m sent q → IsPopped k head_taken sent q
    IsPopped-head q (lt, win, seq) = (omega (arith, v.small, v.order), win, seq)

    pub head_taken-IsFresh : (p : Pc T) → IsFresh k m sent p → IsFresh k head_taken sent p
    head_taken-IsFresh idle h = tt
    head_taken-IsFresh (push_load y) h = tt
    head_taken-IsFresh (push_check y q) h = h
    head_taken-IsFresh (push_swap y q) h = h
    head_taken-IsFresh (push_write y q) (h, y_is) = (IsPushed-head q h, y_is)
    head_taken-IsFresh (push_publish y q) (h, y_is, here) = (IsPushed-head q h, y_is, here)
    head_taken-IsFresh pop_load h = tt
    head_taken-IsFresh (pop_check q) h = omega (arith, v.small, v.order)
    head_taken-IsFresh (pop_swap q) (le, h) =
        (omega (arith, v.small, v.order), λ e. absurd (omega (arith, v.small, v.order)))
    head_taken-IsFresh (pop_read q) h = IsPopped-head q h
    head_taken-IsFresh (pop_release q y) (h, y_is) = (IsPopped-head q h, y_is)

    head_taken-IsPlace :
        (q : ℕ) → m.enqueue_pos ≤ q → q < m.enqueue_pos + 2 ^ k → IsPlace k head_taken sent q
    head_taken-IsPlace q lo hi = elim (v.places q lo hi) [
      | inl (s, lt) ↦ inl (s, omega (arith, v.small, v.order))
      | inr (p, e, inl (s, le)) ↦
          let apart = not_head p (ap Node.sequence (sym (node-add p q e)) ∙ s) in
          inr (p, e, inl (s, omega (arith, v.small, v.order)))
      | inr (p, e, inr h) ↦ inr (p, e, inr h)
    ]

    pub head_taken-IsQueue : IsQueue k head_taken sent
    head_taken-IsQueue = record {
      some_room = v.some_room;
      small_room = v.small_room;
      small = v.small;
      order = omega (arith, v.small, head_pushed);
      room = omega (arith, v.small, v.order, v.room);
      words = v.words;
      counted = v.counted;
      places = head_taken-IsPlace;
    }

    pub head_taken-IsPopped : IsPopped k head_taken sent m.dequeue_pos
    head_taken-IsPopped = (omega (arith, v.small, v.order), v.room, full)
