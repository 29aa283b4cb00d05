-- ===== src/Ring/Threads/Moves/Push.antt =====
-- A push writes its item, and then makes it visible.
use pacsni.Prelude.{
  ℕ, ◌+◌, ◌^◌, ◌≤◌, ◌<◌, ◌≡◌, ◌≢◌, ◌⊎◌, refl, sym, ap, ◌∙◌, inl, inr, Option, some, List, get_elem?,
  arith,
}
use native.Mathlib.Decide.{ℕ_discrete}
use pacsni.Ring.{Node, wrap}
use pacsni.Ring.Valid.{cap_bounds}
use pacsni.Ring.Threads.{
  Shared, place, Pc, idle, push_load, push_check, push_swap, push_write, push_publish, pop_load,
  pop_check, pop_swap, pop_read, pop_release,
}
use pacsni.Ring.Threads.Window.{place_injective}
use pacsni.Ring.Threads.Invariant.{node, push_ticket, IsPlace, IsQueue, IsPushed, IsPopped, IsFresh}
use pacsni.Ring.Threads.Moves.Stored.{
  same_position, stored, stored-node, stored_self, stored-IsQueue, stored-IsPlace_ne, same_next,
  node-same,
}

module _ {T : Type 0} {k : ℕ} {m : Shared T} {sent : List T} (v : IsQueue k m sent) (x : T)
    (pos : ℕ) (own : IsPushed k m sent pos) where
  wide : 2 ≤ 2 ^ k
  wide = (cap_bounds k v.some_room v.small_room).0

  -- The place of another thread's position is another.
  other_push : (q : ℕ) → IsPushed k m sent q → pos ≢ q → place k pos ≢ place k q
  other_push q (lt, win, _, _) ne h = ne (same_position k m.enqueue_pos pos q own.0 own.1 lt win h)

  other_pop : (q : ℕ) → IsPopped k m sent q → place k pos ≢ place k q
  other_pop q (lt, win, _) h =
      let e = same_position k m.enqueue_pos pos q own.0 own.1 (omega (arith, v.order)) win h in
      omega (arith, own)

  abbrev written : Node T
  written = record { sequence = (node k m sent pos).sequence; item = some x }

  pub written-sequence :
      (q : ℕ) → (node k (stored v pos written) sent q).sequence ≡ (node k m sent q).sequence
  written-sequence q = elim (ℕ_discrete (place k pos) (place k q)) [
    | yes h ↦ ap Node.sequence (stored_self v pos written q h) ∙ sym (node-same v pos q h)
    | no h ↦ ap Node.sequence (stored-node v pos written q h)
  ]

  pub written-IsFresh :
      (p : Pc T)
      → push_ticket p ≢ some pos
      → IsFresh k m sent p
      → IsFresh k (stored v pos written) sent p
  written-IsFresh idle ne h = tt
  written-IsFresh (push_load y) ne h = tt
  written-IsFresh (push_check y q) ne h = h
  written-IsFresh (push_swap y q) ne (le, h) = (le, λ e. written-sequence q ∙ h e)
  written-IsFresh (push_write y q) ne ((a, b, c, d), y_is) =
      ((a, b, c, written-sequence q ∙ d), y_is)
  written-IsFresh (push_publish y q) ne ((a, b, c, d), y_is, here) =
      let apart = other_push q (a, b, c, d) (λ e. ne (ap some (sym e))) in
      (
        (a, b, c, written-sequence q ∙ d),
        y_is,
        ap Node.item (stored-node v pos written q apart) ∙ here,
      )
  written-IsFresh pop_load ne h = tt
  written-IsFresh (pop_check q) ne h = h
  written-IsFresh (pop_swap q) ne (le, h) = (le, λ e. written-sequence q ∙ h e)
  written-IsFresh (pop_read q) ne (a, b, c) = (a, b, written-sequence q ∙ c)
  written-IsFresh (pop_release q y) ne ((a, b, c), y_is) = ((a, b, written-sequence q ∙ c), y_is)

  written-IsPlace :
      (q : ℕ)
      → m.enqueue_pos ≤ q
      → q < m.enqueue_pos + 2 ^ k
      → IsPlace k (stored v pos written) sent q
  written-IsPlace q lo hi = elim (v.places q lo hi) [
    | inl (s, lt) ↦ inl (written-sequence q ∙ s, lt)
    | inr (p, e, inl (s, le)) ↦ inr (p, e, inl (written-sequence q ∙ s, le))
    | inr (p, e, inr (s, there)) ↦ elim (ℕ_discrete (place k pos) (place k q)) [
      | no h ↦
          inr (
            p,
            e,
            inr (written-sequence q ∙ s, ap Node.item (stored-node v pos written q h) ∙ there),
          )
      | yes h ↦
          let same = node-same v pos q h in
          let at = same_next v pos q (omega (arith, own)) (omega (arith, own, wide)) h in
          absurd (omega (arith, own))
    ]
  ]

  pub written-IsQueue : IsQueue k (stored v pos written) sent
  written-IsQueue = stored-IsQueue v pos written (v.words pos) written-IsPlace

  pub written-own :
      IsPushed k (stored v pos written) sent pos
      × ((node k (stored v pos written) sent pos).item ≡ some x)
  written-own = (
    (own.0, own.1, own.2, written-sequence pos ∙ own.3),
    ap Node.item (stored_self v pos written pos refl),
  )

  module _ (here : (node k m sent pos).item ≡ some x) (x_is : get_elem? sent pos ≡ some x) where
    abbrev visible : Node T
    visible = record { sequence = wrap (pos + 1); item = (node k m sent pos).item }

    unless_same :
        (q s : ℕ)
        → (place k pos ≡ place k q → ⊥)
        → (node k m sent q).sequence ≡ s
        → (node k (stored v pos visible) sent q).sequence ≡ s
    unless_same q s h e = ap Node.sequence (stored-node v pos visible q h) ∙ e

    pub visible-IsFresh :
        (p : Pc T)
        → push_ticket p ≢ some pos
        → IsFresh k m sent p
        → IsFresh k (stored v pos visible) sent p
    visible-IsFresh idle ne h = tt
    visible-IsFresh (push_load y) ne h = tt
    visible-IsFresh (push_check y q) ne h = h
    visible-IsFresh (push_swap y q) ne (le, h) = (
      le,
      λ e.
          unless_same q q (λ same. let s = node-same v pos q same in omega (arith, h e, own)) (h e),
    )
    visible-IsFresh (push_write y q) ne ((a, b, c, d), y_is) =
        let apart = other_push q (a, b, c, d) (λ e. ne (ap some (sym e))) in
        ((a, b, c, unless_same q q apart d), y_is)
    visible-IsFresh (push_publish y q) ne ((a, b, c, d), y_is, there) =
        let apart = other_push q (a, b, c, d) (λ e. ne (ap some (sym e))) in
        (
          (a, b, c, unless_same q q apart d),
          y_is,
          ap Node.item (stored-node v pos visible q apart) ∙ there,
        )
    visible-IsFresh pop_load ne h = tt
    visible-IsFresh (pop_check q) ne h = h
    visible-IsFresh (pop_swap q) ne (le, h) = (
      le,
      λ e.
          unless_same q (q + 1)
            (λ same.
              let s = node-same v pos q same in
              let at =
                place_injective k q pos (omega (arith, own)) (omega (arith, h e, own, wide))
                  (sym same) in
              omega (arith, h e, own))
            (h e),
    )
    visible-IsFresh (pop_read q) ne (a, b, c) =
        (a, b, unless_same q (q + 1) (other_pop q (a, b, c)) c)
    visible-IsFresh (pop_release q y) ne ((a, b, c), y_is) =
        ((a, b, unless_same q (q + 1) (other_pop q (a, b, c)) c), y_is)

    visible-IsPlace :
        (q : ℕ)
        → m.enqueue_pos ≤ q
        → q < m.enqueue_pos + 2 ^ k
        → IsPlace k (stored v pos visible) sent q
    visible-IsPlace q lo hi = elim (ℕ_discrete (place k pos) (place k q)) [
      | no h ↦ stored-IsPlace_ne v pos visible q h (v.places q lo hi)
      | yes h ↦
          let s = node-same v pos q h in
          let new = stored_self v pos visible q h in
          elim (v.places q lo hi) [
            | inl (t, _) ↦ absurd (omega (arith, own))
            | inr (p, e, inl (t, _)) ↦
                let at : p ≡ pos = omega (arith, own) in
                inr (
                  pos,
                  omega arith,
                  inr (
                    ap Node.sequence new ∙ omega (arith, own, v.small),
                    ap Node.item new ∙ here ∙ sym x_is,
                  ),
                )
            | inr (p, e, inr (t, _)) ↦
                let at = same_next v pos q (omega (arith, own)) (omega (arith, own, wide)) h in
                absurd (omega (arith, own))
          ]
    ]

    pub visible-IsQueue : IsQueue k (stored v pos visible) sent
    visible-IsQueue = stored-IsQueue v pos visible (omega arith) visible-IsPlace

    -- The place no longer waits for the item.
    pub visible-way :
        {p : Option ℕ} (q : ℕ)
        → q < m.enqueue_pos
        → m.enqueue_pos ≤ q + 2 ^ k
        → (node k (stored v pos visible) sent q).sequence ≡ q
        → (p ≡ some q)
          ⊎ ((q < m.enqueue_pos)
              × (m.enqueue_pos ≤ q + 2 ^ k)
              × ((node k m sent q).sequence ≡ q)
              × (push_ticket (push_publish x pos) ≢ some q))
    visible-way q lt win s = elim (ℕ_discrete (place k pos) (place k q)) [
      | no h ↦ inr (
        lt,
        win,
        sym (ap Node.sequence (stored-node v pos visible q h)) ∙ s,
        λ e. h (ap (place k) (ground arith)),
      )
      | yes h ↦
          let at = same_position k m.enqueue_pos pos q own.0 own.1 lt win h in
          let new = ap Node.sequence (stored_self v pos visible q h) in
          absurd (omega (arith, own, v.small))
    ]
