-- ===== src/Ring/Threads/Moves/Release.antt =====
-- A pop releases the node that it has read.
use pacsni.Prelude.{ℕ, ◌+◌, ◌-◌, ◌^◌, ◌≤◌, ◌<◌, ◌≡◌, ◌≢◌, sym, ap, ◌∙◌, inl, inr, some, List, arith}
use native.Mathlib.Decide.{ℕ_discrete}
use pacsni.Ring.{Node, wrap}
use pacsni.Ring.Valid.{cap_bounds}
use pacsni.Ring.Threads.{
  Shared, place, Pc, idle, push_load, push_check, push_swap, push_write, push_publish, pop_load,
  pop_check, pop_swap, pop_read, pop_release,
}
use pacsni.Ring.Threads.Invariant.{node, pop_ticket, IsPlace, IsQueue, IsPushed, IsPopped, IsFresh}
use pacsni.Ring.Threads.Moves.Stored.{
  same_position, stored, stored-node, stored_self, stored-IsQueue, stored-IsPlace_ne, same_next,
  place-next, node-same,
}

module _ {T : Type 0} {k : ℕ} {m : Shared T} {sent : List T} (v : IsQueue k m sent) (pos : ℕ)
    (own : IsPopped k m sent pos) where
  bounds : (2 ≤ 2 ^ k) × (2 ^ k ≤ 2 ^ 62)
  bounds = cap_bounds k v.some_room v.small_room

  abbrev released : Node T
  released = record { sequence = wrap (pos + (2 ^ k - 1) + 1); item = (node k m sent pos).item }

  other_push : (q : ℕ) → IsPushed k m sent q → place k pos ≢ place k q
  other_push q (lt, win, le, _) h =
      let e = same_position k m.enqueue_pos pos q (omega (arith, own, v.order)) own.1 lt win h in
      omega (arith, own)

  other_pop : (q : ℕ) → IsPopped k m sent q → pos ≢ q → place k pos ≢ place k q
  other_pop q (lt, win, _) ne h = ne (
      same_position k m.enqueue_pos pos q (omega (arith, own, v.order)) own.1
        (omega (arith, v.order)) win h)

  unless_same :
      (q s : ℕ)
      → (place k pos ≡ place k q → ⊥)
      → (node k m sent q).sequence ≡ s
      → (node k (stored v pos released) sent q).sequence ≡ s
  unless_same q s h e = ap Node.sequence (stored-node v pos released q h) ∙ e

  -- The position behind `pos` has another place.
  behind : (q : ℕ) → q ≡ pos + 1 → place k pos ≢ place k q
  behind q e h = let at = same_next v pos q (omega arith) (omega (arith, bounds)) h in omega arith

  pub released-IsFresh :
      (p : Pc T)
      → pop_ticket p ≢ some pos
      → IsFresh k m sent p
      → IsFresh k (stored v pos released) sent p
  released-IsFresh idle ne h = tt
  released-IsFresh (push_load y) ne h = tt
  released-IsFresh (push_check y q) ne h = h
  released-IsFresh (push_swap y q) ne (le, h) = (
    le,
    λ e.
        unless_same q q
          (λ same. let s = node-same v pos q same in behind q (omega (arith, h e, own)) same) (h e),
  )
  released-IsFresh (push_write y q) ne (t, y_is) =
      ((t.0, t.1, t.2, unless_same q q (other_push q t) t.3), y_is)
  released-IsFresh (push_publish y q) ne (t, y_is, there) = (
    (t.0, t.1, t.2, unless_same q q (other_push q t) t.3),
    y_is,
    ap Node.item (stored-node v pos released q (other_push q t)) ∙ there,
  )
  released-IsFresh pop_load ne h = tt
  released-IsFresh (pop_check q) ne h = h
  released-IsFresh (pop_swap q) ne (le, h) = (
    le,
    λ e.
        unless_same q (q + 1) (λ same. let s = node-same v pos q same in omega (arith, h e, own))
          (h e),
  )
  released-IsFresh (pop_read q) ne t =
      (t.0, t.1, unless_same q (q + 1) (other_pop q t (λ e. ne (ap some (sym e)))) t.2)
  released-IsFresh (pop_release q y) ne (t, y_is) =
      ((t.0, t.1, unless_same q (q + 1) (other_pop q t (λ e. ne (ap some (sym e)))) t.2), y_is)

  released-IsPlace :
      (q : ℕ)
      → m.enqueue_pos ≤ q
      → q < m.enqueue_pos + 2 ^ k
      → IsPlace k (stored v pos released) sent q
  released-IsPlace q lo hi = elim (ℕ_discrete (place k pos) (place k q)) [
    | no h ↦ stored-IsPlace_ne v pos released q h (v.places q lo hi)
    | yes h ↦
        let s = node-same v pos q h in
        let new = stored_self v pos released q h in
        elim (v.places q lo hi) [
          | inl (t, _) ↦ absurd (behind q (omega (arith, own)) h)
          | inr (p, e, inl (t, _)) ↦
              absurd (behind p (omega (arith, own)) (place-next v pos p q e h))
          | inr (p, e, inr (t, _)) ↦ inl (
            ap Node.sequence new ∙ omega (arith, own, bounds, v.small, v.order),
            omega (arith, own),
          )
        ]
  ]

  pub released-IsQueue : IsQueue k (stored v pos released) sent
  released-IsQueue = stored-IsQueue v pos released (omega arith) released-IsPlace

  -- The place does not wait for an item of the last round.
  pub released-way :
      (q : ℕ)
      → q < m.enqueue_pos
      → m.enqueue_pos ≤ q + 2 ^ k
      → (node k (stored v pos released) sent q).sequence ≡ q
      → (node k m sent q).sequence ≡ q
  released-way q lt win s = elim (ℕ_discrete (place k pos) (place k q)) [
    | no h ↦ sym (ap Node.sequence (stored-node v pos released q h)) ∙ s
    | yes h ↦
        let new = ap Node.sequence (stored_self v pos released q h) in
        absurd (omega (arith, own, bounds, v.small, v.order))
  ]
