-- ===== src/Ring/Threads/Advance.antt =====
-- A step keeps the facts on the shared members and on the threads.
use pacsni.Prelude.{
  ℕ, ◌+◌, ◌^◌, ◌≤◌, ◌<◌, ◌≡◌, ◌≢◌, ◌⊎◌, refl, sym, ap, ◌∙◌, inl, inr, none, some, length, get_elem?,
  arith,
}
use native.Mathlib.Decide.{ℕ_discrete}
use mathlib.Core.Path.{subst}
use pacsni.Ring.{wrap, equal, diff_sign}
use pacsni.Ring.Valid.{cap_bounds}
use pacsni.Ring.Threads.{
  Shared, place, Pc, push_swap, push_write, pop_swap, pop_read, Event, Notes, note, Move, call_push,
  load_tail, tail_free, tail_full, tail_moved, tail_taken, tail_lost, store_item, publish_item,
  call_pop, load_head, head_full, head_empty, head_moved, head_taken, head_lost, load_item,
  release_node,
}
use pacsni.Ring.Threads.Window.{place-add}
use pacsni.Ring.Threads.Invariant.{node, push_ticket, pop_ticket, IsQueue, IsPopped, IsFresh}
use pacsni.Ring.Threads.Moves.Taken
use pacsni.Ring.Threads.Moves.Push
use pacsni.Ring.Threads.Moves.Release

-- The comparison of a sequence number with a position says that they are equal only if they are.
diff_sign-eq : (a b : ℕ) → a < 2 ^ 64 → b < 2 ^ 64 → diff_sign a b ≡ equal → a ≡ b
unfolding diff_sign
diff_sign-eq a b ha hb h = ground arith

module _ {T : Type 0} {k : ℕ} {m : Shared T} (h : Notes T) (v : IsQueue k m h.sent)
    (small : length h.sent + 1 < 2 ^ 62) where
  -- What a step from `p` to `p'` does: the queue and the thread's own facts hold behind it, those of
  -- a thread with other positions too, and a new position is the next one. A place that still waits
  -- for its item did so before, and not for this thread, or it does for this thread.
  pub record Advance (p : Pc T) (e : Event T) (m' : Shared T) (p' : Pc T) : Type 0 where
    pub queue : IsQueue k m' (note e h).sent
    pub mine : IsFresh k m' (note e h).sent p'
    pub others :
        (q : Pc T)
        → IsFresh k m h.sent q
        → ((pos : ℕ) → push_ticket p ≡ some pos → push_ticket q ≢ some pos)
        → ((pos : ℕ) → pop_ticket p ≡ some pos → pop_ticket q ≢ some pos)
        → IsFresh k m' (note e h).sent q
    pub pushes :
        (pos : ℕ) → push_ticket p' ≡ some pos → (push_ticket p ≡ some pos) ⊎ (pos ≡ m.enqueue_pos)
    pub way :
        (q : ℕ)
        → q < m'.enqueue_pos
        → m'.enqueue_pos ≤ q + 2 ^ k
        → (m'.nodes (place k q)).sequence ≡ q
        → (push_ticket p' ≡ some q)
          ⊎ ((q < m.enqueue_pos)
              × (m.enqueue_pos ≤ q + 2 ^ k)
              × ((node k m h.sent q).sequence ≡ q)
              × (push_ticket p ≢ some q))
    pub pops :
        (pos : ℕ) → pop_ticket p' ≡ some pos → (pop_ticket p ≡ some pos) ⊎ (pos ≡ m.dequeue_pos)

  -- A step that writes nothing and takes no position.
  local :
      {p p' : Pc T}
      → push_ticket p ≡ none
      → IsFresh k m h.sent p'
      → ((pos : ℕ) → push_ticket p' ≡ some pos → push_ticket p ≡ some pos)
      → ((pos : ℕ) → pop_ticket p' ≡ some pos → pop_ticket p ≡ some pos)
      → Advance p Event.silent m p'
  local none_yet f a b = record {
    queue = v;
    mine = f;
    others = λ q g _ _. g;
    pushes = λ pos e. inl (a pos e);
    way = λ q lt win s. inr (lt, win, s, λ e. cc);
    pops = λ pos e. inl (b pos e);
  }

  -- The item at a position that a pop has taken.
  item_there :
      (pos : ℕ) → IsPopped k m h.sent pos → (node k m h.sent pos).item ≡ get_elem? h.sent pos
  item_there pos (lt, win, s) =
      let same : (node k m h.sent (pos + 2 ^ k)).sequence ≡ pos + 1 =
        ap (λ j. (m.nodes j).sequence) (place-add k pos) ∙ s in
      elim (v.places (pos + 2 ^ k) win (omega (arith, v.order))) [
        | inl (t, lt') ↦ absurd (omega (arith, (cap_bounds k v.some_room v.small_room).0))
        | inr (p, e, inl (t, le)) ↦ absurd (omega arith)
        | inr (p, e, inr (t, there)) ↦
            let at : p ≡ pos = omega arith in
            ap (λ j. (m.nodes j).item) (sym (place-add k pos)) ∙ there ∙ ap (get_elem? h.sent) at
      ]

  small_tail : m.enqueue_pos + 1 < 2 ^ 62
  small_tail = omega (arith, small, v.counted)

  tail-Advance :
      (x : T)
      → (node k m h.sent m.enqueue_pos).sequence ≡ m.enqueue_pos
      → Advance
          (push_swap x m.enqueue_pos)
          (Event.accepted x)
          (record m { enqueue_pos = wrap (m.enqueue_pos + 1) })
          (push_write x m.enqueue_pos)
  tail-Advance x free = record {
    queue = Taken.tail_taken-IsQueue v x free small_tail;
    mine =
        (Taken.tail_taken-IsPushed v x free small_tail, Taken.tail_taken-sent v x free small_tail);
    others = λ q g _ _. Taken.tail_taken-IsFresh v x free small_tail q g;
    pushes = λ pos e. inr (ground arith);
    way = λ q lt win s. elim (ℕ_discrete m.enqueue_pos q) [
      | yes new ↦ inl (ap some new)
      | no old ↦ inr (omega arith, omega arith, s, λ e. cc)
    ];
    pops = λ _ e. cc;
  }

  head-Advance :
      (node k m h.sent m.dequeue_pos).sequence ≡ m.dequeue_pos + 1
      → Advance
          (pop_swap m.dequeue_pos)
          Event.silent
          (record m { dequeue_pos = wrap (m.dequeue_pos + 1) })
          (pop_read m.dequeue_pos)
  head-Advance full = record {
    queue = Taken.head_taken-IsQueue v full;
    mine = Taken.head_taken-IsPopped v full;
    others = λ q g _ _. Taken.head_taken-IsFresh v full q g;
    pushes = λ _ e. cc;
    way = λ q lt win s. inr (lt, win, s, λ e. cc);
    pops = λ pos e. inr (ground arith);
  }

  pub Move-Advance :
      {p p' : Pc T} {e : Event T} {m' : Shared T}
      → Move k m p e m' p'
      → IsFresh k m h.sent p
      → Advance p e m' p'
  Move-Advance (call_push x) f = local refl tt (λ _ e. cc) (λ _ e. cc)
  Move-Advance load_tail f = local refl (omega arith) (λ _ e. cc) (λ _ e. cc)
  Move-Advance (tail_free {pos} g) f =
      local refl (f, λ e. diff_sign-eq _ pos (v.words pos) (omega (arith, f, v.small)) g)
        (λ _ e. cc) (λ _ e. cc)
  Move-Advance (tail_full g) f = local refl tt (λ _ e. cc) (λ _ e. cc)
  Move-Advance (tail_moved g) f = local refl tt (λ _ e. cc) (λ _ e. cc)
  Move-Advance (tail_taken {x} {pos} g) f =
      let s = f.1 g in
      subst
        (λ p.
          Advance (push_swap x p) (Event.accepted x) (record m { enqueue_pos = wrap (p + 1) })
            (push_write x p))
        g (tail-Advance x (rw g s))
  Move-Advance tail_lost f = local refl (omega arith) (λ _ e. cc) (λ _ e. cc)
  Move-Advance (store_item {x} {pos}) (own, x_is) = record {
    queue = Push.written-IsQueue v x pos own;
    mine = let w = Push.written-own v x pos own in (w.0, x_is, w.1);
    others = λ q g a b. Push.written-IsFresh v x pos own q (a pos refl) g;
    pushes = λ _ e. inl e;
    way = λ q lt win s. elim (ℕ_discrete pos q) [
      | yes here ↦ inl (ap some here)
      | no there ↦
          inr (lt, win, sym (Push.written-sequence v x pos own q) ∙ s, λ e. there (ground arith))
    ];
    pops = λ _ e. cc;
  }
  Move-Advance (publish_item {x} {pos}) (own, x_is, here) = record {
    queue = Push.visible-IsQueue v x pos own here x_is;
    mine = tt;
    others = λ q g a b. Push.visible-IsFresh v x pos own here x_is q (a pos refl) g;
    pushes = λ _ e. cc;
    way = λ q lt win s. Push.visible-way v x pos own here x_is q lt win s;
    pops = λ _ e. cc;
  }
  Move-Advance call_pop f = local refl tt (λ _ e. cc) (λ _ e. cc)
  Move-Advance load_head f = local refl (omega arith) (λ _ e. cc) (λ _ e. cc)
  Move-Advance (head_full {pos} g) f =
      let next : wrap (pos + 1) ≡ pos + 1 = omega (arith, f, v.small, v.order) in
      local refl (f, λ e. diff_sign-eq _ (wrap (pos + 1)) (v.words pos) (omega arith) g ∙ next)
        (λ _ e. cc) (λ _ e. cc)
  Move-Advance (head_empty g) f = local refl tt (λ _ e. cc) (λ _ e. cc)
  Move-Advance (head_moved g) f = local refl tt (λ _ e. cc) (λ _ e. cc)
  Move-Advance (head_taken {pos} g) f =
      let s = f.1 g in
      subst
        (λ p.
          Advance (pop_swap p) Event.silent (record m { dequeue_pos = wrap (p + 1) }) (pop_read p))
        g (head-Advance (rw g s))
  Move-Advance head_lost f = local refl (omega arith) (λ _ e. cc) (λ _ e. cc)
  Move-Advance (load_item {pos}) f = local refl (f, item_there pos f) (λ _ e. e) (λ _ e. e)
  Move-Advance (release_node {pos} {x}) (own, x_is) = record {
    queue = Release.released-IsQueue v pos own;
    mine = tt;
    others = λ q g a b. Release.released-IsFresh v pos own q (b pos refl) g;
    pushes = λ _ e. cc;
    way = λ q lt win s. inr (lt, win, Release.released-way v pos own q lt win s, λ e. cc);
    pops = λ _ e. cc;
  }
