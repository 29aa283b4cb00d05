-- ===== src/Ring/Threads/Receipts.antt =====
-- The notes on items that have been handed over.
use pacsni.Prelude.{
  ℕ, ◌≤◌, ◌<◌, ◌≡◌, ◌⊎◌, refl, sym, ap, ◌∙◌, inl, inr, Option, none, some, List, [], ◌∷◌, ◌++◌,
  length, get_elem?, get_elem?-concat, arith,
}
use native.Mathlib.Decide.{ℕ_discrete}
use pacsni.Ring.Threads.{
  Shared, Pc, Event, Notes, note, Move, call_push, load_tail, tail_free, tail_full, tail_moved,
  tail_taken, tail_lost, store_item, publish_item, call_pop, load_head, head_full, head_empty,
  head_moved, head_taken, head_lost, load_item, release_node,
}
use pacsni.Ring.Threads.Invariant.{pop_ticket, IsQueue, IsFresh}

-- The position has been handed over.
abbrev pub Handed : {T : Type 0} → ℕ → List (ℕ × Option T) → Type 0
Handed p [] = ⊥
Handed p ((q, x) ∷ r) = (p ≡ q) ⊎ Handed p r

-- No position has been handed over twice.
abbrev pub AllDistinct : {T : Type 0} → List (ℕ × Option T) → Type 0
AllDistinct [] = Unit
AllDistinct ((p, x) ∷ r) = (Handed p r → ⊥) × AllDistinct r

-- Every position below `d`, and with it the item that was accepted there.
abbrev pub AllSent : {T : Type 0} → ℕ → List T → List (ℕ × Option T) → Type 0
AllSent d sent [] = Unit
AllSent d sent ((p, x) ∷ r) = (p < d) × (x ≡ get_elem? sent p) × AllSent d sent r

module _ {T : Type 0} where
  pub AllSent-grow :
      (d d' : ℕ) (sent : List T) (x : T) (r : List (ℕ × Option T))
      → d ≤ d'
      → d ≤ length sent
      → AllSent d sent r
      → AllSent d' (sent ++ (x ∷ [])) r
  AllSent-grow d d' sent x [] le fit h = tt
  AllSent-grow d d' sent x ((p, y) ∷ r) le fit (lt, e, h) = (
    omega arith,
    e ∙ sym (get_elem?-concat sent x p (omega arith)),
    AllSent-grow d d' sent x r le fit h,
  )

  pub AllSent-le :
      (d d' : ℕ) (sent : List T) (r : List (ℕ × Option T))
      → d ≤ d'
      → AllSent d sent r
      → AllSent d' sent r
  AllSent-le d d' sent [] le h = tt
  AllSent-le d d' sent ((p, y) ∷ r) le (lt, e, h) = (omega arith, e, AllSent-le d d' sent r le h)

  pub AllSent-Handed :
      (d p : ℕ) (sent : List T) (r : List (ℕ × Option T)) → AllSent d sent r → Handed p r → p < d
  AllSent-Handed d p sent [] h g = elim g [ ]
  AllSent-Handed d p sent ((q, y) ∷ r) (lt, e, h) (inl same) = omega arith
  AllSent-Handed d p sent ((q, y) ∷ r) (lt, e, h) (inr old) = AllSent-Handed d p sent r h old

-- What a step of a thread from `p` to `p'` does to the notes.
module _ {T : Type 0} {k : ℕ} {m : Shared T} (h : Notes T) (v : IsQueue k m h.sent) where
  pub record Noted (p : Pc T) (e : Event T) (m' : Shared T) (p' : Pc T) : Type 0 where
    pub heads : m.dequeue_pos ≤ m'.dequeue_pos
    pub taken : (q : ℕ) → q < m'.dequeue_pos → (q < m.dequeue_pos) ⊎ (pop_ticket p' ≡ some q)
    pub kept :
        (q : ℕ) → pop_ticket p ≡ some q → (pop_ticket p' ≡ some q) ⊎ Handed q (note e h).received
    pub old : (q : ℕ) → Handed q h.received → Handed q (note e h).received
    pub new :
        (q : ℕ)
        → Handed q (note e h).received
        → Handed q h.received ⊎ ((pop_ticket p ≡ some q) × (pop_ticket p' ≡ none))
    pub sent_on :
        AllSent m.dequeue_pos h.sent h.received
        → AllSent m'.dequeue_pos (note e h).sent (note e h).received
    pub distinct_on :
        ((q : ℕ) → pop_ticket p ≡ some q → Handed q h.received → ⊥)
        → AllDistinct h.received
        → AllDistinct (note e h).received

  quiet :
      {p p' : Pc T} {m' : Shared T}
      → m'.dequeue_pos ≡ m.dequeue_pos
      → ((q : ℕ) → pop_ticket p ≡ some q → pop_ticket p' ≡ some q)
      → Noted p Event.silent m' p'
  quiet same keep = record {
    heads = omega arith;
    taken = λ q lt. inl (omega arith);
    kept = λ q e. inl (keep q e);
    old = λ q g. g;
    new = λ q g. inl g;
    sent_on = AllSent-le _ _ h.sent h.received (omega arith);
    distinct_on = λ _ d. d;
  }

  pub Move-Noted :
      {p p' : Pc T} {e : Event T} {m' : Shared T}
      → Move k m p e m' p'
      → IsFresh k m h.sent p
      → Noted p e m' p'
  Move-Noted (tail_taken {x} g) f = record {
    heads = omega arith;
    taken = λ q lt. inl lt;
    kept = λ q e. cc;
    old = λ q g. g;
    new = λ q g. inl g;
    sent_on =
        AllSent-grow _ _ h.sent x h.received (omega arith) (omega (arith, v.counted, v.order));
    distinct_on = λ _ d. d;
  }
  Move-Noted (head_taken {pos} g) f = record {
    heads = omega (arith, v.small, v.order);
    taken = λ q lt. elim (ℕ_discrete pos q) [
      | yes here ↦ inr (ap some here)
      | no there ↦ inl (omega (arith, v.small, v.order))
    ];
    kept = λ q e. cc;
    old = λ q g. g;
    new = λ q g. inl g;
    sent_on = AllSent-le _ _ h.sent h.received (omega (arith, v.small, v.order));
    distinct_on = λ _ d. d;
  }
  Move-Noted (release_node {pos} {x}) (own, x_is) = record {
    heads = omega arith;
    taken = λ q lt. inl lt;
    kept = λ q e. inr (inl (ground arith));
    old = λ q g. inr g;
    new = λ q g. elim g [ inl e ↦ inr (ap some (sym e), refl) | inr g ↦ inl g ];
    sent_on = λ a. (own.0, x_is, a);
    distinct_on = λ closed d. (closed pos refl, d);
  }
  Move-Noted (load_item) f = quiet refl (λ q e. e)
  Move-Noted (call_push x) f = quiet refl (λ q e. cc)
  Move-Noted load_tail f = quiet refl (λ q e. cc)
  Move-Noted (tail_free g) f = quiet refl (λ q e. cc)
  Move-Noted (tail_full g) f = quiet refl (λ q e. cc)
  Move-Noted (tail_moved g) f = quiet refl (λ q e. cc)
  Move-Noted tail_lost f = quiet refl (λ q e. cc)
  Move-Noted store_item f = quiet refl (λ q e. cc)
  Move-Noted publish_item f = quiet refl (λ q e. cc)
  Move-Noted call_pop f = quiet refl (λ q e. cc)
  Move-Noted load_head f = quiet refl (λ q e. cc)
  Move-Noted (head_full g) f = quiet refl (λ q e. cc)
  Move-Noted (head_empty g) f = quiet refl (λ q e. cc)
  Move-Noted (head_moved g) f = quiet refl (λ q e. cc)
  Move-Noted head_lost f = quiet refl (λ q e. cc)
