-- ===== src/Prelude/Loop.antt =====
-- Loops: a round says how to go on or what the result is; the fuel bounds the number of rounds.
use Prim.Native.Nat.{ℕ, zero, suc, ◌<◌}
use native.Mathlib.Omega.{arith}
use pacsni.Prelude.Outcome.{
  Exec, ret, fault, diverge, ◌>>=◌, Ensures, Ensures-bind, Ends, Ends-bind, Gives, Gives-then,
}
use mathlib.Core.Path.{◌≡◌}

pub data Next {ℓ} (S R : Type ℓ) : Type ℓ where
  again : S → Next S R
  done : R → Next S R

-- What is left of a loop behind a round, where `loop` is the loop with less fuel.
abbrev pub follow {ℓ} : {S R : Type ℓ} → (S → Exec R) → Next S R → Exec R
follow loop (again s) = loop s
follow loop (done r) = ret r

unfoldable pub iterate {ℓ} : {S R : Type ℓ} → ℕ → (S → Exec (Next S R)) → S → Exec R
iterate zero round s = diverge
iterate (suc f) round s = round s >>= follow (iterate f round)

-- The round keeps the invariant at a smaller measure, or ends with a good result.
abbrev pub Keeps {ℓ κ} :
    {S R : Type ℓ} → (S → Type κ) → (R → Type κ) → (S → ℕ) → ℕ → Next S R → Type κ
Keeps Inv Post measure n (again s) = Inv s × (measure s < n)
Keeps Inv Post measure n (done r) = Post r

follow-Ensures {ℓ κ} :
    {S R : Type ℓ} (Inv : S → Type κ) (Post : R → Type κ) (measure : S → ℕ) (m : ℕ)
    (loop : S → Exec R)
    → ((s : S) → measure s < m → Inv s → Ensures (loop s) Post)
    → (n : Next S R) → Keeps Inv Post measure m n
    → Ensures (follow loop n) Post
follow-Ensures Inv Post measure m loop rec (again s) (h, lt) = rec s lt h
follow-Ensures Inv Post measure m loop rec (done r) p = p

-- The rule for total correctness.
pub iterate-Ensures {ℓ κ} :
    {S R : Type ℓ} (Inv : S → Type κ) (Post : R → Type κ) (measure : S → ℕ)
    (round : S → Exec (Next S R))
    → ((s : S) → Inv s → Ensures (round s) (Keeps Inv Post measure (measure s)))
    → (f : ℕ) (s : S) → measure s < f
    → Inv s
    → Ensures (iterate f round s) Post
unfolding iterate
iterate-Ensures Inv Post measure round step zero s m h = absurd (omega arith)
iterate-Ensures Inv Post measure round step (suc f) s m h =
    Ensures-bind (Keeps Inv Post measure (measure s)) Post (round s) (follow (iterate f round))
      (step s h)
      (follow-Ensures Inv Post measure (measure s) (iterate f round)
        (λ s' lt h'. iterate-Ensures Inv Post measure round step f s' (omega arith) h'))

-- A round that ends, at a smaller measure if it goes on.
abbrev pub Shrinks {ℓ} : {S R : Type ℓ} → (S → ℕ) → ℕ → Next S R → Type 0
Shrinks measure n (again s) = measure s < n
Shrinks measure n (done r) = Unit

follow-Ends {ℓ} :
    {S R : Type ℓ} (measure : S → ℕ) (m : ℕ) (loop : S → Exec R)
    → ((s : S) → measure s < m → Ends (loop s))
    → (n : Next S R) → Shrinks measure m n
    → Ends (follow loop n)
follow-Ends measure m loop rec (again s) lt = rec s lt
follow-Ends measure m loop rec (done r) p = tt

-- The rule for termination alone.
pub iterate-Ends {ℓ} :
    {S R : Type ℓ} (measure : S → ℕ) (round : S → Exec (Next S R))
    → ((s : S) → Ends (round s))
    → ((s : S) (n : Next S R) → round s ≡ ret n → Shrinks measure (measure s) n)
    → (f : ℕ) (s : S) → measure s < f
    → Ends (iterate f round s)
unfolding iterate
iterate-Ends measure round ends step zero s m = absurd (omega arith)
iterate-Ends measure round ends step (suc f) s m =
    Ends-bind (round s) (follow (iterate f round)) (ends s) (λ n e.
      follow-Ends measure (measure s) (iterate f round)
        (λ s' lt. iterate-Ends measure round ends step f s' (omega arith)) n (step s n e))

module _ {ℓ} {S R : Type ℓ} (round : S → Exec (Next S R)) (f : ℕ) (s : S) where
  pub iterate-again :
      {s' : S} → round s ≡ ret (again s') → iterate (suc f) round s ≡ iterate f round s'
  unfolding iterate
  iterate-again e = rw e

  pub iterate-done : {r : R} → round s ≡ ret (done r) → iterate (suc f) round s ≡ ret r
  unfolding iterate
  iterate-done e = rw e

  -- A round that ends the loop with what `e` gives.
  pub iterate-last :
      (e : Exec R) → round s ≡ (e >>= (λ r. ret (done r))) → iterate (suc f) round s ≡ e
  unfolding iterate
  iterate-last (ret r) h = rw h
  iterate-last fault h = rw h
  iterate-last diverge h = rw h

pub iterate-fault {ℓ} :
    {S R : Type ℓ} (round : S → Exec (Next S R)) (f : ℕ) (s : S)
    → 0 < f
    → round s ≡ fault
    → iterate f round s ≡ fault
unfolding iterate
iterate-fault round zero s h e = absurd (omega arith)
iterate-fault round (suc f) s h e = rw e

abbrev pub Goes {ℓ κ} : {S R : Type ℓ} → (S → Type κ) → (R → Type κ) → Next S R → Type κ
Goes Inv Post (again s) = Inv s
Goes Inv Post (done r) = Post r

follow-Gives {ℓ κ} :
    {S R : Type ℓ} (Inv : S → Type κ) (Post : R → Type κ) (loop : S → Exec R)
    → ((s : S) → Inv s → Gives (loop s) Post)
    → (n : Next S R) → Goes Inv Post n
    → Gives (follow loop n) Post
follow-Gives Inv Post loop rec (again s) h = rec s h
follow-Gives Inv Post loop rec (done r) p = p

-- The rule for partial correctness.
pub iterate-Gives {ℓ κ} :
    {S R : Type ℓ} (Inv : S → Type κ) (Post : R → Type κ) (round : S → Exec (Next S R))
    → ((s : S) → Inv s → Gives (round s) (Goes Inv Post))
    → (f : ℕ) (s : S) → Inv s
    → Gives (iterate f round s) Post
unfolding iterate
iterate-Gives Inv Post round step zero s h = tt
iterate-Gives Inv Post round step (suc f) s h =
    Gives-then (Goes Inv Post) Post (round s) (follow (iterate f round)) (step s h)
      (follow-Gives Inv Post (iterate f round) (λ s' h'. iterate-Gives Inv Post round step f s' h'))
