-- ===== src/Dissect/Http/Search.antt =====
-- memmem finds the first place of the needle, and copy_line the bytes before the first line end.
use pacsni.Prelude.{
  ℕ, zero, suc, ◌+◌, ◌-◌, ◌≤◌, ◌<◌, ◌≡◌, inl, inr, refl, true, Bool-cases, ltb, ◌==◌, arith, Option,
  none, some, [], ◌∷◌, length, Ensures,
}
use native.Mathlib.Decide.{ℕ_discrete}
use pacsni.Memory.{Bytes, agree, slice}
use pacsni.Memory.Laws.{memcmp-eq-ret, agree_iff}
use pacsni.Dissect.Http.{memmem_loop, memmem}

-- The needle stands at an index of the first `len` bytes.
abbrev pub IsAt : Bytes → ℕ → Bytes → ℕ → Type 0
IsAt h len needle i = (i + length needle ≤ len) × (slice h i (length needle) ≡ needle)

abbrev pub IsFirst : Bytes → ℕ → Bytes → Option ℕ → Type 0
IsFirst h len needle none = (i : ℕ) → IsAt h len needle i → ⊥
IsFirst h len needle (some i) = IsAt h len needle i × ((j : ℕ) → j < i → IsAt h len needle j → ⊥)

memmem_loop_lem :
    (n i : ℕ) (h needle : Bytes) (len : ℕ)
    → len ≤ length h
    → i + n + length needle ≡ len + 1
    → ((j : ℕ) → j < i → IsAt h len needle j → ⊥)
    → Ensures (memmem_loop n i h needle) (IsFirst h len needle)
unfolding memmem_loop
memmem_loop_lem zero i h needle len fits total before = λ j at. before j (omega (arith, at.0)) at
memmem_loop_lem (suc n) i h needle len fits total before =
    rw (memcmp-eq-ret h i needle (omega arith))
      (elim (Bool-cases (agree (slice h i (length needle)) needle)) [
        | inl found ↦ rw found ((omega arith, (agree_iff _ needle).0 found), before)
        | inr missed ↦ rw missed (
            memmem_loop_lem n (i + 1) h needle len fits (omega arith) (λ j lt at.
              elim (ℕ_discrete j i) [
                | yes here ↦ cc (missed, (agree_iff _ needle).1 (rw here at at.1))
                | no other ↦ before j (omega arith) at
              ]))
      ])

IsFirst-empty :
    (h : Bytes) (len : ℕ) (needle : Bytes)
    → (length needle == 0) ≡ true
    → IsFirst h len needle (some 0)
unfolding slice
IsFirst-empty h len [] e = ((omega arith, refl), λ j lt. absurd (omega arith))
IsFirst-empty h len (x ∷ needle) e = ground arith

-- Among the first `len` bytes of an array of at least as many, memmem returns the least index at
-- which all of the needle stands, and null exactly if there is none; it reads nothing else.
pub memmem-IsFirst :
    (h : Bytes) (len : ℕ) (needle : Bytes)
    → len ≤ length h
    → Ensures (memmem h len needle) (IsFirst h len needle)
unfolding memmem
memmem-IsFirst h len needle fits = elim (Bool-cases (length needle == 0)) [
  | inl empty ↦ rw empty (IsFirst-empty h len needle empty)
  | inr some' ↦ rw some' (elim (Bool-cases (ltb len (length needle))) [
    | inl long ↦ rw long (λ i at. ground (arith, at.0))
    | inr fit ↦ rw fit (
        memmem_loop_lem (len - length needle + 1) 0 h needle len fits (ground arith)
          (λ j lt. absurd (omega arith)))
  ])
]
