-- ===== src/Start/Choice.antt =====
-- The interface that main chooses.
use pacsni.Prelude.{
  ℕ, zero, suc, ◌≡◌, refl, ap, ◌∙◌, inl, inr, Bool, true, false, if◌then◌else◌, Bool-cases, Option,
  none, some, List, [], ◌∷◌, get_elem?,
}
use mathlib.Core.Path.{subst}
use pacsni.Memory.{Bytes, agree}
use pacsni.Start.{Device, find_named, first_outside, or_else, head, choose_device}

-- The interface is one of the list: the one that was asked for, or, if none was, one outside of the
-- machine where there is one.
abbrev pub Suits : Option Bytes → List Device → Device → Type 0
Suits (some target) ds d = agree d.name target ≡ true
Suits none ds d =
    d.loopback ≡ true → (i : ℕ) (e : Device) → get_elem? ds i ≡ some e → e.loopback ≡ true

-- The chosen interface.
pub record Chosen (target : Option Bytes) (ds : List Device) (d : Device) : Type 0 where
  pub index : ℕ
  pub listed : get_elem? ds index ≡ some d
  pub suits : Suits target ds d

find_named-Chosen :
    (target : Bytes) (ds : List Device) (d : Device)
    → find_named target ds ≡ some d
    → Chosen (some target) ds d
unfolding find_named
find_named-Chosen target [] d h = cc
find_named-Chosen target (e ∷ ds) d h = elim (Bool-cases (agree e.name target)) [
  | inl same ↦
      let here : e ≡ d = let h' = rw same at h in cc in
      record {
        index = 0;
        listed = ap some here;
        suits = subst (λ g. agree g.name target ≡ true) here same;
      }
  | inr other ↦
      let t = find_named-Chosen target ds d (rw other at h) in
      record { index = suc t.index; listed = t.listed; suits = t.suits }
]

-- What is left of a test on the loopback.
rest_of : {A : Type 0} (b : Bool) (x y z : A) → b ≡ true → (if b then x else y) ≡ z → x ≡ z
rest_of true x y z e h = h
rest_of false x y z e h = cc

this_of :
    (b : Bool) (x : Option Device) (d e : Device)
    → b ≡ false
    → (if b then x else some d) ≡ some e
    → d ≡ e
this_of true x d e₁ e h = cc
this_of false x d e₁ e h = cc

not_none :
    (b : Bool) (x : Option Device) (d : Device) → b ≡ false → (if b then x else some d) ≡ none → ⊥
not_none true x d e h = cc
not_none false x d e h = cc

record Outside (ds : List Device) (d : Device) : Type 0 where
  index : ℕ
  listed : get_elem? ds index ≡ some d
  outside : d.loopback ≡ false

first_outside-some : (ds : List Device) (d : Device) → first_outside ds ≡ some d → Outside ds d
unfolding first_outside
first_outside-some [] d h = cc
first_outside-some (e ∷ ds) d h = elim (Bool-cases e.loopback) [
  | inl inside ↦
      let t = first_outside-some ds d (rest_of e.loopback _ _ _ inside h) in
      record { index = suc t.index; listed = t.listed; outside = t.outside }
  | inr out ↦
      let here : e ≡ d = this_of e.loopback _ _ _ out h in
      record {
        index = 0;
        listed = ap some here;
        outside = subst (λ g. g.loopback ≡ false) here out;
      }
]

first_outside-none :
    (ds : List Device)
    → first_outside ds ≡ none
    → (i : ℕ) (e : Device) → get_elem? ds i ≡ some e
    → e.loopback ≡ true
unfolding first_outside
first_outside-none [] h i e at = cc
first_outside-none (d ∷ ds) h zero e at = elim (Bool-cases d.loopback) [
  | inl inside ↦ let here : d ≡ e = cc in subst (λ g. g.loopback ≡ true) here inside
  | inr out ↦ absurd (not_none d.loopback _ _ out h)
]
first_outside-none (d ∷ ds) h (suc i) e at = elim (Bool-cases d.loopback) [
  | inl inside ↦ first_outside-none ds (rest_of d.loopback _ _ _ inside h) i e at
  | inr out ↦ absurd (not_none d.loopback _ _ out h)
]

head-Chosen :
    (ds : List Device) (d : Device) → first_outside ds ≡ none → head ds ≡ some d → Chosen none ds d
head-Chosen [] d all h = cc
head-Chosen (e ∷ ds) d all h = record {
  index = 0;
  listed = h;
  suits = λ _. first_outside-none (e ∷ ds) all;
}

or_else-Chosen :
    (ds : List Device) (d : Device) (o : Option Device)
    → first_outside ds ≡ o
    → or_else o (head ds) ≡ some d
    → Chosen none ds d
or_else-Chosen ds d none e h = head-Chosen ds d e h
or_else-Chosen ds d (some g) e h =
    let t = first_outside-some ds d (e ∙ h) in
    let outside = t.outside in record { index = t.index; listed = t.listed; suits = λ inside. cc }

pub choose_device-Chosen :
    (target : Option Bytes) (ds : List Device) (d : Device)
    → choose_device target ds ≡ some d
    → Chosen target ds d
unfolding choose_device
choose_device-Chosen (some target) ds d h = find_named-Chosen target ds d h
choose_device-Chosen none ds d h = or_else-Chosen ds d (first_outside ds) refl h
