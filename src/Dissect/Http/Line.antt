-- ===== src/Dissect/Http/Line.antt =====
-- The request line that dissect_http copies, and the methods that it looks for.
use pacsni.Prelude.{
  ℕ, zero, suc, ◌+◌, ◌≤◌, ◌<◌, ◌≡◌, ◌⊎◌, ◌∙◌, refl, sym, ap, arith, Bool, true, false, ◌||◌,
  Bool-cases, inl, inr, ltb, lt→ltb, ◌==◌, if◌then◌else◌, List, [], ◌∷◌, ◌++◌, append-nil,
  append_assoc, length, length-append, drop, ret, ◌>>=◌,
}
use pacsni.Memory.{Bytes, slice, agree, rd, wr}
use pacsni.Memory.Laws.{rd-behind, wr-eq-ret, memcmp-eq-ret, agree_iff}
use pacsni.Dissect.Dns.Label.{set-append}
use pacsni.Dissect.Http.{copy_line, match_methods}

abbrev is_end : ℕ → Bool
is_end b = b == b'\r' || b == b'\n'

-- The bytes before the first line end, at most `n`.
unfoldable pub first_line : ℕ → Bytes → Bytes
first_line zero q = []
first_line (suc n) [] = []
first_line (suc n) (b ∷ q) = let rest = first_line n q in if is_end b then [] else b ∷ rest

-- One of the words stands at the start of the payload, which is longer than it.
abbrev pub Starts : List Bytes → Bytes → ℕ → Type 0
Starts [] p l = ⊥
Starts (w ∷ ws) p l = ((length w < l) × (slice p 0 (length w) ≡ w)) ⊎ Starts ws p l

pub match_methods-Starts :
    (ws : List Bytes) (p : Bytes) (l : ℕ)
    → l ≤ length p
    → Starts ws p l
    → match_methods ws p l ≡ ret true
unfolding match_methods
match_methods-Starts [] p l h s = elim s [ ]
match_methods-Starts (w ∷ ws) p l h (inl (short, same)) =
    rw
      (
        lt→ltb (length w) l short,
        match_methods,
        memcmp-eq-ret p 0 w (omega arith),
        (agree_iff _ w).1 same,
      )
      refl
match_methods-Starts (w ∷ ws) p l h (inr later) = elim (Bool-cases (ltb (length w) l)) [
  | inl short ↦
      rw (short, match_methods, memcmp-eq-ret p 0 w (ground arith))
        (elim (Bool-cases (agree (slice p 0 (length w)) w)) [
          | inl same ↦ rw same refl
          | inr other ↦ rw other (match_methods-Starts ws p l h later)
        ])
  | inr long ↦ rw (long, match_methods) (match_methods-Starts ws p l h later)
]

pub first_line-le : (n : ℕ) (q : Bytes) → length (first_line n q) ≤ n
unfolding first_line
first_line-le zero q = omega arith
first_line-le (suc n) [] = omega arith
first_line-le (suc n) (b ∷ q) = elim (Bool-cases (is_end b)) [
  | inl end ↦ rw end (omega arith)
  | inr more ↦ rw more (omega (arith, first_line-le n q))
]

write_behind : (w d : Bytes) (x b : ℕ) → wr (w ++ (x ∷ d)) (length w) b ≡ ret ((w ++ (b ∷ [])) ++ d)
write_behind w d x b =
    wr-eq-ret (w ++ (x ∷ d)) (length w) b (omega (arith, length-append w (x ∷ d)))
    ∙ ap ret (set-append w d x b)

copy_line-round :
    (n : ℕ) (p : Bytes) (c : ℕ) (o : Bytes) {b : ℕ}
    → rd p c ≡ ret b
    → copy_line (suc n) p c o
      ≡ elim (is_end b) [ true ↦ wr o c 0 | false ↦ wr o c b >>= (λ o'. copy_line n p (c + 1) o') ]
unfolding copy_line
copy_line-round n p c o h = rw h refl

-- The line is written behind `w`, and NUL behind it.
pub copy_line_lem :
    (n : ℕ) (p pre q w d : Bytes)
    → p ≡ pre ++ q
    → length pre ≡ length w
    → n ≤ length q
    → n < length d
    → copy_line n p (length w) (w ++ d)
      ≡ ret ((w ++ first_line n q) ++ (0 ∷ drop (length (first_line n q) + 1) d))
unfolding copy_line first_line
copy_line_lem n p pre q w [] e s hq hd = absurd (omega arith)
copy_line_lem zero p pre q w (x ∷ d) e s hq hd =
    write_behind w d x 0
    ∙ ap ret (append_assoc w (0 ∷ []) d)
    ∙ ap (λ t. ret (t ++ (0 ∷ d))) (sym (append-nil w))
copy_line_lem (suc n) p pre [] w (x ∷ d) e s hq hd = absurd (omega arith)
copy_line_lem (suc n) p pre (b ∷ q) w (x ∷ d) e s hq hd =
    let read : rd p (length w) ≡ ret b =
      rw e (rd-behind pre (b ∷ q) (length w) 0 (omega arith) (omega arith)) in
    copy_line-round n p (length w) (w ++ (x ∷ d)) read ∙ (elim (Bool-cases (is_end b)) [
      | inl end ↦ rw end (
          write_behind w d x 0
          ∙ ap ret (append_assoc w (0 ∷ []) d)
          ∙ ap (λ t. ret (t ++ (0 ∷ d))) (sym (append-nil w)))
      | inr more ↦
          let line = first_line n q in
          let size : length w + 1 ≡ length (w ++ (b ∷ [])) =
            omega (arith, length-append w (b ∷ [])) in
          let next : suc (length line) + 1 ≡ suc (length line + 1) = omega arith in
          rw (more, write_behind w d x b, size, next)
            (copy_line_lem n p (pre ++ (b ∷ [])) q (w ++ (b ∷ [])) d
                (e ∙ sym (append_assoc pre (b ∷ []) q))
                (omega (arith, length-append pre (b ∷ []), length-append w (b ∷ []))) (omega arith)
                (omega arith)
              ∙ ap (λ t. ret (t ++ (0 ∷ drop (length line + 1) d))) (append_assoc w (b ∷ []) line))
    ])
