-- ===== src/Dissect/Dns/Names.antt =====
-- dissect_dns on an encoded domain name: the text that it writes.
use pacsni.Prelude.{
  ℕ, zero, suc, ◌-◌, ◌+◌, ◌≤◌, ◌<◌, ◌≡◌, ◌∙◌, refl, sym, ap, ap₂, false, Bool-cases, inl, inr, List,
  [], ◌∷◌, ◌++◌, append-nil, append_assoc, ltb, ◌==◌, lt→ltb, le→ltb, arith, length, length-append,
  length-drop, drop, set, pos, ret, Ensures, Ensures-ret, Ensures-bind, Ensures-mono, done, iterate,
}
use pacsni.Memory.{Bytes, rd}
use pacsni.Memory.Laws.{rd-behind, wr-eq-ret}
use pacsni.Dissect.Dns.{DnsState, dot, dns_label, dns_round, dns_finish, dissect_dns}
use pacsni.Dissect.Dns.Label.{
  encoded, dotted, AllLabels, Place, set-append, drop-drop, dns_round-Place,
}

-- The round at the end of the name.
end_round :
    (p pre w d : Bytes) (limit m : ℕ) (s : DnsState)
    → p ≡ pre ++ (0 ∷ [])
    → Place pre w d s
    → 12 + limit ≡ length p
    → dns_round p limit m s ≡ ret (done s)
unfolding dns_round dns_label
end_round p pre w d limit m s e (hp, ho, hn) i =
    let size : length p ≡ length pre + 1 = ap length e ∙ length-append pre (0 ∷ []) in
    let read : rd p (12 + s.pos) ≡ ret 0 =
      rw e (rd-behind pre (0 ∷ []) (12 + s.pos) 0 (omega arith) (omega arith)) in
    rw (lt→ltb s.pos limit (omega arith)) (elim (Bool-cases (ltb s.out_pos (m - 1))) [
      | inl room ↦ rw (room, read) refl
      | inr full ↦ rw full refl
    ])

-- The name is written behind `w`.
abbrev Written : Bytes → List Bytes → Bytes → DnsState → Type 0
Written w ls d r =
    (r.out ≡ (w ++ dotted ls) ++ drop (length (dotted ls)) d)
    × (r.out_pos ≡ length (w ++ dotted ls))

names_loop :
    (ls : List Bytes) (f : ℕ) (p pre w d : Bytes) (limit m : ℕ) (s : DnsState)
    → AllLabels ls
    → p ≡ pre ++ encoded ls
    → Place pre w d s
    → 12 + limit ≡ length p
    → length w + length (dotted ls) < m
    → length (dotted ls) ≤ length d
    → length (encoded ls) ≤ f
    → Ensures (iterate f (dns_round p limit m) s) (Written w ls d)
unfolding iterate
names_loop [] zero p pre w d limit m s all e h i j k fuel = absurd (omega (arith, fuel))
names_loop (l ∷ ls) zero p pre w d limit m s all e h i j k fuel = absurd (omega (arith, fuel))
names_loop [] (suc f) p pre w d limit m s all e h i j k fuel =
    rw (end_round p pre w d limit m s e h i, append-nil w) (h.1, h.2)
names_loop (l ∷ ls) (suc f) p pre w d limit m s (some, small, all) e h i j k fuel =
    let size : length p ≡ length pre + (1 + (length l + length (encoded ls))) =
      ap length e
      ∙ omega (arith, length-append pre (encoded (l ∷ ls)), length-append l (encoded ls)) in
    let n = length-append l (dot ∷ dotted ls) in
    let n' = length-append l (encoded ls) in
    let n'' = length-append l (dot ∷ []) in
    let pieces : (w ++ (l ++ (dot ∷ []))) ++ dotted ls ≡ w ++ (l ++ (dot ∷ dotted ls)) =
      append_assoc w (l ++ (dot ∷ [])) (dotted ls)
      ∙ ap (λ t. w ++ t) (append_assoc l (dot ∷ []) (dotted ls)) in
    let left : drop (length (dotted ls)) (drop (length l + 1) d)
        ≡ drop (length (dotted (l ∷ ls))) d =
      drop-drop (length (dotted ls)) (length l + 1) d ∙ ap (λ x. drop x d) (omega arith) in
    Ensures-bind _ _ (dns_round p limit m s) _
      (dns_round-Place l p pre (encoded ls) w d limit m s e h some small (omega (arith, h.0))
        (omega arith) (omega arith))
      (λ next (r, go, place). rw go (
        Ensures-mono (Written (w ++ (l ++ (dot ∷ []))) ls (drop (length l + 1) d))
          (Written w (l ∷ ls) d) _
          (names_loop ls f p (pre ++ (length l ∷ l)) (w ++ (l ++ (dot ∷ [])))
            (drop (length l + 1) d) limit m r all
            (e ∙ sym (append_assoc pre (length l ∷ l) (encoded ls))) place i
            (omega (arith, length-append w (l ++ (dot ∷ []))))
            (omega (arith, length-drop (length l + 1) d)) (omega arith))
          (λ q (qo, qn). (qo ∙ ap₂ (λ a x. a ++ x) pieces left, qn ∙ ap length pieces))))

-- The name as it is shown: the labels with a dot between two.
abbrev pub shown : Bytes → List Bytes → Bytes
shown l [] = l
shown l (k ∷ ks) = l ++ (dot ∷ shown k ks)

dotted-shown : (l : Bytes) (ls : List Bytes) → dotted (l ∷ ls) ≡ shown l ls ++ (dot ∷ [])
dotted-shown l [] = refl
dotted-shown l (k ∷ ks) =
    ap (λ t. l ++ (dot ∷ t)) (dotted-shown k ks)
    ∙ sym (append_assoc l (dot ∷ shown k ks) (dot ∷ []))

dns_finish-dot :
    (t d : Bytes) (s : DnsState)
    → s.out ≡ t ++ (dot ∷ d)
    → s.out_pos ≡ length t + 1
    → dns_finish s ≡ ret (t ++ (0 ∷ d))
unfolding dns_finish
dns_finish-dot t d s ho hn =
    let z : (s.out_pos == 0) ≡ false = ground arith in
    let at : s.out_pos - 1 ≡ length t = omega arith in
    let inside : length t < length (t ++ (dot ∷ d)) = omega (arith, length-append t (dot ∷ d)) in
    rw
      (
        z,
        at,
        ho,
        rd-behind t (dot ∷ d) (length t) 0 (omega arith) (omega arith),
        wr-eq-ret (t ++ (dot ∷ d)) (s.out_pos - 1) 0 (omega arith),
      )
      (ap ret
        (ap (λ k. set (t ++ (dot ∷ d)) k 0) at ∙ set-append t d dot 0 ∙ append_assoc t (0 ∷ []) d))

-- Of a header of 12 bytes and an encoded name of one or more labels of 1 to 63 bytes each, with no
-- compression, dissect_dns writes the labels with a dot between two and a NUL behind them, and
-- leaves the rest of the buffer alone, where the buffer has room for the labels with a dot behind
-- each, and one byte more.
pub dissect_dns-shown :
    (l : Bytes) (ls : List Bytes) (hdr d : Bytes) (m : ℕ)
    → length hdr ≡ 12
    → AllLabels (l ∷ ls)
    → length (shown l ls) + 1 < m
    → m ≤ length d
    → dissect_dns (hdr ++ encoded (l ∷ ls)) (pos (12 + length (encoded (l ∷ ls)))) d m
      ≡ ret (shown l ls ++ (0 ∷ drop (length (shown l ls) + 1) d))
unfolding dissect_dns
dissect_dns-shown l ls hdr d m size all room fits =
    let total = length (encoded (l ∷ ls)) in
    let minus : 12 + total - 12 ≡ total = omega arith in
    let e = dotted-shown l ls in
    let n : length (dotted (l ∷ ls)) ≡ length (shown l ls) + 1 =
      ap length e ∙ length-append (shown l ls) (dot ∷ []) in
    let out : (shown l ls ++ (dot ∷ [])) ++ drop (length (shown l ls) + 1) d
        ≡ shown l ls ++ (dot ∷ drop (length (shown l ls) + 1) d) =
      append_assoc (shown l ls) (dot ∷ []) _ in
    rw (le→ltb (12 + total) 12 (omega arith), minus)
      (Ensures-ret {b = shown l ls ++ (0 ∷ drop (length (shown l ls) + 1) d)} _ (
        Ensures-bind (Written [] (l ∷ ls) d)
          (λ a. a ≡ shown l ls ++ (0 ∷ drop (length (shown l ls) + 1) d)) _ dns_finish
          (names_loop (l ∷ ls) (12 + total) (hdr ++ encoded (l ∷ ls)) hdr [] d total m
            (record { pos = 0; out = d; out_pos = 0 }) all refl (omega arith, refl, refl)
            (omega (arith, length-append hdr (encoded (l ∷ ls)))) (omega arith) (omega arith)
            (omega arith))
          (λ r (ho, hn).
            rw
              (dns_finish-dot (shown l ls) (drop (length (shown l ls) + 1) d) r
                (ho ∙ ap₂ (λ a k. a ++ drop k d) e n ∙ out) (hn ∙ n))
              refl)))
