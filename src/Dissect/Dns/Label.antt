-- ===== src/Dissect/Dns/Label.antt =====
-- A round of dissect_dns at a label of an encoded name.
use pacsni.Prelude.{
  ℕ, zero, suc, ◌-◌, ◌+◌, ◌≤◌, ◌<◌, ◌≡◌, ◌∙◌, refl, sym, ap, true, false, List, [], ◌∷◌, ◌++◌,
  append-nil, append_assoc, ◌&&◌, ◌||◌, ltb, ◌==◌, lt→ltb, arith, length, length-append,
  length-drop, drop, set, ret, Ensures, Ensures-bind, Ensures-mono, again,
}
use pacsni.Memory.{Bytes, rd, wr}
use pacsni.Memory.Laws.{rd-behind, wr-eq-ret}
use pacsni.Dissect.Dns.{DnsState, dot, copy_label, put_dot, dns_label, dns_round}

-- A name as RFC 1035 encodes it, and as it is written with a dot behind each label.
abbrev pub encoded : List Bytes → Bytes
encoded [] = 0 ∷ []
encoded (l ∷ ls) = length l ∷ (l ++ encoded ls)

abbrev pub dotted : List Bytes → Bytes
dotted [] = []
dotted (l ∷ ls) = l ++ (dot ∷ dotted ls)

-- Each label has 1 to 63 bytes.
abbrev pub AllLabels : List Bytes → Type 0
AllLabels [] = Unit
AllLabels (l ∷ ls) = (1 ≤ length l) × (length l ≤ 63) × AllLabels ls

-- The bytes `pre` are read, the bytes `w` are written, and `d` is the rest of the buffer.
abbrev pub Place : Bytes → Bytes → Bytes → DnsState → Type 0
Place pre w d s = (12 + s.pos ≡ length pre) × (s.out ≡ w ++ d) × (s.out_pos ≡ length w)

pub set-append : (w d : Bytes) (x b : ℕ) → set (w ++ (x ∷ d)) (length w) b ≡ (w ++ (b ∷ [])) ++ d
set-append [] d x b = refl
set-append (y ∷ w) d x b = ap (λ t. y ∷ t) (set-append w d x b)

-- One byte more behind `w`.
wr-append :
    (w d : Bytes) (b : ℕ) (s : DnsState)
    → s.out ≡ w ++ d
    → s.out_pos ≡ length w
    → 0 < length d
    → wr s.out s.out_pos b ≡ ret ((w ++ (b ∷ [])) ++ drop 1 d)
wr-append w [] b s o n room = absurd (omega (arith, room))
wr-append w (x ∷ d) b s o n room =
    rw (o, n, wr-eq-ret (w ++ (x ∷ d)) (length w) b (omega (arith, length-append w (x ∷ d))))
      (ap ret (set-append w d x b))

copy_label-Place :
    (l p pre suf w d : Bytes) (limit m : ℕ) (s : DnsState)
    → p ≡ pre ++ (l ++ suf)
    → Place pre w d s
    → s.pos + length l ≤ limit
    → length w + length l ≤ m - 1
    → length l ≤ length d
    → Ensures (copy_label (length l) p limit m s) (Place (pre ++ l) (w ++ l) (drop (length l) d))
unfolding copy_label
copy_label-Place [] p pre suf w d limit m s e h i j k = rw (append-nil pre, append-nil w) h
copy_label-Place (b ∷ l) p pre suf w [] limit m s e h i j k = absurd (omega (arith, k))
copy_label-Place (b ∷ l) p pre suf w (x ∷ d) limit m s e (hp, ho, hn) i j k =
    let read : rd p (12 + s.pos) ≡ ret b =
      rw e (rd-behind pre (b ∷ (l ++ suf)) (12 + s.pos) 0 (omega arith) (omega arith)) in
    let write : wr s.out s.out_pos b ≡ ret ((w ++ (b ∷ [])) ++ d) =
      wr-append w (x ∷ d) b s ho hn (omega arith) in
    let next : DnsState = record {
      pos = s.pos + 1;
      out = (w ++ (b ∷ [])) ++ d;
      out_pos = s.out_pos + 1;
    } in
    let regroup : p ≡ (pre ++ (b ∷ [])) ++ (l ++ suf) =
      e ∙ sym (append_assoc pre (b ∷ []) (l ++ suf)) in
    let go : (ltb s.pos limit && ltb s.out_pos (m - 1)) ≡ true =
      rw (lt→ltb s.pos limit (omega arith), lt→ltb s.out_pos (m - 1) (omega arith)) refl in
    rw (go, copy_label, read, write)
      (Ensures-mono (Place ((pre ++ (b ∷ [])) ++ l) ((w ++ (b ∷ [])) ++ l) (drop (length l) d)) _ _
        (copy_label-Place l p (pre ++ (b ∷ [])) suf (w ++ (b ∷ [])) d limit m next regroup
          (omega (arith, length-append pre (b ∷ [])), refl, omega (arith, length-append w (b ∷ [])))
          (omega arith) (omega (arith, length-append w (b ∷ []))) (omega arith))
        (λ r h. rw (append_assoc pre (b ∷ []) l, append_assoc w (b ∷ []) l) at h))

drop-nil : (n : ℕ) → drop {A = ℕ} n [] ≡ []
drop-nil zero = refl
drop-nil (suc n) = refl

pub drop-drop : (a n : ℕ) (d : Bytes) → drop a (drop n d) ≡ drop (n + a) d
drop-drop a zero d = ap (λ k. drop k d) (omega arith)
drop-drop a (suc n) [] = drop-nil a ∙ sym (drop-nil (suc n + a))
drop-drop a (suc n) (x ∷ d) =
    let e : suc n + a ≡ suc (n + a) = omega arith in rw e (drop-drop a n d)

-- One round, at a label.
pub dns_round-Place :
    (l p pre suf w d : Bytes) (limit m : ℕ) (s : DnsState)
    → p ≡ pre ++ (length l ∷ (l ++ suf))
    → Place pre w d s
    → 1 ≤ length l
    → length l ≤ 63
    → s.pos + 1 + length l ≤ limit
    → length w + length l < m - 1
    → length l < length d
    → Ensures (dns_round p limit m s) (λ n.
      (r : DnsState) × (n ≡ again r)
      × Place (pre ++ (length l ∷ l)) (w ++ (l ++ (dot ∷ []))) (drop (length l + 1) d) r)
unfolding dns_round dns_label put_dot
dns_round-Place l p pre suf w d limit m s e (hp, ho, hn) some small i j k =
    let read : rd p (12 + s.pos) ≡ ret (length l) =
      rw e (rd-behind pre (length l ∷ (l ++ suf)) (12 + s.pos) 0 (omega arith) (omega arith)) in
    let good : ((length l == 0) || ltb 63 (length l)) ≡ false = ground arith in
    let regroup : p ≡ (pre ++ (length l ∷ [])) ++ (l ++ suf) =
      e ∙ sym (append_assoc pre (length l ∷ []) (l ++ suf)) in
    rw (lt→ltb s.pos limit (omega arith), lt→ltb s.out_pos (m - 1) (omega arith), read, good)
      (Ensures-bind (Place ((pre ++ (length l ∷ [])) ++ l) (w ++ l) (drop (length l) d)) _ _ _
        (copy_label-Place l p (pre ++ (length l ∷ [])) suf w d limit m
          (record s { pos = s.pos + 1 }) regroup
          (omega (arith, length-append pre (length l ∷ [])), ho, hn) (omega arith) (omega arith)
          (omega arith))
        (λ r (rp, ro, rn).
          let write =
            wr-append (w ++ l) (drop (length l) d) dot r ro rn
              (omega (arith, length-drop (length l) d)) in
          rw (lt→ltb r.out_pos (m - 1) (omega (arith, length-append w l)), write)
            (
              _,
              refl,
              (
                omega (
                  arith,
                  length-append pre (length l ∷ l),
                  length-append (pre ++ (length l ∷ [])) l,
                  length-append pre (length l ∷ []),
                ),
                rw (append_assoc w l (dot ∷ []), drop-drop 1 (length l) d) refl,
                omega (
                  arith,
                  length-append w (l ++ (dot ∷ [])),
                  length-append w l,
                  length-append l (dot ∷ []),
                ),
              ),
            )))
