-- ===== src/Dissect/Dhcp/Safe.antt =====
-- dissect_dhcp stays inside of the payload and of its buffer, and ends.
use pacsni.Prelude.{
  ℕ, ◌+◌, ◌-◌, ◌≤◌, ◌<◌, inl, inr, refl, ◌&&◌, Bool-cases, ltb, leb, ◌==◌, arith, [], ◌∷◌, length,
  ℤ, pos_part, ltb_int, Ensures, Ensures-bind, Ensures-mono, Next, Keeps, iterate-Ensures,
}
use pacsni.Memory.{Bytes, byte}
use pacsni.Memory.Laws.{Named, Ended, rd-eq-ret, snprintf-Ensures}
use pacsni.Dissect.Dhcp.{
  print_type, dhcp_option, dhcp_code, dhcp_round, has_cookie, cookie, dissect_dhcp,
}

module _ (p o : Bytes) (n m : ℕ) (readable : 240 + n ≤ length p) (room : 0 < m)
    (writable : m ≤ length o) where
  print_type_lem : (t : ℕ) → Ensures (print_type t o m) (Named o m)
  unfolding print_type
  print_type_lem t = elim (Bool-cases (ltb 0 t && ltb t 9)) [
    | inl known ↦ rw known (
        Ensures-mono (Ended o m) (Named o m) _ (snprintf-Ensures o m _ room writable)
          (λ r (size, end). (size, inr end)))
    | inr unknown ↦ rw unknown (refl, inl refl)
  ]

  abbrev Round : ℕ → Next ℕ Bytes → Type 0
  Round k = Keeps (λ _. Unit {0}) (Named o m) (λ i. n - i) k

  dhcp_option_lem :
      (i c len : ℕ) → i + 1 < n → Ensures (dhcp_option p n o m c (i + 1 + 1) len) (Round (n - i))
  unfolding dhcp_option
  dhcp_option_lem i c len h = elim (Bool-cases (ltb n (i + 1 + 1 + len))) [
    | inl cut ↦ rw cut (refl, inl refl)
    | inr whole ↦ rw whole (elim (Bool-cases (c == 53 && len == 1)) [
      | inl type ↦
          rw (type, rd-eq-ret p (240 + (i + 1 + 1)) (ground arith))
            (Ensures-bind (Named o m) (Round (n - i)) _ _ (print_type_lem _) (λ r named. named))
      | inr other ↦ rw other (tt, omega arith)
    ])
  ]

  dhcp_code_lem : (i c : ℕ) → i < n → Ensures (dhcp_code p n o m (i + 1) c) (Round (n - i))
  unfolding dhcp_code
  dhcp_code_lem i c h = elim (Bool-cases (c == 255)) [
    | inl end ↦ rw end (refl, inl refl)
    | inr more ↦ rw more (elim (Bool-cases (c == 0)) [
      | inl pad ↦ rw pad (tt, omega arith)
      | inr sized ↦ rw sized (elim (Bool-cases (leb n (i + 1))) [
        | inl cut ↦ rw cut (refl, inl refl)
        | inr whole ↦
            rw (whole, rd-eq-ret p (240 + (i + 1)) (ground arith))
              (dhcp_option_lem i c _ (ground arith))
      ])
    ])
  ]

  dhcp_round_lem : (i : ℕ) → Unit {0} → Ensures (dhcp_round p n o m i) (Round (n - i))
  unfolding dhcp_round
  dhcp_round_lem i _ = elim (Bool-cases (ltb i n)) [
    | inl go ↦ rw (go, rd-eq-ret p (240 + i) (ground arith)) (dhcp_code_lem i _ (ground arith))
    | inr stop ↦ rw stop (refl, inl refl)
  ]

has_cookie_lem :
    (cs : Bytes) (i : ℕ) (p : Bytes)
    → i + length cs ≤ length p
    → Ensures (has_cookie cs i p) (λ _. Unit {0})
unfolding has_cookie
has_cookie_lem [] i p h = tt
has_cookie_lem (c ∷ cs) i p h = elim (Bool-cases (byte p i == c)) [
  | inl same ↦ rw (rd-eq-ret p i (omega arith), same) (has_cookie_lem cs (i + 1) p (omega arith))
  | inr other ↦ rw (rd-eq-ret p i (omega arith), other) tt
]

-- With a payload of at least `l` bytes and a buffer of `m`, one or more, dissect_dhcp reads and
-- writes inside of the two, ends, and leaves the buffer as it was or with a NUL among its first
-- `m` bytes.
pub dissect_dhcp-Ensures :
    (p : Bytes) (l : ℤ) (o : Bytes) (m : ℕ)
    → pos_part l ≤ length p
    → 0 < m
    → m ≤ length o
    → Ensures (dissect_dhcp p l o m) (Named o m)
unfolding dissect_dhcp
dissect_dhcp-Ensures p l o m readable room writable = elim (Bool-cases (ltb_int l 240)) [
  | inl short ↦ rw short (refl, inl refl)
  | inr long ↦
      let enough : 240 ≤ pos_part l = ground arith in
      rw long (
        Ensures-bind (λ _. Unit {0}) (Named o m) _ _ (has_cookie_lem cookie 236 p (omega arith))
          (λ good _. elim (Bool-cases good) [
            | inl yes' ↦ rw yes' (
                iterate-Ensures (λ _. Unit {0}) (Named o m) (λ i. pos_part l - 240 - i) _
                  (dhcp_round_lem p o (pos_part l - 240) m (omega arith) room writable) (pos_part l)
                  0 (omega arith) tt)
            | inr no' ↦ rw no' (refl, inl refl)
          ]))
]
