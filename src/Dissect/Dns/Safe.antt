-- ===== src/Dissect/Dns/Safe.antt =====
-- dissect_dns stays inside of the payload and of its buffer, ends, and ends its text by NUL.
use pacsni.Prelude.{
  ℕ, zero, suc, ◌+◌, ◌-◌, ◌≤◌, ◌<◌, ◌≡◌, ◌∙◌, inl, inr, refl, ◌&&◌, ◌||◌, Bool-cases, ltb, ◌==◌,
  if◌then◌else◌, arith, length, set, length-set, get_or-set_self, ℤ, pos_part, ltb_int, Ensures,
  Ensures-bind, Ensures-mono, Next, Keeps, iterate-Ensures,
}
use pacsni.Memory.{Bytes, byte}
use pacsni.Memory.Laws.{Named, rd-eq-ret, wr-eq-ret}
use pacsni.Dissect.Dns.{
  DnsState, copy_label, put_dot, dns_label, dns_round, dns_finish, dissect_dns, dot,
}

-- What the loops keep: the buffer's size, the room for the final NUL, and the buffer as it was
-- while nothing is written.
pub record IsDns (out : Bytes) (limit out_max : ℕ) (s : DnsState) : Type 0 where
  pub size : length s.out ≡ length out
  pub pos_in : s.pos ≤ limit
  pub out_in : s.out_pos ≤ out_max - 1
  pub untouched : s.out_pos ≡ 0 → s.out ≡ out

module _ (payload out : Bytes) (limit out_max : ℕ) (readable : 12 + limit ≤ length payload)
    (writable : out_max ≤ length out) where
  -- One byte more in the buffer.
  IsDns-append :
      {s : DnsState} (p b : ℕ)
      → p ≤ limit
      → s.out_pos < out_max - 1
      → IsDns out limit out_max s
      → IsDns out limit out_max
          (record { pos = p; out = set s.out s.out_pos b; out_pos = s.out_pos + 1 })
  IsDns-append {s} p b h room t = record {
    size = length-set s.out s.out_pos b ∙ t.size;
    pos_in = h;
    out_in = omega arith;
    untouched = λ e. absurd (omega arith);
  }

  abbrev Copied : DnsState → DnsState → Type 0
  Copied s s' = (s.pos ≤ s'.pos) × IsDns out limit out_max s'

  copy_label_lem :
      (n : ℕ) (s : DnsState)
      → IsDns out limit out_max s
      → Ensures (copy_label n payload limit out_max s) (Copied s)
  unfolding copy_label
  copy_label_lem zero s t = (omega arith, t)
  copy_label_lem (suc n) s t = elim (Bool-cases (ltb s.pos limit && ltb s.out_pos (out_max - 1))) [
    | inl go ↦
        let room : (s.pos < limit) × (s.out_pos < out_max - 1) = ground arith in
        rw
          (
            go,
            copy_label,
            rd-eq-ret payload (12 + s.pos) (omega arith),
            wr-eq-ret s.out s.out_pos (byte payload (12 + s.pos)) (omega (arith, t.size)),
          )
          (Ensures-mono _ (Copied s) _
            (copy_label_lem n _ (IsDns-append (s.pos + 1) _ (omega arith) room.1 t))
            (λ s' (further, ok). (omega arith, ok)))
    | inr stop ↦ rw (stop, copy_label) (omega arith, t)
  ]

  put_dot_lem : (s : DnsState) → IsDns out limit out_max s → Ensures (put_dot out_max s) (Copied s)
  unfolding put_dot
  put_dot_lem s t = elim (Bool-cases (ltb s.out_pos (out_max - 1))) [
    | inl go ↦
        rw (go, wr-eq-ret s.out s.out_pos dot (ground (arith, t.size)))
          (omega arith, IsDns-append s.pos _ t.pos_in (ground arith) t)
    | inr stop ↦ rw stop (omega arith, t)
  ]

  abbrev Round : ℕ → Next DnsState DnsState → Type 0
  Round n = Keeps (IsDns out limit out_max) (IsDns out limit out_max) (λ s. limit - s.pos) n

  dns_label_lem :
      (s : DnsState) (l : ℕ)
      → s.pos < limit
      → IsDns out limit out_max s
      → Ensures (dns_label payload limit out_max s l) (Round (limit - s.pos))
  unfolding dns_label
  dns_label_lem s l inside t = elim (Bool-cases (l == 0 || ltb 63 l)) [
    | inl stop ↦ rw stop t
    | inr more ↦
        let next : DnsState = record s { pos = s.pos + 1 } in
        rw more (
          Ensures-bind (Copied next) (Round (limit - s.pos)) _ _
            (copy_label_lem l next (record {
              size = t.size;
              pos_in = omega arith;
              out_in = t.out_in;
              untouched = t.untouched;
            }))
            (λ s₁ (p₁, t₁).
              Ensures-bind (Copied s₁) (Round (limit - s.pos)) _ _ (put_dot_lem s₁ t₁)
                (λ s₂ (p₂, t₂). (t₂, omega (arith, t₂.pos_in)))))
  ]

  dns_round_lem :
      (s : DnsState)
      → IsDns out limit out_max s
      → Ensures (dns_round payload limit out_max s) (Round (limit - s.pos))
  unfolding dns_round
  dns_round_lem s t = elim (Bool-cases (ltb s.pos limit && ltb s.out_pos (out_max - 1))) [
    | inl go ↦
        let inside : s.pos < limit = ground arith in
        rw (go, rd-eq-ret payload (12 + s.pos) (omega arith)) (dns_label_lem s _ inside t)
    | inr stop ↦ rw stop t
  ]

  dns_finish_lem :
      (s : DnsState) → IsDns out limit out_max s → Ensures (dns_finish s) (Named out out_max)
  unfolding dns_finish
  dns_finish_lem s t = elim (Bool-cases (s.out_pos == 0)) [
    | inl none ↦ rw none (t.size, inl (t.untouched (ground arith)))
    | inr some ↦
        let last = byte s.out (s.out_pos - 1) in
        let at = s.out_pos - (if last == dot then 1 else 0) in
        let inside : at < out_max = ground (arith, t.out_in) in
        rw
          (
            some,
            rd-eq-ret s.out (s.out_pos - 1) (ground (arith, t.size, t.out_in)),
            wr-eq-ret s.out at 0 (omega (arith, t.size)),
          )
          (
            length-set s.out at 0 ∙ t.size,
            inr (at, inside, get_or-set_self s.out at 0 0 (omega (arith, t.size))),
          )
  ]

-- With a payload of at least `len` bytes and a buffer of `out_max`, dissect_dns reads and writes
-- inside of the two, ends, and leaves the buffer as it was or with a NUL among its first `out_max`
-- bytes.
pub dissect_dns-Ensures :
    (payload : Bytes) (len : ℤ) (out : Bytes) (out_max : ℕ)
    → pos_part len ≤ length payload
    → out_max ≤ length out
    → Ensures (dissect_dns payload len out out_max) (Named out out_max)
unfolding dissect_dns
dissect_dns-Ensures payload len out out_max readable writable = elim (Bool-cases (ltb_int len 12)) [
  | inl short ↦ rw short (refl, inl refl)
  | inr long ↦
      let enough : 12 ≤ pos_part len = ground arith in
      let limit = pos_part len - 12 in
      let inside : 12 + limit ≤ length payload = omega arith in
      rw long (
        Ensures-bind (IsDns out limit out_max) _ _ _
          (iterate-Ensures (IsDns out limit out_max) (IsDns out limit out_max) (λ s. limit - s.pos)
            (dns_round payload limit out_max)
            (dns_round_lem payload out limit out_max inside writable) (pos_part len) _ (omega arith)
            (record {
              size = refl;
              pos_in = omega arith;
              out_in = omega arith;
              untouched = λ _. refl;
            }))
          (λ s t. dns_finish_lem payload out limit out_max inside writable s t))
]
