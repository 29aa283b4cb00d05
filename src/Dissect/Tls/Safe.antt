-- ===== src/Dissect/Tls/Safe.antt =====
-- dissect_tls_sni stays inside of the payload and of its buffer at every length but 43, where it
-- reads one byte too many.
use pacsni.Prelude.{
  ℕ, ◌+◌, ◌-◌, ◌≤◌, ◌<◌, ◌≡◌, ◌≢◌, ◌∙◌, inl, inr, refl, ◌&&◌, Bool-cases, min, leb, ==_iff, ◌==◌,
  arith, length, length-set, get_or-set_self, ℤ, pos, pos_part, ltb_int, fault, Ensures,
  Ensures-bind, Next, Keeps, iterate-Ensures,
}
use pacsni.Memory.{Bytes, byte, slice, splice}
use pacsni.Memory.Laws.{
  Named, word16, rd-eq-ret, rd-eq-fault, be16-eq-ret, wr-eq-ret, memcpy-eq-ret, length-memcpy,
}
use pacsni.Dissect.Tls.{copy_name, sni_name, sni_round, sni_body, dissect_tls_sni}

module _ (payload out : Bytes) (len out_max : ℕ) (readable : len ≤ length payload)
    (room : 0 < out_max) (writable : out_max ≤ length out) where
  copy_name_lem :
      (at name_len : ℕ)
      → at + name_len ≤ len
      → Ensures (copy_name payload at name_len out out_max) (Named out out_max)
  unfolding copy_name
  copy_name_lem at name_len inside =
      let n = min name_len (out_max - 1) in
      let copied = splice out 0 (slice payload at n) in
      let read : at + n ≤ length payload = omega arith in
      let write : 0 + n ≤ length out = omega arith in
      let size : length copied ≡ length out = length-memcpy out 0 payload at n read write in
      let end : n < length copied = omega arith in
      rw (memcpy-eq-ret out 0 payload at n read write, wr-eq-ret copied n 0 end)
        (length-set copied n 0 ∙ size, inr (n, omega arith, get_or-set_self copied n 0 0 end))

  module _ (ext_end : ℕ) (within : ext_end ≤ len) where
    abbrev Round : ℕ → Next ℕ Bytes → Type 0
    Round m = Keeps (λ _. Unit {0}) (Named out out_max) (λ p. ext_end - p) m

    sni_name_lem :
        (p ext_len name_len : ℕ)
        → p + 4 ≤ ext_end
        → Ensures
            (sni_name payload ext_end ext_len out out_max (p + 4) name_len)
            (Round (ext_end - p))
    unfolding sni_name
    sni_name_lem p ext_len name_len h = elim (Bool-cases (leb (p + 4 + 5 + name_len) ext_end)) [
      | inl fits ↦ rw fits (
          Ensures-bind (Named out out_max) (Round (ext_end - p)) _ _
            (copy_name_lem (p + 4 + 5) name_len (ground arith)) (λ r named. named))
      | inr long ↦ rw long (tt, omega arith)
    ]

    sni_round_lem :
        (p : ℕ) → Unit {0} → Ensures (sni_round payload ext_end out out_max p) (Round (ext_end - p))
    unfolding sni_round
    sni_round_lem p _ = elim (Bool-cases (leb (p + 4) ext_end)) [
      | inl go ↦
          let h : p + 4 ≤ ext_end = ground arith in
          rw (go, be16-eq-ret payload p (omega arith), be16-eq-ret payload (p + 2) (omega arith))
            (elim (Bool-cases (word16 payload p == 0 && leb (p + 4 + 5) ext_end)) [
              | inl name ↦
                  rw (name, be16-eq-ret payload (p + 4 + 3) (ground arith)) (sni_name_lem p _ _ h)
              | inr other ↦ rw other (tt, omega arith)
            ])
      | inr stop ↦ rw stop (refl, inl refl)
    ]

  -- From the session id on.
  sni_body_lem : 43 < len → Ensures (sni_body payload len out out_max) (Named out out_max)
  unfolding sni_body
  sni_body_lem long =
      let p₁ = 43 + (1 + byte payload 43) in
      let p₂ = p₁ + (2 + word16 payload p₁) in
      let p₃ = p₂ + (1 + byte payload p₂) in
      rw (rd-eq-ret payload 43 (omega arith)) (elim (Bool-cases (leb len (p₁ + 2))) [
        | inl cut ↦ rw cut (refl, inl refl)
        | inr more₁ ↦
            rw (more₁, be16-eq-ret payload p₁ (ground arith))
              (elim (Bool-cases (leb len (p₂ + 1))) [
                | inl cut ↦ rw cut (refl, inl refl)
                | inr more₂ ↦
                    rw (more₂, rd-eq-ret payload p₂ (ground arith))
                      (elim (Bool-cases (leb len (p₃ + 2))) [
                        | inl cut ↦ rw cut (refl, inl refl)
                        | inr more₃ ↦
                            rw (more₃, be16-eq-ret payload p₃ (ground arith))
                              (iterate-Ensures (λ _. Unit {0}) (Named out out_max)
                                (λ p. min (p₃ + 2 + word16 payload p₃) len - p)
                                (sni_round payload (min (p₃ + 2 + word16 payload p₃) len) out
                                  out_max)
                                (sni_round_lem (min (p₃ + 2 + word16 payload p₃) len) (omega arith))
                                (len + 1) (p₃ + 2) (omega arith) tt)
                      ])
              ])
      ])

-- With a payload of at least `len` bytes, a buffer of `out_max`, one or more, and a length other
-- than 43, dissect_tls_sni reads and writes inside of the two, ends, and leaves the buffer as it
-- was or with a NUL among its first `out_max` bytes.
pub dissect_tls_sni-Ensures :
    (payload : Bytes) (len : ℤ) (out : Bytes) (out_max : ℕ)
    → pos_part len ≤ length payload
    → pos_part len ≢ 43
    → 0 < out_max
    → out_max ≤ length out
    → Ensures (dissect_tls_sni payload len out out_max) (Named out out_max)
unfolding dissect_tls_sni
dissect_tls_sni-Ensures payload len out out_max readable ne room writable =
    elim (Bool-cases (ltb_int len 43)) [
      | inl short ↦ rw short (refl, inl refl)
      | inr long ↦
          let more : 43 < pos_part len = ground arith in
          rw (long, rd-eq-ret payload 0 (omega arith))
            (elim (Bool-cases (byte payload 0 == 0x16)) [
              | inr other ↦ rw other (refl, inl refl)
              | inl handshake ↦
                  rw (handshake, rd-eq-ret payload 5 (omega arith))
                    (elim (Bool-cases (byte payload 5 == 0x01)) [
                      | inr other ↦ rw other (refl, inl refl)
                      | inl hello ↦ rw hello (
                          sni_body_lem payload out (pos_part len) out_max readable room writable
                            more)
                    ])
            ])
    ]

-- A payload of just 43 bytes that begins as a ClientHello does passes the test of its length, and
-- the read of the session id's length is outside of it.
pub dissect_tls_sni-fault :
    (payload out : Bytes) (out_max : ℕ)
    → length payload ≡ 43
    → byte payload 0 ≡ 0x16
    → byte payload 5 ≡ 0x01
    → dissect_tls_sni payload (pos 43) out out_max ≡ fault
unfolding dissect_tls_sni sni_body
dissect_tls_sni-fault payload out out_max size handshake hello = rw (
  rd-eq-ret payload 0 (omega arith),
  (==_iff (byte payload 0) 0x16).1 handshake,
  rd-eq-ret payload 5 (omega arith),
  (==_iff (byte payload 5) 0x01).1 hello,
  rd-eq-fault payload 43 (omega arith),
)
