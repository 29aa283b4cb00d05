-- ===== src/Capture/Ranges/Names.antt =====
-- The sizes of the texts of dissect_dns, dissect_dhcp and dissect_tls_sni.
use pacsni.Prelude.{
  ℕ, zero, suc, ◌+◌, ◌-◌, ◌∙◌, refl, not, ◌&&◌, ◌||◌, ltb, leb, ◌==◌, ℤ, pos_part, ltb_int, Exec,
  ret, ◌>>=◌, Gives, Gives-bind, Gives-then, Gives-mono, Next, done, Goes, iterate, iterate-Gives,
  min,
}
use pacsni.Memory.{Bytes, rd, wr, be16, memcpy}
use pacsni.Dissect.Dns.{
  DnsState, dot, copy_label, put_dot, dns_label, dns_round, dns_finish, dissect_dns,
}
use pacsni.Dissect.Dhcp.{
  print_type, dhcp_option, dhcp_code, dhcp_round, has_cookie, cookie, dissect_dhcp,
}
use pacsni.Dissect.Tls.{copy_name, sni_name, sni_round, sni_body, dissect_tls_sni}
use pacsni.Capture.Ranges.Accesses.{
  SameSize, snprintf-SameSize, memcpy-SameSize, wr-SameSize, either, split,
}
use pacsni.Capture.Ranges.Texts.{Sized, skip, both}

module _ (o : Bytes) where
  abbrev Out : DnsState → Type 0
  Out s = SameSize o s.out

  -- A write into the array of the state.
  out-then :
      {A : Type 0} (P : A → Type 0) (s : DnsState) (i v : ℕ) (f : Bytes → Exec A)
      → Out s
      → ((r : Bytes) → SameSize o r → Gives (f r) P)
      → Gives (wr s.out i v >>= f) P
  out-then P s i v f h k =
      Gives-then (SameSize s.out) P (wr s.out i v) f (wr-SameSize s.out i v) (λ r t. k r (t ∙ h))

  copy_label-Gives :
      (n : ℕ) (payload : Bytes) (limit m : ℕ) (s : DnsState)
      → Out s
      → Gives (copy_label n payload limit m s) Out
  unfolding copy_label
  copy_label-Gives zero payload limit m s h = h
  copy_label-Gives (suc n) payload limit m s h =
      split Out (ltb s.pos limit && ltb s.out_pos (m - 1)) _ _
        (Gives-bind Out (rd payload (12 + s.pos)) _
          (λ b _. out-then Out s s.out_pos b _ h (λ r t. copy_label-Gives n payload limit m _ t)))
        h

  put_dot-Gives : (m : ℕ) (s : DnsState) → Out s → Gives (put_dot m s) Out
  unfolding put_dot
  put_dot-Gives m s h =
      either Out (ltb s.out_pos (m - 1)) _ _ (out-then Out s s.out_pos dot _ h (λ r t. t)) h

  dns_label-Goes :
      (payload : Bytes) (limit m : ℕ) (s : DnsState) (l : ℕ)
      → Out s
      → Gives (dns_label payload limit m s l) (Goes Out Out)
  unfolding dns_label
  dns_label-Goes payload limit m s l h = either (Goes Out Out) (l == 0 || ltb 63 l) _ _ h (
      Gives-then Out (Goes Out Out) _ _ (copy_label-Gives l payload limit m _ h)
        (λ c hc. Gives-then Out (Goes Out Out) _ _ (put_dot-Gives m c hc) (λ d hd. hd)))

  dns_round-Goes :
      (payload : Bytes) (limit m : ℕ) (s : DnsState)
      → Out s
      → Gives (dns_round payload limit m s) (Goes Out Out)
  unfolding dns_round
  dns_round-Goes payload limit m s h =
      either (Goes Out Out) (ltb s.pos limit && ltb s.out_pos (m - 1)) _ _
        (Gives-bind (Goes Out Out) (rd payload (12 + s.pos)) _
          (λ l _. dns_label-Goes payload limit m s l h))
        h

  dns_finish-SameSize : (s : DnsState) → Out s → Sized o (dns_finish s)
  unfolding dns_finish
  dns_finish-SameSize s h = either (SameSize o) (s.out_pos == 0) _ _ h (
      skip o (rd s.out (s.out_pos - 1)) _
        (λ last. Gives-mono (SameSize s.out) (SameSize o) _ (wr-SameSize s.out _ 0) (λ r t. t ∙ h)))

  pub dissect_dns-SameSize : (payload : Bytes) (l : ℤ) (m : ℕ) → Sized o (dissect_dns payload l o m)
  unfolding dissect_dns
  dissect_dns-SameSize payload l m = either (SameSize o) (ltb_int l 12) _ _ refl (
      Gives-then Out (SameSize o) _ _
        (iterate-Gives Out Out (dns_round payload (pos_part l - 12) m)
          (dns_round-Goes payload (pos_part l - 12) m) (pos_part l)
          (record { pos = 0; out = o; out_pos = 0 }) refl)
        dns_finish-SameSize)

  -- A loop over a position, which ends with the array.
  abbrev Ending : Next ℕ Bytes → Type 0
  Ending = Goes (λ _. Unit {0}) (SameSize o)

  ending :
      (m : Exec Bytes)
      → Sized o m
      → Gives (m >>= (λ r. let n : Next ℕ Bytes = done r in ret n)) Ending
  ending m h = Gives-then (SameSize o) Ending m _ h (λ r t. t)

  loop-SameSize :
      (round : ℕ → Exec (Next ℕ Bytes)) (f i : ℕ)
      → ((j : ℕ) → Gives (round j) Ending)
      → Sized o (iterate f round i)
  loop-SameSize round f i h = iterate-Gives (λ _. Unit) (SameSize o) round (λ j _. h j) f i tt

  print_type-SameSize : (t m : ℕ) → Sized o (print_type t o m)
  unfolding print_type
  print_type-SameSize t m =
      either (SameSize o) (ltb 0 t && ltb t 9) _ _ (snprintf-SameSize o 0 m _) refl

  dhcp_option-Ending : (p : Bytes) (n m c at len : ℕ) → Gives (dhcp_option p n o m c at len) Ending
  unfolding dhcp_option
  dhcp_option-Ending p n m c at len = either Ending (ltb n (at + len)) _ _ refl (
      either Ending (c == 53 && len == 1) _ _
        (Gives-bind Ending (rd p (240 + at)) _ (λ t _. ending _ (print_type-SameSize t m))) tt)

  dhcp_code-Ending : (p : Bytes) (n m at c : ℕ) → Gives (dhcp_code p n o m at c) Ending
  unfolding dhcp_code
  dhcp_code-Ending p n m at c = either Ending (c == 255) _ _ refl (
      either Ending (c == 0) _ _ tt (
        either Ending (leb n at) _ _ refl (
          Gives-bind Ending (rd p (240 + at)) _
            (λ len _. dhcp_option-Ending p n m c (at + 1) len))))

  dhcp_round-Ending : (p : Bytes) (n m i : ℕ) → Gives (dhcp_round p n o m i) Ending
  unfolding dhcp_round
  dhcp_round-Ending p n m i =
      either Ending (ltb i n) _ _
        (Gives-bind Ending (rd p (240 + i)) _ (λ c _. dhcp_code-Ending p n m (i + 1) c)) refl

  pub dissect_dhcp-SameSize : (p : Bytes) (l : ℤ) (m : ℕ) → Sized o (dissect_dhcp p l o m)
  unfolding dissect_dhcp
  dissect_dhcp-SameSize p l m = either (SameSize o) (ltb_int l 240) _ _ refl (
      skip o (has_cookie cookie 236 p) _ (λ good.
        either (SameSize o) good _ _
          (loop-SameSize (dhcp_round p (pos_part l - 240) o m) (pos_part l) 0
            (dhcp_round-Ending p (pos_part l - 240) m))
          refl))

  copy_name-SameSize : (p : Bytes) (at n m : ℕ) → Sized o (copy_name p at n o m)
  unfolding copy_name
  copy_name-SameSize p at n m =
      both o (memcpy o 0 p at (min n (m - 1))) _ (memcpy-SameSize o 0 p at (min n (m - 1)))
        (λ r. wr-SameSize r (min n (m - 1)) 0)

  sni_name-Ending :
      (p : Bytes) (end ext_len m at n : ℕ) → Gives (sni_name p end ext_len o m at n) Ending
  unfolding sni_name
  sni_name-Ending p end ext_len m at n =
      either Ending (leb (at + 5 + n) end) _ _ (ending _ (copy_name-SameSize p (at + 5) n m)) tt

  sni_round-Ending : (p : Bytes) (end m i : ℕ) → Gives (sni_round p end o m i) Ending
  unfolding sni_round
  sni_round-Ending p end m i =
      either Ending (leb (i + 4) end) _ _
        (Gives-bind Ending (be16 p i) _ (λ type _. Gives-bind Ending (be16 p (i + 2)) _ (λ len _.
          either Ending (type == 0 && leb (i + 4 + 5) end) _ _
            (Gives-bind Ending (be16 p (i + 4 + 3)) _
              (λ n _. sni_name-Ending p end len m (i + 4) n))
            tt)))
        refl

  sni_body-SameSize : (p : Bytes) (l m : ℕ) → Sized o (sni_body p l o m)
  unfolding sni_body
  sni_body-SameSize p l m = skip o (rd p 43) _ (λ sid.
      let a = 43 + (1 + sid) in
      either (SameSize o) (leb l (a + 2)) _ _ refl (
        skip o (be16 p a) _ (λ cs.
          let b = a + (2 + cs) in
          either (SameSize o) (leb l (b + 1)) _ _ refl (
            skip o (rd p b) _ (λ comp.
              let c = b + (1 + comp) in
              either (SameSize o) (leb l (c + 2)) _ _ refl (
                skip o (be16 p c) _ (λ total.
                  loop-SameSize (sni_round p (min (c + 2 + total) l) o m) (l + 1) (c + 2)
                    (sni_round-Ending p (min (c + 2 + total) l) m))))))))

  pub dissect_tls_sni-SameSize : (p : Bytes) (l : ℤ) (m : ℕ) → Sized o (dissect_tls_sni p l o m)
  unfolding dissect_tls_sni
  dissect_tls_sni-SameSize p l m = either (SameSize o) (ltb_int l 43) _ _ refl (
      skip o (rd p 0) _ (λ type. either (SameSize o) (not (type == 0x16)) _ _ refl (
        skip o (rd p 5) _ (λ handshake.
          either (SameSize o) (not (handshake == 0x01)) _ _ refl
            (sni_body-SameSize p (pos_part l) m)))))
