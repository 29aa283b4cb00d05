-- ===== src/Capture/Ranges/Texts.antt =====
-- The sizes of the texts that the small dissectors and dissect_http write.
use pacsni.Prelude.{
  ℕ, zero, suc, ◌+◌, ◌-◌, ◌∙◌, refl, bit_and, false, ◌&&◌, ◌||◌, ltb, ◌==◌, if◌then◌else◌, Option,
  none, some, ℤ, pos_part, ltb_int, drop, Exec, ret, ◌>>=◌, Gives, Gives-bind, Gives-then,
  Gives-mono,
}
use pacsni.Memory.{Bytes, codes, rd, wr, be16, memcmp, strlen, c_prefix}
use pacsni.Dissect.Http.{
  memmem, copy_line, host_mark, print_host, print_request, methods, match_methods, dissect_http,
}
use pacsni.Capture.Text.{
  check_icmp_unreachable, starts_with_one, app_binary, app_text, app_body, dissect_app_common,
  dissect_icmp_details, dissect_icmp6_details, dissect_ospf, dissect_stp, dissect_gre,
}
use pacsni.Capture.Ranges.Accesses.{SameSize, snprintf-SameSize, wr-SameSize, either, split}

module _ (o : Bytes) where
  abbrev pub Sized : Exec Bytes → Type 0
  Sized m = Gives m (SameSize o)

  -- What follows a read does not depend on what was read.
  pub skip :
      {A : Type 0} (m : Exec A) (f : A → Exec Bytes) → ((a : A) → Sized (f a)) → Sized (m >>= f)
  skip m f k = Gives-bind (SameSize o) m f (λ a _. k a)

  -- One write behind another.
  pub both :
      (m : Exec Bytes) (f : Bytes → Exec Bytes)
      → Sized m
      → ((r : Bytes) → Gives (f r) (SameSize r))
      → Sized (m >>= f)
  both m f h k =
      Gives-then (SameSize o) (SameSize o) m f h
        (λ r s. Gives-mono (SameSize r) (SameSize o) (f r) (k r) (λ q t. t ∙ s))

  pub check_icmp_unreachable-SameSize : (t c m : ℕ) → Sized (check_icmp_unreachable t c o m)
  unfolding check_icmp_unreachable
  check_icmp_unreachable-SameSize t c m =
      either (SameSize o) (t == 3 && ltb c 8) _ _ (snprintf-SameSize o 0 m _) refl

  pub dissect_icmp_details-SameSize : (t c m : ℕ) → Sized (dissect_icmp_details t c o m)
  unfolding dissect_icmp_details
  dissect_icmp_details-SameSize t c m = snprintf-SameSize o 0 m _

  pub dissect_icmp6_details-SameSize : (t c m : ℕ) → Sized (dissect_icmp6_details t c o m)
  unfolding dissect_icmp6_details
  dissect_icmp6_details-SameSize t c m = snprintf-SameSize o 0 m _

  pub dissect_ospf-SameSize : (p : Bytes) (l : ℤ) (m : ℕ) → Sized (dissect_ospf p l o m)
  unfolding dissect_ospf
  dissect_ospf-SameSize p l m = either (SameSize o) (ltb_int l 24) _ _ refl (
      skip (rd p 1) _ (λ type. skip (rd p 0) _ (λ version.
        either (SameSize o) (ltb 0 type && ltb type 6) _ _ (snprintf-SameSize o 0 m _) refl)))

  pub dissect_stp-SameSize : (p : Bytes) (l : ℤ) (m : ℕ) → Sized (dissect_stp p l o m)
  unfolding dissect_stp
  dissect_stp-SameSize p l m =
      either (SameSize o) (ltb_int l 35) _ _ refl
        (skip (rd p 4) _ (λ type. snprintf-SameSize o 0 m _))

  pub dissect_gre-SameSize : (p : Bytes) (l : ℤ) (m : ℕ) → Sized (dissect_gre p l o m)
  unfolding dissect_gre
  dissect_gre-SameSize p l m =
      either (SameSize o) (ltb_int l 4) _ _ refl
        (skip (be16 p 2) _ (λ inner. snprintf-SameSize o 0 m _))

  app_binary-SameSize : (p : Bytes) (l m : ℕ) → Sized (app_binary p l o m)
  unfolding app_binary
  app_binary-SameSize p l m = skip (rd p 0) _ (λ a.
      skip (if a == 0xff then rd p 1 >>= (λ b. ret (b == 0xfb)) else ret false) _ (λ telnet.
        either (SameSize o) telnet _ _ (snprintf-SameSize o 0 m _) (
          either (SameSize o) (bit_and a 0xc0 == 0x80 && ltb 12 l) _ _ (snprintf-SameSize o 0 m _)
            refl)))

  app_text-SameSize : (p : Bytes) (l m : ℕ) → Sized (app_text p l o m)
  unfolding app_text
  app_text-SameSize p l m = skip (starts_with_one _ p) _ (λ smtp.
      either (SameSize o) smtp _ _ (snprintf-SameSize o 0 m _) (
        skip (starts_with_one _ p) _ (λ ftp.
          either (SameSize o) ftp _ _ (snprintf-SameSize o 0 m _) (app_binary-SameSize p l m))))

copy_line-SameSize :
    (n : ℕ) (p : Bytes) (c : ℕ) (o : Bytes) → Gives (copy_line n p c o) (SameSize o)
unfolding copy_line
copy_line-SameSize zero p c o = wr-SameSize o c 0
copy_line-SameSize (suc n) p c o = skip o (rd p c) _ (λ b.
    split (SameSize o) (b == b'\r' || b == b'\n') _ _ (wr-SameSize o c 0)
      (both o (wr o c b) _ (wr-SameSize o c b) (λ r. copy_line-SameSize n p (c + 1) r)))

print_host-SameSize : (o p : Bytes) (at : Option ℕ) (m : ℕ) → Sized o (print_host p at o m)
unfolding print_host
print_host-SameSize o p none m = refl
print_host-SameSize o p (some at) m =
    skip o (c_prefix 32 (drop (at + 8) p)) _
      (λ host. skip o (strlen o) _ (λ n. snprintf-SameSize o n (m - n) _))

module _ (o : Bytes) where
  app_body-SameSize : (p : Bytes) (l m : ℕ) → Sized o (app_body p l o m)
  unfolding app_body
  app_body-SameSize p l m =
      skip o (if ltb 7 l then memcmp p 0 (codes "SSH-") else ret false) _ (λ ssh.
        either (SameSize o) ssh _ _ (copy_line-SameSize _ p 0 o) (
          either (SameSize o) (ltb 4 l) _ _ (app_text-SameSize o p l m)
            (app_binary-SameSize o p l m)))

  pub dissect_app_common-SameSize :
      (p : Bytes) (l : ℤ) (m : ℕ) → Sized o (dissect_app_common p l o m)
  unfolding dissect_app_common
  dissect_app_common-SameSize p l m =
      either (SameSize o) (ltb_int l 4) _ _ refl (app_body-SameSize p (pos_part l) m)

  print_request-SameSize : (p : Bytes) (l m : ℕ) → Sized o (print_request p l o m)
  unfolding print_request
  print_request-SameSize p l m = both o (copy_line _ p 0 o) _ (copy_line-SameSize _ p 0 o) (λ r.
      Gives-bind (SameSize r) (memmem p l host_mark) _ (λ place _. print_host-SameSize r p place m))

  pub dissect_http-SameSize : (p : Bytes) (l : ℤ) (m : ℕ) → Sized o (dissect_http p l o m)
  unfolding dissect_http
  dissect_http-SameSize p l m = either (SameSize o) (ltb_int l 10) _ _ refl (
      skip o (match_methods methods p (pos_part l)) _
        (λ request. either (SameSize o) request _ _ (print_request-SameSize p (pos_part l) m) refl))
