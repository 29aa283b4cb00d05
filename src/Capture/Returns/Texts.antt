-- ===== src/Capture/Returns/Texts.antt =====
-- The dissectors that write one text: for which payloads they return.
use pacsni.Prelude.{
  ◌>>=◌, ℕ, zero, suc, ◌+◌, ◌-◌, ◌≤◌, ◌<◌, ◌≡◌, ◌∙◌, arith, bit_and, false, ◌&&◌, ◌||◌, Bool-cases,
  inl, inr, ltb, ◌==◌, if◌then◌else◌, List, [], ◌∷◌, Option, none, some, ℤ, pos_part, ltb_int,
  length, length-drop, length-set, set, get_or-set_self, drop, Ensures, Ensures-bind, Ensures-mono,
  ret,
}
use pacsni.Memory.{Bytes, byte, codes, rd, memcmp, strlen, c_prefix, snprintf}
use pacsni.Memory.Laws.{rd-eq-ret, wr-eq-ret}
use pacsni.Dissect.Http.{
  copy_line, host_mark, print_host, print_request, methods, match_methods, dissect_http,
}
use pacsni.Dissect.Http.Search.{IsFirst, memmem-IsFirst}
use pacsni.Capture.Text.{
  check_icmp_unreachable, starts_with_one, app_binary, app_text, app_body, dissect_app_common,
  dissect_icmp_details, dissect_icmp6_details, dissect_ospf, dissect_stp, dissect_gre,
}
use pacsni.Capture.Returns.Steps.{
  Returns, Returns-ret, Returns-Ensures, Returns-bind, choose, choose_elim, rd-Returns,
  be16-Returns, memcmp-Returns, snprintf-Returns, strlen-Ensures, c_prefix-Returns,
}

-- A text in the array `r`, as long as `o`: it ends at or before `k`.
abbrev Line : Bytes → ℕ → Bytes → Type 0
Line o k r = (length r ≡ length o) × (j : ℕ) × (j ≤ k) × (byte r j ≡ 0)

copy_line-Line :
    (n : ℕ) (p : Bytes) (c : ℕ) (o : Bytes)
    → c + n ≤ length p
    → c + n < length o
    → Ensures (copy_line n p c o) (Line o (c + n))
unfolding copy_line
copy_line-Line zero p c o hp ho =
    rw (wr-eq-ret o c 0 (omega arith))
      (length-set o c 0, c, omega arith, get_or-set_self o c 0 0 (omega arith))
copy_line-Line (suc n) p c o hp ho =
    Ensures-bind (λ _. Unit {0}) (Line o (c + suc n)) (rd p c) _
      (Returns-ret (rd p c) (rd-eq-ret p c (omega arith)))
      (λ b _. elim (Bool-cases (b == b'\r' || b == b'\n')) [
        | inl end ↦
            rw (end, wr-eq-ret o c 0 (omega arith))
              (length-set o c 0, c, omega arith, get_or-set_self o c 0 0 (omega arith))
        | inr more ↦
            let size = length-set o c b in
            rw (more, wr-eq-ret o c b (omega arith))
              (Ensures-mono (Line (set o c b) (c + 1 + n)) (Line o (c + suc n)) _
                (copy_line-Line n p (c + 1) (set o c b) (omega arith) (omega arith))
                (λ r (s, j, before, end). (s ∙ size, j, omega arith, end)))
      ])

module _ (p : Bytes) where
  abbrev Short : List Bytes → Type 0
  Short [] = Unit
  Short (w ∷ ws) = (length w ≤ length p) × Short ws

  starts_with_one-Returns : (ws : List Bytes) → Short ws → Returns (starts_with_one ws p)
  unfolding starts_with_one
  starts_with_one-Returns [] h = tt
  starts_with_one-Returns (w ∷ ws) (h, hs) =
      Returns-bind (memcmp p 0 w) _ (memcmp-Returns p 0 w (omega arith))
        (λ same. choose_elim same _ _ (λ _. tt) (λ _. starts_with_one-Returns ws hs))

  match_methods-Returns : (ws : List Bytes) (l : ℕ) → l ≤ length p → Returns (match_methods ws p l)
  unfolding match_methods
  match_methods-Returns [] l h = tt
  match_methods-Returns (w ∷ ws) l h =
      choose_elim (ltb (length w) l) _ _
        (λ short.
          Returns-bind (memcmp p 0 w) _ (memcmp-Returns p 0 w (ground arith))
            (λ same. choose_elim same _ _ (λ _. tt) (λ _. match_methods-Returns ws l h)))
        (λ long. match_methods-Returns ws l h)

module _ (o : Bytes) (m : ℕ) (room : 0 < m) (writable : m ≤ length o) where
  print : (text : Bytes) → Returns (snprintf o 0 m text)
  print text = snprintf-Returns o 0 m text (omega arith)

  pub check_icmp_unreachable-Returns : (t c : ℕ) → Returns (check_icmp_unreachable t c o m)
  unfolding check_icmp_unreachable
  check_icmp_unreachable-Returns t c = choose (t == 3 && ltb c 8) _ _ (λ _. print _) (λ _. tt)

  pub dissect_icmp_details-Returns : (t c : ℕ) → Returns (dissect_icmp_details t c o m)
  unfolding dissect_icmp_details
  dissect_icmp_details-Returns t c = print _

  pub dissect_icmp6_details-Returns : (t c : ℕ) → Returns (dissect_icmp6_details t c o m)
  unfolding dissect_icmp6_details
  dissect_icmp6_details-Returns t c = print _

  module _ (p : Bytes) (l : ℤ) (readable : pos_part l ≤ length p) where
    pub dissect_ospf-Returns : Returns (dissect_ospf p l o m)
    unfolding dissect_ospf
    dissect_ospf-Returns =
        choose (ltb_int l 24) _ _ (λ _. tt)
          (λ long. rd-Returns p 1 _ (ground arith) (λ type.
            rd-Returns p 0 _ (ground arith)
              (λ version. choose (ltb 0 type && ltb type 6) _ _ (λ _. print _) (λ _. tt))))

    pub dissect_stp-Returns : Returns (dissect_stp p l o m)
    unfolding dissect_stp
    dissect_stp-Returns =
        choose (ltb_int l 35) _ _ (λ _. tt)
          (λ long. rd-Returns p 4 _ (ground arith) (λ type. print _))

    pub dissect_gre-Returns : Returns (dissect_gre p l o m)
    unfolding dissect_gre
    dissect_gre-Returns =
        choose (ltb_int l 4) _ _ (λ _. tt)
          (λ long. be16-Returns p 2 _ (ground arith) (λ inner. print _))

  copied-Returns :
      (p : Bytes) (l : ℕ)
      → l ≤ length p
      → Ensures (copy_line (if ltb l (m - 1) then l else m - 1) p 0 o) (Line o (m - 1))
  copied-Returns p l h =
      Ensures-mono (Line o (0 + (if ltb l (m - 1) then l else m - 1))) (Line o (m - 1)) _
        (copy_line-Line _ p 0 o (ground arith) (ground arith))
        (λ r (s, j, before, end). (s, j, ground arith, end))

  app_binary-Returns : (p : Bytes) (l : ℕ) → 2 ≤ length p → Returns (app_binary p l o m)
  unfolding app_binary
  app_binary-Returns p l h = rd-Returns p 0 _ (omega arith) (λ a.
      Returns-bind _ _
        (choose (a == 0xff) (rd p 1 >>= (λ b. ret (b == 0xfb))) (ret false)
          (λ _. rd-Returns p 1 _ (omega arith) (λ b. tt)) (λ _. tt))
        (λ telnet.
          choose telnet _ _ (λ _. print _)
            (λ _. choose (bit_and a 0xc0 == 0x80 && ltb 12 l) _ _ (λ _. print _) (λ _. tt))))

  app_text-Returns : (p : Bytes) (l : ℕ) → 4 ≤ length p → Returns (app_text p l o m)
  unfolding app_text
  app_text-Returns p l h =
      Returns-bind _ _
        (starts_with_one-Returns p (codes "220 " ∷ codes "HELO" ∷ codes "EHLO" ∷ [])
          (h, (h, (h, tt))))
        (λ smtp.
          choose smtp _ _ (λ _. print _)
            (λ _.
              Returns-bind _ _
                (starts_with_one-Returns p (codes "USER" ∷ codes "PASS" ∷ codes "220 " ∷ [])
                  (h, (h, (h, tt))))
                (λ ftp. choose ftp _ _ (λ _. print _) (λ _. app_binary-Returns p l (omega arith)))))

  app_body-Returns : (p : Bytes) (l : ℕ) → 4 ≤ l → l ≤ length p → Returns (app_body p l o m)
  unfolding app_body
  app_body-Returns p l four h =
      Returns-bind _ _
        (choose (ltb 7 l) (memcmp p 0 (codes "SSH-")) (ret false)
          (λ _. memcmp-Returns p 0 (codes "SSH-") (omega arith)) (λ _. tt))
        (λ ssh.
          choose ssh _ _ (λ _. Returns-Ensures (Line o (m - 1)) _ (copied-Returns p l h))
            (λ _.
              choose (ltb 4 l) _ _ (λ _. app_text-Returns p l (omega arith))
                (λ _. app_binary-Returns p l (omega arith))))

  pub dissect_app_common-Returns :
      (p : Bytes) (l : ℤ) → pos_part l ≤ length p → Returns (dissect_app_common p l o m)
  unfolding dissect_app_common
  dissect_app_common-Returns p l h =
      choose (ltb_int l 4) _ _ (λ _. tt) (λ long. app_body-Returns p (pos_part l) (ground arith) h)

  print_host-Returns :
      (p : Bytes) (l : ℕ) (place : Option ℕ) (r : Bytes)
      → l + 32 ≤ length p
      → IsFirst p l host_mark place
      → Line o (m - 1) r
      → Returns (print_host p place r m)
  unfolding print_host
  print_host-Returns p l none r h first line = tt
  print_host-Returns p l (some at) r h first (size, j, before, end) =
      Returns-bind (c_prefix 32 (drop (at + 8) p)) _
        (c_prefix-Returns 32 (drop (at + 8) p) (omega (arith, length-drop (at + 8) p, first)))
        (λ host.
          Returns-Ensures (λ _. Unit {0}) _
            (Ensures-bind (λ n. n ≤ j) (λ _. Unit {0}) (strlen r) _
              (strlen-Ensures r j (omega arith) end)
              (λ n b. snprintf-Returns r n (m - n) _ (omega arith))))

  print_request-Returns : (p : Bytes) (l : ℕ) → l + 32 ≤ length p → Returns (print_request p l o m)
  unfolding print_request
  print_request-Returns p l h =
      Ensures-bind (Line o (m - 1)) (λ _. Unit {0}) _ _ (copied-Returns p l (omega arith))
        (λ r line.
          Ensures-bind (IsFirst p l host_mark) (λ _. Unit {0}) _ _
            (memmem-IsFirst p l host_mark (omega arith))
            (λ place first. print_host-Returns p l place r h first line))

  -- Behind the payload there are 32 bytes more: so many are printed from a Host header on.
  pub dissect_http-Returns :
      (p : Bytes) (l : ℤ) → pos_part l + 32 ≤ length p → Returns (dissect_http p l o m)
  unfolding dissect_http
  dissect_http-Returns p l h =
      choose (ltb_int l 10) _ _ (λ _. tt)
        (λ long.
          Returns-bind _ _ (match_methods-Returns p methods (pos_part l) (omega arith))
            (λ request. choose request _ _ (λ _. print_request-Returns p (pos_part l) h) (λ _. tt)))
