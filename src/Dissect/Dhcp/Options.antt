-- ===== src/Dissect/Dhcp/Options.antt =====
-- The DHCP message type that the options state, and what dissect_dhcp prints of it.
use pacsni.Prelude.{
  ℕ, zero, suc, ◌+◌, ◌-◌, ◌≤◌, ◌<◌, ◌≡◌, ◌≢◌, ◌⊎◌, ◌∙◌, refl, ap, true, take, drop, arith, [], ◌∷◌,
  ◌++◌, append_assoc, length, length-append, lt→ltb, le→ltb, lt→leb, pos, ret, ◌>>=◌, again, done,
  iterate, iterate-again, iterate-last,
}
use pacsni.Memory.{Bytes, codes, snprintf, splice}
use pacsni.Memory.Laws.{rd-behind, printed, snprintf-eq-ret}
use pacsni.Dissect.Dhcp.{
  print_type, dhcp_option, dhcp_code, dhcp_round, has_cookie, cookie, dissect_dhcp,
}

-- The options of RFC 2132 state the type `t`: padding, and options of a code, a length and that
-- many bytes, may stand before it.
pub data MessageType (t : ℕ) : Bytes → Type 0 where
  here : (rest : Bytes) → MessageType t (53 ∷ 1 ∷ t ∷ rest)
  pad : {opts : Bytes} → MessageType t opts → MessageType t (0 ∷ opts)
  other :
      {opts : Bytes} (c l : ℕ) (value : Bytes)
      → 0 < c
      → c < 255
      → (c ≢ 53) ⊎ (l ≢ 1)
      → length value ≡ l
      → MessageType t opts
      → MessageType t (c ∷ l ∷ (value ++ opts))

module _ (pre : Bytes) (o : Bytes) (n m : ℕ) where
  -- A round at the byte behind `pre`.
  round-code :
      (c : ℕ) (rest : Bytes) (i : ℕ)
      → 240 + i ≡ length pre
      → i < n
      → dhcp_round (pre ++ (c ∷ rest)) n o m i ≡ dhcp_code (pre ++ (c ∷ rest)) n o m (i + 1) c
  unfolding dhcp_round
  round-code c rest i at h =
      rw (lt→ltb i n h, rd-behind pre (c ∷ rest) (240 + i) 0 (omega arith) (omega arith))

  round-pad :
      (rest : Bytes) (i : ℕ)
      → 240 + i ≡ length pre
      → i < n
      → dhcp_round (pre ++ (0 ∷ rest)) n o m i ≡ ret (again (i + 1))
  unfolding dhcp_code
  round-pad rest i at h = round-code 0 rest i at h

  round-other :
      (c l : ℕ) (rest : Bytes) (i : ℕ)
      → 240 + i ≡ length pre
      → i + 2 + l ≤ n
      → 0 < c
      → c < 255
      → (c ≢ 53) ⊎ (l ≢ 1)
      → dhcp_round (pre ++ (c ∷ l ∷ rest)) n o m i ≡ ret (again (i + 1 + 1 + l))
  unfolding dhcp_code dhcp_option
  round-other c l rest i at h lo hi ne =
      round-code c (l ∷ rest) i at (omega arith)
      ∙ ground (arith, rd-behind pre (c ∷ l ∷ rest) (240 + (i + 1)) 1 (omega arith) (omega arith))

  round-here :
      (t : ℕ) (rest : Bytes) (i : ℕ)
      → 240 + i ≡ length pre
      → i + 3 ≤ n
      → dhcp_round (pre ++ (53 ∷ 1 ∷ t ∷ rest)) n o m i ≡ (print_type t o m >>= (λ r. ret (done r)))
  unfolding dhcp_code dhcp_option
  round-here t rest i at h =
      round-code 53 (1 ∷ t ∷ rest) i at (omega arith)
      ∙ rw (
        lt→leb n (i + 1) (omega arith),
        rd-behind pre (53 ∷ 1 ∷ t ∷ rest) (240 + (i + 1)) 1 (omega arith) (omega arith),
        le→ltb n (i + 1 + 1 + 1) (omega arith),
        rd-behind pre (53 ∷ 1 ∷ t ∷ rest) (240 + (i + 1 + 1)) 2 (omega arith) (omega arith),
      )

loop-MessageType :
    {t : ℕ} {opts : Bytes} (pre o : Bytes) (n m f i : ℕ)
    → MessageType t opts
    → 240 + i ≡ length pre
    → i + length opts ≡ n
    → length opts < f
    → iterate f (dhcp_round (pre ++ opts) n o m) i ≡ print_type t o m
loop-MessageType pre o n m zero i h at size fuel = absurd (omega arith)
loop-MessageType {t} pre o n m (suc f) i (here rest) at size fuel =
    iterate-last _ f i _ (round-here pre o n m t rest i at (omega arith))
loop-MessageType pre o n m (suc f) i (pad {opts} h) at size fuel =
    let next : (pre ++ (0 ∷ [])) ++ opts ≡ pre ++ (0 ∷ opts) = append_assoc pre (0 ∷ []) opts in
    iterate-again _ f i (round-pad pre o n m opts i at (omega arith))
    ∙ rw (← next) (
        loop-MessageType (pre ++ (0 ∷ [])) o n m f (i + 1) h
          (omega (arith, length-append pre (0 ∷ []))) (omega arith) (omega arith))
loop-MessageType pre o n m (suc f) i (other {opts} c l value lo hi ne len h) at size fuel =
    let head = c ∷ l ∷ value in
    let total = length-append value opts in
    let next : (pre ++ head) ++ opts ≡ pre ++ (c ∷ l ∷ (value ++ opts)) =
      append_assoc pre head opts in
    iterate-again _ f i (round-other pre o n m c l (value ++ opts) i at (omega arith) lo hi ne)
    ∙ rw (← next) (
        loop-MessageType (pre ++ head) o n m f (i + 1 + 1 + l) h
          (omega (arith, length-append pre head)) (omega arith) (omega arith))

has_cookie-true :
    (hdr opts : Bytes)
    → length hdr ≡ 236
    → has_cookie cookie 236 (hdr ++ (cookie ++ opts)) ≡ ret true
unfolding has_cookie
has_cookie-true hdr opts size =
    let suf = cookie ++ opts in
    rw (
      rd-behind hdr suf 236 0 (omega arith) (omega arith),
      rd-behind hdr suf (236 + 1) 1 (omega arith) (omega arith),
      rd-behind hdr suf (236 + 1 + 1) 2 (omega arith) (omega arith),
      rd-behind hdr suf (236 + 1 + 1 + 1) 3 (omega arith) (omega arith),
    )

-- The names of the message types (RFC 2132, section 9.6).
pub data HasName (t : ℕ) : Bytes → Type 0 where
  discover : t ≡ 1 → HasName t (codes "DISCOVER")
  offer : t ≡ 2 → HasName t (codes "OFFER")
  request : t ≡ 3 → HasName t (codes "REQUEST")
  decline : t ≡ 4 → HasName t (codes "DECLINE")
  ack : t ≡ 5 → HasName t (codes "ACK")
  nak : t ≡ 6 → HasName t (codes "NAK")
  release : t ≡ 7 → HasName t (codes "RELEASE")
  inform : t ≡ 8 → HasName t (codes "INFORM")

-- What a buffer that held `o`, of which `m` bytes may be written, is to hold for the type `t`: "DHCP "
-- and the type's name, cut to `m - 1` bytes, then NUL and what was behind; for a type without a name
-- what it held.
pub data Shown (t : ℕ) (o : Bytes) (m : ℕ) : Bytes → Type 0 where
  named :
      (name r : Bytes)
      → HasName t name
      → r ≡ take (m - 1) (codes "DHCP " ++ name)
      → Shown t o m (r ++ (0 ∷ drop (length r + 1) o))
  unnamed : (t ≡ 0) ⊎ (8 < t) → Shown t o m o

-- A text that is printed at the start of the buffer.
printed_text :
    (o : Bytes) (m : ℕ) (text : Bytes)
    → 0 < m
    → m ≤ length o
    → snprintf o 0 m text ≡ ret (take (m - 1) text ++ (0 ∷ drop (length (take (m - 1) text) + 1) o))
unfolding splice printed
printed_text o m text room fits =
    let cut = take (m - 1) text in
    let size : 0 + length (cut ++ 0 ∷ []) ≡ length cut + 1 =
      omega (arith, length-append cut (0 ∷ [])) in
    snprintf-eq-ret o 0 m text room (omega arith)
    ∙ ap ret (rw size (append_assoc cut (0 ∷ []) (drop (length cut + 1) o)))

print_name :
    {t : ℕ} {name : Bytes} (o : Bytes) (m : ℕ)
    → HasName t name
    → print_type t o m ≡ snprintf o 0 m (codes "DHCP " ++ name)
unfolding print_type
print_name o m (discover e) = rw e refl
print_name o m (offer e) = rw e refl
print_name o m (request e) = rw e refl
print_name o m (decline e) = rw e refl
print_name o m (ack e) = rw e refl
print_name o m (nak e) = rw e refl
print_name o m (release e) = rw e refl
print_name o m (inform e) = rw e refl

print_type-Shown :
    {t : ℕ} {o : Bytes} {m : ℕ} {r : Bytes}
    → Shown t o m r
    → 0 < m
    → m ≤ length o
    → print_type t o m ≡ ret r
unfolding print_type
print_type-Shown {t} {o} {m} (named name r h e) room fits =
    rw e (print_name o m h ∙ printed_text o m (codes "DHCP " ++ name) room fits)
print_type-Shown {t} {o} {m} (unnamed h) room fits = ground arith

-- For a message of 236 bytes, the magic cookie and options that state the type `t`, with padding
-- and other options before it, and a buffer of at least `m` bytes, one or more: where `t` is one of
-- the types 1 to 8, dissect_dhcp writes "DHCP " and the name that RFC 2132 gives to the type (DISCOVER,
-- OFFER, REQUEST, DECLINE, ACK, NAK, RELEASE, INFORM), cut to `m - 1` bytes, and a NUL, and leaves
-- the rest of the buffer as it was; for any other type it leaves all of it as it was.
pub dissect_dhcp-MessageType :
    {t : ℕ} {opts : Bytes} (hdr o : Bytes) (m : ℕ) {r : Bytes}
    → MessageType t opts
    → Shown t o m r
    → length hdr ≡ 236
    → 0 < m
    → m ≤ length o
    → dissect_dhcp (hdr ++ (cookie ++ opts)) (pos (240 + length opts)) o m ≡ ret r
unfolding dissect_dhcp
dissect_dhcp-MessageType {t} {opts} hdr o m {r} h shown size room fits =
    let next : (hdr ++ cookie) ++ opts ≡ hdr ++ (cookie ++ opts) = append_assoc hdr cookie opts in
    let minus : 240 + length opts - 240 ≡ length opts = omega arith in
    rw (le→ltb (240 + length opts) 240 (omega arith), has_cookie-true hdr opts size, minus, ← next)
      (loop-MessageType (hdr ++ cookie) o (length opts) m (240 + length opts) 0 h
          (omega (arith, length-append hdr cookie)) (omega arith) (omega arith)
        ∙ print_type-Shown shown room fits)
