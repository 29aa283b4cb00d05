-- ===== src/Dissect/TcpOptions/RoundTrip.antt =====
-- TCP options as RFC 9293 and its successors lay them out, and what the code reads back of them.
use pacsni.Prelude.{
  ℕ, zero, suc, ◌+◌, ◌/◌, ◌%◌, ◌≤◌, ◌<◌, ◌≡◌, ◌∙◌, refl, ap, ap₂, false, ◌==◌, lt→ltb, le→ltb,
  lt→leb, ◌>>=◌, arith, List, [], ◌∷◌, ◌++◌, append_assoc, length, length-append, ret, again, done,
  iterate, iterate-again, iterate-done,
}
use pacsni.Memory.{Bytes}
use pacsni.Memory.Laws.{word16, word32, rd-behind, be16-behind, be32-behind}
use pacsni.Packet.{PacketInfo}
use pacsni.Dissect.TcpOptions.{
  apply_option, sized_option, option_kind, options_round, parse_tcp_options_extended,
}

pub data TcpOption : Type 0 where
  nop : TcpOption
  mss : ℕ → TcpOption
  window_scale : ℕ → TcpOption
  sack_permitted : TcpOption
  timestamps : ℕ → ℕ → TcpOption

-- The two bytes of a number below 2 ^ 16, and the four of one below 2 ^ 32.
abbrev pub bytes16 : ℕ → Bytes → Bytes
bytes16 n rest = (n / 256) ∷ (n % 256) ∷ rest

abbrev pub bytes32 : ℕ → Bytes → Bytes
bytes32 n rest = bytes16 (n / 65536) (bytes16 (n % 65536) rest)

-- The bytes of an option.
abbrev pub encode : TcpOption → Bytes
encode nop = 1 ∷ []
encode (mss v) = 2 ∷ 4 ∷ bytes16 v []
encode (window_scale v) = 3 ∷ 3 ∷ v ∷ []
encode sack_permitted = 4 ∷ 2 ∷ []
encode (timestamps a b) = 8 ∷ 10 ∷ bytes32 a (bytes32 b [])

abbrev pub encode_all : List TcpOption → Bytes
encode_all [] = []
encode_all (o ∷ os) = encode o ++ encode_all os

-- What an option says, in the record.
abbrev pub apply : PacketInfo → TcpOption → PacketInfo
apply i nop = i
apply i (mss v) = record i { tcp_mss = v }
apply i (window_scale v) = record i { tcp_ws = v }
apply i sack_permitted = record i { tcp_sack = 1 }
apply i (timestamps a b) = record i { tcp_ts_val = a; tcp_ts_ecr = b }

abbrev pub apply_all : PacketInfo → List TcpOption → PacketInfo
apply_all i [] = i
apply_all i (o ∷ os) = apply_all (apply i o) os

not-eq : (a b : ℕ) → b < a → (a == b) ≡ false
not-eq a b h = ground arith

word16-bytes16 : (n : ℕ) (rest : Bytes) → word16 (bytes16 n rest) 0 ≡ n
unfolding word16
word16-bytes16 n rest = omega arith

word32-bytes32 : (n : ℕ) (rest : Bytes) → word32 (bytes32 n rest) 0 ≡ n
unfolding word32 word16
word32-bytes32 n rest = omega arith

round-stop :
    (pre suf : Bytes) (base len k : ℕ) (i : PacketInfo)
    → len ≤ k
    → options_round (pre ++ suf) base len (record { k = k; info = i }) ≡ ret (done i)
unfolding options_round
round-stop pre suf base len k i h = rw (le→ltb k len h)

module _ (pre : Bytes) (base len k : ℕ) (i : PacketInfo) (start : base + k ≡ length pre) where
  -- A round up to the test of the kind.
  round-kind :
      (kind : ℕ) (rest : Bytes)
      → k < len
      → options_round (pre ++ (kind ∷ rest)) base len (record { k = k; info = i })
        ≡ option_kind (pre ++ (kind ∷ rest)) base len (record { k = k; info = i }) kind
  unfolding options_round
  round-kind kind rest h =
      rw (lt→ltb k len h, rd-behind pre (kind ∷ rest) (base + k) 0 (omega arith) (omega arith))

  -- A round on an option with a length, up to what is done for its kind.
  round-sized :
      (kind l : ℕ) (rest : Bytes)
      → 1 < kind
      → 2 ≤ l
      → k + l ≤ len
      → options_round (pre ++ (kind ∷ l ∷ rest)) base len (record { k = k; info = i }) ≡ (
          apply_option (pre ++ (kind ∷ l ∷ rest)) (base + k) kind l i
          >>= (λ j. ret (again (record { k = k + l; info = j }))))
  unfolding option_kind sized_option
  round-sized kind l rest named long fits =
      round-kind kind (l ∷ rest) (omega arith)
      ∙ rw (
        not-eq kind 0 (omega arith),
        not-eq kind 1 (omega arith),
        lt→leb len (k + 1) (omega arith),
        rd-behind pre (kind ∷ l ∷ rest) (base + (k + 1)) 1 (omega arith) (omega arith),
        le→ltb l 2 long,
        le→ltb len (k + l) fits,
      )

  -- One round on one option.
  round-encode :
      (o : TcpOption) (suf : Bytes)
      → k + length (encode o) ≤ len
      → options_round (pre ++ (encode o ++ suf)) base len (record { k = k; info = i })
        ≡ ret (again (record { k = k + length (encode o); info = apply i o }))
  unfolding option_kind apply_option word16 word32
  round-encode nop suf h = round-kind 1 suf (omega arith)
  round-encode (mss v) suf h =
      let bytes = 2 ∷ 4 ∷ bytes16 v suf in
      round-sized 2 4 (bytes16 v suf) (omega arith) (omega arith) h
      ∙ rw (be16-behind pre bytes (base + k + 2) 2 (omega arith) (omega arith)) (
          ap (λ (n : ℕ). ret (again (record { k = k + 4; info = record i { tcp_mss = n } })))
            (omega arith))
  round-encode (window_scale v) suf h =
      round-sized 3 3 (v ∷ suf) (omega arith) (omega arith) h
      ∙ rw (rd-behind pre (3 ∷ 3 ∷ v ∷ suf) (base + k + 2) 2 (omega arith) (omega arith))
  round-encode sack_permitted suf h = round-sized 4 2 suf (omega arith) (omega arith) h
  round-encode (timestamps a b) suf h =
      let bytes = 8 ∷ 10 ∷ bytes32 a (bytes32 b suf) in
      round-sized 8 10 (bytes32 a (bytes32 b suf)) (omega arith) (omega arith) h
      ∙ rw
          (
            be32-behind pre bytes (base + k + 2) 2 (omega arith) (omega arith),
            be32-behind pre bytes (base + k + 6) 6 (omega arith) (omega arith),
          )
          (ap₂
            (λ (m n : ℕ).
              ret
                (again (record { k = k + 10; info = record i { tcp_ts_val = m; tcp_ts_ecr = n } })))
            (omega arith) (omega arith))

length-encode : (o : TcpOption) → 1 ≤ length (encode o)
length-encode nop = omega arith
length-encode (mss v) = omega arith
length-encode (window_scale v) = omega arith
length-encode sack_permitted = omega arith
length-encode (timestamps a b) = omega arith

options_round-encode_all :
    (os : List TcpOption) (pre suf : Bytes) (base len k f : ℕ) (i : PacketInfo)
    → base + k ≡ length pre
    → k + length (encode_all os) ≡ len
    → length (encode_all os) < f
    → iterate f
        (options_round (pre ++ (encode_all os ++ suf)) base len)
        (record { k = k; info = i })
      ≡ ret (apply_all i os)
options_round-encode_all os pre suf base len k zero i start end fuel = absurd (omega arith)
options_round-encode_all [] pre suf base len k (suc f) i start end fuel =
    iterate-done _ f _ (round-stop pre suf base len k i (omega arith))
options_round-encode_all (o ∷ os) pre suf base len k (suc f) i start end fuel =
    let size = length-append (encode o) (encode_all os) in
    let one = length-encode o in
    let regroup : pre ++ ((encode o ++ encode_all os) ++ suf)
        ≡ pre ++ (encode o ++ (encode_all os ++ suf)) =
      ap (λ t. pre ++ t) (append_assoc (encode o) (encode_all os) suf) in
    let next : (pre ++ encode o) ++ (encode_all os ++ suf)
        ≡ pre ++ (encode o ++ (encode_all os ++ suf)) =
      append_assoc pre (encode o) (encode_all os ++ suf) in
    rw regroup (
      iterate-again _ f _
        (round-encode pre base len k i start o (encode_all os ++ suf) (omega arith))
      ∙ rw (← next) (
          options_round-encode_all os (pre ++ encode o) suf base len (k + length (encode o)) f
            (apply i o) (omega (arith, length-append pre (encode o))) (omega arith) (omega arith)))

-- Where the options of a TCP header are encoded options from one of its five kinds, in any number
-- and order, parse_tcp_options_extended ends and leaves the record with just what they say, the
-- later ones last. `pre` is the packet up to the options, and `suf` what follows the header.
pub parse_tcp_options_extended-encode_all :
    (os : List TcpOption) (pre suf : Bytes) (o : ℕ) (i : PacketInfo)
    → length pre ≡ o + 20
    → parse_tcp_options_extended (pre ++ (encode_all os ++ suf)) o (20 + length (encode_all os)) i
      ≡ ret (apply_all i os)
unfolding parse_tcp_options_extended
parse_tcp_options_extended-encode_all [] pre suf o i start = refl
parse_tcp_options_extended-encode_all (x ∷ os) pre suf o i start =
    let one = length-encode x in
    let size = length-append (encode x) (encode_all os) in
    rw (lt→leb (20 + length (encode_all (x ∷ os))) 20 (omega arith)) (
      options_round-encode_all (x ∷ os) pre suf (o + 20) _ 0 _ i (omega arith) (omega arith)
        (omega arith))
