-- ===== src/Send/Service/Stream.antt =====
-- The packet service gives out the records of a stream, whatever reads the stream comes in.
use pacsni.Prelude.{
  ℕ, zero, suc, ◌+◌, ◌≤◌, ◌<◌, ◌≡◌, refl, sym, ap, ◌∙◌, inl, inr, Bool, true, false, Bool-cases,
  List, [], ◌∷◌, ◌++◌, length, length-append, length-drop, take, drop, concat, take-append, get_or,
  ap₂, drop-append, append_assoc, append-nil, ltb, le→ltb, lt→ltb, ltb→lt, ltb→le, ◌==◌, ret, arith,
}
use mathlib.Core.Path.{subst}
use pacsni.Memory.{Bytes, slice}
use pacsni.Packet.{PacketInfo}
use pacsni.Send.Layout.{bytes_of, read_record}
use pacsni.Packet.Info.{IsInfo, IsInfo-HasLayout}
use pacsni.Send.Layout.RoundTrip.{length-bytes_of, read_record-bytes_of}
use pacsni.Send.Service.{take_messages, handle_cpp_connection}

-- The bytes of a stream of records, each with the 64 bytes of its HMAC.
abbrev pub stream : (Bytes → Bytes) → List PacketInfo → Bytes
stream mac [] = []
stream mac (i ∷ is) = (bytes_of i ++ mac (bytes_of i)) ++ stream mac is

abbrev pub AllInfo : List PacketInfo → Type 0
AllInfo [] = Unit {0}
AllInfo (i ∷ is) = IsInfo i × AllInfo is

-- Reads that are not empty and that have at most 64 KiB.
abbrev pub AllReads : List Bytes → Type 0
AllReads [] = Unit {0}
AllReads (r ∷ rs) = (1 ≤ length r) × (length r ≤ 65536) × AllReads rs

take-append_length : (x y : Bytes) (n : ℕ) → length x ≡ n → take n (x ++ y) ≡ x
take-append_length x y n e = ap (λ k. take k (x ++ y)) (sym e) ∙ take-append x y

drop-append_length : (x y : Bytes) (n : ℕ) → length x ≡ n → drop n (x ++ y) ≡ y
drop-append_length x y n e =
    let there : n ≡ length x + 0 = omega arith in
    ap (λ k. drop k (x ++ y)) there ∙ drop-append x y 0

-- A list that starts like `c ++ d`, as far as `c` goes.
split_front : (a b c d : Bytes) → a ++ b ≡ c ++ d → length c ≤ length a → a ≡ c ++ drop (length c) a
split_front a b [] d h le = refl
split_front [] b (x ∷ c) d h le = absurd (omega arith)
split_front (y ∷ a) b (x ∷ c) d h le =
    ap₂ ◌∷◌ (ap (λ l. get_or l 0 0) h) (split_front a b c d (ap (drop 1) h) (omega arith))

-- A message of the stream, at the front of the buffer.
record Message (i : PacketInfo) (m : Bytes) (buffer : Bytes) : Type 0 where
  chunk : take 1024 buffer ≡ bytes_of i
  hash : slice buffer 1024 64 ≡ m
  read : read_record buffer ≡ i
  next : (rest s : Bytes) → buffer ++ rest ≡ (bytes_of i ++ m) ++ s → drop 1088 buffer ++ rest ≡ s

Message-at :
    (i : PacketInfo) (m z : Bytes) → IsInfo i → length m ≡ 64 → Message i m ((bytes_of i ++ m) ++ z)
unfolding slice
Message-at i m z v size =
    let group : (bytes_of i ++ m) ++ z ≡ bytes_of i ++ (m ++ z) = append_assoc (bytes_of i) m z in
    let long : length (bytes_of i ++ m) ≡ 1088 =
      omega (arith, length-append (bytes_of i) m, length-bytes_of i (IsInfo-HasLayout v)) in
    record {
      chunk =
          ap (take 1024) group
          ∙ take-append_length (bytes_of i) (m ++ z) 1024 (length-bytes_of i (IsInfo-HasLayout v));
      hash =
          ap (λ b. take 64 (drop 1024 b)) group
          ∙ ap (take 64) (
              drop-append_length (bytes_of i) (m ++ z) 1024
                (length-bytes_of i (IsInfo-HasLayout v)))
          ∙ take-append_length m z 64 size;
      read = ap read_record group ∙ read_record-bytes_of i (m ++ z) v;
      next = λ rest s h.
          let f = bytes_of i ++ m in
          ap (λ b. b ++ rest) (drop-append_length f z 1088 long)
          ∙ sym (drop-append_length f (z ++ rest) 1088 long)
          ∙ ap (drop 1088) (sym (append_assoc f z rest) ∙ h)
          ∙ drop-append_length f s 1088 long;
    }

-- What the inner loop leaves of a stream of which `buffer` has come in and `rest` has not.
record Taken (verify : Bytes → Bytes → Bool) (mac : Bytes → Bytes) (n : ℕ) (out : List PacketInfo)
    (buffer rest : Bytes) (is : List PacketInfo) : Type 0 where
  given : List PacketInfo
  left : Bytes
  later : List PacketInfo
  returns : take_messages verify n out buffer ≡ ret (true, given, left)
  order : out ++ is ≡ given ++ later
  small : length left < 1088
  valid : AllInfo later
  bytes : left ++ rest ≡ stream mac later

module _ (verify : Bytes → Bytes → Bool) (mac : Bytes → Bytes)
    (size : (b : Bytes) → length (mac b) ≡ 64)
    (accepts : (b : Bytes) → verify b (mac b) ≡ true) where
  take_messages-Taken :
      (n : ℕ) (out : List PacketInfo) (buffer rest : Bytes) (is : List PacketInfo)
      → AllInfo is
      → buffer ++ rest ≡ stream mac is
      → length buffer < n
      → Taken verify mac n out buffer rest is
  unfolding take_messages
  take_messages-Taken zero out buffer rest is v h enough = absurd (omega arith)
  take_messages-Taken (suc n) out buffer rest [] v h enough =
      let none_left : length buffer + length rest ≡ 0 =
        sym (length-append buffer rest) ∙ ap length h in
      let few : length buffer < 1088 = omega arith in
      record {
        given = out;
        left = buffer;
        later = [];
        returns = rw (lt→ltb (length buffer) 1088 few, take_messages) refl;
        order = refl;
        small = few;
        valid = v;
        bytes = h;
      }
  take_messages-Taken (suc n) out buffer rest (i ∷ is) (v, vs) h enough =
      elim (Bool-cases (ltb (length buffer) 1088)) [
        | inl few ↦ record {
          given = out;
          left = buffer;
          later = i ∷ is;
          returns = rw (few, take_messages) refl;
          order = refl;
          small = ltb→lt (length buffer) 1088 few;
          valid = (v, vs);
          bytes = h;
        }
        | inr full ↦
            let m = mac (bytes_of i) in
            let f = bytes_of i ++ m in
            let long : length f ≡ 1088 = omega (
              arith,
              length-append (bytes_of i) m,
              length-bytes_of i (IsInfo-HasLayout v),
              size (bytes_of i),
            ) in
            let there : buffer ≡ f ++ drop (length f) buffer =
              split_front buffer rest f (stream mac is) h
                (omega (arith, ltb→le (length buffer) 1088 full)) in
            let g : Message i m buffer =
              subst (Message i m) (sym there)
                (Message-at i m (drop (length f) buffer) v (size (bytes_of i))) in
            let t =
              take_messages-Taken n (out ++ (i ∷ [])) (drop 1088 buffer) rest is vs
                (g.next rest (stream mac is) h)
                (omega (arith, length-drop 1088 buffer, ltb→le (length buffer) 1088 full)) in
            record {
              given = t.given;
              left = t.left;
              later = t.later;
              returns =
                  rw (full, take_messages, g.chunk, g.hash, accepts (bytes_of i), g.read) t.returns;
              order = sym (append_assoc out (i ∷ []) is) ∙ t.order;
              small = t.small;
              valid = t.valid;
              bytes = t.bytes;
            }
      ]

  reads_in_order :
      (reads : List Bytes) (out : List PacketInfo) (buffer : Bytes) (is : List PacketInfo)
      → length buffer < 1088
      → AllReads reads
      → AllInfo is
      → buffer ++ concat reads ≡ stream mac is
      → handle_cpp_connection verify reads out buffer ≡ ret (true, out ++ is)
  unfolding handle_cpp_connection
  reads_in_order [] out buffer [] small r v h = ap (λ l. ret (true, l)) (sym (append-nil out))
  reads_in_order [] out buffer (i ∷ is) small r (v, vs) h =
      let m = mac (bytes_of i) in
      let e : length buffer + 0 ≡ length (bytes_of i ++ m) + length (stream mac is) =
        sym (length-append buffer [])
        ∙ ap length h
        ∙ length-append (bytes_of i ++ m) (stream mac is) in
      absurd (
        omega (
          arith,
          length-append (bytes_of i) m,
          length-bytes_of i (IsInfo-HasLayout v),
          size (bytes_of i),
        ))
  reads_in_order (read ∷ reads) out buffer is small (some_bytes, few, r) v h =
      let b = buffer ++ read in
      let grown : length b ≡ length buffer + length read = length-append buffer read in
      let not_end : (length read == 0) ≡ false = ground arith in
      let fits : ltb 2097152 (length b) ≡ false = le→ltb 2097152 (length b) (omega arith) in
      let t =
        take_messages-Taken (suc (length b)) out b (concat reads) is v
          (append_assoc buffer read (concat reads) ∙ h) (omega arith) in
      rw (not_end, handle_cpp_connection, fits, t.returns)
        (reads_in_order reads t.given t.left t.later t.small r t.valid t.bytes
          ∙ ap (λ l. ret (true, l)) (sym t.order))

  -- Where the HMACs have 64 bytes and the service accepts them, of a stream of records in the ranges
  -- of their types that comes in any reads, none of them empty and none above 64 KiB, the service
  -- gives out those records in their order, and the connection does not fail.
  pub handle_cpp_connection-stream :
      (reads : List Bytes) (is : List PacketInfo)
      → AllReads reads
      → AllInfo is
      → concat reads ≡ stream mac is
      → handle_cpp_connection verify reads [] [] ≡ ret (true, is)
  handle_cpp_connection-stream reads is r v h = reads_in_order reads [] [] is (omega arith) r v h
