-- ===== src/Send/Message.antt =====
-- The bytes that send_packet_info sends for a record.
use pacsni.Prelude.{
  ℕ, ◌+◌, ◌≡◌, refl, sym, ap, ◌∙◌, ◌++◌, length, length-append, length-replicate, length-drop, take,
  drop, replicate, take-append, take-eq_self, arith, ret, ◌>>=◌,
}
use pacsni.Memory.{Bytes, slice, splice, memcpy}
use pacsni.Memory.Laws.{memcpy-eq-ret, splice_end}
use pacsni.Packet.{PacketInfo}
use pacsni.Send.Layout.{bytes_of}
use pacsni.Packet.Info.{HasLayout}
use pacsni.Send.Layout.RoundTrip.{length-bytes_of}
use pacsni.Send.{combined}

slice-whole : (b : Bytes) (n : ℕ) → length b ≡ n → slice b 0 n ≡ b
unfolding slice
slice-whole b n e = take-eq_self n b (omega arith)

-- A copy to the front.
splice-front : (d b : Bytes) → splice d 0 b ≡ b ++ drop (0 + length b) d
unfolding splice
splice-front d b = refl

two_copies :
    (d b c : Bytes) (n m : ℕ)
    → length b ≡ n
    → length c ≡ m
    → length d ≡ n + m
    → (memcpy d 0 b 0 n >>= (λ e. memcpy e n c 0 m)) ≡ ret (b ++ c)
two_copies d b c n m hb hc hd =
    let there : 0 + length b ≡ n = omega arith in
    let front : splice d 0 (slice b 0 n) ≡ b ++ drop n d =
      ap (splice d 0) (slice-whole b n hb) ∙ splice-front d b ∙ ap (λ k. b ++ drop k d) there in
    let size : length (b ++ drop n d) ≡ n + m =
      omega (arith, length-append b (drop n d), length-drop n d) in
    let kept : take n (b ++ drop n d) ≡ b =
      ap (λ k. take k (b ++ drop n d)) (sym hb) ∙ take-append b (drop n d) in
    let back : splice (b ++ drop n d) n (slice c 0 m) ≡ b ++ c =
      ap (splice (b ++ drop n d) n) (slice-whole c m hc)
      ∙ splice_end (b ++ drop n d) n c (omega arith)
      ∙ ap (λ k. k ++ c) kept in
    rw (
      memcpy-eq-ret d 0 b 0 n (omega arith) (omega arith),
      front,
      memcpy-eq-ret (b ++ drop n d) n c 0 m (omega arith) (omega arith),
      back,
    )

-- What is sent is the record and the HMAC, which has 64 bytes.
pub combined_lem :
    (i : PacketInfo) (mac : Bytes)
    → HasLayout i
    → length mac ≡ 64
    → combined i mac ≡ ret (bytes_of i ++ mac)
unfolding combined
combined_lem i mac v h =
    ap (λ k. memcpy (replicate 1088 0) 0 (bytes_of i) 0 1024 >>= (λ d. memcpy d 1024 mac 0 k)) h
    ∙ two_copies (replicate 1088 0) (bytes_of i) mac 1024 64 (length-bytes_of i v) h
        (length-replicate {A = ℕ} 1088 0)
