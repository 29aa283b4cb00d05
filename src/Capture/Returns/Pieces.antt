-- ===== src/Capture/Returns/Pieces.antt =====
-- The dissectors and statistics that write into the record: for which payloads they return.
use pacsni.Prelude.{
  ℕ, zero, suc, ◌+◌, ◌-◌, ◌≤◌, ◌<◌, ◌≡◌, ◌∙◌, refl, arith, bit_and, not, false, ◌&&◌, Bool-cases,
  inl, inr, leb, ◌==◌, List, replicate, ℤ, pos_part, ltb_int, length, length-set, length-replicate,
  Ensures, Ensures-bind, ret, ◌>>=◌,
}
use pacsni.Memory.{Bytes, AllBytes, byte, u32, snprintf}
use pacsni.Memory.Laws.{Ended, rd-eq-ret, wr-eq-ret, byte-lt, snprintf-Ensures}
use pacsni.Packet.{PacketInfo, TransportInfo}
use pacsni.Packet.Info.{IsInfo}
use pacsni.Dissect.TcpOptions.{parse_tcp_options_extended, check_tcp_anomalies}
use pacsni.Dissect.TcpOptions.Safe.{SameOutside, parse_tcp_options_extended-Ensures}
use pacsni.Dissect.Info.{dissect_ntp, dissect_ntp_core, dissect_igmp, dissect_vxlan}
use pacsni.Dissect.Stats.{StatsState, count_byte, stats_loop, calculate_byte_stats}
use pacsni.Capture.Entropy.{Floats, histogram, calculate_entropy_scaled}
use pacsni.Capture.Returns.Steps.{
  Returns, Returns-Ensures, Returns-bind, choose, rd-Returns, memcpy-Returns, snprintf-Returns,
  strlen-Ensures,
}

module _ (p : Bytes) (l : ℤ) (i : PacketInfo) (readable : pos_part l ≤ length p)
    (v : IsInfo i) where
  pub dissect_vxlan-Returns : Returns (dissect_vxlan p l i)
  unfolding dissect_vxlan
  dissect_vxlan-Returns =
      choose (ltb_int l 8) _ _ (λ _. tt)
        (λ long. rd-Returns p 4 _ (ground arith) (λ a. rd-Returns p 5 _ (ground arith) (λ b.
          rd-Returns p 6 _ (ground arith) (λ c.
            Returns-bind _ _
              (snprintf-Returns i.app_layer_info 0 128 _ (omega (arith, v.app_layer_info)))
              (λ text. tt)))))

  pub dissect_igmp-Returns : Returns (dissect_igmp p l i)
  unfolding dissect_igmp
  dissect_igmp-Returns =
      choose (ltb_int l 8) _ _ (λ _. tt)
        (λ long. rd-Returns p 0 _ (ground arith) (λ t.
          Returns-bind _ _
            (memcpy-Returns i.igmp_group 0 p 4 4 (ground arith) (omega (arith, v.igmp_group)))
            (λ group.
              Returns-bind _ _ (snprintf-Returns i.extra_info 0 128 _ (omega (arith, v.extra_info)))
                (λ text. tt))))

  -- There is a text when the payload is long enough for the second to read it.
  abbrev Told : PacketInfo → Type 0
  Told j = ltb_int l 48 ≡ false → Ended i.app_layer_info 128 j.app_layer_info

  dissect_ntp-Told : Ensures (dissect_ntp p l i) Told
  unfolding dissect_ntp
  dissect_ntp-Told = elim (Bool-cases (ltb_int l 48)) [
    | inl short ↦ rw short (λ long. ground arith)
    | inr long ↦
        rw (long, rd-eq-ret p 0 (ground arith), rd-eq-ret p 1 (ground arith))
          (Ensures-bind (Ended i.app_layer_info 128) Told _ _
            (snprintf-Ensures i.app_layer_info 128 _ (omega arith)
              (omega (arith, v.app_layer_info)))
            (λ text ended _. ended))
  ]

  dissect_ntp_core-Returns : (j : PacketInfo) → Told j → Returns (dissect_ntp_core p l j)
  unfolding dissect_ntp_core
  dissect_ntp_core-Returns j told =
      choose (ltb_int l 48) _ _ (λ _. tt)
        (λ long.
          let (size, (k, room, end)) = told long in
          let s = v.app_layer_info in
          rd-Returns p 0 _ (ground arith) (λ first. rd-Returns p 1 _ (ground arith) (λ stratum.
            Ensures-bind (λ n. n ≤ k) (λ _. Unit {0}) _ _
              (strlen-Ensures j.app_layer_info k (omega arith) end)
              (λ n b.
                Returns-bind _ _ (snprintf-Returns j.app_layer_info n (128 - n) _ (omega arith))
                  (λ text. tt)))))

  pub dissect_ntp-Returns : Returns (dissect_ntp p l i >>= (λ j. dissect_ntp_core p l j))
  dissect_ntp-Returns =
      Ensures-bind Told (λ _. Unit {0}) _ _ dissect_ntp-Told dissect_ntp_core-Returns

pub check_tcp_anomalies-Returns :
    (i : PacketInfo) (t : TransportInfo) → IsInfo i → Returns (check_tcp_anomalies i t)
unfolding check_tcp_anomalies
check_tcp_anomalies-Returns i t v =
    choose (t.window == 0 && not (bit_and t.flags 0x10 == 0) && not (not (bit_and t.flags 7 == 0)))
      _ _ (λ _. reported _)
      (λ _.
        choose
          (i.payload_len == 1 && u32 (t.seq + 1) == i.tcp_seq && not (not (bit_and t.flags 7 == 0)))
          _ _ (λ _. reported _) (λ _. tt))
  where
    reported :
        (text : Bytes)
        → Returns (snprintf i.extra_info 0 128 text >>= (λ r. ret (record i { extra_info = r })))
    reported text =
        Returns-bind _ _ (snprintf-Returns i.extra_info 0 128 text (omega (arith, v.extra_info)))
          (λ r. tt)

-- A header of at most 20 bytes has no options; a longer one must lie inside of the array.
pub parse_tcp_options_extended-Returns :
    (p : Bytes) (o h : ℕ) (i : PacketInfo)
    → (20 < h → o + h ≤ length p)
    → IsInfo i
    → Returns (parse_tcp_options_extended p o h i)
unfolding parse_tcp_options_extended
parse_tcp_options_extended-Returns p o h i inside v = elim (Bool-cases (leb h 20)) [
  | inl plain ↦ rw plain tt
  | inr more ↦
      Returns-Ensures (SameOutside i) _
        (parse_tcp_options_extended-Ensures p o h i (inside (ground arith)) v.tcp_sack_edges)
]

abbrev Counts : StatsState → Type 0
Counts s = length s.counts ≡ 256

module _ (p : Bytes) (all : AllBytes p) where
  count_byte-Counts :
      (b : ℕ) (s : StatsState) → b < 256 → Counts s → Ensures (count_byte b s) Counts
  unfolding count_byte
  count_byte-Counts b s h c =
      rw
        (
          rd-eq-ret s.counts b (omega arith),
          wr-eq-ret s.counts b (u32 (byte s.counts b + 1)) (omega arith),
        )
        (ground (arith, length-set s.counts b (u32 (byte s.counts b + 1))))

  stats_loop-Counts :
      (n j : ℕ) (s : StatsState) → j + n ≤ length p → Counts s → Ensures (stats_loop n p j s) Counts
  unfolding stats_loop
  stats_loop-Counts zero j s h c = c
  stats_loop-Counts (suc n) j s h c = rw (rd-eq-ret p j (omega arith)) (
      Ensures-bind Counts Counts _ _ (count_byte-Counts (byte p j) s (byte-lt p j all) c)
        (λ s' c'. stats_loop-Counts n (j + 1) s' (omega arith) c'))

  pub calculate_byte_stats-Returns :
      (l : ℤ) (i : PacketInfo) → pos_part l ≤ length p → Returns (calculate_byte_stats p l i)
  unfolding calculate_byte_stats
  calculate_byte_stats-Returns l i h =
      choose (ltb_int l 1) _ _ (λ _. tt)
        (λ some.
          Returns-bind _ _
            (Returns-Ensures Counts _ (stats_loop-Counts (pos_part l) 0 _ (omega arith) refl))
            (λ s. tt))

  histogram-Returns :
      (n j : ℕ) (f : List ℕ) → j + n ≤ length p → length f ≡ 256 → Returns (histogram n p j f)
  unfolding histogram
  histogram-Returns zero j f h c = tt
  histogram-Returns (suc n) j f h c =
      let b = byte p j in
      let small = byte-lt p j all in
      rw
        (
          rd-eq-ret p j (omega arith),
          rd-eq-ret f b (omega arith),
          wr-eq-ret f b (byte f b + 1) (omega arith),
        )
        (histogram-Returns n (j + 1) _ (omega arith) (length-set f b (byte f b + 1) ∙ c))

  pub calculate_entropy_scaled-Returns :
      (F : Floats) (l : ℤ) → pos_part l ≤ length p → Returns (calculate_entropy_scaled F p l)
  unfolding calculate_entropy_scaled
  calculate_entropy_scaled-Returns F l h =
      choose (ltb_int l 1) _ _ (λ _. tt)
        (λ some.
          Returns-bind (histogram (pos_part l) p 0 (replicate 256 0)) _
            (histogram-Returns (pos_part l) 0 (replicate 256 0) (omega arith)
              (length-replicate {A = ℕ} 256 0))
            (λ counts. tt))
