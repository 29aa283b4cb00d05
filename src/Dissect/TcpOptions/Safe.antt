-- ===== src/Dissect/TcpOptions/Safe.antt =====
-- parse_tcp_options_extended reads only the option bytes, ends, and writes only the fields for
-- TCP options.
use pacsni.Prelude.{
  ℕ, ◌+◌, ◌-◌, ◌*◌, ◌/◌, ◌≤◌, ◌<◌, min, ◌≡◌, ◌∙◌, refl, ap, ◌&&◌, ◌||◌, Bool-cases, inl, inr, ltb,
  leb, ◌==◌, arith, length, Ensures, Ensures-bind, Next, Keeps, iterate-Ensures,
}
use pacsni.Memory.{Bytes}
use pacsni.Memory.Laws.{rd-eq-ret, be16-eq-ret, be32-eq-ret, memcpy-eq-ret, length-memcpy}
use pacsni.Packet.{PacketInfo}
use pacsni.Dissect.TcpOptions.{
  OptionsState, apply_option, sized_option, option_kind, options_round, parse_tcp_options_extended,
}

-- A record with the option members of another.
abbrev pub with_options : PacketInfo → PacketInfo → PacketInfo
with_options j i = record i {
  tcp_mss = j.tcp_mss;
  tcp_ws = j.tcp_ws;
  tcp_sack = j.tcp_sack;
  tcp_sack_edges = j.tcp_sack_edges;
  tcp_ts_val = j.tcp_ts_val;
  tcp_ts_ecr = j.tcp_ts_ecr;
  has_tcp_ao = j.has_tcp_ao;
}

-- All members but those for TCP options (segment size, window scale, SACK, its edges, timestamps and
-- the mark of the authentication option) are those of before, and the array for the edges has its
-- length.
abbrev pub SameOutside : PacketInfo → PacketInfo → Type 0
SameOutside i j = record { edges : length j.tcp_sack_edges ≡ 32; others : j ≡ with_options j i }

apply_option_lem :
    (p : Bytes) (at kind l : ℕ) (i : PacketInfo)
    → 2 ≤ l
    → at + l ≤ length p
    → length i.tcp_sack_edges ≡ 32
    → Ensures (apply_option p at kind l i) (SameOutside i)
unfolding apply_option
apply_option_lem p at kind l i two inside edges = elim (Bool-cases (kind == 2 && l == 4)) [
  | inl mss ↦
      rw (mss, be16-eq-ret p (at + 2) (ground arith)) (record { edges = edges; others = refl })
  | inr t₁ ↦ rw t₁ (elim (Bool-cases (kind == 3 && l == 3)) [
    | inl ws ↦
        rw (ws, rd-eq-ret p (at + 2) (ground arith)) (record { edges = edges; others = refl })
    | inr t₂ ↦ rw t₂ (elim (Bool-cases (kind == 4 && l == 2)) [
      | inl sack ↦ rw sack (record { edges = edges; others = refl })
      | inr t₃ ↦ rw t₃ (elim (Bool-cases (kind == 5 && leb 10 l)) [
        | inl blocks ↦
            let n = min ((l - 2) / 8) 4 * 8 in
            let read : at + 2 + n ≤ length p = omega arith in
            let write : 0 + n ≤ length i.tcp_sack_edges = omega arith in
            rw (blocks, memcpy-eq-ret i.tcp_sack_edges 0 p (at + 2) n read write)
              (record {
                edges = length-memcpy i.tcp_sack_edges 0 p (at + 2) n read write ∙ edges;
                others = refl;
              })
        | inr t₄ ↦ rw t₄ (elim (Bool-cases (kind == 8 && l == 10)) [
          | inl stamps ↦
              rw
                (
                  stamps,
                  be32-eq-ret p (at + 2) (ground arith),
                  be32-eq-ret p (at + 6) (ground arith),
                )
                (record { edges = edges; others = refl })
          | inr t₅ ↦ rw t₅ (elim (Bool-cases (kind == 29)) [
            | inl ao ↦ rw ao (record { edges = edges; others = refl })
            | inr other ↦ rw other same
          ])
        ])
      ])
    ])
  ])
]
  where
    same : SameOutside i i
    same = record { edges = edges; others = refl }

module _ (p : Bytes) (base len : ℕ) (i : PacketInfo) (inside : base + len ≤ length p) where
  abbrev Round : ℕ → Next OptionsState PacketInfo → Type 0
  Round n = Keeps (λ s. SameOutside i s.info) (SameOutside i) (λ s. len - s.k) n

  compose : (a b : PacketInfo) → SameOutside i a → SameOutside a b → SameOutside i b
  compose a b h g = record { edges = g.edges; others = g.others ∙ ap (with_options b) h.others }

  sized_option_lem :
      (s : OptionsState) (kind l : ℕ)
      → s.k < len
      → SameOutside i s.info
      → Ensures (sized_option p base len s kind l) (Round (len - s.k))
  unfolding sized_option
  sized_option_lem s kind l h t = elim (Bool-cases (ltb l 2 || ltb len (s.k + l))) [
    | inl bad ↦ rw bad t
    | inr good ↦
        let fits : (2 ≤ l) × (s.k + l ≤ len) = ground arith in
        rw good (
          Ensures-bind (SameOutside s.info) (Round (len - s.k)) _ _
            (apply_option_lem p (base + s.k) kind l s.info fits.0 (omega arith) t.edges)
            (λ j g. (compose s.info j t g, omega arith)))
  ]

  option_kind_lem :
      (s : OptionsState) (kind : ℕ)
      → s.k < len
      → SameOutside i s.info
      → Ensures (option_kind p base len s kind) (Round (len - s.k))
  unfolding option_kind
  option_kind_lem s kind h t = elim (Bool-cases (kind == 0)) [
    | inl end ↦ rw end t
    | inr more ↦ rw more (elim (Bool-cases (kind == 1)) [
      | inl nop ↦ rw nop (t, omega arith)
      | inr sized ↦ rw sized (elim (Bool-cases (leb len (s.k + 1))) [
        | inl cut ↦ rw cut t
        | inr room ↦
            rw (room, rd-eq-ret p (base + (s.k + 1)) (ground arith)) (sized_option_lem s kind _ h t)
      ])
    ])
  ]

  options_round_lem :
      (s : OptionsState)
      → SameOutside i s.info
      → Ensures (options_round p base len s) (Round (len - s.k))
  unfolding options_round
  options_round_lem s t = elim (Bool-cases (ltb s.k len)) [
    | inl go ↦
        let h : s.k < len = ground arith in
        rw (go, rd-eq-ret p (base + s.k) (omega arith)) (option_kind_lem s _ h t)
    | inr stop ↦ rw stop t
  ]

-- Where the TCP header of `h` bytes at `o` lies inside of the packet, whatever its options are,
-- parse_tcp_options_extended reads nothing else, ends, writes inside of `tcp_sack_edges`, whose length
-- it keeps, and leaves all members of the record but those for the segment size, the window scale,
-- SACK, its edges, the timestamps and the mark of the authentication option as they were.
pub parse_tcp_options_extended-Ensures :
    (p : Bytes) (o h : ℕ) (i : PacketInfo)
    → o + h ≤ length p
    → length i.tcp_sack_edges ≡ 32
    → Ensures (parse_tcp_options_extended p o h i) (SameOutside i)
unfolding parse_tcp_options_extended
parse_tcp_options_extended-Ensures p o h i inside edges = elim (Bool-cases (leb h 20)) [
  | inl plain ↦ rw plain same
  | inr more ↦ rw more (
      iterate-Ensures (λ s. SameOutside i s.info) (SameOutside i) (λ s. h - 20 - s.k)
        (options_round p (o + 20) (h - 20)) (options_round_lem p (o + 20) (h - 20) i (ground arith))
        h (record { k = 0; info = i }) (ground arith) same)
]
  where
    same : SameOutside i i
    same = record { edges = edges; others = refl }
