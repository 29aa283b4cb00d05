-- ===== src/Capture/Options/Same.antt =====
-- parse_tcp_options finds what parse_tcp_options_extended finds.
use pacsni.Prelude.{
  ℕ, ◌+◌, ◌-◌, ◌*◌, ◌/◌, ◌≤◌, ◌<◌, min, ◌≡◌, ◌∙◌, refl, sym, ◌&&◌, ◌||◌, false, Bool-cases, inl,
  inr, ltb, leb, ◌==◌, if◌then◌else◌, arith, length, Next, Both, Both-bind, InStep, iterate-Both,
}
use mathlib.Core.Path.{subst}
use pacsni.Memory.{Bytes}
use pacsni.Memory.Laws.{rd-eq-ret, be16-eq-ret, be32-eq-ret, memcpy-eq-ret, length-memcpy}
use pacsni.Packet.{PacketInfo, TransportInfo}
use pacsni.Dissect.TcpOptions.{
  OptionsState, apply_option, sized_option, option_kind, options_round, parse_tcp_options_extended,
}
use pacsni.Capture.Options.{
  OptionCursor, take_option, length_step, kind_step, option_step, parse_tcp_options,
}

-- The two variables hold the same maximum segment size, window scale and mark of the
-- authentication option.
pub record SameOptions (t : TransportInfo) (i : PacketInfo) : Type 0 where
  pub mss : t.mss ≡ i.tcp_mss
  pub ws : t.ws ≡ i.tcp_ws
  pub has_ao : (if t.has_ao then 1 else 0) ≡ i.has_tcp_ao
  pub edges : length i.tcp_sack_edges ≡ 32

options_lem :
    (p : Bytes) (at kind l : ℕ) (t : TransportInfo) (i : PacketInfo)
    → 2 ≤ l
    → at + l ≤ length p
    → SameOptions t i
    → Both SameOptions (take_option p at kind l t) (apply_option p at kind l i)
unfolding take_option apply_option
options_lem p at kind l t i two inside same = elim (Bool-cases (kind == 2 && l == 4)) [
  | inl mss ↦
      rw (mss, be16-eq-ret p (at + 2) (ground arith))
        (record { mss = refl; ws = same.ws; has_ao = same.has_ao; edges = same.edges })
  | inr t₁ ↦ rw t₁ (elim (Bool-cases (kind == 3 && l == 3)) [
    | inl ws ↦
        rw (ws, rd-eq-ret p (at + 2) (ground arith))
          (record { mss = same.mss; ws = refl; has_ao = same.has_ao; edges = same.edges })
    | inr t₂ ↦ rw t₂ (elim (Bool-cases (kind == 29)) [
      | inl ao ↦
          let no_sack : (kind == 4 && l == 2) ≡ false = ground arith in
          let no_blocks : (kind == 5 && leb 10 l) ≡ false = ground arith in
          let no_stamps : (kind == 8 && l == 10) ≡ false = ground arith in
          rw (ao, no_sack, no_blocks, no_stamps)
            (record { mss = same.mss; ws = same.ws; has_ao = refl; edges = same.edges })
      | inr other ↦ rw other (elim (Bool-cases (kind == 4 && l == 2)) [
        | inl sack ↦
            rw sack
              (record { mss = same.mss; ws = same.ws; has_ao = same.has_ao; edges = same.edges })
        | inr t₃ ↦ rw t₃ (elim (Bool-cases (kind == 5 && leb 10 l)) [
          | inl blocks ↦
              let n = min ((l - 2) / 8) 4 * 8 in
              let read : at + 2 + n ≤ length p = omega arith in
              let write : 0 + n ≤ length i.tcp_sack_edges = omega (arith, same.edges) in
              rw (blocks, memcpy-eq-ret i.tcp_sack_edges 0 p (at + 2) n read write)
                (record {
                  mss = same.mss;
                  ws = same.ws;
                  has_ao = same.has_ao;
                  edges = length-memcpy i.tcp_sack_edges 0 p (at + 2) n read write ∙ same.edges;
                })
          | inr t₄ ↦ rw t₄ (elim (Bool-cases (kind == 8 && l == 10)) [
            | inl stamps ↦
                rw
                  (
                    stamps,
                    be32-eq-ret p (at + 2) (ground arith),
                    be32-eq-ret p (at + 6) (ground arith),
                  )
                  (record {
                    mss = same.mss;
                    ws = same.ws;
                    has_ao = same.has_ao;
                    edges = same.edges;
                  })
            | inr none ↦ rw none same
          ])
        ])
      ])
    ])
  ])
]

module _ (p : Bytes) (base len : ℕ) (inside : base + len ≤ length p) where
  record Joint (s : OptionCursor) (o : OptionsState) : Type 0 where
    place : o.k ≡ s.i
    same : SameOptions s.t_info o.info

  abbrev Step : ℕ → Next OptionCursor TransportInfo → Next OptionsState PacketInfo → Type 0
  Step = InStep Joint SameOptions (λ s. len - s.i)

  length_step_lem :
      (s : OptionCursor) (i : PacketInfo) (kind l : ℕ)
      → s.i < len
      → SameOptions s.t_info i
      → Both
          (Step (len - s.i))
          (length_step p base len s kind l)
          (sized_option p base len (record { k = s.i; info = i }) kind l)
  unfolding length_step sized_option
  length_step_lem s i kind l h same = elim (Bool-cases (ltb l 2 || ltb len (s.i + l))) [
    | inl bad ↦ rw bad same
    | inr good ↦
        let fits : (2 ≤ l) × (s.i + l ≤ len) = ground arith in
        rw good (
          Both-bind SameOptions (Step (len - s.i)) _ _ _ _
            (options_lem p (base + s.i) kind l s.t_info i fits.0 (omega arith) same)
            (λ t' i' same'. (record { place = refl; same = same' }, omega arith)))
  ]

  kind_step_lem :
      (s : OptionCursor) (i : PacketInfo) (kind : ℕ)
      → s.i < len
      → SameOptions s.t_info i
      → Both
          (Step (len - s.i))
          (kind_step p base len s kind)
          (option_kind p base len (record { k = s.i; info = i }) kind)
  unfolding kind_step option_kind
  kind_step_lem s i kind h same = elim (Bool-cases (kind == 0)) [
    | inl end ↦ rw end same
    | inr more ↦ rw more (elim (Bool-cases (kind == 1)) [
      | inl nop ↦ rw nop (record { place = refl; same = same }, omega arith)
      | inr sized ↦ rw sized (elim (Bool-cases (leb len (s.i + 1))) [
        | inl cut ↦ rw cut same
        | inr room ↦
            rw (room, rd-eq-ret p (base + (s.i + 1)) (ground arith))
              (length_step_lem s i kind _ h same)
      ])
    ])
  ]

  option_step_same :
      (s : OptionCursor) (i : PacketInfo)
      → SameOptions s.t_info i
      → Both
          (Step (len - s.i))
          (option_step p base len s)
          (options_round p base len (record { k = s.i; info = i }))
  unfolding option_step options_round
  option_step_same s i same = elim (Bool-cases (ltb s.i len)) [
    | inl go ↦
        let h : s.i < len = ground arith in
        rw (go, rd-eq-ret p (base + s.i) (omega arith)) (kind_step_lem s i _ h same)
    | inr stop ↦ rw stop same
  ]

  option_step_lem :
      (s : OptionCursor) (o : OptionsState)
      → Joint s o
      → Both (Step (len - s.i)) (option_step p base len s) (options_round p base len o)
  option_step_lem s o j =
      let there : record { k = s.i; info = o.info } ≡ o =
        λ x. record { k = (sym j.place) x; info = o.info } in
      subst (λ o'. Both (Step (len - s.i)) (option_step p base len s) (options_round p base len o'))
        there (option_step_same s o.info j.same)

-- Where the TCP header of `h` bytes at `o` lies inside of the packet, and the array for the SACK edges
-- has 32 bytes, whatever the options are, parse_tcp_options and parse_tcp_options_extended both end,
-- and where their variables held the same maximum segment size, window scale and mark of the
-- authentication option, they do so afterwards.
pub parse_tcp_options-extended :
    (p : Bytes) (o h : ℕ) (t : TransportInfo) (i : PacketInfo)
    → o + h ≤ length p
    → SameOptions t i
    → Both SameOptions (parse_tcp_options p o h t) (parse_tcp_options_extended p o h i)
unfolding parse_tcp_options parse_tcp_options_extended
parse_tcp_options-extended p o h t i inside same = elim (Bool-cases (leb h 20)) [
  | inl plain ↦ rw plain same
  | inr more ↦ rw more (
      iterate-Both (Joint p (o + 20) (h - 20) (ground arith)) SameOptions (λ s. h - 20 - s.i)
        (option_step p (o + 20) (h - 20)) (options_round p (o + 20) (h - 20))
        (option_step_lem p (o + 20) (h - 20) (ground arith)) h (record { i = 0; t_info = t })
        (record { k = 0; info = i }) (ground arith) (record { place = refl; same = same }))
]
