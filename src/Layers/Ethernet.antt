-- ===== src/Layers/Ethernet.antt =====
-- parse_ethernet_layer: it ends on every input, stays inside of the packet, and finds the tags.
use pacsni.Prelude.{
  ℕ, zero, suc, ◌+◌, ◌*◌, ◌^◌, ◌%◌, ◌≤◌, ◌<◌, ◌≡◌, refl, ap, true, false, Option, none, some, inl,
  inr, Bool-cases, arith, ltb, length, Ensures, Ensures-bind, Ends, Ends-bind, le→ltb, lt→ltb,
}
use pacsni.Memory.{Bytes, be16}
use pacsni.Memory.Laws.{word16, be16-eq-ret, be16-Ends, be16_bound}
use pacsni.Packet.{EthernetInfo}
use native.Mathlib.Decide.{dec_lt}
use pacsni.Layers.{is_vlan, more_tags, vlan_loop, parse_ethernet_layer}

-- What the loop knows after `tags` rounds.
pub record IsTagged (packet : Bytes) (caplen tags hlen etype v_id : ℕ) : Type 0 where
  pub len_is : hlen ≡ 14 + 4 * tags
  pub within : hlen ≤ caplen
  pub type_is : etype ≡ word16 packet (12 + 4 * tags)
  pub tagged : (j : ℕ) → j < tags → is_vlan (word16 packet (12 + 4 * j)) ≡ true
  pub untagged : tags ≡ 0 → v_id ≡ 0
  pub last_tag : (k : ℕ) → tags ≡ k + 1 → v_id ≡ word16 packet (14 + 4 * k) % 4096

-- The frame's header is 14 bytes and `tags` tags of four; the tag stack is not cut short, unless
-- the captured bytes end.
pub record IsEthernet (packet : Bytes) (caplen : ℕ) (e : EthernetInfo) : Type 0 where
  pub tags : ℕ
  pub header_is : e.header ≡ 0
  pub read : IsTagged packet caplen tags e.header_len e.ether_type e.vlan_id
  pub complete : is_vlan e.ether_type ≡ true → caplen < e.header_len + 4

abbrev pub EthernetResult : Bytes → ℕ → Option EthernetInfo → Type 0
EthernetResult packet caplen none = caplen < 14
EthernetResult packet caplen (some e) = (14 ≤ caplen) × IsEthernet packet caplen e

abbrev LoopResult : Bytes → ℕ → ℕ × ℕ × ℕ → Type 0
LoopResult packet caplen (hlen, etype, v_id) =
    (tags : ℕ) × IsTagged packet caplen tags hlen etype v_id
    × (is_vlan etype ≡ true → caplen < hlen + 4)

more_tags-true :
    (etype hlen caplen : ℕ)
    → hlen < 2 ^ 31
    → more_tags etype hlen caplen ≡ true
    → (is_vlan etype ≡ true) × (hlen + 4 ≤ caplen)
unfolding more_tags
more_tags-true etype hlen caplen small h = ground arith

more_tags-false :
    (etype hlen caplen : ℕ)
    → hlen < 2 ^ 31
    → more_tags etype hlen caplen ≡ false
    → is_vlan etype ≡ true
    → caplen < hlen + 4
unfolding more_tags
more_tags-false etype hlen caplen small h vlan = ground arith

module _ (packet : Bytes) (caplen : ℕ) (fits : caplen ≤ length packet)
    (small : caplen < 2 ^ 31) where
  IsTagged-next :
      {tags hlen etype v_id : ℕ}
      → hlen + 4 ≤ caplen
      → is_vlan etype ≡ true
      → IsTagged packet caplen tags hlen etype v_id
      → IsTagged packet caplen
          (tags + 1)
          (hlen + 4)
          (word16 packet (hlen + 2))
          (word16 packet hlen % 4096)
  IsTagged-next {tags} {hlen} {etype} {v_id} room vlan t = record {
    len_is = omega (arith, t.len_is);
    within = room;
    type_is = ap (word16 packet) (omega (arith, t.len_is));
    tagged = λ j h. elim (dec_lt j tags) [
      | yes old ↦ t.tagged j old
      | no new ↦ let last : j ≡ tags = omega arith in rw (last, ← t.type_is) vlan
    ];
    untagged = λ e. absurd (omega arith);
    last_tag = λ k e. ap (λ i. word16 packet i % 4096) (omega (arith, t.len_is));
  }

  vlan_loop_lem :
      (f hlen etype v_id tags : ℕ)
      → caplen < hlen + f
      → IsTagged packet caplen tags hlen etype v_id
      → Ensures (vlan_loop f packet caplen hlen etype v_id) (LoopResult packet caplen)
  unfolding vlan_loop
  vlan_loop_lem zero hlen etype v_id tags m t = absurd (omega (arith, t.within))
  vlan_loop_lem (suc f) hlen etype v_id tags m t = elim (Bool-cases (more_tags etype hlen caplen)) [
    | inl go ↦
        let (vlan, room) = more_tags-true etype hlen caplen (omega (arith, t.within)) go in
        rw
          (
            go,
            vlan_loop,
            be16-eq-ret packet hlen (omega arith),
            be16-eq-ret packet (hlen + 2) (omega arith),
          )
          (vlan_loop_lem f (hlen + 4) _ _ (tags + 1) (omega arith) (IsTagged-next room vlan t))
    | inr stop ↦
        rw (stop, vlan_loop)
          (tags, t, more_tags-false etype hlen caplen (omega (arith, t.within)) stop)
  ]

  -- Where the captured bytes are fewer than 2 ^ 31 and all in the array, parse_ethernet_layer reads
  -- nothing else, ends, and returns the frame's type, tag count and last VLAN id: the header is 14 bytes and four for each of the `tags` tags,
  -- every one of them a VLAN tag, and the type behind them is another or the captured bytes end.
  -- A packet of under 14 bytes is refused.
  pub parse_ethernet_layer_lem :
      Ensures (parse_ethernet_layer packet caplen) (EthernetResult packet caplen)
  unfolding parse_ethernet_layer
  parse_ethernet_layer_lem = elim (dec_lt caplen 14) [
    | yes short ↦ rw (lt→ltb caplen 14 short) short
    | no long ↦
        rw (le→ltb caplen 14 (omega arith), be16-eq-ret packet 12 (omega arith))
          (Ensures-bind (LoopResult packet caplen) (EthernetResult packet caplen) _ _
            (vlan_loop_lem (length packet + 1) 14 (word16 packet 12) 0 0 (omega arith)
              (start (omega arith)))
            (λ r (tags, t, c).
              (omega arith, record { tags = tags; header_is = refl; read = t; complete = c })))
  ]
    where
      start : 14 ≤ caplen → IsTagged packet caplen 0 14 (word16 packet 12) 0
      start long = record {
        len_is = refl;
        within = long;
        type_is = refl;
        tagged = λ j h. absurd (omega arith);
        untagged = λ _. refl;
        last_tag = λ k e. absurd (omega arith);
      }

vlan_loop-Ends :
    (f : ℕ) (packet : Bytes) (caplen hlen etype v_id : ℕ)
    → hlen ≤ length packet
    → length packet < hlen + f
    → Ends (vlan_loop f packet caplen hlen etype v_id)
unfolding vlan_loop
vlan_loop-Ends zero packet caplen hlen etype v_id inside m = absurd (omega arith)
vlan_loop-Ends (suc f) packet caplen hlen etype v_id inside m =
    elim (Bool-cases (more_tags etype hlen caplen)) [
      | inl go ↦
          rw (go, vlan_loop)
            (Ends-bind (be16 packet hlen) _ (be16-Ends packet hlen) (λ v _.
              Ends-bind (be16 packet (hlen + 2)) _ (be16-Ends packet (hlen + 2)) (λ t h.
                vlan_loop-Ends f packet caplen (hlen + 4) t (v % 4096)
                  (omega (arith, be16_bound packet (hlen + 2) h)) (omega arith))))
      | inr stop ↦ rw (stop, vlan_loop) tt
    ]

-- Whatever the captured length says, the loop over the tags ends: by its test, or by a read past
-- the end of the array.
pub parse_ethernet_layer-Ends :
    (packet : Bytes) (caplen : ℕ) → Ends (parse_ethernet_layer packet caplen)
unfolding parse_ethernet_layer
parse_ethernet_layer-Ends packet caplen = elim (Bool-cases (ltb caplen 14)) [
  | inl short ↦ rw short tt
  | inr long ↦ rw long (
      Ends-bind (be16 packet 12) _ (be16-Ends packet 12) (λ etype h.
        Ends-bind (vlan_loop (length packet + 1) packet caplen 14 etype 0) _
          (vlan_loop-Ends (length packet + 1) packet caplen 14 etype 0 (be16_bound packet 12 h)
            (omega arith))
          (λ _ _. tt)))
]
