-- ===== src/Capture/Returns/Lldp.antt =====
-- dissect_lldp: for which TLVs it returns.
use pacsni.Prelude.{
  ℕ, zero, suc, ◌+◌, ◌-◌, ◌/◌, ◌%◌, ◌^◌, ◌≤◌, ◌<◌, ◌≡◌, ◌∙◌, ◌⊎◌, ◌≢◌, refl, arith, replicate, Bool,
  true, not, ◌&&◌, ◌||◌, Bool-cases, inl, inr, ltb, leb, ◌==◌, if◌then◌else◌, min, ℤ, pos_part,
  length, length-set, get_or-set_self, Ensures, Ensures-bind, Next, Keeps, iterate-Ensures,
}
use pacsni.Memory.{Bytes, byte, slice, splice}
use pacsni.Memory.Laws.{word16, be16-eq-ret, wr-eq-ret, memcpy-eq-ret, length-memcpy}
use pacsni.Packet.{PacketInfo}
use pacsni.Packet.Info.{IsInfo}
use pacsni.Dissect.Info.{LldpState, copy_id, lldp_tlv, lldp_round, dissect_lldp}
use pacsni.Capture.Returns.Steps.{Returns, Returns-bind, snprintf-Returns, c_string-Returns}

-- No chassis or port TLV from offset `o` on has the length 0, of those that stand whole within the
-- first `l` bytes and before the end TLV.
unfoldable pub ids_filled : ℕ → Bytes → ℕ → ℕ → Bool
ids_filled zero p l o = true
ids_filled (suc f) p l o =
    let type = word16 p o / 2 ^ 9 in
    let len = word16 p o % 2 ^ 9 in
    let rest = ids_filled f p l (o + 2 + len) in
    if leb (o + 2) l && not (ltb l (o + 2 + len))
    then if type == 0 then true else not ((type == 1 || type == 2) && len == 0) && rest
    else true

-- A text in an array of 32 bytes.
abbrev IsText : Bytes → Type 0
IsText d = (length d ≡ 32) × (j : ℕ) × (j < 32) × (byte d j ≡ 0)

record IsNamed (i : PacketInfo) : Type 0 where
  chassis : IsText i.lldp_chassis
  port : IsText i.lldp_port
  room : length i.app_layer_info ≡ 128

copy_id-IsText :
    (d p : Bytes) (at len : ℕ)
    → length d ≡ 32
    → 0 < len
    → at + len ≤ length p + 1
    → Ensures (copy_id d p at len) IsText
unfolding copy_id
copy_id-IsText d p at len size some inside = elim (Bool-cases (len == 0)) [
  | inl empty ↦ ground arith
  | inr full ↦
      let n = min (len - 1) 31 in
      let read : at + n ≤ length p = omega arith in
      let write : 0 + n ≤ length d = omega arith in
      let same = length-memcpy d 0 p at n read write in
      let copied = splice d 0 (slice p at n) in
      rw (full, memcpy-eq-ret d 0 p at n read write, wr-eq-ret copied n 0 (omega arith))
        (
          length-set copied n 0 ∙ same ∙ size,
          n,
          omega arith,
          get_or-set_self copied n 0 0 (omega arith),
        )
]

module _ (p : Bytes) (l : ℕ) (inside : l ≤ length p) where
  record Inv (s : LldpState) : Type 0 where
    fuel : ℕ
    before : s.o ≤ l
    enough : l < s.o + fuel
    filled : ids_filled fuel p l s.o ≡ true
    named : IsNamed s.info

  abbrev Round : ℕ → Next LldpState PacketInfo → Type 0
  Round n = Keeps Inv IsNamed (λ s. l - s.o) n

  -- What the test says of a TLV that stands whole within the bytes.
  record Tlv (f o : ℕ) : Type 0 where
    full : (word16 p o / 2 ^ 9 ≡ 1) ⊎ (word16 p o / 2 ^ 9 ≡ 2) → 0 < word16 p o % 2 ^ 9
    rest : word16 p o / 2 ^ 9 ≢ 0 → ids_filled f p l (o + 2 + word16 p o % 2 ^ 9) ≡ true

  ids_filled-Tlv :
      (f o : ℕ) → o + 2 + word16 p o % 2 ^ 9 ≤ l → ids_filled (suc f) p l o ≡ true → Tlv f o
  unfolding ids_filled
  ids_filled-Tlv f o whole h = record { full = λ e. ground arith; rest = λ e. ground arith }

  lldp_tlv-Round :
      (s : LldpState) (f : ℕ)
      → s.o + 2 ≤ l
      → l < s.o + suc f
      → ids_filled (suc f) p l s.o ≡ true
      → IsNamed s.info
      → Ensures
          (lldp_tlv p l s.info (s.o + 2) (word16 p s.o / 2 ^ 9) (word16 p s.o % 2 ^ 9))
          (Round (l - s.o))
  unfolding lldp_tlv
  lldp_tlv-Round s f room enough filled named = elim (Bool-cases (ltb l (s.o + 2 + len))) [
    | inl cut ↦ rw cut named
    | inr whole ↦
        let fits : s.o + 2 + len ≤ l = ground arith in
        let t = ids_filled-Tlv f s.o fits filled in
        rw whole (elim (Bool-cases (type == 1)) [
          | inl chassis ↦ rw chassis (
              Ensures-bind IsText (Round (l - s.o)) _ _
                (copy_id-IsText s.info.lldp_chassis p (s.o + 2 + 1) len named.chassis.0
                  (t.full (inl (ground arith))) (omega arith))
                (λ d text. (
                  next fits (t.rest (ground arith))
                      (record { chassis = text; port = named.port; room = named.room }),
                  omega arith,
                )))
          | inr t₁ ↦ rw t₁ (elim (Bool-cases (type == 2)) [
            | inl port ↦ rw port (
                Ensures-bind IsText (Round (l - s.o)) _ _
                  (copy_id-IsText s.info.lldp_port p (s.o + 2 + 1) len named.port.0
                    (t.full (inr (ground arith))) (omega arith))
                  (λ d text. (
                    next fits (t.rest (ground arith))
                        (record { chassis = named.chassis; port = text; room = named.room }),
                    omega arith,
                  )))
            | inr t₂ ↦ rw t₂ (elim (Bool-cases (type == 0)) [
              | inl end ↦ rw end named
              | inr other ↦ rw other (next fits (t.rest (ground arith)) named, omega arith)
            ])
          ])
        ])
  ]
    where
      type : ℕ
      type = word16 p s.o / 2 ^ 9

      len : ℕ
      len = word16 p s.o % 2 ^ 9

      next :
          {i : PacketInfo}
          → s.o + 2 + len ≤ l
          → ids_filled f p l (s.o + 2 + len) ≡ true
          → IsNamed i
          → Inv (record { o = s.o + 2 + len; info = i })
      next fits rest n = record {
        fuel = f;
        before = fits;
        enough = omega arith;
        filled = rest;
        named = n;
      }

  lldp_round-Round : (s : LldpState) → Inv s → Ensures (lldp_round p l s) (Round (l - s.o))
  unfolding lldp_round
  lldp_round-Round s v = elim (Bool-cases (leb (s.o + 2) l)) [
    | inl go ↦
        rw (go, be16-eq-ret p s.o (ground arith)) (tlv v.fuel v.enough v.filled (ground arith))
    | inr stop ↦ rw stop v.named
  ]
    where
      tlv :
          (f : ℕ)
          → l < s.o + f
          → ids_filled f p l s.o ≡ true
          → s.o + 2 ≤ l
          → Ensures
              (lldp_tlv p l s.info (s.o + 2) (word16 p s.o / 2 ^ 9) (word16 p s.o % 2 ^ 9))
              (Round (l - s.o))
      tlv zero e h room = absurd (omega arith)
      tlv (suc f) e h room = lldp_tlv-Round s f room e h v.named

pub dissect_lldp-Returns :
    (p : Bytes) (l : ℤ) (i : PacketInfo)
    → pos_part l ≤ length p
    → ids_filled (pos_part l + 1) p (pos_part l) 0 ≡ true
    → IsInfo i
    → i.lldp_chassis ≡ replicate 32 0
    → i.lldp_port ≡ replicate 32 0
    → Returns (dissect_lldp p l i)
unfolding dissect_lldp
dissect_lldp-Returns p l i inside filled v chassis port =
    Ensures-bind IsNamed (λ _. Unit {0}) _ _
      (iterate-Ensures (Inv p (pos_part l) inside) IsNamed (λ s. pos_part l - s.o)
        (lldp_round p (pos_part l)) (lldp_round-Round p (pos_part l) inside) (pos_part l + 1)
        (record { o = 0; info = i }) (omega arith)
        (record {
          fuel = pos_part l + 1;
          before = omega arith;
          enough = omega arith;
          filled = filled;
          named = record {
            chassis = (v.lldp_chassis, 0, omega arith, rw chassis refl);
            port = (v.lldp_port, 0, omega arith, rw port refl);
            room = v.app_layer_info;
          };
        }))
      (λ j n.
        let (a, b, c, d) = n.chassis in
        let (e, f, g, h) = n.port in
        let r = n.room in
        Returns-bind _ _ (c_string-Returns j.lldp_chassis b (omega arith) d) (λ text.
          Returns-bind _ _ (c_string-Returns j.lldp_port f (omega arith) h) (λ other.
            Returns-bind _ _ (snprintf-Returns j.app_layer_info 0 128 _ (omega arith))
              (λ shown. tt))))
