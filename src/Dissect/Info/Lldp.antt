-- ===== src/Dissect/Info/Lldp.antt =====
-- dissect_lldp: a chassis or port TLV with no value makes it copy 2 ^ 64 - 1 bytes; all else stays
-- inside of the frame.
use pacsni.Prelude.{
  ℕ, ◌+◌, ◌-◌, ◌*◌, ◌^◌, ◌≤◌, ◌<◌, ◌≡◌, ◌⊎◌, inl, inr, le→ltb, le→leb, arith, length, pos, fault,
  iterate-fault,
}
use pacsni.Memory.{Bytes}
use pacsni.Memory.Laws.{word16, be16-eq-ret, memcpy-eq-fault}
use pacsni.Packet.{PacketInfo}
use pacsni.Dissect.Info.{copy_id, lldp_tlv, lldp_round, dissect_lldp}

module _ (p : Bytes) (l : ℕ) (i : PacketInfo) (two : 2 ≤ l) (fits : l ≤ length p)
    (small : length p < 2 ^ 64 - 1) where
  -- The first round, at a TLV of type 1 or 2 and of length 0.
  lldp_round-fault :
      (word16 p 0 ≡ 1 * 2 ^ 9) ⊎ (word16 p 0 ≡ 2 * 2 ^ 9)
      → lldp_round p l (record { o = 0; info = i }) ≡ fault
  unfolding lldp_round lldp_tlv copy_id
  lldp_round-fault (inl e) = rw (
    le→leb (0 + 2) l two,
    be16-eq-ret p 0 (omega arith),
    e,
    le→ltb l (0 + 2 + 0) two,
    memcpy-eq-fault i.lldp_chassis 0 p (0 + 2 + 1) (2 ^ 64 - 1) (omega arith),
  )
  lldp_round-fault (inr e) = rw (
    le→leb (0 + 2) l two,
    be16-eq-ret p 0 (omega arith),
    e,
    le→ltb l (0 + 2 + 0) two,
    memcpy-eq-fault i.lldp_port 0 p (0 + 2 + 1) (2 ^ 64 - 1) (omega arith),
  )

  -- Of at least two bytes that are in an array of less than 2 ^ 64 - 1, and whose first TLV is a
  -- chassis (type 1) or a port (type 2) identifier of length 0: the size of the copy is -1, and
  -- dissect_lldp runs out of the array.
  pub dissect_lldp-fault :
      (word16 p 0 ≡ 1 * 2 ^ 9) ⊎ (word16 p 0 ≡ 2 * 2 ^ 9) → dissect_lldp p (pos l) i ≡ fault
  unfolding dissect_lldp
  dissect_lldp-fault e =
      rw (iterate-fault (lldp_round p l) (l + 1) _ (omega arith) (lldp_round-fault e))
