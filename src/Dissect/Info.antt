-- ===== src/Dissect/Info.antt =====
-- dissect_ntp, dissect_ntp_core, dissect_lldp, dissect_igmp and dissect_vxlan of
-- cpp/protocol_dissectors.cpp, which write into the packet's record.
pub mod Lldp
use pacsni.Prelude.{
  ℕ, zero, suc, ◌^◌, ◌*◌, ◌+◌, ◌%◌, ◌/◌, ◌-◌, Bool, true, false, min, ltb, leb, ◌==◌, if◌then◌else◌,
  List, [], ◌∷◌, ◌++◌, get_or, ℤ, pos_part, ltb_int, Exec, ret, ◌>>=◌, Next, again, done, iterate,
}
use pacsni.Memory.{Bytes, byte, codes, decimal, rd, be16, wr, memcpy, strlen, c_string, snprintf}
use pacsni.Packet.{PacketInfo}

abbrev pub ntp_modes : List Bytes
ntp_modes =
    codes "Res"
    ∷ codes "SymA"
    ∷ codes "SymP"
    ∷ codes "Cli"
    ∷ codes "Srv"
    ∷ codes "Bcast"
    ∷ codes "Ctrl"
    ∷ codes "Priv"
    ∷ []

unfoldable pub dissect_ntp : Bytes → ℤ → PacketInfo → Exec PacketInfo
dissect_ntp p l i = if ltb_int l 48 then ret i else do
  first ← rd p 0
  stratum ← rd p 1
  let mode = first % 8
  let name = get_or ntp_modes (mode % 8) []
  text ←
      snprintf i.app_layer_info 0 128
        (codes "NTP " ++ (name ++ (codes " (Stratum " ++ (decimal stratum ++ codes ")"))))
  ret (record i { ntp_mode = mode; ntp_stratum = stratum; app_layer_info = text })

unfoldable pub dissect_ntp_core : Bytes → ℤ → PacketInfo → Exec PacketInfo
dissect_ntp_core p l i = if ltb_int l 48 then ret i else do
  first ← rd p 0
  stratum ← rd p 1
  let name = get_or ntp_modes (first % 8 % 8) []
  n ← strlen i.app_layer_info
  text ←
      snprintf i.app_layer_info n (128 - n)
        (codes " [Mode: " ++ (name ++ (codes ", Stratum: " ++ (decimal stratum ++ codes "]"))))
  ret (record i { app_layer_info = text })

-- `int sl = std::min((int)len - 1, 31); memcpy(d, p + at, sl); d[sl] = '\0';`. At `len` 0 the size is
-- -1, which is 2 ^ 64 - 1 as a size_t.
unfoldable pub copy_id : Bytes → Bytes → ℕ → ℕ → Exec Bytes
copy_id d p at len =
    if len == 0
    then memcpy d 0 p at (2 ^ 64 - 1)
    else memcpy d 0 p at (min (len - 1) 31) >>= (λ d'. wr d' (min (len - 1) 31) 0)

-- The variables `o` and `i`.
pub record LldpState : Type 0 where
  pub o : ℕ
  pub info : PacketInfo

-- The part of a round behind the read of a TLV's head: its value begins at `at`.
unfoldable pub lldp_tlv : Bytes → ℕ → PacketInfo → ℕ → ℕ → ℕ → Exec (Next LldpState PacketInfo)
lldp_tlv p l i at type len =
    if ltb l (at + len)
    then ret (done i)
    else if type == 1
    then copy_id i.lldp_chassis p (at + 1) len
      >>= (λ d. ret (again (record { o = at + len; info = record i { lldp_chassis = d } })))
    else if type == 2
    then copy_id i.lldp_port p (at + 1) len
      >>= (λ d. ret (again (record { o = at + len; info = record i { lldp_port = d } })))
    else if type == 0
    then ret (done i)
    else ret (again (record { o = at + len; info = i }))

-- A round of the loop over the TLVs.
unfoldable pub lldp_round : Bytes → ℕ → LldpState → Exec (Next LldpState PacketInfo)
lldp_round p l s =
    if leb (s.o + 2) l
    then be16 p s.o >>= (λ tlv. lldp_tlv p l s.info (s.o + 2) (tlv / 2 ^ 9) (tlv % 2 ^ 9))
    else ret (done s.info)

unfoldable pub dissect_lldp : Bytes → ℤ → PacketInfo → Exec PacketInfo
dissect_lldp p l i = do
  j ← iterate (pos_part l + 1) (lldp_round p (pos_part l)) (record { o = 0; info = i })
  chassis ← c_string j.lldp_chassis
  port ← c_string j.lldp_port
  text ← snprintf j.app_layer_info 0 128 (codes "LLDP " ++ (chassis ++ (codes "/" ++ port)))
  ret (record j { app_layer_info = text })

abbrev pub igmp_name : ℕ → Bytes
igmp_name t =
    if t == 0x11
    then codes "Query"
    else if t == 0x12
    then codes "v1 Report"
    else if t == 0x16
    then codes "v2 Report"
    else if t == 0x17
    then codes "v2 Leave"
    else if t == 0x22
    then codes "v3 Report"
    else codes "?"

-- `%u.%u.%u.%u` of the four bytes.
abbrev pub dotted_quad : Bytes → Bytes
dotted_quad g =
    decimal (byte g 0)
    ++ (codes "."
        ++ (decimal (byte g 1)
            ++ (codes "." ++ (decimal (byte g 2) ++ (codes "." ++ decimal (byte g 3))))))

unfoldable pub dissect_igmp : Bytes → ℤ → PacketInfo → Exec PacketInfo
dissect_igmp p l i = if ltb_int l 8 then ret i else do
  t ← rd p 0
  group ← memcpy i.igmp_group 0 p 4 4
  text ←
      snprintf i.extra_info 0 128
        (codes "IGMP " ++ (igmp_name t ++ (codes " Group " ++ dotted_quad group)))
  ret (record i { igmp_type = t; igmp_group = group; extra_info = text })

-- The bytes are shifted to places of their own, where `|` is a sum.
unfoldable pub dissect_vxlan : Bytes → ℤ → PacketInfo → Exec PacketInfo
dissect_vxlan p l i = if ltb_int l 8 then ret i else do
  a ← rd p 4
  b ← rd p 5
  c ← rd p 6
  let vni = a * 2 ^ 16 + b * 2 ^ 8 + c
  text ← snprintf i.app_layer_info 0 128 (codes "VXLAN VNI: " ++ decimal vni)
  ret (record i { vxlan_vni = vni; app_layer_info = text })
