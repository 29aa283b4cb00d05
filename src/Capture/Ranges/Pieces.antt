-- ===== src/Capture/Ranges/Pieces.antt =====
-- The ranges of the record's members, in the dissectors of cpp/protocol_dissectors.cpp that write
-- into it.
use pacsni.Prelude.{
  ℕ, ◌+◌, ◌-◌, ◌∙◌, arith, ltb_int, ltb, leb, not, ◌==◌, ◌&&◌, ◌||◌, bit_and, min, ℤ, pos_part,
  Gives, Gives-bind, Gives-then, Gives-mono, ret, ◌>>=◌, Exec, Next, Goes, iterate-Gives,
}
use pacsni.Memory.{Bytes, AllBytes, u32, rd, be16, strlen, c_string}
use pacsni.Packet.{PacketInfo, TransportInfo}
use pacsni.Packet.Info.{IsInfo}
use pacsni.Dissect.TcpOptions.{
  OptionsState, apply_option, sized_option, option_kind, options_round, parse_tcp_options_extended,
  check_tcp_anomalies,
}
use pacsni.Dissect.Info.{
  LldpState, copy_id, lldp_tlv, lldp_round, dissect_ntp, dissect_ntp_core, dissect_lldp,
  dissect_igmp, dissect_vxlan,
}
use pacsni.Capture.Ranges.Accesses.{
  snprintf-SameSize, memcpy-SameSize, wr-SameSize, SameSize, either, rd-then, be16-then, be32-then,
  sized-then,
}

-- A member that holds a text.
IsInfo-app_layer_info :
    (i : PacketInfo) (m : Exec Bytes)
    → IsInfo i
    → Gives m (SameSize i.app_layer_info)
    → Gives (m >>= (λ text. ret (record i { app_layer_info = text }))) IsInfo
IsInfo-app_layer_info i m v h = sized-then IsInfo i.app_layer_info m _ h (λ text s. ground arith)

pub IsInfo-extra_info :
    (i : PacketInfo) (m : Exec Bytes)
    → IsInfo i
    → Gives m (SameSize i.extra_info)
    → Gives (m >>= (λ text. ret (record i { extra_info = text }))) IsInfo
IsInfo-extra_info i m v h = sized-then IsInfo i.extra_info m _ h (λ text s. ground arith)

module _ (p : Bytes) (all : AllBytes p) where
  pub dissect_vxlan-IsInfo :
      (l : ℤ) (i : PacketInfo) → IsInfo i → Gives (dissect_vxlan p l i) IsInfo
  unfolding dissect_vxlan
  dissect_vxlan-IsInfo l i v = either IsInfo (ltb_int l 8) _ _ v (
      rd-then IsInfo p 4 all _ (λ a ha. rd-then IsInfo p 5 all _ (λ b hb.
        rd-then IsInfo p 6 all _ (λ c hc.
          sized-then IsInfo i.app_layer_info _ _ (snprintf-SameSize i.app_layer_info 0 128 _)
            (λ text s. ground arith)))))

  pub dissect_igmp-IsInfo : (l : ℤ) (i : PacketInfo) → IsInfo i → Gives (dissect_igmp p l i) IsInfo
  unfolding dissect_igmp
  dissect_igmp-IsInfo l i v = either IsInfo (ltb_int l 8) _ _ v (
      rd-then IsInfo p 0 all _ (λ t ht.
        sized-then IsInfo i.igmp_group _ _ (memcpy-SameSize i.igmp_group 0 p 4 4) (λ group g.
          sized-then IsInfo i.extra_info _ _ (snprintf-SameSize i.extra_info 0 128 _)
            (λ text s. ground arith))))

  pub dissect_ntp-IsInfo : (l : ℤ) (i : PacketInfo) → IsInfo i → Gives (dissect_ntp p l i) IsInfo
  unfolding dissect_ntp
  dissect_ntp-IsInfo l i v = either IsInfo (ltb_int l 48) _ _ v (
      rd-then IsInfo p 0 all _ (λ first hf. rd-then IsInfo p 1 all _ (λ stratum hs.
        sized-then IsInfo i.app_layer_info _ _ (snprintf-SameSize i.app_layer_info 0 128 _)
          (λ text s. ground arith))))

  pub dissect_ntp_core-IsInfo :
      (l : ℤ) (i : PacketInfo) → IsInfo i → Gives (dissect_ntp_core p l i) IsInfo
  unfolding dissect_ntp_core
  dissect_ntp_core-IsInfo l i v = either IsInfo (ltb_int l 48) _ _ v (
      rd-then IsInfo p 0 all _ (λ first hf. rd-then IsInfo p 1 all _ (λ stratum hs.
        Gives-bind IsInfo (strlen i.app_layer_info) _
          (λ n _. IsInfo-app_layer_info i _ v (snprintf-SameSize i.app_layer_info n (128 - n) _)))))

  apply_option-IsInfo :
      (at kind l : ℕ) (i : PacketInfo) → IsInfo i → Gives (apply_option p at kind l i) IsInfo
  unfolding apply_option
  apply_option-IsInfo at kind l i v =
      either IsInfo (kind == 2 && l == 4) _ _
        (be16-then IsInfo p (at + 2) all _ (λ x h. ground arith))
        (either IsInfo (kind == 3 && l == 3) _ _
          (rd-then IsInfo p (at + 2) all _ (λ x h. ground arith))
          (either IsInfo (kind == 4 && l == 2) _ _ (ground arith) (
            either IsInfo (kind == 5 && leb 10 l) _ _
              (sized-then IsInfo i.tcp_sack_edges _ _
                (memcpy-SameSize i.tcp_sack_edges 0 p (at + 2) _) (λ edges s. ground arith))
              (either IsInfo (kind == 8 && l == 10) _ _
                (be32-then IsInfo p (at + 2) all _
                  (λ x h. be32-then IsInfo p (at + 6) all _ (λ y g. ground arith)))
                (either IsInfo (kind == 29) _ _ (ground arith) v)))))

  abbrev OptionsGo : Next OptionsState PacketInfo → Type 0
  OptionsGo = Goes (λ s. IsInfo s.info) IsInfo

  sized_option-Goes :
      (base len : ℕ) (s : OptionsState) (kind l : ℕ)
      → IsInfo s.info
      → Gives (sized_option p base len s kind l) OptionsGo
  unfolding sized_option
  sized_option-Goes base len s kind l v = either OptionsGo (ltb l 2 || ltb len (s.k + l)) _ _ v (
      Gives-then IsInfo OptionsGo _ _ (apply_option-IsInfo (base + s.k) kind l s.info v) (λ i w. w))

  option_kind-Goes :
      (base len : ℕ) (s : OptionsState) (kind : ℕ)
      → IsInfo s.info
      → Gives (option_kind p base len s kind) OptionsGo
  unfolding option_kind
  option_kind-Goes base len s kind v = either OptionsGo (kind == 0) _ _ v (
      either OptionsGo (kind == 1) _ _ v (
        either OptionsGo (leb len (s.k + 1)) _ _ v (
          Gives-bind OptionsGo (rd p (base + (s.k + 1))) _
            (λ l _. sized_option-Goes base len s kind l v))))

  options_round-Goes :
      (base len : ℕ) (s : OptionsState)
      → IsInfo s.info
      → Gives (options_round p base len s) OptionsGo
  unfolding options_round
  options_round-Goes base len s v =
      either OptionsGo (ltb s.k len) _ _
        (Gives-bind OptionsGo (rd p (base + s.k)) _ (λ kind _. option_kind-Goes base len s kind v))
        v

  pub parse_tcp_options_extended-IsInfo :
      (o h : ℕ) (i : PacketInfo) → IsInfo i → Gives (parse_tcp_options_extended p o h i) IsInfo
  unfolding parse_tcp_options_extended
  parse_tcp_options_extended-IsInfo o h i v = either IsInfo (leb h 20) _ _ v (
      iterate-Gives (λ s. IsInfo s.info) IsInfo (options_round p (o + 20) (h - 20))
        (options_round-Goes (o + 20) (h - 20)) h (record { k = 0; info = i }) v)

pub check_tcp_anomalies-IsInfo :
    (i : PacketInfo) (t : TransportInfo) → IsInfo i → Gives (check_tcp_anomalies i t) IsInfo
unfolding check_tcp_anomalies
check_tcp_anomalies-IsInfo i t v =
    either IsInfo
      (t.window == 0 && not (bit_and t.flags 0x10 == 0) && not (not (bit_and t.flags 7 == 0))) _ _
      (IsInfo-extra_info i _ v (snprintf-SameSize i.extra_info 0 128 _))
      (either IsInfo
        (i.payload_len == 1 && u32 (t.seq + 1) == i.tcp_seq && not (not (bit_and t.flags 7 == 0))) _
        _ (IsInfo-extra_info i _ v (snprintf-SameSize i.extra_info 0 128 _)) v)

copy_id-SameSize : (d p : Bytes) (at len : ℕ) → Gives (copy_id d p at len) (SameSize d)
unfolding copy_id
copy_id-SameSize d p at len = either (SameSize d) (len == 0) _ _ (memcpy-SameSize d 0 p at _) (
    sized-then (SameSize d) d _ _ (memcpy-SameSize d 0 p at _) (λ e s.
      Gives-mono (SameSize e) (SameSize d) _ (wr-SameSize e (min (len - 1) 31) 0) (λ r t. t ∙ s)))

abbrev LldpGo : Next LldpState PacketInfo → Type 0
LldpGo = Goes (λ s. IsInfo s.info) IsInfo

lldp_tlv-Goes :
    (p : Bytes) (l : ℕ) (i : PacketInfo) (at type len : ℕ)
    → IsInfo i
    → Gives (lldp_tlv p l i at type len) LldpGo
unfolding lldp_tlv
lldp_tlv-Goes p l i at type len v = either LldpGo (ltb l (at + len)) _ _ v (
    either LldpGo (type == 1) _ _
      (sized-then LldpGo i.lldp_chassis _ _ (copy_id-SameSize i.lldp_chassis p (at + 1) len)
        (λ d s. ground arith))
      (either LldpGo (type == 2) _ _
        (sized-then LldpGo i.lldp_port _ _ (copy_id-SameSize i.lldp_port p (at + 1) len)
          (λ d s. ground arith))
        (either LldpGo (type == 0) _ _ v v)))

lldp_round-Goes :
    (p : Bytes) (l : ℕ) (s : LldpState) → IsInfo s.info → Gives (lldp_round p l s) LldpGo
unfolding lldp_round
lldp_round-Goes p l s v =
    either LldpGo (leb (s.o + 2) l) _ _
      (Gives-bind LldpGo (be16 p s.o) _ (λ tlv _. lldp_tlv-Goes p l s.info (s.o + 2) _ _ v)) v

pub dissect_lldp-IsInfo :
    (p : Bytes) (l : ℤ) (i : PacketInfo) → IsInfo i → Gives (dissect_lldp p l i) IsInfo
unfolding dissect_lldp
dissect_lldp-IsInfo p l i v =
    Gives-then IsInfo IsInfo _ _
      (iterate-Gives (λ s. IsInfo s.info) IsInfo (lldp_round p (pos_part l))
        (lldp_round-Goes p (pos_part l)) (pos_part l + 1) (record { o = 0; info = i }) v)
      (λ j w. Gives-bind IsInfo (c_string j.lldp_chassis) _ (λ chassis _.
        Gives-bind IsInfo (c_string j.lldp_port) _
          (λ port _. IsInfo-app_layer_info j _ w (snprintf-SameSize j.app_layer_info 0 128 _))))
