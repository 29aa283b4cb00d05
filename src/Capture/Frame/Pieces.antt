-- ===== src/Capture/Frame/Pieces.antt =====
-- The dissectors of cpp/protocol_dissectors.cpp that write into the record.
use pacsni.Prelude.{
  ℕ, ◌+◌, ◌-◌, Bool-cases, inl, inr, ltb, leb, ◌==◌, ◌||◌, ℤ, arith, pos_part, Gives, Gives-bind,
  Gives-then, Next, Goes, iterate-Gives,
}
use pacsni.Memory.{Bytes, rd, be16, c_string, snprintf}
use pacsni.Packet.{PacketInfo, TransportInfo}
use pacsni.Dissect.TcpOptions.{
  OptionsState, apply_option, sized_option, option_kind, options_round, parse_tcp_options_extended,
  check_tcp_anomalies,
}
use pacsni.Dissect.Info.{
  LldpState, lldp_tlv, lldp_round, dissect_ntp, dissect_ntp_core, dissect_lldp, dissect_igmp,
  dissect_vxlan,
}
use pacsni.Dissect.Stats.{calculate_byte_stats}
use pacsni.Capture.Frame.{SameFrame, same, compose}

pub dissect_vxlan-SameFrame :
    (p : Bytes) (l : ℤ) (i : PacketInfo) → Gives (dissect_vxlan p l i) (SameFrame i)
unfolding dissect_vxlan
dissect_vxlan-SameFrame p l i = ground arith

pub dissect_igmp-SameFrame :
    (p : Bytes) (l : ℤ) (i : PacketInfo) → Gives (dissect_igmp p l i) (SameFrame i)
unfolding dissect_igmp
dissect_igmp-SameFrame p l i = ground arith

pub dissect_ntp-SameFrame :
    (p : Bytes) (l : ℤ) (i : PacketInfo) → Gives (dissect_ntp p l i) (SameFrame i)
unfolding dissect_ntp
dissect_ntp-SameFrame p l i = ground arith

pub dissect_ntp_core-SameFrame :
    (p : Bytes) (l : ℤ) (i : PacketInfo) → Gives (dissect_ntp_core p l i) (SameFrame i)
unfolding dissect_ntp_core
dissect_ntp_core-SameFrame p l i = ground arith

pub check_tcp_anomalies-SameFrame :
    (i : PacketInfo) (t : TransportInfo) → Gives (check_tcp_anomalies i t) (SameFrame i)
unfolding check_tcp_anomalies
check_tcp_anomalies-SameFrame i t = ground arith

pub calculate_byte_stats-SameFrame :
    (d : Bytes) (l : ℤ) (i : PacketInfo) → Gives (calculate_byte_stats d l i) (SameFrame i)
unfolding calculate_byte_stats
calculate_byte_stats-SameFrame d l i = ground arith

apply_option-SameFrame :
    (p : Bytes) (at kind l : ℕ) (i : PacketInfo) → Gives (apply_option p at kind l i) (SameFrame i)
unfolding apply_option
apply_option-SameFrame p at kind l i = ground arith

module _ (i : PacketInfo) where
  abbrev OptionsGo : Next OptionsState PacketInfo → Type 0
  OptionsGo = Goes (λ s. SameFrame i s.info) (SameFrame i)

  sized_option-Goes :
      (p : Bytes) (base len : ℕ) (s : OptionsState) (kind l : ℕ)
      → SameFrame i s.info
      → Gives (sized_option p base len s kind l) OptionsGo
  unfolding sized_option
  sized_option-Goes p base len s kind l h = elim (Bool-cases (ltb l 2 || ltb len (s.k + l))) [
    | inl bad ↦ rw bad h
    | inr good ↦ rw good (
        Gives-then (SameFrame s.info) OptionsGo _ _
          (apply_option-SameFrame p (base + s.k) kind l s.info) (λ j g. compose i s.info j h g))
  ]

  option_kind-Goes :
      (p : Bytes) (base len : ℕ) (s : OptionsState) (kind : ℕ)
      → SameFrame i s.info
      → Gives (option_kind p base len s kind) OptionsGo
  unfolding option_kind
  option_kind-Goes p base len s kind h = elim (Bool-cases (kind == 0)) [
    | inl end ↦ rw end h
    | inr more ↦ rw more (elim (Bool-cases (kind == 1)) [
      | inl nop ↦ rw nop h
      | inr sized ↦ rw sized (elim (Bool-cases (leb len (s.k + 1))) [
        | inl cut ↦ rw cut h
        | inr room ↦ rw room (
            Gives-bind OptionsGo (rd p (base + (s.k + 1))) _
              (λ l _. sized_option-Goes p base len s kind l h))
      ])
    ])
  ]

  options_round-Goes :
      (p : Bytes) (base len : ℕ) (s : OptionsState)
      → SameFrame i s.info
      → Gives (options_round p base len s) OptionsGo
  unfolding options_round
  options_round-Goes p base len s h = elim (Bool-cases (ltb s.k len)) [
    | inl go ↦ rw go (
        Gives-bind OptionsGo (rd p (base + s.k)) _ (λ kind _. option_kind-Goes p base len s kind h))
    | inr stop ↦ rw stop h
  ]

  abbrev LldpGo : Next LldpState PacketInfo → Type 0
  LldpGo = Goes (λ s. SameFrame i s.info) (SameFrame i)

  lldp_tlv-Goes :
      (p : Bytes) (l : ℕ) (j : PacketInfo) (at type len : ℕ)
      → SameFrame i j
      → Gives (lldp_tlv p l j at type len) LldpGo
  unfolding lldp_tlv
  lldp_tlv-Goes p l j at type len h = ground arith

  lldp_round-Goes :
      (p : Bytes) (l : ℕ) (s : LldpState) → SameFrame i s.info → Gives (lldp_round p l s) LldpGo
  unfolding lldp_round
  lldp_round-Goes p l s h = elim (Bool-cases (leb (s.o + 2) l)) [
    | inl go ↦
        rw go (Gives-bind LldpGo (be16 p s.o) _ (λ tlv _. lldp_tlv-Goes p l s.info (s.o + 2) _ _ h))
    | inr stop ↦ rw stop h
  ]

pub parse_tcp_options_extended-SameFrame :
    (p : Bytes) (o h : ℕ) (i : PacketInfo)
    → Gives (parse_tcp_options_extended p o h i) (SameFrame i)
unfolding parse_tcp_options_extended
parse_tcp_options_extended-SameFrame p o h i = elim (Bool-cases (leb h 20)) [
  | inl plain ↦ rw plain (same i)
  | inr more ↦ rw more (
      iterate-Gives (λ s. SameFrame i s.info) (SameFrame i) (options_round p (o + 20) (h - 20))
        (options_round-Goes i p (o + 20) (h - 20)) h (record { k = 0; info = i }) (same i))
]

pub dissect_lldp-SameFrame :
    (p : Bytes) (l : ℤ) (i : PacketInfo) → Gives (dissect_lldp p l i) (SameFrame i)
unfolding dissect_lldp
dissect_lldp-SameFrame p l i =
    Gives-then (SameFrame i) (SameFrame i) _ _
      (iterate-Gives (λ s. SameFrame i s.info) (SameFrame i) (lldp_round p (pos_part l))
        (lldp_round-Goes i p (pos_part l)) (pos_part l + 1) (record { o = 0; info = i }) (same i))
      (λ j h. Gives-bind (SameFrame i) (c_string j.lldp_chassis) _ (λ chassis _.
        Gives-bind (SameFrame i) (c_string j.lldp_port) _
          (λ port _. Gives-bind (SameFrame i) (snprintf j.app_layer_info 0 128 _) _ (λ text _. h))))
