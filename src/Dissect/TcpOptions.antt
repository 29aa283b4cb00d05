-- ===== src/Dissect/TcpOptions.antt =====
-- parse_tcp_options_extended and check_tcp_anomalies of cpp/protocol_dissectors.cpp.
pub mod Safe
pub mod RoundTrip
use pacsni.Prelude.{
  ℕ, zero, suc, ◌+◌, ◌-◌, ◌*◌, ◌/◌, Bool, true, false, not, ◌&&◌, ◌||◌, min, bit_and, ltb, leb,
  ◌==◌, if◌then◌else◌, Exec, ret, ◌>>=◌, Next, again, done, iterate,
}
use pacsni.Memory.{Bytes, codes, u32, rd, be16, be32, memcpy, snprintf}
use pacsni.Packet.{PacketInfo, TransportInfo}

-- The chain of tests on one option of kind `kind` and length `l` at index `at` of the packet.
unfoldable pub apply_option : Bytes → ℕ → ℕ → ℕ → PacketInfo → Exec PacketInfo
apply_option p at kind l i =
    if kind == 2 && l == 4
    then be16 p (at + 2) >>= (λ v. ret (record i { tcp_mss = v }))
    else if kind == 3 && l == 3
    then rd p (at + 2) >>= (λ v. ret (record i { tcp_ws = v }))
    else if kind == 4 && l == 2
    then ret (record i { tcp_sack = 1 })
    else if kind == 5 && leb 10 l
    then memcpy i.tcp_sack_edges 0 p (at + 2) (min ((l - 2) / 8) 4 * 8)
      >>= (λ edges. ret (record i { tcp_sack_edges = edges }))
    else if kind == 8 && l == 10
    then be32 p (at + 2) >>= (λ val.
      be32 p (at + 6) >>= (λ ecr. ret (record i { tcp_ts_val = val; tcp_ts_ecr = ecr })))
    else if kind == 29
    then ret (record i { has_tcp_ao = 1 })
    else ret i

-- The variables `k` and `i`.
pub record OptionsState : Type 0 where
  pub k : ℕ
  pub info : PacketInfo

-- The part of a round behind the read of an option's length.
unfoldable pub sized_option :
    Bytes → ℕ → ℕ → OptionsState → ℕ → ℕ → Exec (Next OptionsState PacketInfo)
sized_option p base len s kind l =
    if ltb l 2 || ltb len (s.k + l)
    then ret (done s.info)
    else apply_option p (base + s.k) kind l s.info
      >>= (λ i. ret (again (record { k = s.k + l; info = i })))

-- The part of a round behind the read of an option's kind.
unfoldable pub option_kind : Bytes → ℕ → ℕ → OptionsState → ℕ → Exec (Next OptionsState PacketInfo)
option_kind p base len s kind =
    if kind == 0
    then ret (done s.info)
    else if kind == 1
    then ret (again (record { k = s.k + 1; info = s.info }))
    else if leb len (s.k + 1)
    then ret (done s.info)
    else rd p (base + (s.k + 1)) >>= sized_option p base len s kind

-- A round of the loop: `opts[k]` is `p[base + k]`, and there are `len` bytes of options.
unfoldable pub options_round : Bytes → ℕ → ℕ → OptionsState → Exec (Next OptionsState PacketInfo)
options_round p base len s =
    if ltb s.k len then rd p (base + s.k) >>= option_kind p base len s else ret (done s.info)

unfoldable pub parse_tcp_options_extended : Bytes → ℕ → ℕ → PacketInfo → Exec PacketInfo
parse_tcp_options_extended p o h i =
    if leb h 20
    then ret i
    else iterate h (options_round p (o + 20) (h - 20)) (record { k = 0; info = i })

-- `t.flags & (0x02|0x01|0x04)`
abbrev syn_fin_rst : TransportInfo → Bool
syn_fin_rst t = not (bit_and t.flags 7 == 0)

unfoldable pub check_tcp_anomalies : PacketInfo → TransportInfo → Exec PacketInfo
check_tcp_anomalies info t =
    if t.window == 0 && not (bit_and t.flags 0x10 == 0) && not (syn_fin_rst t)
    then snprintf info.extra_info 0 128 (codes "TCP ZeroWindow")
      >>= (λ text. ret (record info { extra_info = text }))
    else if info.payload_len == 1 && u32 (t.seq + 1) == info.tcp_seq && not (syn_fin_rst t)
    then snprintf info.extra_info 0 128 (codes "TCP Keep-Alive")
      >>= (λ text. ret (record info { extra_info = text }))
    else ret info
