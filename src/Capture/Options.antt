-- ===== src/Capture/Options.antt =====
-- parse_tcp_options of cpp/packet_capture.cpp.
pub mod Same
use pacsni.Prelude.{
  ℕ, ◌+◌, ◌-◌, true, ◌&&◌, ◌||◌, ltb, leb, ◌==◌, if◌then◌else◌, Exec, ret, ◌>>=◌, Next, again, done,
  iterate,
}
use pacsni.Memory.{Bytes, rd, be16}
use pacsni.Packet.{TransportInfo}

-- The tests on one option of kind `kind` and length `len` at index `at` of the packet.
unfoldable pub take_option : Bytes → ℕ → ℕ → ℕ → TransportInfo → Exec TransportInfo
take_option packet at kind len t_info =
    if kind == 2 && len == 4
    then be16 packet (at + 2) >>= (λ v. ret (record t_info { mss = v }))
    else if kind == 3 && len == 3
    then rd packet (at + 2) >>= (λ v. ret (record t_info { ws = v }))
    else if kind == 29
    then ret (record t_info { has_ao = true })
    else ret t_info

-- The variables `i` and `t_info`.
pub record OptionCursor : Type 0 where
  pub i : ℕ
  pub t_info : TransportInfo

-- The part of a round behind the read of an option's length.
unfoldable pub length_step :
    Bytes → ℕ → ℕ → OptionCursor → ℕ → ℕ → Exec (Next OptionCursor TransportInfo)
length_step packet base opt_len s kind len =
    if ltb len 2 || ltb opt_len (s.i + len)
    then ret (done s.t_info)
    else take_option packet (base + s.i) kind len s.t_info
      >>= (λ t. ret (again (record { i = s.i + len; t_info = t })))

-- The part of a round behind the read of an option's kind.
unfoldable pub kind_step : Bytes → ℕ → ℕ → OptionCursor → ℕ → Exec (Next OptionCursor TransportInfo)
kind_step packet base opt_len s kind =
    if kind == 0
    then ret (done s.t_info)
    else if kind == 1
    then ret (again (record { i = s.i + 1; t_info = s.t_info }))
    else if leb opt_len (s.i + 1)
    then ret (done s.t_info)
    else rd packet (base + (s.i + 1)) >>= length_step packet base opt_len s kind

-- A round of the loop: `options[i]` is `packet[base + i]`.
unfoldable pub option_step : Bytes → ℕ → ℕ → OptionCursor → Exec (Next OptionCursor TransportInfo)
option_step packet base opt_len s =
    if ltb s.i opt_len
    then rd packet (base + s.i) >>= kind_step packet base opt_len s
    else ret (done s.t_info)

unfoldable pub parse_tcp_options : Bytes → ℕ → ℕ → TransportInfo → Exec TransportInfo
parse_tcp_options packet offset tcp_hlen t_info =
    if leb tcp_hlen 20
    then ret t_info
    else iterate tcp_hlen (option_step packet (offset + 20) (tcp_hlen - 20))
        (record { i = 0; t_info = t_info })
