-- ===== src/Dissect/Dns.antt =====
-- dissect_dns of cpp/protocol_dissectors.cpp: the first question's name, with dots.
pub mod Safe
pub mod Label
pub mod Names
use pacsni.Prelude.{
  ℕ, zero, suc, ◌+◌, ◌-◌, Bool, true, false, ◌&&◌, ◌||◌, ltb, ◌==◌, if◌then◌else◌, ℤ, pos_part,
  ltb_int, Exec, ret, ◌>>=◌, Next, again, done, iterate,
}
use pacsni.Memory.{Bytes, rd, wr}

-- The variables `pos`, `out` and `out_pos`.
pub record DnsState : Type 0 where
  pub pos : ℕ
  pub out : Bytes
  pub out_pos : ℕ

abbrev pub dot : ℕ
dot = b'.'

-- The inner loop, with `n` rounds left; `data[pos]` is `payload[12 + pos]`.
unfoldable pub copy_label : ℕ → Bytes → ℕ → ℕ → DnsState → Exec DnsState
copy_label zero payload limit out_max s = ret s
copy_label (suc n) payload limit out_max s = elim (ltb s.pos limit && ltb s.out_pos (out_max - 1)) [
  | true ↦ do
    b ← rd payload (12 + s.pos)
    out ← wr s.out s.out_pos b
    copy_label n payload limit out_max
        (record { pos = s.pos + 1; out = out; out_pos = s.out_pos + 1 })
  | false ↦ ret s
]

-- `if (out_pos < out_max - 1) out[out_pos++] = '.';`
unfoldable pub put_dot : ℕ → DnsState → Exec DnsState
put_dot out_max s =
    if ltb s.out_pos (out_max - 1)
    then wr s.out s.out_pos dot
      >>= (λ out. ret (record { pos = s.pos; out = out; out_pos = s.out_pos + 1 }))
    else ret s

-- The rest of a round, behind the read of a label's length.
unfoldable pub dns_label : Bytes → ℕ → ℕ → DnsState → ℕ → Exec (Next DnsState DnsState)
dns_label payload limit out_max s label_len =
    if label_len == 0 || ltb 63 label_len then ret (done s) else do
      copied ← copy_label label_len payload limit out_max (record s { pos = s.pos + 1 })
      dotted ← put_dot out_max copied
      ret (again dotted)

-- A round of the outer loop.
unfoldable pub dns_round : Bytes → ℕ → ℕ → DnsState → Exec (Next DnsState DnsState)
dns_round payload limit out_max s =
    if ltb s.pos limit && ltb s.out_pos (out_max - 1)
    then rd payload (12 + s.pos) >>= dns_label payload limit out_max s
    else ret (done s)

-- The last line: NUL over the last dot, or behind the text.
unfoldable pub dns_finish : DnsState → Exec Bytes
dns_finish s =
    if s.out_pos == 0
    then ret s.out
    else do last ← rd s.out (s.out_pos - 1); wr s.out (s.out_pos - (if last == dot then 1 else 0)) 0

-- Each round takes a byte of the payload: its length is fuel enough.
unfoldable pub dissect_dns : Bytes → ℤ → Bytes → ℕ → Exec Bytes
dissect_dns payload len out out_max = if ltb_int len 12 then ret out else do
  s ←
      iterate (pos_part len) (dns_round payload (pos_part len - 12) out_max)
        (record { pos = 0; out = out; out_pos = 0 })
  dns_finish s
