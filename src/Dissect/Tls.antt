-- ===== src/Dissect/Tls.antt =====
-- dissect_tls_sni of cpp/protocol_dissectors.cpp: the server name of a TLS ClientHello.
pub mod Safe
use pacsni.Prelude.{
  ℕ, zero, suc, ◌+◌, ◌-◌, Bool, true, false, not, ◌&&◌, ◌||◌, min, ltb, leb, ◌==◌, if◌then◌else◌, ℤ,
  pos_part, ltb_int, Exec, ret, ◌>>=◌, Next, again, done, iterate,
}
use pacsni.Memory.{Bytes, rd, be16, wr, memcpy}

-- `memcpy(out, payload + at, actual_copy); out[actual_copy] = '\0';`
unfoldable pub copy_name : Bytes → ℕ → ℕ → Bytes → ℕ → Exec Bytes
copy_name payload at name_len out out_max = do
  copied ← memcpy out 0 payload at (min name_len (out_max - 1))
  wr copied (min name_len (out_max - 1)) 0

-- A round of the loop over the extensions, for a server_name extension whose data begin at `at`.
unfoldable pub sni_name : Bytes → ℕ → ℕ → Bytes → ℕ → ℕ → ℕ → Exec (Next ℕ Bytes)
sni_name payload ext_end ext_len out out_max at name_len =
    if leb (at + 5 + name_len) ext_end
    then copy_name payload (at + 5) name_len out out_max >>= (λ r. ret (done r))
    else ret (again (at + ext_len))

-- A round of the loop over the extensions at `pos`.
unfoldable pub sni_round : Bytes → ℕ → Bytes → ℕ → ℕ → Exec (Next ℕ Bytes)
sni_round payload ext_end out out_max pos =
    if leb (pos + 4) ext_end
    then (do
      ext_type ← be16 payload pos
      ext_len ← be16 payload (pos + 2)
      if ext_type == 0 && leb (pos + 4 + 5) ext_end
          then be16 payload (pos + 4 + 3) >>= sni_name payload ext_end ext_len out out_max (pos + 4)
          else ret (again (pos + 4 + ext_len)))
    else ret (done out)

-- From the session id on: `len` is at least 43.
unfoldable pub sni_body : Bytes → ℕ → Bytes → ℕ → Exec Bytes
sni_body payload len out out_max = do
  sid_len ← rd payload 43
  let pos₁ = 43 + (1 + sid_len)
  if leb len (pos₁ + 2) then ret out else do
    cs_len ← be16 payload pos₁
    let pos₂ = pos₁ + (2 + cs_len)
    if leb len (pos₂ + 1) then ret out else do
      comp_len ← rd payload pos₂
      let pos₃ = pos₂ + (1 + comp_len)
      if leb len (pos₃ + 2) then ret out else do
        ext_total_len ← be16 payload pos₃
        iterate (len + 1) (sni_round payload (min (pos₃ + 2 + ext_total_len) len) out out_max)
            (pos₃ + 2)

-- `payload[5]` is read only where `payload[0]` is that of a handshake record.
unfoldable pub dissect_tls_sni : Bytes → ℤ → Bytes → ℕ → Exec Bytes
dissect_tls_sni payload len out out_max = if ltb_int len 43 then ret out else do
  record_type ← rd payload 0
  if not (record_type == 0x16) then ret out else do
    handshake ← rd payload 5
    if not (handshake == 0x01) then ret out else sni_body payload (pos_part len) out out_max
