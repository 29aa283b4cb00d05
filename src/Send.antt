-- ===== src/Send.antt =====
-- The sender of cpp/packet_capture.cpp: the bytes of a record, and how send_packet_info gives them
-- to OpenSSL. OpenSSL's functions are parameters.
pub mod Layout
pub mod Message
pub mod Delivery
pub mod Service
pub mod Sender
use pacsni.Prelude.{
  ℕ, zero, suc, ◌+◌, Bool, true, false, Option, none, some, List, [], length, drop, replicate, ltb,
  ℤ, pos_part, ltb_int, Exec, ret, diverge, ◌>>=◌,
}
use pacsni.Memory.{Bytes, memcpy, c_string}
use pacsni.Packet.{PacketInfo}
use pacsni.Send.Layout.{bytes_of}

-- What SSL_get_error says of a write that has failed.
pub data SslError : Type 0 where
  want_write want_read fatal : SslError

-- `SSL*` with SSL_write and SSL_get_error. What the connection has taken so far is `taken`, which no
-- code reads.
pub record Tls : Type 1 where
  pub Ssl : Type 0
  pub ssl_write : Ssl → Bytes → ℤ × Ssl
  pub ssl_get_error : Ssl → ℤ → SslError
  pub taken : Ssl → Bytes

-- `ssl_err == SSL_ERROR_WANT_WRITE || ssl_err == SSL_ERROR_WANT_READ`
abbrev pub wants_retry : SslError → Bool
wants_retry want_write = true
wants_retry want_read = true
wants_retry fatal = false

-- The key of the HMAC: the bytes of the secret, or none.
unfoldable pub secret_key : Option Bytes → Exec Bytes
secret_key none = ret []
secret_key (some s) = c_string s

-- `combined`: the record, and the HMAC behind it.
unfoldable pub combined : PacketInfo → Bytes → Exec Bytes
combined info hmac_result = do
  with_record ← memcpy (replicate 1088 0) 0 (bytes_of info) 0 1024
  memcpy with_record 1024 hmac_result 0 (length hmac_result)

module _ (T : Tls) where
  open T use {Ssl, ssl_write, ssl_get_error}

  -- The loop, for `f` rounds.
  unfoldable pub send_loop : ℕ → Bytes → ℕ → Ssl → Exec Ssl
  send_loop zero buffer sent ssl = diverge
  send_loop (suc f) buffer sent ssl = elim (ltb sent (length buffer)) [
    | true ↦
        let w = ssl_write ssl (drop sent buffer) in
        elim (ltb_int w.0 1) [
          | true ↦ elim (wants_retry (ssl_get_error w.1 w.0)) [
            | true ↦ send_loop f buffer sent w.1
            | false ↦ ret w.1
          ]
          | false ↦ send_loop f buffer (sent + pos_part w.0) w.1
        ]
    | false ↦ ret ssl
  ]

  -- `send_packet_info(ssl, info)`; `hmac` is HMAC with SHA-512.
  unfoldable pub send_packet_info :
      ℕ → (Bytes → Bytes → Bytes) → Option Bytes → Option Ssl → PacketInfo → Exec (Option Ssl)
  send_packet_info f hmac secret none info = ret none
  send_packet_info f hmac secret (some ssl) info = do
    key ← secret_key secret
    buffer ← combined info (hmac key (bytes_of info))
    ssl' ← send_loop f buffer 0 ssl
    ret (some ssl')
