-- ===== src/Capture/Text.antt =====
-- The dissectors of cpp/packet_capture.cpp that write one line of text: check_icmp_unreachable,
-- dissect_app_common, dissect_icmp_details, dissect_icmp6_details, dissect_nd, dissect_ospf,
-- dissect_stp and dissect_gre. They are the versions for POSIX systems.
use pacsni.Prelude.{
  ℕ, ◌-◌, Bool, true, false, ◌&&◌, bit_and, ltb, ◌==◌, if◌then◌else◌, List, [], ◌∷◌, ◌++◌, get_or,
  ℤ, pos_part, ltb_int, Exec, ret, ◌>>=◌,
}
use pacsni.Memory.{Bytes, codes, decimal, hex4, rd, be16, memcmp, snprintf}
use pacsni.Dissect.Http.{copy_line}

abbrev pub unreachable_reasons : List Bytes
unreachable_reasons =
    codes "Net"
    ∷ codes "Host"
    ∷ codes "Proto"
    ∷ codes "Port"
    ∷ codes "Frag"
    ∷ codes "SrcRoute"
    ∷ codes "DestNet"
    ∷ codes "DestHost"
    ∷ []

unfoldable pub check_icmp_unreachable : ℕ → ℕ → Bytes → ℕ → Exec Bytes
check_icmp_unreachable t c o m =
    if t == 3 && ltb c 8
    then snprintf o 0 m (codes "ICMP Unreachable: " ++ get_or unreachable_reasons c [])
    else ret o

-- Whether the first four bytes are one of the words, compared in order.
unfoldable pub starts_with_one : List Bytes → Bytes → Exec Bool
starts_with_one [] p = ret false
starts_with_one (w ∷ ws) p =
    memcmp p 0 w >>= (λ same. elim same [ true ↦ ret true | false ↦ starts_with_one ws p ])

-- The last two tests of dissect_app_common.
unfoldable pub app_binary : Bytes → ℕ → Bytes → ℕ → Exec Bytes
app_binary p l o m = do
  a ← rd p 0
  telnet ← (if a == 0xff then rd p 1 >>= (λ b. ret (b == 0xfb)) else ret false)
  if telnet
      then snprintf o 0 m (codes "Telnet Negotiation")
      else if bit_and a 0xc0 == 0x80 && ltb 12 l
      then snprintf o 0 m (codes "QUIC Long Header")
      else ret o

-- The tests for the text protocols: `l` is more than 4.
unfoldable pub app_text : Bytes → ℕ → Bytes → ℕ → Exec Bytes
app_text p l o m = do
  smtp ← starts_with_one (codes "220 " ∷ codes "HELO" ∷ codes "EHLO" ∷ []) p
  if smtp then snprintf o 0 m (codes "SMTP Control") else do
    ftp ← starts_with_one (codes "USER" ∷ codes "PASS" ∷ codes "220 " ∷ []) p
    if ftp then snprintf o 0 m (codes "FTP Control") else app_binary p l o m

-- The SSH version line is copied as the request line of HTTP is.
unfoldable pub app_body : Bytes → ℕ → Bytes → ℕ → Exec Bytes
app_body p l o m = do
  ssh ← (if ltb 7 l then memcmp p 0 (codes "SSH-") else ret false)
  if ssh
      then copy_line (if ltb l (m - 1) then l else m - 1) p 0 o
      else if ltb 4 l
      then app_text p l o m
      else app_binary p l o m

unfoldable pub dissect_app_common : Bytes → ℤ → Bytes → ℕ → Exec Bytes
dissect_app_common p l o m = if ltb_int l 4 then ret o else app_body p (pos_part l) o m

abbrev pub unreachable_text : ℕ → Bytes
unreachable_text c =
    if c == 0
    then codes "Net Unreachable"
    else if c == 1
    then codes "Host Unreachable"
    else if c == 2
    then codes "Proto Unreachable"
    else if c == 3
    then codes "Port Unreachable"
    else if c == 4
    then codes "Frag Required (DF set)"
    else codes "Dest Unreachable"

abbrev pub icmp_text : ℕ → ℕ → Bytes
icmp_text t c =
    if t == 0
    then codes "Echo Reply"
    else if t == 3
    then unreachable_text c
    else if t == 8
    then codes "Echo Request"
    else if t == 11
    then codes "Time Exceeded (TTL)"
    else codes "ICMP Info"

unfoldable pub dissect_icmp_details : ℕ → ℕ → Bytes → ℕ → Exec Bytes
dissect_icmp_details t c o m = snprintf o 0 m (icmp_text t c)

abbrev pub icmp6_text : ℕ → Bytes
icmp6_text t =
    if t == 128
    then codes "Echo Request"
    else if t == 129
    then codes "Echo Reply"
    else if t == 1
    then codes "Dest Unreachable"
    else if t == 2
    then codes "Packet Too Big"
    else if t == 3
    then codes "Time Exceeded"
    else if t == 133
    then codes "Router Solicit"
    else if t == 134
    then codes "Router Advert"
    else if t == 135
    then codes "Neighbor Solicit"
    else if t == 136
    then codes "Neighbor Advert"
    else codes "ICMPv6 Info"

unfoldable pub dissect_icmp6_details : ℕ → ℕ → Bytes → ℕ → Exec Bytes
dissect_icmp6_details t c o m = snprintf o 0 m (icmp6_text t)

unfoldable pub dissect_nd : Bytes → ℤ → Bytes → ℕ → Exec Bytes
dissect_nd p l o m = if ltb_int l 8 then ret o else do
  t ← rd p 0
  if t == 135
      then snprintf o 0 m (codes "ND Neighbor Solicitation")
      else if t == 136
      then snprintf o 0 m (codes "ND Neighbor Advertisement")
      else if t == 133
      then snprintf o 0 m (codes "ND Router Solicitation")
      else if t == 134
      then snprintf o 0 m (codes "ND Router Advertisement")
      else ret o

abbrev pub ospf_types : List Bytes
ospf_types =
    codes "?"
    ∷ codes "Hello"
    ∷ codes "DbDesc"
    ∷ codes "LSReq"
    ∷ codes "LSUpdate"
    ∷ codes "LSAck"
    ∷ []

unfoldable pub dissect_ospf : Bytes → ℤ → Bytes → ℕ → Exec Bytes
dissect_ospf p l o m = if ltb_int l 24 then ret o else do
  type ← rd p 1
  version ← rd p 0
  if ltb 0 type && ltb type 6
      then snprintf o 0 m
          (codes "OSPFv" ++ (decimal version ++ (codes " " ++ get_or ospf_types type [])))
      else ret o

unfoldable pub dissect_stp : Bytes → ℤ → Bytes → ℕ → Exec Bytes
dissect_stp p l o m = if ltb_int l 35 then ret o else do
  type ← rd p 4
  snprintf o 0 m (
      codes "STP "
      ++ (if type == 0 then codes "Config" else if type == 0x80 then codes "TCN" else codes "BPDU"))

unfoldable pub dissect_gre : Bytes → ℤ → Bytes → ℕ → Exec Bytes
dissect_gre p l o m = if ltb_int l 4 then ret o else do
  inner ← be16 p 2
  snprintf o 0 m (codes "GRE Tunnel (Inner: 0x" ++ (hex4 inner ++ codes ")"))
