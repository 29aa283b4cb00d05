-- ===== src/Dissect.antt =====
-- The protocol dissectors of cpp/protocol_dissectors.cpp. A pointer argument is the list of the
-- bytes from there to the end of the array that it points into; `len` may be less or more than
-- that. An output buffer `char* out` is passed in and returned.
pub mod Dns
pub mod Tls
pub mod Dhcp
pub mod Http
pub mod TcpOptions
pub mod Info
pub mod Stats
