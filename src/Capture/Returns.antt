-- ===== src/Capture/Returns.antt =====
-- For which frames dissect_raw_packet and what it calls return.
pub mod Steps
pub mod Texts
pub mod Pieces
pub mod Lldp
pub mod Network
pub mod Ip
pub mod Frame
