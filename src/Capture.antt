-- ===== src/Capture.antt =====
-- cpp/packet_capture.cpp: the dissectors that stand there.
pub mod Text
pub mod Entropy
pub mod Network
pub mod KeepAlive
pub mod Raw
pub mod Frame
pub mod Fields
pub mod Record
pub mod Arp
pub mod Ranges
pub mod Returns
pub mod Options
pub mod Handler
pub mod Worker
