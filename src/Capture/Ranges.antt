-- ===== src/Capture/Ranges.antt =====
-- The ranges of the record's members, through dissect_raw_packet and what it calls.
pub mod Accesses
pub mod Texts
pub mod Names
pub mod Pieces
pub mod Headers
pub mod Network
pub mod Frame
