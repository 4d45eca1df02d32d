-- ===== src/Comm.antt =====
-- The layer over libmp in src/comm_library/comm.cpp.
pub mod Tables
pub mod Handshake
pub mod Messages
pub mod Descs
pub mod Protocol
pub mod Peers
pub mod Indexed
pub mod Gather
pub mod Collected
pub mod Ends
pub mod Stale
pub mod Switches
pub mod Flush
pub mod Announce
