-- ===== src/Peer.antt =====
-- The modules of internal/peer.
pub mod Network
pub mod Node
pub mod Connect
pub mod Join
pub mod Print
