-- ===== src/Client.antt =====
-- src/spore_peer.rs and src/p2p.rs: the node as the client of its peers.
pub mod Call
pub mod Sync
pub mod Push
pub mod Converge
pub mod Legacy
pub mod Fabric
