-- ===== src/Peers.antt =====
-- src/spore_peer.rs: the list of peers, a text file in the store's directory.
pub mod Lines
pub mod Address
pub mod File
pub mod Laws
pub mod Valid
pub mod Changes
