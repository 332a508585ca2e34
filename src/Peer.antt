-- ===== src/Peer.antt =====
-- src/spore_peer.rs: what a node answers to its peers over the body store.
pub mod Chain
pub mod Policy
pub mod Rpc2
pub mod Ledger
pub mod Threads
pub mod Laws
pub mod Accepted
pub mod Fetch
pub mod Quota
