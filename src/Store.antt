-- ===== src/Store.antt =====
-- src/spore_peer.rs: the body store, a directory of files named by the hash of their bytes.
pub mod Decode
pub mod Files
pub mod Laws
pub mod Origin
pub mod Serve
