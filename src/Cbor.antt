-- ===== src/Cbor.antt =====
-- src/p2p.rs: the rpc2 wire format, CBOR items for a header and a payload. `Encode` has the
-- encoder and the payload builders, `Decode` the hardened decoder; the rest are their theorems.
pub mod Encode
pub mod Decode
pub mod Slices
pub mod Item
pub mod Head
pub mod ReadBack
pub mod Bounds
pub mod Extends
pub mod Prefix
pub mod Room
pub mod Replies
pub mod Messages
pub mod Payloads
