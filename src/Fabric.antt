-- ===== src/Fabric.antt =====
-- src/fabric.rs: the relay fabric. Registrations and queues of pointers per handle, the verbs freg,
-- fput and fpop over them, the envelopes on disk and the replies.
pub mod Envelope
pub mod Derive
pub mod State
pub mod Reg
pub mod Put
pub mod Pop
pub mod Invariant
pub mod Reach
pub mod Reply
pub mod Open
