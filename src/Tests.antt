-- ===== src/Tests.antt =====
-- Runs of the models on concrete inputs.
mod Encoding
mod Relay
mod Small
mod Store
mod Reply
mod Serving
mod Framing
mod Fuzzing
mod Threads
mod Process
mod Connection
mod Network
mod Clients
mod Peers
mod Opening
mod Verbs
mod Commands
mod Shutdown
