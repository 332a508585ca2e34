-- ===== src/Tests/Fuzzing.antt =====
-- A run of fuzz/fuzz_targets/fuzz_p2p_decode.rs.
use spore_peer.Prelude.{◌≡◌, [], ascii, ok}
use spore_peer.Crates.{plain_hex}
use spore_peer.Cbor.Encode.{message, handshake_request}
use spore_peer.Fuzz.{fuzz_target, fuzz_target_lem}

fuzz_target_lem_example :
    fuzz_target plain_hex (message (ascii "Peer.Handshake") 1 [] (handshake_request 1)) ≡ ok tt
fuzz_target_lem_example =
    fuzz_target_lem plain_hex (message (ascii "Peer.Handshake") 1 [] (handshake_request 1))
