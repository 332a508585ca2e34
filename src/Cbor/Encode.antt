-- ===== src/Cbor/Encode.antt =====
-- src/p2p.rs, `mod cbor` and the payload builders of the sync subset.
use Prim.Native.Nat.{bit_or}
use spore_peer.Prelude.{
  ℕ, ◌*◌, ◌%◌, List, [], ◌∷◌, ◌++◌, Bytes, ascii, length, ltb, leb, if◌then◌else◌,
}
use spore_peer.Words.{be_bytes}

-- `head`: the major type above the argument's short form. A u8 keeps the low eight bits.
unfoldable pub head : ℕ → ℕ → Bytes
head major n =
    let top = major * 32 % 256 in
    if ltb n 24
    then bit_or top (n % 256) ∷ []
    else (if leb n 0xff
        then bit_or top 24 ∷ (n % 256) ∷ []
        else (if leb n 0xffff
            then bit_or top 25 ∷ be_bytes 2 n
            else (if leb n 0xffff_ffff
                then bit_or top 26 ∷ be_bytes 4 n
                else bit_or top 27 ∷ be_bytes 8 n)))

unfoldable pub text : Bytes → Bytes
text s = head 3 (length s) ++ s

unfoldable pub uint : ℕ → Bytes
uint v = head 0 v

unfoldable pub bytes : Bytes → Bytes
bytes b = head 2 (length b) ++ b

unfoldable pub array : ℕ → Bytes
array n = head 4 n

unfoldable pub map : ℕ → Bytes
map n = head 5 n

unfoldable pub kv : Bytes → Bytes → Bytes
kv key val = text key ++ val

unfoldable pub hash32 : Bytes → Bytes
hash32 h = bytes h

unfoldable pub header : Bytes → ℕ → Bytes → Bytes
header method seq e =
    map 3
    ++ (kv (ascii "M") (text method) ++ (kv (ascii "S") (uint seq) ++ kv (ascii "E") (text e)))

unfoldable pub message : Bytes → ℕ → Bytes → Bytes → Bytes
message method seq e body = header method seq e ++ body

unfoldable pub handshake_request : ℕ → Bytes
handshake_request version = map 1 ++ kv (ascii "N") (uint version)

unfoldable pub handshake_response : ℕ → ℕ → Bytes
handshake_response height version =
    map 2 ++ (kv (ascii "H") (uint height) ++ kv (ascii "N") (uint version))

unfoldable pub chain_request : ℕ → ℕ → Bytes
chain_request top n = map 2 ++ (kv (ascii "TOP") (uint top) ++ kv (ascii "N") (uint n))

-- The loop of `chain_response` over the pairs.
unfoldable pub chain_pairs : List (ℕ × Bytes) → Bytes
chain_pairs [] = []
chain_pairs ((h, blid) ∷ pairs) = array 2 ++ (uint h ++ (hash32 blid ++ chain_pairs pairs))

unfoldable pub chain_response : List (ℕ × Bytes) → Bytes
chain_response pairs = array (length pairs) ++ chain_pairs pairs

unfoldable pub getobject_request : Bytes → Bytes
getobject_request blid = map 1 ++ kv (ascii "BLID") (hash32 blid)

unfoldable pub getobject_response : Bytes → Bytes
getobject_response body = bytes body

-- The TOKEN pair is written only where the token is not empty.
unfoldable pub putobject_request : Bytes → Bytes → Bytes → Bytes
putobject_request blid body token =
    map (if ltb 0 (length token) then 3 else 2)
    ++ (kv (ascii "BLID") (hash32 blid)
        ++ (kv (ascii "BODY") (bytes body)
            ++ (if ltb 0 (length token) then kv (ascii "TOKEN") (text token) else [])))

unfoldable pub putobject_response : Bytes → Bytes
putobject_response blid = map 1 ++ kv (ascii "BLID") (hash32 blid)

unfoldable pub error_response : ℕ → Bytes → Bytes
error_response seq msg = message [] seq msg []
