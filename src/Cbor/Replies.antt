-- ===== src/Cbor/Replies.antt =====
-- The requests and responses of src/p2p.rs that a pass exchanges, as `decode_message` reads them.
use spore_peer.Prelude.{
  Bool-cases, inl, inr, ltb, ℕ, List, ◌∷◌, All, ◌*◌, ◌+◌, ◌^◌, ◌≤◌, ◌<◌, ◌≡◌, refl, [], append-nil,
  append_assoc, Bytes, ascii, length, ok, true, arith,
}
use spore_peer.Words.{IsU64}
use spore_peer.Text.{is_utf8}
use spore_peer.Json.{num, str, object, no_fields, field, insert_field}
use spore_peer.Crates.{Hex}
use spore_peer.Cbor.Encode
use spore_peer.Cbor.Encode.{
  message, putobject_request, chain_response, handshake_response, getobject_request,
  getobject_response,
}
use spore_peer.Cbor.Decode.{decode_message}
use spore_peer.Cbor.Payloads.{put_item, putobject_request-encode, chain_item, chain_response-encode}
use spore_peer.Cbor.Item.{Item, uint, bytes, map, end, pair, encode, value}
use spore_peer.Cbor.Messages.{IsHeader, empty-IsHeader, decode_message-message}
use spore_peer.Cbor.Room.{room, room_items, encode-room, message-room}

-- The method of a request as a header.
pub method-IsHeader :
    (method : Bytes) (seq : ℕ)
    → length method ≤ 64
    → is_utf8 method ≡ true
    → IsU64 seq
    → IsHeader method seq []
unfolding is_utf8
method-IsHeader method seq short utf8 hs = record {
  method_len = omega arith;
  method_utf8 = utf8;
  seq_word = hs;
  error_len = omega arith;
  error_utf8 = refl;
}

getobject_item : Bytes → Item
getobject_item blid = map (pair (ascii "BLID") (bytes blid) end)

getobject_request-encode : (blid : Bytes) → getobject_request blid ≡ encode (getobject_item blid)
unfolding getobject_request encode Encode.map Encode.kv Encode.text Encode.hash32 Encode.bytes
    getobject_item
getobject_request-encode blid = simp (append_assoc, append-nil)

pub decode_message-getobject_request :
    (hex : Hex) (seq : ℕ) (blid : Bytes)
    → IsU64 seq
    → length blid ≤ 64
    → decode_message hex (message (ascii "Peer.GetObject") seq [] (getobject_request blid))
      ≡ ok (record {
        method = ascii "Peer.GetObject";
        seq = seq;
        error = [];
        payload = object (field (ascii "BLID") (str (hex.encode blid)) no_fields);
      })
unfolding is_utf8 value insert_field getobject_item
decode_message-getobject_request hex seq blid hs hb =
    let i = getobject_item blid in
    rw (getobject_request-encode blid) (
      decode_message-message hex (ascii "Peer.GetObject") seq [] i
        (method-IsHeader (ascii "Peer.GetObject") seq (omega arith) refl hs)
        (omega arith, ((omega arith, omega arith, refl), omega arith, tt))
        (omega (arith, message-room (ascii "Peer.GetObject") seq [] (encode i), encode-room i)))

pub decode_message-getobject_response :
    (hex : Hex) (seq : ℕ) (body : Bytes)
    → IsU64 seq
    → length body < 2 ^ 32
    → decode_message hex (message [] seq [] (getobject_response body))
      ≡ ok (record { method = []; seq = seq; error = []; payload = str (hex.encode body) })
unfolding value getobject_response Encode.bytes encode
decode_message-getobject_response hex seq body hs small =
    decode_message-message hex [] seq [] (bytes body) (empty-IsHeader seq hs) (omega arith)
      (omega (arith, message-room [] seq [] (encode (bytes body)), encode-room (bytes body)))

handshake_item : ℕ → Item
handshake_item height = map (pair (ascii "H") (uint height) (pair (ascii "N") (uint 1) end))

handshake_response-encode :
    (height : ℕ) → handshake_response height 1 ≡ encode (handshake_item height)
unfolding handshake_response encode Encode.map Encode.kv Encode.text Encode.uint handshake_item
handshake_response-encode height = simp (append_assoc, append-nil)

pub decode_message-handshake_response :
    (hex : Hex) (seq height : ℕ)
    → IsU64 seq
    → IsU64 height
    → decode_message hex (message [] seq [] (handshake_response height 1))
      ≡ ok (record {
        method = [];
        seq = seq;
        error = [];
        payload = object (field (ascii "H") (num height) (field (ascii "N") (num 1) no_fields));
      })
unfolding is_utf8 value insert_field handshake_item
decode_message-handshake_response hex seq height hs hh =
    let i = handshake_item height in
    rw (handshake_response-encode height) (
      decode_message-message hex [] seq [] i (empty-IsHeader seq hs)
        (
          omega arith,
          (
            (omega arith, omega arith, refl),
            hh,
            ((omega arith, omega arith, refl), omega arith, tt),
          ),
        )
        (omega (arith, message-room [] seq [] (encode i), encode-room i)))

pub length-getobject_request : (blid : Bytes) → length (getobject_request blid) ≤ 31 + length blid
unfolding getobject_item
length-getobject_request blid =
    rw (getobject_request-encode blid) (omega (arith, encode-room (getobject_item blid)))

pub length-getobject_response : (body : Bytes) → length (getobject_response body) ≤ 9 + length body
unfolding getobject_response Encode.bytes encode
length-getobject_response body = encode-room (bytes body)

pub length-handshake_response : (height : ℕ) → length (handshake_response height 1) ≤ 64
unfolding handshake_item
length-handshake_response height =
    rw (handshake_response-encode height) (omega (arith, encode-room (handshake_item height)))

chain_item-room :
    (pairs : List (ℕ × Bytes))
    → All (λ e. length e.1 ≡ 32) pairs
    → room_items (chain_item pairs) ≤ 59 * length pairs
chain_item-room [] hs = omega arith
chain_item-room ((top, blid) ∷ pairs) (h, hs) = omega (arith, h, chain_item-room pairs hs)

pub length-chain_response :
    (pairs : List (ℕ × Bytes))
    → All (λ e. length e.1 ≡ 32) pairs
    → length (chain_response pairs) ≤ 9 + 59 * length pairs
length-chain_response pairs hs =
    rw (chain_response-encode pairs)
      (omega (arith, encode-room (Item.array (chain_item pairs)), chain_item-room pairs hs))

put_item-room :
    (blid body token : Bytes)
    → room (put_item blid body token) ≤ 80 + length blid + length body + length token
put_item-room blid body token = elim (Bool-cases (ltb 0 (length token))) [
  | inl y ↦ rw y (omega arith)
  | inr y ↦ rw y (omega arith)
]

pub length-putobject_request :
    (blid body token : Bytes)
    → length (putobject_request blid body token) ≤ 80 + length blid + length body + length token
length-putobject_request blid body token =
    rw (putobject_request-encode blid body token)
      (omega (arith, encode-room (put_item blid body token), put_item-room blid body token))
