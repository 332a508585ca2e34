-- ===== src/Cbor/Room.antt =====
-- The length of what the encoder of src/p2p.rs writes.
use spore_peer.Prelude.{ℕ, ◌+◌, ◌≤◌, ◌<◌, Bytes, length, arith, lengths}
use spore_peer.Words.{length-be_bytes}
use spore_peer.Cbor.ReadBack.{length-encode_pos}
use spore_peer.Cbor.Encode.{head, message}
use spore_peer.Cbor.Item.{
  Item, Items, Pairs, uint, bytes, text, array, map, simple, nil, cons, end, pair, count,
  count_pairs, encode, encode_items, encode_pairs,
}
use spore_peer.Cbor.Messages.{header_item, header-encode}

-- A head takes nine bytes at most.
length-head : (major n : ℕ) → length (head major n) ≤ 9
unfolding head
length-head major n = ground (arith, length-be_bytes 2 n, length-be_bytes 4 n, length-be_bytes 8 n)

-- The bytes of an item, with nine for every head.
abbrev mutual
  pub room : Item → ℕ
  room (uint n) = 9
  room (bytes b) = 9 + length b
  room (text s) = 9 + length s
  room (array is) = 9 + room_items is
  room (map ps) = 9 + room_pairs ps
  room (simple k) = 9

  pub room_items : Items → ℕ
  room_items nil = 0
  room_items (cons i is) = room i + room_items is

  pub room_pairs : Pairs → ℕ
  room_pairs end = 0
  room_pairs (pair k i ps) = (9 + length k) + (room i + room_pairs ps)

mutual
  unfolding encode

  pub encode-room : (i : Item) → length (encode i) ≤ room i
  encode-room (uint n) = length-head 0 n
  encode-room (bytes b) = omega (lengths, length-head 2 (length b))
  encode-room (text s) = omega (lengths, length-head 3 (length s))
  encode-room (array is) = omega (lengths, length-head 4 (count is), encode_items-room is)
  encode-room (map ps) = omega (lengths, length-head 5 (count_pairs ps), encode_pairs-room ps)
  encode-room (simple k) = length-head 7 k

  encode_items-room : (is : Items) → length (encode_items is) ≤ room_items is
  encode_items-room nil = omega arith
  encode_items-room (cons i is) = omega (lengths, encode-room i, encode_items-room is)

  encode_pairs-room : (ps : Pairs) → length (encode_pairs ps) ≤ room_pairs ps
  encode_pairs-room end = omega arith
  encode_pairs-room (pair k i ps) =
      omega (lengths, length-head 3 (length k), encode-room i, encode_pairs-room ps)

-- A message is longer than its method, its error and its payload by 66 bytes at most.
pub message-room :
    (method : Bytes) (seq : ℕ) (e body : Bytes)
    → length (message method seq e body) ≤ 66 + length method + length e + length body
unfolding message
message-room method seq e body =
    rw (header-encode method seq e) (omega (lengths, encode-room (header_item method seq e)))

pub length-message_pos :
    (method : Bytes) (seq : ℕ) (e body : Bytes) → 0 < length (message method seq e body)
unfolding message
length-message_pos method seq e body =
    rw (header-encode method seq e) (omega (lengths, length-encode_pos (header_item method seq e)))
