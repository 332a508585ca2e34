-- ===== src/Cbor/Messages.antt =====
-- The messages of src/p2p.rs: what `decode_message` reads off a framed request or response.
use spore_peer.Prelude.{
  ℕ, ◌≡◌, refl, true, [], ◌++◌, append-nil, append_assoc, Bytes, ascii, length, ltb, lt→ltb, ge→ltb,
  ok, arith, lengths,
}
use spore_peer.Words.{IsU64}
use spore_peer.Text.{is_utf8}
use spore_peer.Json.{Fields, null, num, str, object, no_fields, field, insert_field, lookup_field}
use spore_peer.Crates.{Hex}
use spore_peer.Cbor.Encode
use spore_peer.Cbor.Encode.{head, header, message, chain_response, chain_pairs, error_response}
use spore_peer.Cbor.Decode.{decode_value, decode_payload, decode_message}
use spore_peer.Cbor.Item.{Item, uint, text, map, end, pair, encode, value, Fits}
use spore_peer.Cbor.Slices.{slice_from_mid}
use spore_peer.Cbor.ReadBack.{decode_value-encode, length-encode_pos}

-- The header {M, S, E} as an item.
abbrev pub header_item : Bytes → ℕ → Bytes → Item
header_item method seq e =
    map
      (pair (ascii "M") (text method) (pair (ascii "S") (uint seq) (pair (ascii "E") (text e) end)))

pub header-encode :
    (method : Bytes) (seq : ℕ) (e : Bytes) → header method seq e ≡ encode (header_item method seq e)
unfolding header encode Encode.map Encode.kv Encode.text Encode.uint
header-encode method seq e = simp (append_assoc, append-nil)

-- A method or error text and a sequence number that the header can carry.
pub record IsHeader (method : Bytes) (seq : ℕ) (e : Bytes) : Type 0 where
  pub method_len : IsU64 (length method)
  pub method_utf8 : is_utf8 method ≡ true
  pub seq_word : IsU64 seq
  pub error_len : IsU64 (length e)
  pub error_utf8 : is_utf8 e ≡ true

-- The header of a response: no method and no error.
pub empty-IsHeader : (seq : ℕ) → IsU64 seq → IsHeader [] seq []
unfolding is_utf8
empty-IsHeader seq h = record {
  method_len = omega arith;
  method_utf8 = refl;
  seq_word = h;
  error_len = omega arith;
  error_utf8 = refl;
}

header-Fits :
    (method : Bytes) (seq : ℕ) (e : Bytes)
    → IsHeader method seq e
    → Fits 65 (header_item method seq e)
unfolding is_utf8
header-Fits method seq e h = (
  omega arith,
  (
    (omega arith, omega arith, refl),
    (h.method_len, h.method_utf8),
    (
      (omega arith, omega arith, refl),
      h.seq_word,
      ((omega arith, omega arith, refl), (h.error_len, h.error_utf8), tt),
    ),
  ),
)

-- The header's map as the decoder returns it, ordered by key.
abbrev header_fields : Bytes → ℕ → Bytes → Fields
header_fields method seq e =
    field (ascii "E") (str e)
      (field (ascii "M") (str method) (field (ascii "S") (num seq) no_fields))

header_value :
    (hex : Hex) (method : Bytes) (seq : ℕ) (e rest : Bytes)
    → IsHeader method seq e
    → IsU64 (length (header method seq e ++ rest))
    → decode_value hex (header method seq e ++ rest) 0
      ≡ ok (object (header_fields method seq e), length (header method seq e))
unfolding value insert_field
header_value hex method seq e rest h small =
    let eq = header-encode method seq e in
    rw eq (
      decode_value-encode hex (header_item method seq e) rest (header-Fits method seq e h)
        (rw eq at small))

payload_item :
    (hex : Hex) (front : Bytes) (i : Item)
    → Fits 65 i
    → IsU64 (length (encode i))
    → decode_payload hex (front ++ encode i) (length front) ≡ ok (value hex i)
unfolding decode_payload
payload_item hex front i f small =
    let more : ltb (length front) (length (front ++ encode i)) ≡ true =
      lt→ltb _ _ (omega (lengths, length-encode_pos i)) in
    let body = decode_value-encode hex i [] f (rw append-nil small) in
    rw (more, slice_from_mid front (encode i))
      (rw (rw append-nil at body) (rw (lt→ltb 0 _ (length-encode_pos i))))

payload_none : (hex : Hex) (front : Bytes) → decode_payload hex front (length front) ≡ ok null
unfolding decode_payload
payload_none hex front = rw (ge→ltb (length front) (length front) (omega arith))

-- A message of src/p2p.rs reads back: `decode_message` returns the method, the sequence number and
-- the error text that `message` was given, and the value of the payload item, for a UTF-8 method
-- and error, a payload of at most 65 levels, and a frame whose length is a 64-bit word.
pub decode_message-message :
    (hex : Hex) (method : Bytes) (seq : ℕ) (e : Bytes) (i : Item)
    → IsHeader method seq e
    → Fits 65 i
    → IsU64 (length (message method seq e (encode i)))
    → decode_message hex (message method seq e (encode i))
      ≡ ok (record { method = method; seq = seq; error = e; payload = value hex i })
unfolding decode_message message lookup_field
decode_message-message hex method seq e i h f small =
    rw (header_value hex method seq e (encode i) h small)
      (rw (payload_item hex (header method seq e) i f (omega lengths)))

-- A message without a payload, such as an error response, reads back with a null payload.
pub decode_message-header :
    (hex : Hex) (method : Bytes) (seq : ℕ) (e : Bytes)
    → IsHeader method seq e
    → IsU64 (length (message method seq e []))
    → decode_message hex (message method seq e [])
      ≡ ok (record { method = method; seq = seq; error = e; payload = null })
unfolding decode_message message lookup_field
decode_message-header hex method seq e h small = rw append-nil (
    rw (rw append-nil at (header_value hex method seq e [] h small))
      (rw (payload_none hex (header method seq e))))
