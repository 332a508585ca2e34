-- ===== src/Tests/Encoding.antt =====
-- Runs of the CBOR of src/p2p.rs and of the envelope of src/fabric.rs.
use spore_peer.Prelude.{
  ◌≡◌, refl, [], ◌∷◌, ◌++◌, Bytes, IsByte, All, ascii, length, replicate, Ensures, ok, arith,
}
use spore_peer.Words.{from_le_bytes, be_bytes}
use spore_peer.Crates.{plain_hex, constant_sha}
use spore_peer.Text.{is_utf8}
use spore_peer.Cbor.Encode.{head, message, header, chain_response, chain_pairs, putobject_request}
use spore_peer.Cbor.Encode
use spore_peer.Cbor.Decode.{decode_value, decode_message}
use spore_peer.Cbor.Item.{Item, uint, text, cons, nil, encode, value}
use spore_peer.Cbor.ReadBack.{decode_value-encode}
use spore_peer.Cbor.Bounds.{Within, decode_value-Ensures}
use spore_peer.Cbor.Messages.{IsHeader, decode_message-message}
use spore_peer.Fabric.Envelope.{
  Envelope, IsEnvelope, marshal_envelope, parse_envelope, envelope_slices, length-marshal_envelope,
  parse_envelope-marshal_envelope,
}
use spore_peer.Fabric.Derive.{rfc_hmac, fabric_handle, label_handle, fabric_handle_lem}

abbrev sample_item : Item
sample_item = Item.array (cons (uint 500) (cons (text (ascii "abc")) nil))

decode_value-encode_example :
    decode_value plain_hex (encode sample_item ++ (7 ∷ [])) 0
    ≡ ok (value plain_hex sample_item, length (encode sample_item))
unfolding encode head is_utf8 be_bytes
decode_value-encode_example =
    decode_value-encode plain_hex sample_item (7 ∷ [])
      (omega arith, (omega arith, ((omega arith, refl), tt))) (omega arith)

decode_value-Ensures_example :
    Ensures (Within (0x9f ∷ 1 ∷ [])) (decode_value plain_hex (0x9f ∷ 1 ∷ []) 0)
decode_value-Ensures_example = decode_value-Ensures plain_hex (0x9f ∷ 1 ∷ []) 0

ping-IsHeader : IsHeader (ascii "Ping") 7 []
unfolding is_utf8
ping-IsHeader = record {
  method_len = omega arith;
  method_utf8 = refl;
  seq_word = omega arith;
  error_len = omega arith;
  error_utf8 = refl;
}

decode_message-message_example :
    decode_message plain_hex (message (ascii "Ping") 7 [] (encode sample_item))
    ≡ ok (record {
      method = ascii "Ping";
      seq = 7;
      error = [];
      payload = value plain_hex sample_item;
    })
unfolding message header Encode.kv Encode.text Encode.map Encode.uint Encode.array Encode.bytes
    Encode.hash32 head be_bytes encode is_utf8
decode_message-message_example =
    decode_message-message plain_hex (ascii "Ping") 7 [] sample_item ping-IsHeader
      (omega arith, (omega arith, ((omega arith, refl), tt))) (omega arith)

abbrev blid : Bytes
blid = replicate 32 200

abbrev sample_envelope : Envelope
sample_envelope = record {
  handle = replicate 32 9;
  pointer = 1 ∷ 0 ∷ replicate 72 7;
  received_at = 1_700_000_000;
}

sample_IsEnvelope : IsEnvelope sample_envelope
sample_IsEnvelope = record {
  handle_len = refl;
  handle_bytes = omega arith;
  pointer_size = refl;
  pointer_bytes = omega arith;
  pointer_header = refl;
  received = omega arith;
}

length-marshal_envelope_example : length (marshal_envelope sample_envelope) ≡ 115
length-marshal_envelope_example = length-marshal_envelope sample_envelope sample_IsEnvelope

parse_envelope-marshal_envelope_example :
    parse_envelope (marshal_envelope sample_envelope) ≡ ok sample_envelope
parse_envelope-marshal_envelope_example =
    parse_envelope-marshal_envelope sample_envelope sample_IsEnvelope

abbrev sample_bytes : Bytes
sample_bytes = 1 ∷ (replicate 32 9 ++ (1 ∷ 0 ∷ (replicate 72 7 ++ replicate 8 1)))

sample_bytes-IsByte : All IsByte sample_bytes
sample_bytes-IsByte = omega arith

sample_parses : parse_envelope sample_bytes ≡ ok (envelope_slices sample_bytes)
unfolding parse_envelope envelope_slices from_le_bytes
sample_parses = refl

fabric_handle_lem_example :
    fabric_handle constant_sha (1 ∷ []) 5 (2 ∷ [])
    ≡ rfc_hmac constant_sha
        (constant_sha.digest
          (replicate 64 0x5c ++ constant_sha.digest (replicate 64 0x36 ++ (1 ∷ []))))
        (label_handle ++ (be_bytes 4 5 ++ ((2 ∷ []) ++ (1 ∷ []))))
fabric_handle_lem_example = fabric_handle_lem constant_sha (1 ∷ []) 5 (2 ∷ [])
