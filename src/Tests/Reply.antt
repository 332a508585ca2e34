-- ===== src/Tests/Reply.antt =====
-- Runs of the replies of src/fabric.rs over rpc2.
use spore_peer.Prelude.{◌≡◌, refl, [], ◌++◌, ascii, length, ok, false, arith}
use spore_peer.Json.{bool, object, insert_field, no_fields}
use spore_peer.Text.{is_utf8}
use spore_peer.Crates.{plain_hex}
use spore_peer.Cbor.Encode
use spore_peer.Cbor.Encode.{head}
use spore_peer.Cbor.Decode.{decode_value, simple_value}
use spore_peer.Cbor.Item.{value}
use spore_peer.Fabric.Put.{put_reply}
use spore_peer.Fabric.Reply.{json_to_cbor, item_of, decode_value-json_to_cbor}

decode_value-json_to_cbor_example :
    decode_value plain_hex (json_to_cbor put_reply ++ []) 0
    ≡ ok (value plain_hex (item_of put_reply), length (json_to_cbor put_reply))
unfolding json_to_cbor put_reply insert_field Encode.map Encode.kv Encode.text head is_utf8
decode_value-json_to_cbor_example =
    decode_value-json_to_cbor plain_hex put_reply []
      (omega arith, ((omega arith, omega arith, refl), omega arith, tt)) (omega arith)

-- An accepted put is reported as false over rpc2.
queued_reads_false :
    value plain_hex (item_of put_reply)
    ≡ object (insert_field (ascii "queued") (bool false) no_fields)
unfolding value put_reply insert_field simple_value
queued_reads_false = refl
