-- ===== src/Network/Requests.antt =====
-- What a node of src/spore_peer.rs answers to the calls of a pass.
use spore_peer.Prelude.{
  ℕ, List, reverse, ◌∙◌, ◌>>=◌, ◌≤◌, ◌≡◌, refl, ap, true, false, [], Bytes, ascii, length, ltb, ok,
  arith,
}
use spore_peer.Crates.{Crates}
use spore_peer.Cbor.Decode.{
  Rpc2Message, slice_from, get_range, read_arg, head_args, read_head, decode_child, insert_pair,
  decode_pairs, decode_string, simple_value, decode_body, decode_levels, decode_value,
  decode_payload, decode_message,
}
use spore_peer.Cbor.Replies.{decode_message-getobject_request}
use spore_peer.Text.{is_utf8}
use spore_peer.Words.{IsU64, be_bytes, from_be_bytes}
use spore_peer.Json.{num, object, field, no_fields, insert_field, lookup_field}
use spore_peer.Cbor.Encode.{
  message, head, text, uint, map, kv, header, handshake_request, chain_request, handshake_response,
  chain_response, getobject_request, getobject_response,
}
use spore_peer.Store.Files.{serve_body}
use spore_peer.Peer.Chain.{chain_view, select}
use spore_peer.Peer.Rpc2
use spore_peer.Peer.Rpc2.{Node, get_object, handshake, run_rpc2, reply_frame, handle_rpc2}
use spore_peer.Server.Exchange.{IsMessage}
use spore_peer.Server.{Server, Setting, starts_with, handle_message, dispatch, handle_frame}

-- What the two calls of the opening decode to.
handshake_read :
    (c : Crates)
    → decode_message c.hex (message (ascii "Peer.Handshake") 1 [] (handshake_request 1))
      ≡ ok (record {
        method = ascii "Peer.Handshake";
        seq = 1;
        error = [];
        payload = object (field (ascii "N") (num 1) no_fields);
      })
unfolding handshake_request decode_message decode_payload decode_value decode_levels decode_body
    simple_value decode_string decode_pairs insert_pair decode_child read_head head_args read_arg
    get_range slice_from message head text uint map kv header be_bytes from_be_bytes is_utf8
    insert_field lookup_field
handshake_read c = refl

pub handshake-IsMessage : IsMessage (message (ascii "Peer.Handshake") 1 [] (handshake_request 1))
unfolding handshake_request message head text uint map kv header
handshake-IsMessage = (omega arith, omega arith)

pub chain-IsMessage : IsMessage (message (ascii "Peer.Chain") 2 [] (chain_request 0 5000))
unfolding chain_request message head text uint map kv header be_bytes
chain-IsMessage = (omega arith, omega arith)

chain_read :
    (c : Crates)
    → decode_message c.hex (message (ascii "Peer.Chain") 2 [] (chain_request 0 5000))
      ≡ ok (record {
        method = ascii "Peer.Chain";
        seq = 2;
        error = [];
        payload = object (field (ascii "N") (num 5000) (field (ascii "TOP") (num 0) no_fields));
      })
unfolding chain_request decode_message decode_payload decode_value decode_levels decode_body
    simple_value decode_string decode_pairs insert_pair decode_child read_head head_args read_arg
    get_range slice_from message head text uint map kv header be_bytes from_be_bytes is_utf8
    insert_field lookup_field
chain_read c = refl

module _ (c : Crates) (env : Setting) (s : Server) (body : Bytes) (msg : Rpc2Message) where
  -- A frame that decodes to a request of the sync subset is answered by `handle_rpc2`.
  pub handle_frame-rpc2 :
      decode_message c.hex body ≡ ok msg
      → ltb 0 (length msg.method) ≡ true
      → starts_with msg.method (ascii "Peer.Fabric") ≡ false
      → handle_frame c env s body ≡ (
        record s { node = (handle_rpc2 c env.hold_faults env.push env.cfg env.ip msg s.node).0 },
        (handle_rpc2 c env.hold_faults env.push env.cfg env.ip msg s.node).1,
      )
  unfolding handle_frame dispatch handle_message
  handle_frame-rpc2 reads named other = rw (reads, dispatch, named, other, handle_message) refl

module _ (c : Crates) (env : Setting) (s : Server) where
  -- A call for the body of a hash is answered by what `serve_body` has for its hexadecimal text.
  pub handle_frame-getobject :
      (seq : ℕ) (blid : Bytes)
      → IsU64 seq
      → length blid ≤ 64
      → handle_frame c env s (message (ascii "Peer.GetObject") seq [] (getobject_request blid)) ≡ (
        s,
        reply_frame seq
            (serve_body c s.node.hold (c.hex.encode blid) >>= λ b. ok (getobject_response b)),
      )
  unfolding handle_rpc2 run_rpc2 get_object lookup_field
  handle_frame-getobject seq blid hs hb =
      handle_frame-rpc2 c env s _ _ (decode_message-getobject_request c.hex seq blid hs hb) refl
        refl

  -- The opening of a pass is answered with the height and with the newest entries of the chain.
  module _ (chain : List (ℕ × Bytes)) (is : chain_view s.node.hold ≡ ok chain) where
    pub handle_frame-handshake :
        handle_frame c env s (message (ascii "Peer.Handshake") 1 [] (handshake_request 1))
        ≡ (s, ok (message [] 1 [] (handshake_response (length chain) 1)))
    unfolding handle_rpc2 run_rpc2 handshake reply_frame
    handle_frame-handshake =
        handle_frame-rpc2 c env s _ _ (handshake_read c) refl refl ∙ rw (is) refl

    pub handle_frame-chain :
        handle_frame c env s (message (ascii "Peer.Chain") 2 [] (chain_request 0 5000))
        ≡ (s, ok (message [] 2 [] (chain_response (select 0 5000 0 (reverse chain)))))
    unfolding handle_rpc2 run_rpc2 Rpc2.chain reply_frame lookup_field
    handle_frame-chain = handle_frame-rpc2 c env s _ _ (chain_read c) refl refl ∙ rw (is) refl

  -- The calls of the opening leave the node as it is.
  pub handshake-keeps :
      (handle_frame c env s (message (ascii "Peer.Handshake") 1 [] (handshake_request 1))).0 ≡ s
  unfolding handle_rpc2 run_rpc2
  handshake-keeps = ap (λ r. r.0) (handle_frame-rpc2 c env s _ _ (handshake_read c) refl refl)

  pub chain-keeps :
      (handle_frame c env s (message (ascii "Peer.Chain") 2 [] (chain_request 0 5000))).0 ≡ s
  unfolding handle_rpc2 run_rpc2
  chain-keeps = ap (λ r. r.0) (handle_frame-rpc2 c env s _ _ (chain_read c) refl refl)
