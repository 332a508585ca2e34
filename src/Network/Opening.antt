-- ===== src/Network/Opening.antt =====
-- The two calls with which a pass of src/spore_peer.rs begins, to a node of the same program.
use spore_peer.Prelude.{
  ℕ, ◌≡◌, ap, ◌∙◌, List, [], reverse, All, All-weaken, Bytes, ascii, length, ok, arith,
}
use spore_peer.Words.{IsU64}
use spore_peer.Json.{num, array, object, field, no_fields, lookup_field}
use spore_peer.Crates.{Crates}
use spore_peer.Cbor.Encode.{
  message, handshake_request, handshake_response, chain_request, chain_response,
}
use spore_peer.Cbor.Room.{message-room, length-message_pos}
use spore_peer.Cbor.Payloads.{IsChain, chain_values, decode_message-chain_response}
use spore_peer.Cbor.Replies.{
  decode_message-handshake_response, length-handshake_response, length-chain_response,
}
use spore_peer.Peer.Chain.{chain_view, select, select_lem}
use spore_peer.Peer.Ledger.{IsEntry, chain_view-IsEntry, All-reverse, All-select}
use spore_peer.Server.{Server, Setting}
use spore_peer.Client.Call.{rpc2_call, or_refused, chain_of, after_handshake, opening}
use spore_peer.Network.{online, linked}
use spore_peer.Network.Calls.{rpc2_call-online}
use spore_peer.Network.Requests.{
  handshake-IsMessage, chain-IsMessage, handle_frame-handshake, handle_frame-chain,
}

-- The entries that a node answers of its chain, the newest first.
abbrev pub listed : List (ℕ × Bytes) → List (ℕ × Bytes)
listed chain = select 0 5000 0 (reverse chain)

module _ (c : Crates) (env : ℕ → Setting) (gone eof : Bytes) (s : Server) (chain : List (ℕ × Bytes))
    (is : chain_view s.node.hold ≡ ok chain) (small : IsU64 (length chain)) where
  pub listed-IsEntry : All (IsEntry (length chain)) (listed chain)
  listed-IsEntry =
      All-select (IsEntry (length chain)) 0 5000 0 (reverse chain)
        (All-reverse (IsEntry (length chain)) chain (chain_view-IsEntry s.node.hold chain is))

  handshake-online :
      rpc2_call
        (online c env gone eof)
        c
        (linked c env gone eof s 0)
        (ascii "Peer.Handshake")
        1
        (handshake_request 1)
      ≡ (
        linked c env gone eof s 1,
        ok (record {
          method = [];
          seq = 1;
          error = [];
          payload =
              object (field (ascii "H") (num (length chain)) (field (ascii "N") (num 1) no_fields));
        }),
      )
  handshake-online =
      let reply = message [] 1 [] (handshake_response (length chain) 1) in
      rpc2_call-online c env gone eof s s 0 (ascii "Peer.Handshake") 1 (handshake_request 1) reply _
        handshake-IsMessage (handle_frame-handshake c (env 0) s chain is)
        (
          length-message_pos [] 1 [] (handshake_response (length chain) 1),
          omega (
            arith,
            message-room [] 1 [] (handshake_response (length chain) 1),
            length-handshake_response (length chain),
          ),
        )
        (decode_message-handshake_response c.hex 1 (length chain) (omega arith) small)

  chain-online :
      rpc2_call
        (online c env gone eof)
        c
        (linked c env gone eof s 1)
        (ascii "Peer.Chain")
        2
        (chain_request 0 5000)
      ≡ (
        linked c env gone eof s 2,
        ok (record {
          method = [];
          seq = 2;
          error = [];
          payload = array (chain_values c.hex (listed chain));
        }),
      )
  chain-online =
      let payload = chain_response (listed chain) in
      let (selected, few) = select_lem 0 5000 (reverse chain) (omega arith) in
      let words : IsChain (listed chain) =
        All-weaken (listed chain)
          (λ e (low, (size, bytes)). (omega (arith, low, small), omega (arith, size)))
          listed-IsEntry in
      let sizes = All-weaken (listed chain) (λ e (low, (size, bytes)). size) listed-IsEntry in
      let room = message-room [] 2 [] payload in
      let body = length-chain_response (listed chain) sizes in
      rpc2_call-online c env gone eof s s 1 (ascii "Peer.Chain") 2 (chain_request 0 5000)
        (message [] 2 [] payload) _ chain-IsMessage (handle_frame-chain c (env 1) s chain is)
        (length-message_pos [] 2 [] payload, omega (arith, room, body, few))
        (decode_message-chain_response c.hex 2 (listed chain) (omega arith) words
          (omega (arith, few)) (omega (arith, room, body, few)))

  -- A node answers the opening of a pass with the length of its ledger and with its newest entries, in
  -- hexadecimal.
  pub opening-online :
      opening (online c env gone eof) c (linked c env gone eof s 0)
      ≡ (linked c env gone eof s 2, ok (length chain, chain_values c.hex (listed chain)))
  unfolding opening after_handshake or_refused chain_of lookup_field
  opening-online =
      ap
        (λ r.
          after_handshake (online c env gone eof) c
            (or_refused (online c env gone eof) (ascii "handshake: ") r))
        handshake-online
      ∙ ap
          (λ r.
            chain_of (online c env gone eof) (length chain)
              (or_refused (online c env gone eof) (ascii "chain: ") r))
          chain-online
