-- ===== src/Network/Pull.antt =====
-- `sync_stream` of src/spore_peer.rs against a node of the same program.
use spore_peer.Prelude.{
  ℕ, suc, ◌≤◌, ◌<◌, ◌≡◌, refl, sym, ◌∙◌, subst, true, [], some, Option-cases, Bool-cases, inl, inr,
  Bytes, IsByte, All, ascii, length, lt→ltb, same_bytes, same_bytes→eq, ◌>>=◌, ok, err, ok_or,
  arith,
}
use spore_peer.Words.{IsU64}
use spore_peer.Text.{is_utf8, from_hex-lower_hex}
use spore_peer.Json.{null, str}
use spore_peer.Crates.{Crates}
use spore_peer.Refusal.{Refusal, refusal_text, not_found, cid_mismatch}
use spore_peer.Dict.{lookup}
use spore_peer.Cbor.Encode.{message, getobject_request, getobject_response, error_response}
use spore_peer.Cbor.Decode.{Rpc2Message, decode_message}
use spore_peer.Cbor.Messages.{IsHeader, decode_message-header}
use spore_peer.Cbor.Room.{message-room, length-message_pos}
use spore_peer.Cbor.Replies.{
  decode_message-getobject_response, length-getobject_request, length-getobject_response,
}
use spore_peer.Store.Decode.{hex_decode, hex_decode-lower_hex}
use spore_peer.Store.Files.{File, Hold, body_name, max_body_bytes, cid_bytes, check_cid, serve_body}
use spore_peer.Peer.Ledger.{IsHash}
use spore_peer.Peer.Rpc2.{reply_frame}
use spore_peer.Server.{Server, Setting, handle_frame}
use spore_peer.Server.Exchange.{IsMessage}
use spore_peer.Client.Call.{Conn, rpc2_call}
use spore_peer.Client.Sync.{SyncSetting, fetched_body}
use spore_peer.Client.Sync.Reliable.{Answer, refusal, body, Reliable}
use spore_peer.Network.{online, linked}
use spore_peer.Network.Calls.{rpc2_call-online}
use spore_peer.Network.Requests.{handle_frame-getobject}

-- The files are bytes, and no larger than `store_body` lets them be.
abbrev pub IsSane : Hold → Type 0
IsSane hold =
    (name : Bytes) (file : File)
    → lookup name hold ≡ some file
    → All IsByte file.content × (length file.content ≤ max_body_bytes)

-- The node serves a body under the hash.
abbrev pub IsKept : Crates → Server → Bytes → Type 0
IsKept c s blid = (b : Bytes) × (serve_body c s.node.hold (c.hex.encode blid) ≡ ok b)

module _ (c : Crates) (env : ℕ → Setting) (gone eof : Bytes) (pull : SyncSetting) (s : Server)
    (sane : IsSane s.node.hold) where
  abbrev pub IsLinked : Conn (online c env gone eof) → Type 0
  IsLinked conn = (i : ℕ) × (conn ≡ linked c env gone eof s i)

  abbrev Answered : Bytes → ℕ → ℕ → Type 0
  Answered blid i seq = Answer (online c env gone eof) c pull IsLinked (IsKept c s) blid (
      rpc2_call (online c env gone eof) c (linked c env gone eof s i) (ascii "Peer.GetObject") seq
        (getobject_request blid))

  module _ (i seq : ℕ) (blid : Bytes) (hs : IsU64 seq) (hash : IsHash blid) where
    request-IsMessage : IsMessage (message (ascii "Peer.GetObject") seq [] (getobject_request blid))
    request-IsMessage =
        let body = getobject_request blid in
        (
          length-message_pos (ascii "Peer.GetObject") seq [] body,
          omega (
            arith,
            message-room (ascii "Peer.GetObject") seq [] body,
            length-getobject_request blid,
            hash.0,
          ),
        )

    -- The reply that the node frames is the answer of the call.
    reply-Answered :
        (reply : Bytes) (msg : Rpc2Message)
        → handle_frame c
            (env i)
            s
            (message (ascii "Peer.GetObject") seq [] (getobject_request blid))
          ≡ (s, ok reply)
        → IsMessage reply
        → decode_message c.hex reply ≡ ok msg
        → Answer
            (online c env gone eof)
            c
            pull
            IsLinked
            (IsKept c s)
            blid
            (linked c env gone eof s (suc i), ok msg)
        → Answered blid i seq
    reply-Answered reply msg served back reads =
        subst (Answer (online c env gone eof) c pull IsLinked (IsKept c s) blid) (
          sym (
            rpc2_call-online c env gone eof s s i (ascii "Peer.GetObject") seq
              (getobject_request blid) reply msg request-IsMessage served back reads))

    serve_hash : serve_body c s.node.hold (c.hex.encode blid) ≡ (
        ok_or (lookup (body_name (c.hex.encode blid)) s.node.hold) not_found >>= λ file.
        check_cid c blid file)
    unfolding serve_body cid_bytes
    serve_hash =
        let decodes : hex_decode (c.hex.encode blid) ≡ ok blid =
          rw (c.hex.encode_lem blid) (hex_decode-lower_hex blid hash.1) in
        rw (decodes, hash.0) refl

    refused-Answered :
        (e : Refusal)
        → length (refusal_text e) ≤ 64
        → is_utf8 (refusal_text e) ≡ true
        → 0 < length (refusal_text e)
        → serve_body c s.node.hold (c.hex.encode blid) ≡ err e
        → Answered blid i seq
    unfolding reply_frame error_response is_utf8
    refused-Answered e short utf8 told r =
        let msg : Rpc2Message = record {
          method = [];
          seq = seq;
          error = refusal_text e;
          payload = null;
        } in
        let header : IsHeader [] seq (refusal_text e) = record {
          method_len = omega arith;
          method_utf8 = refl;
          seq_word = hs;
          error_len = omega (arith, short);
          error_utf8 = utf8;
        } in
        let room = message-room [] seq (refusal_text e) [] in
        let reads =
          decode_message-header c.hex [] seq (refusal_text e) header (omega (arith, room, short)) in
        let served = handle_frame-getobject c (env i) s seq blid hs (omega (arith, hash.0)) in
        reply-Answered (message [] seq (refusal_text e) []) msg (served ∙ rw r refl)
          (length-message_pos [] seq (refusal_text e) [], omega (arith, room, short)) reads
          (refusal (linked c env gone eof s (suc i)) msg (suc i, refl)
            (lt→ltb 0 (length (refusal_text e)) told) (λ (b, k). cc (k, r)))

    body-Answered :
        (b : Bytes)
        → All IsByte b
        → length b ≤ max_body_bytes
        → c.sha.digest b ≡ blid
        → serve_body c s.node.hold (c.hex.encode blid) ≡ ok b
        → Answered blid i seq
    unfolding reply_frame fetched_body
    body-Answered b bytes small digest r =
        let msg : Rpc2Message = record {
          method = [];
          seq = seq;
          error = [];
          payload = str (c.hex.encode b);
        } in
        let payload = getobject_response b in
        let room = message-room [] seq [] payload in
        let reads = decode_message-getobject_response c.hex seq b hs (omega (arith, small)) in
        let served = handle_frame-getobject c (env i) s seq blid hs (omega (arith, hash.0)) in
        let decodes : c.hex.decode (c.hex.encode b) ≡ some b =
          c.hex.decode_lem (c.hex.encode b)
          ∙ rw (c.hex.encode_lem b) (from_hex-lower_hex b bytes) in
        reply-Answered (message [] seq [] payload) msg (served ∙ rw r refl)
          (
            length-message_pos [] seq [] payload,
            omega (arith, room, length-getobject_response b, small),
          )
          reads
          (body (linked c env gone eof s (suc i)) msg b (suc i, refl) refl (rw decodes refl) digest)

    getobject-Answered : Answered blid i seq
    unfolding check_cid is_utf8 refusal_text
    getobject-Answered =
        let name = body_name (c.hex.encode blid) in
        elim (Option-cases (lookup name s.node.hold)) [
          | inl y ↦
              refused-Answered not_found (omega arith) refl (omega arith) (serve_hash ∙ rw y refl)
          | inr (file, y) ↦ elim (Bool-cases (same_bytes (c.sha.digest file.content) blid)) [
            | inl z ↦
                let (bytes, small) = sane name file y in
                body-Answered file.content bytes small (same_bytes→eq _ _ z)
                  (serve_hash ∙ rw (y, z) refl)
            | inr z ↦
                refused-Answered cid_mismatch (omega arith) refl (omega arith)
                  (serve_hash ∙ rw (y, z) refl)
          ]
        ]

  -- A node answers every call for a body, and refuses only what it does not serve.
  pub online-Reliable : Reliable (online c env gone eof) c pull IsLinked (IsKept c s)
  online-Reliable conn seq blid (i, e) hs hash =
      subst
        (λ x. Answer (online c env gone eof) c pull IsLinked (IsKept c s) blid (
          rpc2_call (online c env gone eof) c x (ascii "Peer.GetObject") seq
            (getobject_request blid)))
        (sym e) (getobject-Answered i seq blid hs hash)
