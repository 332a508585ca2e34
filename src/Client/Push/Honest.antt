-- ===== src/Client/Push/Honest.antt =====
-- The frames that `push_stream` of src/spore_peer.rs may write, and what a call does to the other side.
use spore_peer.Prelude.{
  ℕ, ◌+◌, ◌≤◌, ◌≡◌, refl, [], some, Bytes, ascii, Result, ok, err, panic, arith,
}
use spore_peer.Crates.{Crates}
use spore_peer.Dict.{lookup}
use spore_peer.Frames.{FrameError, write_frame}
use spore_peer.Cbor.Encode.{message, handshake_request, chain_request, putobject_request}
use spore_peer.Cbor.Decode.{Rpc2Message}
use spore_peer.Store.Files.{File, Hold, body_name, cid_of}
use spore_peer.Client.Sync.{max_fetches}
use spore_peer.Client.Call.{
  Remote, Conn, Called, received, answer_of, rpc2_call, or_refused, chain_of,
}

-- The frames that a pass may write: the two calls of the opening, and pushes of a body of the store,
-- under the hash of its bytes, by which its file is named, with a number within the cap.
pub data IsHonest (c : Crates) (token : Bytes) (hold : Hold) : Bytes → Type 0 where
  handshake :
      IsHonest c token hold
        (write_frame (message (ascii "Peer.Handshake") 1 [] (handshake_request 1)))
  chain :
      IsHonest c token hold (write_frame (message (ascii "Peer.Chain") 2 [] (chain_request 0 5000)))
  put :
      (seq : ℕ) (file : File)
      → seq ≤ 200 + max_fetches
      → lookup (body_name (cid_of c file.content)) hold ≡ some file
      → IsHonest c token hold (
          write_frame (
            message
              (ascii "Peer.PutObject")
              seq
              []
              (putobject_request (c.sha.digest file.content) file.content token)))

module _ (R : Remote) (c : Crates) where
  received-state :
      (s : R.State) (r : Result FrameError (Bytes × Bytes)) → (received R c s r).0.state ≡ s
  unfolding received
  received-state s (ok (resp, rest)) = refl
  received-state s (err e) = refl
  received-state s panic = refl

  answer_of-state :
      (unread : Bytes) (x : R.State × Result Bytes Bytes) → (answer_of R c unread x).0.state ≡ x.0
  unfolding answer_of
  answer_of-state unread (s, ok sent) = received-state s _
  answer_of-state unread (s, err e) = refl
  answer_of-state unread (s, panic) = refl

  pub rpc2_call-state :
      (conn : Conn R) (method : Bytes) (seq : ℕ) (body : Bytes)
      → (rpc2_call R c conn method seq body).0.state
        ≡ (R.send conn.state (write_frame (message method seq [] body))).0
  unfolding rpc2_call
  rpc2_call-state conn method seq body = answer_of-state conn.unread _

  pub or_refused-conn : (name : Bytes) (r : Called R Rpc2Message) → (or_refused R name r).0 ≡ r.0
  unfolding or_refused
  or_refused-conn name (conn, ok msg) = ground arith
  or_refused-conn name (conn, err e) = refl
  or_refused-conn name (conn, panic) = refl

  pub chain_of-conn : (height : ℕ) (r : Called R Rpc2Message) → (chain_of R height r).0 ≡ r.0
  unfolding chain_of
  chain_of-conn height (conn, ok msg) = refl
  chain_of-conn height (conn, err e) = refl
  chain_of-conn height (conn, panic) = refl
