-- ===== src/Peer/Rpc2.antt =====
-- src/spore_peer.rs, `handle_rpc2`: one request of a peer, answered over the body store.
use spore_peer.Prelude.{
  ℕ, min, ◌&&◌, [], reverse, Option, none, some, Bytes, ascii, length, replicate, ◌==◌, same_bytes,
  if◌then◌else◌, Result, ok, err, panic, Try, guard, ok_or, ◌>>=◌, ◌>>◌,
}
use spore_peer.Json.{Value, get_str, get_u64, unwrap_or}
use spore_peer.Crates.{Crates}
use spore_peer.Limiter.{RateLimiter}
use spore_peer.Refusal.{Refusal, refusal_text, body_not_hex, body_not_blid, unknown_method}
use spore_peer.Cbor.Encode.{
  message, error_response, handshake_response, chain_response, getobject_response,
  putobject_response,
}
use spore_peer.Cbor.Decode.{Rpc2Message}
use spore_peer.Store.Decode.{hex_decode}
use spore_peer.Store.Files.{Hold, HoldFaults, store_body, serve_body}
use spore_peer.Peer.Chain.{chain_view, select}
use spore_peer.Peer.Policy.{ServeConfig, enforce_write_policy}

-- The node: its directory and the counts of its write limiter.
pub record Node : Type 0 where
  pub hold : Hold
  pub limiter : RateLimiter

-- The readings of the clock during a push: the limiter's second, and the time of the new file.
pub record PushTimes : Type 0 where
  pub limit_at : ℕ
  pub write_at : ℕ

-- An `Option` that the source matches on: its absence is no refusal.
abbrev pub answered {ℓ} : {A : Type ℓ} → Try A → Result Refusal (Option A)
answered (ok a) = ok (some a)
answered (err u) = ok none
answered panic = panic

unfoldable pub handshake : Hold → Result Refusal Bytes
handshake hold =
    answered (chain_view hold) >>= λ chain. ok (handshake_response (length (unwrap_or chain [])) 1)

unfoldable pub chain : Hold → Value → Result Refusal Bytes
chain hold payload =
    let top = unwrap_or (get_u64 payload (ascii "TOP")) 0 in
    let n = min (unwrap_or (get_u64 payload (ascii "N")) 128) 5000 in
    answered (chain_view hold) >>= λ view.
    ok (chain_response (select top n 0 (reverse (unwrap_or view []))))

unfoldable pub get_object : Crates → Hold → Value → Result Refusal Bytes
get_object c hold payload =
    serve_body c hold (unwrap_or (get_str payload (ascii "BLID")) []) >>= λ body.
    ok (getobject_response body)

-- The pushed body: `hex::decode(body_hex)`.
unfoldable pub pushed_body : Crates → Value → Result Refusal Bytes
pushed_body c payload =
    ok_or (c.hex.decode (unwrap_or (get_str payload (ascii "BODY")) [])) body_not_hex

-- `blid_ok`.
unfoldable pub check_blid : Crates → Bytes → Value → Result Refusal (Unit {0})
check_blid c body payload =
    answered (hex_decode (unwrap_or (get_str payload (ascii "BLID")) [])) >>= λ b. elim b [
      | none ↦ err body_not_blid
      | some blid ↦ guard (length blid == 32 && same_bytes blid (c.sha.digest body)) body_not_blid
    ]

-- The reply to a stored body: `blid` stays zero where the name does not decode.
unfoldable pub put_answer : Result Refusal Bytes → Result Refusal Bytes
put_answer stored = do
  cid_hex ← stored
  blid ← answered (hex_decode cid_hex)
  ok (putobject_response (unwrap_or blid (replicate 32 0)))

-- Behind the policy and the hash.
unfoldable pub put_checked :
    Crates → HoldFaults → ℕ → Bytes → Node → Result Refusal (Unit {0}) → Node × Result Refusal Bytes
unfolding put_answer
put_checked c f now body node (ok u) =
    let stored = store_body c f now body node.hold in
    (record node { hold = stored.0 }, put_answer stored.1)
put_checked c f now body node (err e) = (node, err e)
put_checked c f now body node panic = (node, panic)

-- Behind the decoding of the body.
unfoldable pub put_decoded :
    Crates
    → HoldFaults
    → PushTimes
    → ServeConfig
    → Bytes
    → Value
    → Node
    → Result Refusal Bytes
    → Node × Result Refusal Bytes
unfolding put_checked check_blid
put_decoded c f t cfg ip payload node (ok body) =
    let policy =
      enforce_write_policy cfg ip t.limit_at (length body) node.limiter payload node.hold in
    put_checked c f t.write_at body (record node { limiter = policy.0 })
      (policy.1 >> check_blid c body payload)
put_decoded c f t cfg ip payload node (err e) = (node, err e)
put_decoded c f t cfg ip payload node panic = (node, panic)

unfoldable pub put_object :
    Crates
    → HoldFaults
    → PushTimes
    → ServeConfig
    → Bytes
    → Value
    → Node
    → Node × Result Refusal Bytes
unfolding put_decoded pushed_body
put_object c f t cfg ip payload node = put_decoded c f t cfg ip payload node (pushed_body c payload)

-- The `match` on the method.
unfoldable pub run_rpc2 :
    Crates
    → HoldFaults
    → PushTimes
    → ServeConfig
    → Bytes
    → Rpc2Message
    → Node
    → Node × Result Refusal Bytes
unfolding handshake chain get_object put_object
run_rpc2 c f t cfg ip msg node =
    if same_bytes msg.method (ascii "Peer.Handshake")
    then (node, handshake node.hold)
    else (if same_bytes msg.method (ascii "Peer.Chain")
        then (node, chain node.hold msg.payload)
        else (if same_bytes msg.method (ascii "Peer.GetObject")
            then (node, get_object c node.hold msg.payload)
            else (if same_bytes msg.method (ascii "Peer.PutObject")
                then put_object c f t cfg ip msg.payload node
                else (node, err unknown_method))))

-- The frame that is written: a message with the payload, or with the error's text.
unfoldable pub reply_frame : ℕ → Result Refusal Bytes → Try Bytes
reply_frame seq (ok body) = ok (message [] seq [] body)
reply_frame seq (err e) = ok (error_response seq (refusal_text e))
reply_frame seq panic = panic

unfoldable pub handle_rpc2 :
    Crates → HoldFaults → PushTimes → ServeConfig → Bytes → Rpc2Message → Node → Node × Try Bytes
unfolding run_rpc2 reply_frame
handle_rpc2 c f t cfg ip msg node =
    let done = run_rpc2 c f t cfg ip msg node in (done.0, reply_frame msg.seq done.1)
