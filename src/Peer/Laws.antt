-- ===== src/Peer/Laws.antt =====
-- `handle_rpc2` of src/spore_peer.rs on the store, and its accepted pushes.
use spore_peer.Prelude.{
  ◌≡◌, refl, ap, Bool, true, false, ◌&&◌, [], none, some, Bool-cases, inl, inr, Bytes, ascii,
  length, ◌==◌, same_bytes, same_bytes→eq, Result, ok, err, panic, Try, guard, ◌>>=◌, ◌>>◌,
}
use spore_peer.Json.{Value, get_str, unwrap_or}
use spore_peer.Crates.{Crates}
use spore_peer.Refusal.{Refusal, body_not_blid}
use spore_peer.Limiter.{allow}
use spore_peer.Cbor.Encode.{putobject_response}
use spore_peer.Cbor.Decode.{Rpc2Message}
use spore_peer.Store.Decode.{hex_decode}
use spore_peer.Store.Files.{Hold, HoldFaults, store_body}
use spore_peer.Store.Laws.{IsHold, hex_decode-cid_of}
use spore_peer.Store.Origin.{store_body-IsHold}
use spore_peer.Store.Serve.{IsStored, store_body_ok}
use spore_peer.Peer.Policy.{ServeConfig, check_write_token, check_quota, enforce_write_policy}
use spore_peer.Peer.Rpc2.{
  Node, PushTimes, answered, pushed_body, check_blid, put_answer, put_checked, put_decoded,
  put_object, run_rpc2, handle_rpc2,
}

module _ (c : Crates) (f : HoldFaults) (t : PushTimes) (cfg : ServeConfig) (ip : Bytes) where
  put_checked-IsHold :
      (body : Bytes) (node : Node) (p : Result Refusal (Unit {0}))
      → IsHold c node.hold
      → IsHold c (put_checked c f t.write_at body node p).0.hold
  unfolding put_checked
  put_checked-IsHold body node (ok u) h = store_body-IsHold c f t.write_at body node.hold h
  put_checked-IsHold body node (err e) h = h
  put_checked-IsHold body node panic h = h

  put_decoded-IsHold :
      (payload : Value) (node : Node) (b : Result Refusal Bytes)
      → IsHold c node.hold
      → IsHold c (put_decoded c f t cfg ip payload node b).0.hold
  unfolding put_decoded
  put_decoded-IsHold payload node (ok body) h =
      let policy =
        enforce_write_policy cfg ip t.limit_at (length body) node.limiter payload node.hold in
      put_checked-IsHold body (record node { limiter = policy.0 })
        (policy.1 >> check_blid c body payload) h
  put_decoded-IsHold payload node (err e) h = h
  put_decoded-IsHold payload node panic h = h

  -- Of the methods only a push changes the directory.
  pub handle_rpc2_keeps :
      (P : Hold → Type 0) (msg : Rpc2Message) (node : Node)
      → P (put_object c f t cfg ip msg.payload node).0.hold
      → P node.hold
      → P (handle_rpc2 c f t cfg ip msg node).0.hold
  unfolding handle_rpc2 run_rpc2
  handle_rpc2_keeps P msg node put h =
      elim (Bool-cases (same_bytes msg.method (ascii "Peer.Handshake"))) [
        | inl y ↦ rw y h
        | inr y ↦ elim (Bool-cases (same_bytes msg.method (ascii "Peer.Chain"))) [
          | inl z ↦ rw (y, z) h
          | inr z ↦ elim (Bool-cases (same_bytes msg.method (ascii "Peer.GetObject"))) [
            | inl w ↦ rw (y, z, w) h
            | inr w ↦ elim (Bool-cases (same_bytes msg.method (ascii "Peer.PutObject"))) [
              | inl v ↦ rw (y, z, w, v) put
              | inr v ↦ rw (y, z, w, v) h
            ]
          ]
        ]
      ]

  -- Whatever a peer asks, and whatever the file system refuses, every body of the directory is
  -- named by the hash of its bytes after the request as before it.
  pub handle_rpc2-IsHold :
      (msg : Rpc2Message) (node : Node)
      → IsHold c node.hold
      → IsHold c (handle_rpc2 c f t cfg ip msg node).0.hold
  unfolding put_object
  handle_rpc2-IsHold msg node h =
      handle_rpc2_keeps (IsHold c) msg node
        (put_decoded-IsHold msg.payload node (pushed_body c msg.payload) h) h

  -- The checks that an accepted push has passed, and what it has done.
  pub record IsChecked (payload : Value) (before after : Node) (reply : Bytes) : Type 0 where
    pub body : Bytes
    pub decoded : pushed_body c payload ≡ ok body
    pub admitted : (allow ip t.limit_at before.limiter).0 ≡ true
    pub token : check_write_token cfg payload ≡ ok tt
    pub quota : check_quota cfg (length body) before.hold ≡ ok tt
    pub claimed :
        hex_decode (unwrap_or (get_str payload (ascii "BLID")) []) ≡ ok (c.sha.digest body)
    pub cid : Bytes
    pub stored : IsStored c body cid before.hold after.hold
    pub answer : reply ≡ putobject_response (c.sha.digest body)

  check_blid_ok :
      (body : Bytes) (d : Try Bytes)
      → (answered d >>= λ b. elim b [
        | none ↦ err body_not_blid
        | some blid ↦ guard (length blid == 32 && same_bytes blid (c.sha.digest body)) body_not_blid
      ])
        ≡ ok tt
      → d ≡ ok (c.sha.digest body)
  check_blid_ok body (ok blid) e = elim (Bool-cases (same_bytes blid (c.sha.digest body))) [
    | inl y ↦ ap ok (same_bytes→eq _ _ y)
    | inr y ↦ elim (Bool-cases (length blid == 32)) [
      | inl z ↦ cc (rw (z, y) at e)
      | inr z ↦ cc (rw z at e)
    ]
  ]
  check_blid_ok body (err u) e = cc
  check_blid_ok body panic e = cc

  put_answer_ok :
      (body cid reply : Bytes) (before after : Hold)
      → IsStored c body cid before after
      → put_answer (ok cid) ≡ ok reply
      → reply ≡ putobject_response (c.sha.digest body)
  unfolding put_answer
  put_answer_ok body cid reply before after s e = cc (rw (s.name, hex_decode-cid_of c body) at e)

  pub seq_ok :
      (m k : Result Refusal (Unit {0})) (u : Unit {0}) → (m >> k) ≡ ok u → (m ≡ ok tt) × (k ≡ ok u)
  seq_ok (ok v) k u e = (refl, e)
  seq_ok (err x) k u e = cc
  seq_ok panic k u e = cc

  guard_ok : (b : Bool) (e : Refusal) (u : Unit {0}) → guard b e ≡ ok u → b ≡ true
  guard_ok true x u e = refl
  guard_ok false x u e = cc

  put_body_ok :
      (body reply : Bytes) (node : Node) (r : Result Refusal Bytes)
      → IsHold c node.hold
      → (store_body c f t.write_at body node.hold).1 ≡ r
      → put_answer r ≡ ok reply
      → (cid : Bytes) × IsStored c body cid node.hold (store_body c f t.write_at body node.hold).0
        × (reply ≡ putobject_response (c.sha.digest body))
  put_body_ok body reply node (ok cid) h s e =
      let stored = store_body_ok c f t.write_at body cid node.hold h s in
      (cid, stored, put_answer_ok body cid reply _ _ stored e)
  put_body_ok body reply node (err x) h s e = unfold put_answer in cc
  put_body_ok body reply node panic h s e = unfold put_answer in cc

  put_checked_ok :
      (body reply : Bytes) (node : Node) (p : Result Refusal (Unit {0}))
      → IsHold c node.hold
      → (put_checked c f t.write_at body node p).1 ≡ ok reply
      → (p ≡ ok tt)
        × (cid : Bytes) × IsStored c body cid node.hold
            (put_checked c f t.write_at body node p).0.hold
        × (reply ≡ putobject_response (c.sha.digest body))
  unfolding put_checked
  put_checked_ok body reply node (ok u) h e =
      let (cid, stored, answer) =
        put_body_ok body reply node (store_body c f t.write_at body node.hold).1 h refl e in
      (refl, cid, stored, answer)
  put_checked_ok body reply node (err x) h e = cc
  put_checked_ok body reply node panic h e = cc

  put_decoded_ok :
      (payload : Value) (reply : Bytes) (node : Node) (b : Result Refusal Bytes)
      → pushed_body c payload ≡ b
      → IsHold c node.hold
      → (put_decoded c f t cfg ip payload node b).1 ≡ ok reply
      → IsChecked payload node (put_decoded c f t cfg ip payload node b).0 reply
  unfolding put_decoded enforce_write_policy check_blid
  put_decoded_ok payload reply node (ok body) d h e =
      let policy =
        enforce_write_policy cfg ip t.limit_at (length body) node.limiter payload node.hold in
      let (passed, cid, stored, answer) =
        put_checked_ok body reply (record node { limiter = policy.0 })
          (policy.1 >> check_blid c body payload) h e in
      let (all, blid) = seq_ok policy.1 (check_blid c body payload) tt passed in
      let (two, quota) = seq_ok _ (check_quota cfg (length body) node.hold) tt all in
      let (rate, token) = seq_ok _ (check_write_token cfg payload) tt two in
      record {
        body = body;
        decoded = d;
        admitted = guard_ok _ _ tt rate;
        token = token;
        quota = quota;
        claimed = check_blid_ok body _ blid;
        cid = cid;
        stored = stored;
        answer = answer;
      }
  put_decoded_ok payload reply node (err x) d h e = cc
  put_decoded_ok payload reply node panic d h e = cc

  -- What a push that is accepted has passed, by the checks of the source.
  pub put_object-IsChecked :
      (payload : Value) (reply : Bytes) (node : Node)
      → IsHold c node.hold
      → (put_object c f t cfg ip payload node).1 ≡ ok reply
      → IsChecked payload node (put_object c f t cfg ip payload node).0 reply
  unfolding put_object
  put_object-IsChecked payload reply node h e =
      put_decoded_ok payload reply node (pushed_body c payload) refl h e
