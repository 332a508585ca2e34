-- ===== src/Client/Push/Laws.antt =====
-- What `push_stream` of src/spore_peer.rs writes to a peer.
use spore_peer.Prelude.{
  ℕ, suc, ◌+◌, ◌≡◌, refl, sym, ap, ◌∙◌, subst, List, [], ◌∷◌, some, Option-cases, Bool-cases, inl,
  inr, Bytes, ascii, length, ltb, leb, leb→gt, arith, ◌≤◌, same_bytes, same_bytes→eq, Result, ok,
  err, panic, Try,
}
use spore_peer.Json.{Items, get_str, unwrap_or}
use spore_peer.Crates.{Crates}
use spore_peer.Dict.{lookup}
use spore_peer.Frames.{write_frame}
use spore_peer.Cbor.Encode.{message, handshake_request, chain_request, putobject_request}
use spore_peer.Cbor.Decode.{Rpc2Message}
use spore_peer.Store.Files.{File, Hold, body_name, cid_of}
use spore_peer.Peer.Chain.{chain_view}
use spore_peer.Client.Call.{Remote, Conn, Called, rpc2_call, or_refused, after_handshake, opening}
use spore_peer.Client.Sync.{max_fetches}
use spore_peer.Client.Push.{
  PushSetting, Pushing, PushTurn, goes, stops, fails, panics, Pushed, contains, peer_has, has_401,
  read_body, on_answer, push_file, push_entry, proceed, push_entries, push_result, push_chain,
  push_known, push_opened, push_stream,
}
use spore_peer.Client.Push.Honest.{
  IsHonest, handshake, chain, put, rpc2_call-state, or_refused-conn, chain_of-conn,
}

module _ (R : Remote) (c : Crates) (env : PushSetting) (hold : Hold) (Inv : R.State → Type 0)
    (keeps : (s : R.State) (frame : Bytes)
      → IsHonest c env.token hold frame
      → Inv s
      → Inv (R.send s frame).0) where
  call-Inv :
      (conn : Conn R) (method : Bytes) (seq : ℕ) (body : Bytes)
      → IsHonest c env.token hold (write_frame (message method seq [] body))
      → Inv conn.state
      → Inv (rpc2_call R c conn method seq body).0.state
  call-Inv conn method seq body honest h =
      subst Inv (sym (rpc2_call-state R c conn method seq body)) (keeps conn.state _ honest h)

  after_handshake-Inv :
      (r : Called R Rpc2Message) → Inv r.0.state → Inv (after_handshake R c r).0.state
  unfolding after_handshake
  after_handshake-Inv (conn, ok hs) h =
      let call = rpc2_call R c conn (ascii "Peer.Chain") 2 (chain_request 0 5000) in
      rw (chain_of-conn R c, or_refused-conn R c)
        (call-Inv conn (ascii "Peer.Chain") 2 (chain_request 0 5000) chain h)
  after_handshake-Inv (conn, err e) h = h
  after_handshake-Inv (conn, panic) h = h

  opening-Inv : (conn : Conn R) → Inv conn.state → Inv (opening R c conn).0.state
  unfolding opening
  opening-Inv conn h =
      after_handshake-Inv
        (or_refused R (ascii "handshake: ")
          (rpc2_call R c conn (ascii "Peer.Handshake") 1 (handshake_request 1)))
        (rw (or_refused-conn R c)
          (call-Inv conn (ascii "Peer.Handshake") 1 (handshake_request 1) handshake h))

  -- The connection of a turn is one that honest frames have made.
  abbrev TurnInv : PushTurn R → Type 0
  TurnInv (goes q) = Inv q.conn.state
  TurnInv (stops q) = Inv q.conn.state
  TurnInv (fails q e) = Inv q.conn.state
  TurnInv (panics q) = Inv q.conn.state

  on_answer-Inv :
      (topo : ℕ) (cid : Bytes) (p : Pushing R) (r : Called R Rpc2Message)
      → Inv r.0.state
      → TurnInv (on_answer R c env topo cid p r)
  unfolding on_answer
  on_answer-Inv topo cid p (conn, ok resp) h =
      let stored = unwrap_or (get_str resp.payload (ascii "BLID")) [] in
      elim (Bool-cases (ltb 0 (length resp.error))) [
        | inl y ↦ elim (Bool-cases (has_401 resp.error)) [
          | inl z ↦ rw (y, z, on_answer) h
          | inr z ↦ rw (y, z, on_answer) h
        ]
        | inr y ↦ elim (Bool-cases (same_bytes stored (c.hex.encode cid))) [
          | inl z ↦ rw (y, z, on_answer) h
          | inr z ↦ rw (y, z, on_answer) h
        ]
      ]
  on_answer-Inv topo cid p (conn, err e) h = h
  on_answer-Inv topo cid p (conn, panic) h = h

  -- The file that is read is the one of that name.
  read_body_ok :
      (n : ℕ) (cid_hex : Bytes) (file : File)
      → read_body R c env n cid_hex hold ≡ ok file
      → lookup (body_name cid_hex) hold ≡ some file
  unfolding read_body
  read_body_ok n cid_hex file e = elim (Option-cases (env.read_fault n)) [
    | inr (x, y) ↦ cc (rw (y, read_body) at e)
    | inl y ↦ elim (Option-cases (lookup (body_name cid_hex) hold)) [
      | inl z ↦ cc (rw (y, z, read_body) at e)
      | inr (g, z) ↦ z ∙ ap some (cc (rw (y, z, read_body) at e))
    ]
  ]

  push_file-Inv :
      (topo : ℕ) (cid : Bytes) (p : Pushing R) (r : Result Bytes File)
      → ((file : File) → r ≡ ok file → lookup (body_name (c.hex.encode cid)) hold ≡ some file)
      → p.attempted ≤ max_fetches
      → Inv p.conn.state
      → TurnInv (push_file R c env topo cid p r)
  unfolding push_file
  push_file-Inv topo cid p (ok file) l few h =
      elim (Bool-cases (same_bytes (c.sha.digest file.content) cid)) [
        | inr y ↦ rw (y, push_file) h
        | inl y ↦
            let hash : c.sha.digest file.content ≡ cid = same_bytes→eq _ _ y in
            let named : lookup (body_name (cid_of c file.content)) hold ≡ some file =
              rw (cid_of, hash) (l file refl) in
            let honest : IsHonest c env.token hold (
                write_frame (
                  message (ascii "Peer.PutObject") (200 + p.attempted) []
                    (putobject_request cid file.content env.token))) =
              rw (← hash) (put (200 + p.attempted) file (omega (arith, few)) named) in
            rw (y, push_file)
              (on_answer-Inv topo cid p
                (rpc2_call R c p.conn (ascii "Peer.PutObject") (200 + p.attempted)
                  (putobject_request cid file.content env.token))
                (call-Inv p.conn (ascii "Peer.PutObject") (200 + p.attempted)
                  (putobject_request cid file.content env.token) honest h))
      ]
  push_file-Inv topo cid p (err e) l few h = h
  push_file-Inv topo cid p panic l few h = h

  push_entry-Inv :
      (had : List Bytes) (e : ℕ × Bytes) (p : Pushing R)
      → Inv p.conn.state
      → TurnInv (push_entry R c env hold had e p)
  unfolding push_entry
  push_entry-Inv had (topo, cid) p h =
      let q = record p { attempted = suc p.attempted } in
      elim (Bool-cases (contains (c.hex.encode cid) had)) [
        | inl y ↦ rw (y, push_entry) h
        | inr y ↦ elim (Bool-cases (leb max_fetches p.attempted)) [
          | inl z ↦ rw (y, z, push_entry) h
          | inr z ↦
              rw (y, z, push_entry)
                (push_file-Inv topo cid q (read_body R c env q.attempted (c.hex.encode cid) hold)
                  (read_body_ok q.attempted (c.hex.encode cid))
                  (omega (arith, leb→gt max_fetches p.attempted z)) h)
        ]
      ]

  proceed-Inv :
      (k : Pushing R → Pushed R) (t : PushTurn R)
      → TurnInv t
      → ((q : Pushing R) → Inv q.conn.state → Inv (k q).0.conn.state)
      → Inv (proceed R c env k t).0.conn.state
  unfolding proceed
  proceed-Inv k (goes q) h next = next q h
  proceed-Inv k (stops q) h next = h
  proceed-Inv k (fails q e) h next = h
  proceed-Inv k (panics q) h next = h

  push_entries-Inv :
      (had : List Bytes) (es : List (ℕ × Bytes)) (p : Pushing R)
      → Inv p.conn.state
      → Inv (push_entries R c env hold had es p).0.conn.state
  unfolding push_entries
  push_entries-Inv had [] p h = h
  push_entries-Inv had (e ∷ es) p h =
      proceed-Inv (push_entries R c env hold had es) (push_entry R c env hold had e p)
        (push_entry-Inv had e p h) (push_entries-Inv had es)

  push_result-Inv :
      (height n : ℕ) (r : Pushed R)
      → Inv r.0.conn.state
      → Inv (push_result R c env height n r).0.conn.state
  unfolding push_result
  push_result-Inv height n (p, ok u) h = h
  push_result-Inv height n (p, err e) h = h
  push_result-Inv height n (p, panic) h = h

  push_chain-Inv :
      (height : ℕ) (had : List Bytes) (p : Pushing R) (r : Try (List (ℕ × Bytes)))
      → Inv p.conn.state
      → Inv (push_chain R c env hold height had p r).0.conn.state
  unfolding push_chain
  push_chain-Inv height had p (ok es) h =
      push_result-Inv height (length had) (push_entries R c env hold had es p)
        (push_entries-Inv had es p h)
  push_chain-Inv height had p (err u) h =
      push_result-Inv height (length had) (push_entries R c env hold had [] p)
        (push_entries-Inv had [] p h)
  push_chain-Inv height had p panic h = h

  push_known-Inv :
      (height : ℕ) (p : Pushing R) (r : Result Bytes (List Bytes))
      → Inv p.conn.state
      → Inv (push_known R c env hold height p r).0.conn.state
  unfolding push_known
  push_known-Inv height p (ok had) h = push_chain-Inv height had p (chain_view hold) h
  push_known-Inv height p (err e) h = h
  push_known-Inv height p panic h = h

  push_opened-Inv :
      (r : Called R (ℕ × Items)) → Inv r.0.state → Inv (push_opened R c env hold r).0.conn.state
  unfolding push_opened
  push_opened-Inv (conn, ok (height, es)) h =
      push_known-Inv height (record { conn = conn; attempted = 0; pushed = 0 }) (peer_has es []) h
  push_opened-Inv (conn, err e) h = h
  push_opened-Inv (conn, panic) h = h

  -- A pass writes nothing to the peer but honest frames: what holds of the other side at first, and is
  -- kept by every frame of the opening and by every push of a body of the store under its own hash,
  -- holds of it at the end, whatever it answers and wherever the pass ends.
  pub push_stream-Inv :
      (conn : Conn R) → Inv conn.state → Inv (push_stream R c env conn hold).0.conn.state
  unfolding push_stream
  push_stream-Inv conn h = push_opened-Inv (opening R c conn) (opening-Inv conn h)
