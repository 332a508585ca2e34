-- ===== src/Client/Legacy.antt =====
-- src/spore_peer.rs, `fetch_stream` and `fetch`: a body is fetched over the legacy JSON requests.
use spore_peer.Prelude.{
  ◌≡◌, ◌⊎◌, refl, [], ◌++◌, Option, none, some, Result-cases, inl, inr, Bytes, ascii, Result, ok,
  err, panic,
}
use spore_peer.Json.{Value, object, str, no_fields, insert_field}
use spore_peer.Crates.{Crates}
use spore_peer.Frames.{FrameError, write_frame, read_frame}
use spore_peer.Store.Decode.{hex_decode}
use spore_peer.Peer.Fetch.{parse_fetch_response, parse_fetch_response_ok}
use spore_peer.Client.Call.{Remote, Conn, Called, frame_text}
use spore_peer.Client.Converge.{Connect}

-- The writing of the file that `--out` names: what the file system refuses, with what a failing write
-- has left in the file.
abbrev pub OutFault : Type 0
OutFault = Option (Option Bytes × Bytes)

-- `serde_json::json!({ "cid": cid })`
abbrev pub fetch_request : Bytes → Value
fetch_request cid = object (insert_field (ascii "cid") (str cid) no_fields)

-- `fs::write` to the path, if there is one: the file's bytes and the result.
unfoldable pub save :
    OutFault → Option Bytes → Bytes → Option Bytes → Option Bytes × Result Bytes (Unit {0})
save fault none body file = (file, ok tt)
save fault (some path) body file = elim fault [
  | none ↦ (some body, ok tt)
  | some (none, e) ↦ (file, err (ascii "write " ++ (path ++ (ascii ": " ++ e))))
  | some (some left, e) ↦ (some left, err (ascii "write " ++ (path ++ (ascii ": " ++ e))))
]

unfoldable pub save_parsed :
    OutFault
    → Option Bytes
    → Option Bytes
    → Result Bytes Bytes
    → Option Bytes × Result Bytes (Unit {0})
unfolding save
save_parsed fault out file (ok body) = save fault out body file
save_parsed fault out file (err e) = (file, err e)
save_parsed fault out file panic = (file, panic)

module _ (R : Remote) where
  unfoldable pub read_reply : R.State → Result FrameError (Bytes × Bytes) → Called R Bytes
  read_reply s (ok (resp, rest)) = (record { state = s; unread = rest }, ok resp)
  read_reply s (err e) = (record { state = s; unread = [] }, err (frame_text R.eof e))
  read_reply s panic = (record { state = s; unread = [] }, panic)

  unfoldable pub reply_of : Bytes → R.State × Result Bytes Bytes → Called R Bytes
  unfolding read_reply
  reply_of unread (s, ok sent) = read_reply s (read_frame (unread ++ sent))
  reply_of unread (s, err e) = (record { state = s; unread = unread }, err e)
  reply_of unread (s, panic) = (record { state = s; unread = unread }, panic)

  -- `write_frame`, and `read_frame` of the answer.
  unfoldable pub exchange : Conn R → Bytes → Called R Bytes
  unfolding reply_of
  exchange conn payload = reply_of conn.unread (R.send conn.state (write_frame payload))

  unfoldable pub on_response :
      Crates
      → OutFault
      → Bytes
      → Option Bytes
      → Option Bytes
      → Called R Bytes
      → (Conn R × Option Bytes) × Result Bytes (Unit {0})
  unfolding save_parsed
  on_response c fault cid out file (conn, ok resp) =
      let done = save_parsed fault out file (parse_fetch_response c resp cid) in
      ((conn, done.0), done.1)
  on_response c fault cid out file (conn, err e) = ((conn, file), err e)
  on_response c fault cid out file (conn, panic) = ((conn, file), panic)

  unfoldable pub fetch_stream :
      Crates
      → OutFault
      → Conn R
      → Bytes
      → Option Bytes
      → Option Bytes
      → (Conn R × Option Bytes) × Result Bytes (Unit {0})
  unfolding on_response exchange
  fetch_stream c fault conn cid out file =
      on_response c fault cid out file (exchange conn (c.json.to_string (fetch_request cid)))

  unfoldable pub fetch_connected :
      Crates
      → OutFault
      → Bytes
      → Bytes
      → Option Bytes
      → Option Bytes
      → R.State × Result Bytes (Unit {0})
      → (R.State × Option Bytes) × Result Bytes (Unit {0})
  unfolding fetch_stream
  fetch_connected c fault addr cid out file (s, ok u) =
      let done = fetch_stream c fault (record { state = s; unread = [] }) cid out file in
      ((done.0.0.state, done.0.1), done.1)
  fetch_connected c fault addr cid out file (s, err e) =
      ((s, file), err (ascii "connect " ++ (addr ++ (ascii ": " ++ e))))
  fetch_connected c fault addr cid out file (s, panic) = ((s, file), panic)

  unfoldable pub fetch :
      Crates
      → Connect R
      → OutFault
      → Bytes
      → Bytes
      → Option Bytes
      → R.State
      → Option Bytes
      → (R.State × Option Bytes) × Result Bytes (Unit {0})
  unfolding fetch_connected
  fetch c net fault addr cid out s file = fetch_connected c fault addr cid out file (net s addr)

-- The file holds a body of the hash that was asked for, in place of what it held.
abbrev pub IsFetched : Crates → Bytes → Option Bytes → Type 0
IsFetched c cid file =
    (body : Bytes) × (file ≡ some body) × (hex_decode cid ≡ ok (c.sha.digest body))

module _ (R : Remote) (c : Crates) (cid path : Bytes) (file : Option Bytes) where
  on_response_lem :
      (r : Called R Bytes)
      → (IsFetched c cid (on_response R c none cid (some path) file r).0.1
          × ((on_response R c none cid (some path) file r).1 ≡ ok tt))
        ⊎ ((on_response R c none cid (some path) file r).0.1 ≡ file)
  unfolding on_response save_parsed save
  on_response_lem (conn, ok resp) = elim (Result-cases (parse_fetch_response c resp cid)) [
    | inl (body, y) ↦
        rw (y, save_parsed)
          (inl ((body, refl, (parse_fetch_response_ok c resp cid body y).0), refl))
    | inr (inl (e, y)) ↦ rw (y, save_parsed) (inr refl)
    | inr (inr y) ↦ rw (y, save_parsed) (inr refl)
  ]
  on_response_lem (conn, err e) = inr refl
  on_response_lem (conn, panic) = inr refl

  fetch_connected_lem :
      (addr : Bytes) (r : R.State × Result Bytes (Unit {0}))
      → (IsFetched c cid (fetch_connected R c none addr cid (some path) file r).0.1
          × ((fetch_connected R c none addr cid (some path) file r).1 ≡ ok tt))
        ⊎ ((fetch_connected R c none addr cid (some path) file r).0.1 ≡ file)
  unfolding fetch_connected fetch_stream
  fetch_connected_lem addr (s, ok u) =
      on_response_lem
        (exchange R (record { state = s; unread = [] }) (c.json.to_string (fetch_request cid)))
  fetch_connected_lem addr (s, err e) = inr refl
  fetch_connected_lem addr (s, panic) = inr refl

  -- Whatever the other side answers, a fetch to a file that can be written succeeds and leaves there a
  -- body of the hash that was asked for, or it leaves the file as it was.
  pub fetch_lem :
      (net : Connect R) (addr : Bytes) (s : R.State)
      → (IsFetched c cid (fetch R c net none addr cid (some path) s file).0.1
          × ((fetch R c net none addr cid (some path) s file).1 ≡ ok tt))
        ⊎ ((fetch R c net none addr cid (some path) s file).0.1 ≡ file)
  unfolding fetch
  fetch_lem net addr s = fetch_connected_lem addr (net s addr)
