-- ===== src/Client/Sync/Complete.antt =====
-- What `sync_stream` of src/spore_peer.rs has fetched from a peer that serves what it lists.
use spore_peer.Prelude.{
  ℕ, zero, suc, ◌+◌, ◌<◌, ◌≡◌, refl, ap, ◌∙◌, false, Option, none, some, Option-cases, Bool-cases,
  Result-cases, inl, inr, Bytes, ascii, length, ltb, gt→leb, ◌==◌, same_bytes, Result, ok, err,
  panic, Try, arith,
}
use spore_peer.Json.{Value, Items, no_items, item}
use spore_peer.Crates.{Crates}
use spore_peer.Dict.{lookup, lookup-insert_self}
use spore_peer.Cbor.Encode.{getobject_request}
use spore_peer.Cbor.Decode.{Rpc2Message}
use spore_peer.Store.Decode.{hex_decode}
use spore_peer.Store.Files.{File, Hold, body_name}
use spore_peer.Client.Call.{Remote, Conn, Called, rpc2_call, opening}
use spore_peer.Client.Sync.{
  SyncSetting, Progress, Turn, goes, stops, fails, panics, Looped, proceed, entry_pair,
  write_fetched, check_fetched, fetched_body, on_body, on_object, max_fetches, fetch, on_blid,
  sync_pair, sync_entries, sync_result, sync_opened, sync_stream,
}
use spore_peer.Client.Sync.Pass.{sync_entries-IsKept}

-- The entry of the number `j`.
abbrev pub entry_at : ℕ → Items → Option Value
entry_at j no_items = none
entry_at zero (item entry es) = some entry
entry_at (suc j) (item entry es) = entry_at j es

-- The directory has a body of that name.
abbrev pub HasBody : Bytes → Hold → Type 0
HasBody blid_hex hold = (file : File) × (lookup (body_name blid_hex) hold ≡ some file)

-- A call whose answer, if there is one, is no refusal.
abbrev IsServed : (R : Remote) → (Conn R → Type 0) → Called R Rpc2Message → Type 0
IsServed R Ready r =
    Ready r.0 × ((obj : Rpc2Message) → r.1 ≡ ok obj → ltb 0 (length obj.error) ≡ false)

-- Of a connection that has a property the calls for bodies are answered without a refusal, and it
-- has the property afterwards.
abbrev pub Serves : (R : Remote) → Crates → (Conn R → Type 0) → Type 0
Serves R c Ready =
    (conn : Conn R) (seq : ℕ) (blid : Bytes)
    → Ready conn
    → IsServed R Ready (rpc2_call R c conn (ascii "Peer.GetObject") seq (getobject_request blid))

module _ (R : Remote) (c : Crates) (env : SyncSetting) (Ready : Conn R → Type 0)
    (serves : Serves R c Ready) where
  -- A turn that does not end the loop by `break`, and what it has made of the directory.
  abbrev Goes : (Hold → Type 0) → Turn R → Type 0
  Goes P (goes q) = Ready q.conn × P q.hold
  Goes P (stops q) = ⊥
  Goes P (fails q e) = Unit
  Goes P (panics q) = Unit

  Goes-weaken : (P : Hold → Type 0) (t : Turn R) → Goes P t → Goes (λ hold. Unit) t
  Goes-weaken P (goes q) h = (h.0, tt)
  Goes-weaken P (stops q) h = h
  Goes-weaken P (fails q e) h = tt
  Goes-weaken P (panics q) h = tt

  module _ (i top : ℕ) (blid_hex expected : Bytes) where
    write_fetched-Goes :
        (body : Bytes) (p : Progress R)
        → Ready p.conn
        → Goes (HasBody blid_hex) (write_fetched R c env i blid_hex body p)
    unfolding write_fetched
    write_fetched-Goes body p r = elim (Option-cases (env.write_fault i)) [
      | inl y ↦
          rw (y, write_fetched)
            (
              r,
              (
                record { content = body; modified = env.write_at i },
                lookup-insert_self (body_name blid_hex) _ p.hold,
              ),
            )
      | inr ((none, e), y) ↦ rw (y, write_fetched) tt
      | inr ((some left, e), y) ↦ rw (y, write_fetched) tt
    ]

    check_fetched-Goes :
        (body : Bytes) (p : Progress R)
        → Ready p.conn
        → Goes (HasBody blid_hex) (check_fetched R c env i top blid_hex expected body p)
    unfolding check_fetched
    check_fetched-Goes body p r = elim (Bool-cases (same_bytes (c.sha.digest body) expected)) [
      | inl y ↦ rw (y, check_fetched) (write_fetched-Goes body p r)
      | inr y ↦ rw (y, check_fetched) tt
    ]

    on_object-Goes :
        (p : Progress R) (r : Called R Rpc2Message)
        → IsServed R Ready r
        → Goes (HasBody blid_hex) (on_object R c env i top blid_hex expected p r)
    unfolding on_object on_body
    on_object-Goes p (conn, ok obj) (ready, served) =
        let q = record p { conn = conn } in
        rw (served obj refl, on_object)
          (elim (Result-cases (fetched_body R c env obj.payload)) [
            | inl (body, z) ↦ rw (z, on_body) (check_fetched-Goes body q ready)
            | inr (inl (e, z)) ↦ rw (z, on_body) tt
            | inr (inr z) ↦ rw (z, on_body) tt
          ])
    on_object-Goes p (conn, err e) h = tt
    on_object-Goes p (conn, panic) h = tt

    fetch-Goes :
        (p : Progress R)
        → i < max_fetches
        → Ready p.conn
        → Goes (HasBody blid_hex) (fetch R c env i top blid_hex expected p)
    unfolding fetch
    fetch-Goes p low r = elim (Option-cases (lookup (body_name blid_hex) p.hold)) [
      | inr (file, y) ↦ rw (y, fetch) (r, (file, y))
      | inl y ↦
          rw (y, gt→leb _ _ low, fetch)
            (on_object-Goes p
              (rpc2_call R c p.conn (ascii "Peer.GetObject") (100 + i) (getobject_request expected))
              (serves p.conn (100 + i) expected r))
    ]

  on_blid-Goes :
      (i top : ℕ) (blid_hex : Bytes) (p : Progress R) (d : Try Bytes)
      → i < max_fetches
      → Ready p.conn
      → Goes (λ hold. Unit) (on_blid R c env i top blid_hex p d)
  unfolding on_blid
  on_blid-Goes i top blid_hex p (ok expected) low r = elim (Bool-cases (length expected == 32)) [
    | inl y ↦
        rw (y, on_blid)
          (Goes-weaken (HasBody blid_hex) _ (fetch-Goes i top blid_hex expected p low r))
    | inr y ↦ rw (y, on_blid) (r, tt)
  ]
  on_blid-Goes i top blid_hex p (err u) low r = (r, tt)
  on_blid-Goes i top blid_hex p panic low r = tt

  sync_pair-Goes :
      (i : ℕ) (p : Progress R) (e : Result Bytes (ℕ × Bytes))
      → i < max_fetches
      → Ready p.conn
      → Goes (λ hold. Unit) (sync_pair R c env i p e)
  unfolding sync_pair
  sync_pair-Goes i p (ok (top, blid_hex)) low r =
      on_blid-Goes i top blid_hex p (hex_decode blid_hex) low r
  sync_pair-Goes i p (err e) low r = tt
  sync_pair-Goes i p panic low r = tt

  module _ (top : ℕ) (blid_hex expected : Bytes) (decodes : hex_decode blid_hex ≡ ok expected)
      (size : length expected ≡ 32) where
    sync_pair-HasBody :
        (i : ℕ) (p : Progress R) (e : Result Bytes (ℕ × Bytes))
        → e ≡ ok (top, blid_hex)
        → i < max_fetches
        → Ready p.conn
        → Goes (HasBody blid_hex) (sync_pair R c env i p e)
    unfolding sync_pair on_blid
    sync_pair-HasBody i p e is low r =
        rw (is, sync_pair, decodes, on_blid, size) (fetch-Goes i top blid_hex expected p low r)

    proceed-HasBody :
        (P : Hold → Type 0) (loop : Progress R → Looped R) (t : Turn R)
        → Goes P t
        → ((q : Progress R)
            → Ready q.conn
            → P q.hold
            → (loop q).1 ≡ ok tt
            → HasBody blid_hex (loop q).0.hold)
        → (proceed R c env loop t).1 ≡ ok tt
        → HasBody blid_hex (proceed R c env loop t).0.hold
    unfolding proceed
    proceed-HasBody P loop (goes q) (r, h) next e = next q r h e
    proceed-HasBody P loop (stops q) h next e = absurd h
    proceed-HasBody P loop (fails q x) h next e = cc
    proceed-HasBody P loop (panics q) h next e = cc

    sync_entries-HasBody :
        (i j : ℕ) (es : Items) (entry : Value) (p : Progress R)
        → entry_at j es ≡ some entry
        → entry_pair entry ≡ ok (top, blid_hex)
        → i + j < max_fetches
        → Ready p.conn
        → (sync_entries R c env i es p).1 ≡ ok tt
        → HasBody blid_hex (sync_entries R c env i es p).0.hold
    unfolding sync_entries
    sync_entries-HasBody i j no_items entry p at is low r e = cc
    sync_entries-HasBody i zero (item x es) entry p at is low r e =
        proceed-HasBody (HasBody blid_hex) (sync_entries R c env (suc i) es)
          (sync_pair R c env i p (entry_pair x))
          (sync_pair-HasBody i p (entry_pair x) (ap entry_pair (cc at) ∙ is) (omega (arith, low)) r)
          (λ q ready (file, l) done.
            (file, sync_entries-IsKept R c env (suc i) es q (body_name blid_hex) file l))
          e
    sync_entries-HasBody i (suc j) (item x es) entry p at is low r e =
        proceed-HasBody (λ hold. Unit) (sync_entries R c env (suc i) es)
          (sync_pair R c env i p (entry_pair x))
          (sync_pair-Goes i p (entry_pair x) (omega (arith, low)) r)
          (λ q ready u done.
            sync_entries-HasBody (suc i) j es entry q at is (omega (arith, low)) ready done)
          e

    sync_result-HasBody :
        (height : ℕ) (counts : ℕ × ℕ × ℕ) (l : Looped R)
        → (l.1 ≡ ok tt → HasBody blid_hex l.0.hold)
        → (sync_result R c env height l).1 ≡ ok counts
        → HasBody blid_hex (sync_result R c env height l).0.hold
    unfolding sync_result
    sync_result-HasBody height counts (p, ok u) h e = h refl
    sync_result-HasBody height counts (p, err x) h e = cc
    sync_result-HasBody height counts (p, panic) h e = cc

    module _ (hold : Hold) (height j : ℕ) (es : Items) (entry : Value) (counts : ℕ × ℕ × ℕ)
        (at : entry_at j es ≡ some entry) (is : entry_pair entry ≡ ok (top, blid_hex))
        (low : j < max_fetches) where
      sync_opened-HasBody :
          (o : Called R (ℕ × Items))
          → o.1 ≡ ok (height, es)
          → Ready o.0
          → (sync_opened R c env hold o).1 ≡ ok counts
          → HasBody blid_hex (sync_opened R c env hold o).0.hold
      unfolding sync_opened
      sync_opened-HasBody (conn, ok (n, xs)) opened r e =
          let start : Progress R = record { hold = hold; conn = conn; fetched = 0; have = 0 } in
          let same : xs ≡ es = cc opened in
          sync_result-HasBody n counts (sync_entries R c env 0 xs start)
            (sync_entries-HasBody 0 j xs entry start (ap (entry_at j) same ∙ at) is
              (omega (arith, low)) r)
            e
      sync_opened-HasBody (conn, err x) opened r e = cc
      sync_opened-HasBody (conn, panic) opened r e = cc

      -- A peer has listed a well-formed hash among its first 2000 entries, and refuses none of the bodies
      -- that it is asked for: then a pass that succeeds leaves the store with a file of that hash.
      pub sync_stream-HasBody :
          (conn : Conn R)
          → (opening R c conn).1 ≡ ok (height, es)
          → Ready (opening R c conn).0
          → (sync_stream R c env conn hold).1 ≡ ok counts
          → HasBody blid_hex (sync_stream R c env conn hold).0.hold
      unfolding sync_stream
      sync_stream-HasBody conn = sync_opened-HasBody (opening R c conn)
