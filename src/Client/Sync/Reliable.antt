-- ===== src/Client/Sync/Reliable.antt =====
-- `sync_stream` of src/spore_peer.rs against a peer that answers every call for a body, where the file
-- system refuses no write: the pass succeeds, and has what the peer serves.
use spore_peer.Prelude.{
  subst, sym, ℕ, zero, suc, ◌+◌, ◌<◌, ◌≤◌, ◌≡◌, refl, true, false, List, [], ◌∷◌, Option, none,
  some, Option-cases, Bool-cases, inl, inr, Bytes, All, ascii, length, ltb, leb, leb→le, leb→gt,
  same_bytes_refl, ok, arith,
}
use spore_peer.Words.{IsU64}
use spore_peer.Crates.{Crates}
use spore_peer.Dict.{lookup, lookup-insert_self}
use spore_peer.Cbor.Encode.{getobject_request}
use spore_peer.Cbor.Decode.{Rpc2Message}
use spore_peer.Cbor.Payloads.{chain_values}
use spore_peer.Store.Decode.{hex_decode, hex_decode-lower_hex}
use spore_peer.Store.Files.{Hold, body_name}
use spore_peer.Peer.Ledger.{IsHash}
use spore_peer.Client.Call.{Remote, Conn, Called, rpc2_call}
use spore_peer.Client.Sync.{
  SyncSetting, Progress, Turn, goes, stops, fails, panics, Looped, proceed, pair_of, entry_pair,
  write_fetched, check_fetched, fetched_body, on_body, on_object, max_fetches, fetch, on_blid,
  sync_pair, sync_entries,
}
use spore_peer.Client.Sync.Pass.{sync_entries-IsKept}
use spore_peer.Client.Sync.Complete.{HasBody}

-- The entry of the number `j`.
abbrev pub pair_at : ℕ → List (ℕ × Bytes) → Option (ℕ × Bytes)
pair_at j [] = none
pair_at zero (e ∷ es) = some e
pair_at (suc j) (e ∷ es) = pair_at j es

pub pair_at-All :
    (P : ℕ × Bytes → Type 0) (j : ℕ) (es : List (ℕ × Bytes)) (e : ℕ × Bytes)
    → All P es
    → pair_at j es ≡ some e
    → P e
pair_at-All P j [] e hs at = cc at
pair_at-All P zero (x ∷ es) e (h, hs) at = subst P (cc at) h
pair_at-All P (suc j) (x ∷ es) e (h, hs) at = pair_at-All P j es e hs at

module _ (R : Remote) (c : Crates) (env : SyncSetting) (Ready : Conn R → Type 0)
    (Kept : Bytes → Type 0) where
  -- An answer to a call for the body of a hash: a refusal, where the peer does not keep the body, or a
  -- body that has the hash. The connection is ready for the next call.
  pub data Answer (blid : Bytes) : Called R Rpc2Message → Type 0 where
    refusal :
        (conn : Conn R) (obj : Rpc2Message)
        → Ready conn
        → ltb 0 (length obj.error) ≡ true
        → (Kept blid → ⊥)
        → Answer blid (conn, ok obj)
    body :
        (conn : Conn R) (obj : Rpc2Message) (b : Bytes)
        → Ready conn
        → ltb 0 (length obj.error) ≡ false
        → fetched_body R c env obj.payload ≡ ok b
        → c.sha.digest b ≡ blid
        → Answer blid (conn, ok obj)

  abbrev pub Reliable : Type 0
  Reliable =
      (conn : Conn R) (seq : ℕ) (blid : Bytes)
      → Ready conn
      → IsU64 seq
      → IsHash blid
      → Answer blid (rpc2_call R c conn (ascii "Peer.GetObject") seq (getobject_request blid))

  module _ (reliable : Reliable) (writes : (i : ℕ) → env.write_fault i ≡ none) where
    -- A turn over a hash that is none of the failures; it leaves the body, if the peer keeps it.
    abbrev Good : ℕ → Bytes → Turn R → Type 0
    Good i blid (goes q) = Ready q.conn × (Kept blid → HasBody (c.hex.encode blid) q.hold)
    Good i blid (stops q) = max_fetches ≤ i
    Good i blid (fails q e) = ⊥
    Good i blid (panics q) = ⊥

    on_object-Good :
        (i top : ℕ) (blid : Bytes) (p : Progress R) (r : Called R Rpc2Message)
        → Answer blid r
        → Good i blid (on_object R c env i top (c.hex.encode blid) blid p r)
    unfolding on_object on_body check_fetched write_fetched
    on_object-Good i top blid p r (refusal conn obj ready told lacks) =
        rw (told, on_object) (ready, λ k. absurd (lacks k))
    on_object-Good i top blid p r (body conn obj b ready told decoded hash) =
        rw
          (
            told,
            on_object,
            decoded,
            on_body,
            hash,
            same_bytes_refl blid,
            check_fetched,
            writes i,
            write_fetched,
          )
          (
            ready,
            λ k. (
              record { content = b; modified = env.write_at i },
              lookup-insert_self (body_name (c.hex.encode blid)) _ p.hold,
            ),
          )

    fetch-Good :
        (i top : ℕ) (blid : Bytes) (p : Progress R)
        → IsHash blid
        → Ready p.conn
        → Good i blid (fetch R c env i top (c.hex.encode blid) blid p)
    unfolding fetch
    fetch-Good i top blid p hash ready =
        elim (Option-cases (lookup (body_name (c.hex.encode blid)) p.hold)) [
          | inr (file, y) ↦ rw (y, fetch) (ready, λ k. (file, y))
          | inl y ↦ elim (Bool-cases (leb max_fetches i)) [
            | inl z ↦ rw (y, z, fetch) (leb→le max_fetches i z)
            | inr z ↦
                rw (y, z, fetch)
                  (on_object-Good i top blid p
                    (rpc2_call R c p.conn (ascii "Peer.GetObject") (100 + i)
                      (getobject_request blid))
                    (reliable p.conn (100 + i) blid ready (omega (arith, leb→gt max_fetches i z))
                      hash))
          ]
        ]

    sync_pair-Good :
        (i top : ℕ) (blid : Bytes) (p : Progress R)
        → IsHash blid
        → Ready p.conn
        → Good i blid (sync_pair R c env i p (ok (top, c.hex.encode blid)))
    unfolding sync_pair on_blid
    sync_pair-Good i top blid p (size, bytes) ready =
        let decodes : hex_decode (c.hex.encode blid) ≡ ok blid =
          rw (c.hex.encode_lem blid) (hex_decode-lower_hex blid bytes) in
        rw (decodes, on_blid, size) (fetch-Good i top blid p (size, bytes) ready)

    -- The bodies that the peer keeps of the entries before the cap.
    abbrev pub HasEntries : ℕ → List (ℕ × Bytes) → Hold → Type 0
    HasEntries i pairs hold =
        (j top : ℕ) (blid : Bytes)
        → pair_at j pairs ≡ some (top, blid)
        → i + j < max_fetches
        → Kept blid
        → HasBody (c.hex.encode blid) hold

    -- The loop has ended well, with every body that the peer keeps of the entries before the cap.
    abbrev pub Complete : ℕ → List (ℕ × Bytes) → Looped R → Type 0
    Complete i pairs l = (l.1 ≡ ok tt) × HasEntries i pairs l.0.hold

    later_entry :
        (i top : ℕ) (blid : Bytes) (pairs : List (ℕ × Bytes)) (hold : Hold)
        → (Kept blid → HasBody (c.hex.encode blid) hold)
        → HasEntries (suc i) pairs hold
        → HasEntries i ((top, blid) ∷ pairs) hold
    later_entry i top blid pairs hold first rest zero t b at low k =
        let same : blid ≡ b = cc at in
        subst (λ x. HasBody (c.hex.encode x) hold) same (first (subst Kept (sym same) k))
    later_entry i top blid pairs hold first rest (suc j) t b at low k =
        rest j t b at (omega (arith, low)) k

    proceed-Complete :
        (i top : ℕ) (blid : Bytes) (pairs : List (ℕ × Bytes)) (loop : Progress R → Looped R)
        (t : Turn R)
        → Good i blid t
        → ((q : Progress R) → Ready q.conn → Complete (suc i) pairs (loop q))
        → ((q : Progress R)
            → HasBody (c.hex.encode blid) q.hold
            → HasBody (c.hex.encode blid) (loop q).0.hold)
        → Complete i ((top, blid) ∷ pairs) (proceed R c env loop t)
    unfolding proceed
    proceed-Complete i top blid pairs loop (goes q) (ready, has) next keep = (
      (next q ready).0,
      λ j t b at low k.
          later_entry i top blid pairs (loop q).0.hold (λ h. keep q (has h)) (next q ready).1 j t b
            at low k,
    )
    proceed-Complete i top blid pairs loop (stops q) late next keep =
        (refl, λ j t b at low k. absurd (omega (arith, late, low)))
    proceed-Complete i top blid pairs loop (fails q e) h next keep = absurd h
    proceed-Complete i top blid pairs loop (panics q) h next keep = absurd h

    pub sync_entries-Complete :
        (i : ℕ) (pairs : List (ℕ × Bytes)) (p : Progress R)
        → All (λ e. IsHash e.1) pairs
        → Ready p.conn
        → Complete i pairs (sync_entries R c env i (chain_values c.hex pairs) p)
    unfolding sync_entries entry_pair pair_of
    sync_entries-Complete i [] p hs ready = (refl, λ j t b at low k. cc at)
    sync_entries-Complete i ((top, blid) ∷ pairs) p (hash, hs) ready =
        proceed-Complete i top blid pairs (sync_entries R c env (suc i) (chain_values c.hex pairs))
          (sync_pair R c env i p (ok (top, c.hex.encode blid)))
          (sync_pair-Good i top blid p hash ready)
          (λ q r. sync_entries-Complete (suc i) pairs q hs r)
          (λ q (file, l). (
            file,
            sync_entries-IsKept R c env (suc i) (chain_values c.hex pairs) q
                (body_name (c.hex.encode blid)) file l,
          ))
