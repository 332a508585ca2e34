-- ===== src/Network/Synced.antt =====
-- A whole pull of src/spore_peer.rs, `sync_stream`, from a node of the same program.
use spore_peer.Prelude.{
  ℕ, ◌<◌, ◌≡◌, refl, sym, ap, subst, List, none, some, All-weaken, Bytes, length, Result, ok, arith,
}
use spore_peer.Words.{IsU64}
use spore_peer.Crates.{Crates}
use spore_peer.Dict.{lookup}
use spore_peer.Cbor.Payloads.{chain_values}
use spore_peer.Store.Decode.{hex_decode, hex_decode-lower_hex}
use spore_peer.Store.Files.{File, Hold, body_name}
use spore_peer.Peer.Chain.{chain_view}
use spore_peer.Peer.Ledger.{IsEntry}
use spore_peer.Server.{Server, Setting}
use spore_peer.Client.Sync.{
  SyncSetting, Progress, Looped, max_fetches, sync_entries, sync_result, sync_opened, sync_stream,
}
use spore_peer.Client.Sync.Laws.{IsAddressed}
use spore_peer.Client.Sync.Pass.{sync_stream_ok}
use spore_peer.Client.Sync.Complete.{HasBody}
use spore_peer.Client.Sync.Reliable.{
  pair_at, pair_at-All, HasEntries, Complete, sync_entries-Complete,
}
use spore_peer.Network.{online, linked}
use spore_peer.Network.Pull.{IsSane, IsKept, IsLinked, online-Reliable}
use spore_peer.Network.Opening.{listed, listed-IsEntry, opening-online}

module _ (c : Crates) (env : ℕ → Setting) (gone eof : Bytes) (pull : SyncSetting) (s : Server)
    (chain : List (ℕ × Bytes)) (hold : Hold) where
  -- The pass has succeeded with the node's height.
  abbrev pub Synced : Progress (online c env gone eof) × Result Bytes (ℕ × ℕ × ℕ) → Type 0
  Synced r = (fetched : ℕ) × (have : ℕ) × (r.1 ≡ ok (length chain, fetched, have))

  sync_result-Synced :
      (l : Looped (online c env gone eof))
      → l.1 ≡ ok tt
      → Synced (sync_result (online c env gone eof) c pull (length chain) l)
        × ((sync_result (online c env gone eof) c pull (length chain) l).0 ≡ l.0)
  unfolding sync_result
  sync_result-Synced (p, ok u) e = ((p.fetched, p.have, refl), refl)
  sync_result-Synced (p, Result.err x) e = cc
  sync_result-Synced (p, Result.panic) e = cc

  module _ (sane : IsSane s.node.hold) (writes : (i : ℕ) → pull.write_fault i ≡ none)
      (is : chain_view s.node.hold ≡ ok chain) (small : IsU64 (length chain)) where
    start : Progress (online c env gone eof)
    start = record { hold = hold; conn = linked c env gone eof s 2; fetched = 0; have = 0 }

    sync_stream-opened :
        sync_stream (online c env gone eof) c pull (linked c env gone eof s 0) hold
        ≡ sync_result (online c env gone eof) c pull (length chain) (
            sync_entries (online c env gone eof) c pull 0 (chain_values c.hex (listed chain)) start)
    unfolding sync_stream sync_opened start
    sync_stream-opened =
        ap (sync_opened (online c env gone eof) c pull hold)
          (opening-online c env gone eof s chain is small)

    entries-Complete :
        Complete
          (online c env gone eof)
          c
          pull
          (IsLinked c env gone eof pull s sane)
          (IsKept c s)
          (online-Reliable c env gone eof pull s sane)
          writes
          0
          (listed chain)
          (sync_entries (online c env gone eof) c pull 0 (chain_values c.hex (listed chain)) start)
    unfolding start
    entries-Complete =
        sync_entries-Complete (online c env gone eof) c pull (IsLinked c env gone eof pull s sane)
          (IsKept c s) (online-Reliable c env gone eof pull s sane) writes 0 (listed chain) start
          (All-weaken (listed chain) (λ e (low, hash). hash)
            (listed-IsEntry c env gone eof s chain is small))
          (2, refl)

    -- The whole pass.
    abbrev Pulled : Progress (online c env gone eof) × Result Bytes (ℕ × ℕ × ℕ)
    Pulled = sync_stream (online c env gone eof) c pull (linked c env gone eof s 0) hold

    Pulled-Synced : Synced Pulled
    Pulled-Synced =
        subst Synced (sym sync_stream-opened) (sync_result-Synced _ entries-Complete.0).0

    Pulled-HasEntries :
        HasEntries
          (online c env gone eof)
          c
          pull
          (IsLinked c env gone eof pull s sane)
          (IsKept c s)
          (online-Reliable c env gone eof pull s sane)
          writes
          0
          (listed chain)
          Pulled.0.hold
    Pulled-HasEntries j top blid at low k =
        let ends = (sync_result-Synced _ entries-Complete.0).1 in
        subst (λ r. HasBody (c.hex.encode blid) r.0.hold) (sym sync_stream-opened)
          (subst (λ p. HasBody (c.hex.encode blid) p.hold) (sym ends)
            (entries-Complete.1 j top blid at low k))

    -- A pull from a node of the same program succeeds, where one of the first 2000 entries that the
    -- node lists has a body that it serves, and no write fails: the client ends with the node's height,
    -- and with a file for every such body; the content of the file has the hash of the entry. The
    -- node's files are bytes of at most the size of a body, its ledger has a 64-bit length, and the
    -- client's store was addressed by content.
    pub sync_stream-pulled :
        IsAddressed c hold
        → (j top : ℕ) (blid : Bytes) → pair_at j (listed chain) ≡ some (top, blid)
        → j < max_fetches
        → IsKept c s blid
        → Synced (sync_stream (online c env gone eof) c pull (linked c env gone eof s 0) hold)
          × ((file : File) × (lookup
                  (body_name (c.hex.encode blid))
                  (sync_stream
                    (online c env gone eof)
                    c
                    pull
                    (linked c env gone eof s 0)
                    hold).0.hold
                ≡ some file)
              × (c.sha.digest file.content ≡ blid))
    sync_stream-pulled a j top blid at low k =
        let (below, (size, bytes)) =
          pair_at-All (IsEntry (length chain)) j (listed chain) (top, blid)
            (listed-IsEntry c env gone eof s chain is small) at in
        let (fetched, have, done) = Pulled-Synced in
        let (file, there) = Pulled-HasEntries j top blid at (omega (arith, low)) k in
        let addressed =
          (sync_stream_ok (online c env gone eof) c pull (linked c env gone eof s 0) hold
            (length chain) fetched have a done).0 in
        let reads : hex_decode (c.hex.encode blid) ≡ ok blid =
          rw (c.hex.encode_lem blid) (hex_decode-lower_hex blid bytes) in
        ((fetched, have, done), (file, there, cc (addressed (c.hex.encode blid) file there, reads)))
