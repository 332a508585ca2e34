-- ===== src/Client/Sync/Pass.antt =====
-- `sync_stream` of src/spore_peer.rs on the store, whatever the peer answers.
use spore_peer.Prelude.{ℕ, suc, ◌≤◌, ◌≡◌, refl, min, ok, err, panic, arith}
use spore_peer.Json.{Items, no_items, item}
use spore_peer.Crates.{Crates}
use spore_peer.Store.Files.{Hold}
use spore_peer.Client.Call.{Remote, Conn, Called, opening}
use spore_peer.Client.Sync.{
  SyncSetting, Progress, Turn, goes, stops, fails, panics, Looped, proceed, entry_pair, max_fetches,
  sync_pair, sync_entries, sync_result, sync_opened, sync_stream,
}
use spore_peer.Client.Sync.Laws.{IsAddressed, IsKept, Sound, sync_pair-Sound}

module _ (R : Remote) (c : Crates) (env : SyncSetting) where
  -- What is left of a pass after a turn.
  IsKept-proceed :
      (i n : ℕ) (hold : Hold) (t : Turn R) (k : Progress R → Looped R)
      → Sound R c env i hold n t
      → ((q : Progress R) → IsKept q.hold (k q).0.hold)
      → IsKept hold (proceed R c env k t).0.hold
  unfolding proceed
  IsKept-proceed i n hold (goes q) k s h = λ name f l. h q name f (s.kept name f l)
  IsKept-proceed i n hold (stops q) k s h = s.kept
  IsKept-proceed i n hold (fails q e) k s h = s
  IsKept-proceed i n hold (panics q) k s h = s

  pub sync_entries-IsKept :
      (i : ℕ) (es : Items) (p : Progress R) → IsKept p.hold (sync_entries R c env i es p).0.hold
  unfolding sync_entries
  sync_entries-IsKept i no_items p = λ name f l. l
  sync_entries-IsKept i (item entry es) p =
      IsKept-proceed i p.fetched p.hold (sync_pair R c env i p (entry_pair entry))
        (sync_entries R c env (suc i) es) (sync_pair-Sound R c env i p (entry_pair entry))
        (sync_entries-IsKept (suc i) es)

  -- The end of a loop that began at an addressed directory.
  abbrev IsDone : Progress R → Type 0
  IsDone q = IsAddressed c q.hold × (q.fetched ≤ max_fetches)

  IsDone-proceed :
      (i n : ℕ) (hold : Hold) (t : Turn R) (k : Progress R → Looped R)
      → Sound R c env i hold n t
      → ((q : Progress R)
          → IsAddressed c q.hold
          → q.fetched ≤ min (suc i) max_fetches
          → (k q).1 ≡ ok tt
          → IsDone (k q).0)
      → IsAddressed c hold
      → n ≤ min i max_fetches
      → (proceed R c env k t).1 ≡ ok tt
      → IsDone (proceed R c env k t).0
  unfolding proceed
  IsDone-proceed i n hold (goes q) k s h a b e = h q (s.addressed a) (s.count b) e
  IsDone-proceed i n hold (stops q) k s h a b e = (s.addressed a, omega (arith, s.count b))
  IsDone-proceed i n hold (fails q x) k s h a b e = cc
  IsDone-proceed i n hold (panics q) k s h a b e = cc

  sync_entries-IsDone :
      (i : ℕ) (es : Items) (p : Progress R)
      → IsAddressed c p.hold
      → p.fetched ≤ min i max_fetches
      → (sync_entries R c env i es p).1 ≡ ok tt
      → IsDone (sync_entries R c env i es p).0
  unfolding sync_entries
  sync_entries-IsDone i no_items p a b e = (a, omega (arith, b))
  sync_entries-IsDone i (item entry es) p a b e =
      IsDone-proceed i p.fetched p.hold (sync_pair R c env i p (entry_pair entry))
        (sync_entries R c env (suc i) es) (sync_pair-Sound R c env i p (entry_pair entry))
        (sync_entries-IsDone (suc i) es) a b e

  sync_result-hold : (height : ℕ) (l : Looped R) → (sync_result R c env height l).0 ≡ l.0
  unfolding sync_result
  sync_result-hold height (p, ok u) = refl
  sync_result-hold height (p, err e) = refl
  sync_result-hold height (p, panic) = refl

  sync_opened-IsKept :
      (hold : Hold) (o : Called R (ℕ × Items)) → IsKept hold (sync_opened R c env hold o).0.hold
  unfolding sync_opened
  sync_opened-IsKept hold (conn, ok (height, es)) =
      rw
        (sync_result-hold height
          (sync_entries R c env 0 es (record { hold = hold; conn = conn; fetched = 0; have = 0 })))
        (sync_entries-IsKept 0 es (record { hold = hold; conn = conn; fetched = 0; have = 0 }))
  sync_opened-IsKept hold (conn, err e) = λ name f l. l
  sync_opened-IsKept hold (conn, panic) = λ name f l. l

  -- Whatever a peer answers, and wherever the pass ends, every file of the store is still there as
  -- it was: a pass never writes over a file.
  pub sync_stream-IsKept :
      (conn : Conn R) (hold : Hold) → IsKept hold (sync_stream R c env conn hold).0.hold
  unfolding sync_stream
  sync_stream-IsKept conn hold = sync_opened-IsKept hold (opening R c conn)

  sync_result_ok :
      (height h n m : ℕ) (l : Looped R)
      → (sync_result R c env height l).1 ≡ ok (h, n, m)
      → (l.1 ≡ ok tt) × (n ≡ l.0.fetched)
  unfolding sync_result
  sync_result_ok height h n m (p, ok u) e = (refl, cc)
  sync_result_ok height h n m (p, err x) e = cc
  sync_result_ok height h n m (p, panic) e = cc

  sync_opened_ok :
      (hold : Hold) (h n m : ℕ) (o : Called R (ℕ × Items))
      → IsAddressed c hold
      → (sync_opened R c env hold o).1 ≡ ok (h, n, m)
      → IsAddressed c (sync_opened R c env hold o).0.hold × (n ≤ max_fetches)
  unfolding sync_opened
  sync_opened_ok hold h n m (conn, ok (height, es)) a e =
      let start : Progress R = record { hold = hold; conn = conn; fetched = 0; have = 0 } in
      let (finished, count) = sync_result_ok height h n m (sync_entries R c env 0 es start) e in
      let (addressed, capped) = sync_entries-IsDone 0 es start a (omega arith) finished in
      (
        rw (sync_result-hold height (sync_entries R c env 0 es start)) addressed,
        omega (arith, count, capped),
      )
  sync_opened_ok hold h n m (conn, err x) a e = cc
  sync_opened_ok hold h n m (conn, panic) a e = cc

  -- After a pass that succeeds every body of the store has the hash that its name stands for, if that
  -- was so before, whatever the peer has answered; and the pass has fetched 2000 bodies at most.
  pub sync_stream_ok :
      (conn : Conn R) (hold : Hold) (h n m : ℕ)
      → IsAddressed c hold
      → (sync_stream R c env conn hold).1 ≡ ok (h, n, m)
      → IsAddressed c (sync_stream R c env conn hold).0.hold × (n ≤ max_fetches)
  unfolding sync_stream
  sync_stream_ok conn hold h n m a e = sync_opened_ok hold h n m (opening R c conn) a e
