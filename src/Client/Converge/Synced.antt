-- ===== src/Client/Converge/Synced.antt =====
-- What a pass of src/spore_peer.rs over the peers has done where none of them has failed.
use spore_peer.Prelude.{ℕ, suc, ◌≡◌, ◌≤◌, refl, List, [], ◌∷◌, Bytes, Result, ok, err, panic, arith}
use spore_peer.Crates.{Crates}
use spore_peer.Store.Files.{Hold}
use spore_peer.Peers.File.{peers_list}
use spore_peer.Client.Call.{Remote}
use spore_peer.Client.Sync.{SyncSetting, Progress, sync_stream}
use spore_peer.Client.Push.{PushSetting, Pushing, push_stream}
use spore_peer.Client.Converge.{
  Connect, PassSetting, Totals, Passed, peers_file, on_push, on_pull, on_connect, go_on, pass_peers,
  sync_pass,
}

module _ (R : Remote) (c : Crates) (net : Connect R) where
  -- An answer and no error.
  abbrev pub IsOk : Result Bytes (ℕ × ℕ × ℕ) → Type 0
  IsOk (ok counts) = Unit
  IsOk (err e) = ⊥
  IsOk panic = ⊥

  -- The pull from a peer has succeeded, and then the push to it without a token; `rest` is said of
  -- what they leave of the other side and of the directory.
  abbrev pub BothWays :
      SyncSetting → PushSetting → (R.State → Hold → Type 0) → R.State → Hold → Type 0
  BothWays pull push rest s hold =
      let pulled = sync_stream R c pull (record { state = s; unread = [] }) hold in
      let pushed = push_stream R c (record push { token = [] }) pulled.0.conn pulled.0.hold in
      IsOk pulled.1 × IsOk pushed.1 × rest pushed.0.conn.state pulled.0.hold

  -- Every peer, from the one of the number `i`, could be connected to and was synced both ways.
  abbrev pub AllSynced : PassSetting → ℕ → List Bytes → R.State → Hold → Type 0
  AllSynced env i [] s hold = Unit
  AllSynced env i (addr ∷ addrs) s hold =
      ((net s addr).1 ≡ ok tt)
      × BothWays (env.pull i) (env.push i) (AllSynced env (suc i) addrs) (net s addr).0 hold

  on_push_failed :
      (f : ℕ) (t : Totals R) (r : Pushing R × Result Bytes (ℕ × ℕ × ℕ))
      → t.failed ≤ (on_push R c net f t r).0.failed
  unfolding on_push
  on_push_failed f t (q, ok (height, p, had)) = omega arith
  on_push_failed f t (q, err e) = omega arith
  on_push_failed f t (q, panic) = omega arith

  on_pull_failed :
      (push : PushSetting) (t : Totals R) (r : Progress R × Result Bytes (ℕ × ℕ × ℕ))
      → t.failed ≤ (on_pull R c net push t r).0.failed
  unfolding on_pull
  on_pull_failed push t (p, ok (height, f, have)) =
      on_push_failed f (record t { hold = p.hold })
        (push_stream R c (record push { token = [] }) p.conn p.hold)
  on_pull_failed push t (p, err e) = omega arith
  on_pull_failed push t (p, panic) = omega arith

  on_connect_failed :
      (pull : SyncSetting) (push : PushSetting) (t : Totals R)
      (r : R.State × Result Bytes (Unit {0}))
      → t.failed ≤ (on_connect R c net pull push t r).0.failed
  unfolding on_connect
  on_connect_failed pull push t (s, ok u) =
      on_pull_failed push t (sync_stream R c pull (record { state = s; unread = [] }) t.hold)
  on_connect_failed pull push t (s, err e) = omega arith
  on_connect_failed pull push t (s, panic) = omega arith

  go_on_failed :
      (loop : Totals R → Passed R) (t : Totals R) (r : Passed R)
      → ((u : Totals R) → u.failed ≤ (loop u).0.failed)
      → t.failed ≤ r.0.failed
      → t.failed ≤ (go_on R c net loop r).0.failed
  unfolding go_on
  go_on_failed loop t (u, ok x) more h = omega (arith, h, more u)
  go_on_failed loop t (u, err x) more h = h
  go_on_failed loop t (u, panic) more h = h

  -- A peer behind which the pass goes on and has no failure at its end.
  module _ (pull : SyncSetting) (push : PushSetting) (t : Totals R) (loop : Totals R → Passed R)
      (Rest : R.State → Hold → Type 0) (more : (u : Totals R) → u.failed ≤ (loop u).0.failed)
      (last : (u : Totals R)
        → (loop u).1 ≡ ok tt
        → (loop u).0.failed ≡ 0
        → Rest u.state u.hold) where
    pushed_ok :
        (f : ℕ) (hold : Hold) (r : Pushing R × Result Bytes (ℕ × ℕ × ℕ))
        → (go_on R c net loop (on_push R c net f (record t { hold = hold }) r)).1 ≡ ok tt
        → (go_on R c net loop (on_push R c net f (record t { hold = hold }) r)).0.failed ≡ 0
        → IsOk r.1 × Rest r.0.conn.state hold
    unfolding go_on on_push
    pushed_ok f hold (q, ok (height, p, had)) done none_failed = (tt, last _ done none_failed)
    pushed_ok f hold (q, err e) done none_failed =
        let u : Totals R = record t { hold = hold; state = q.conn.state; failed = suc t.failed } in
        absurd (omega (arith, none_failed, more u))
    pushed_ok f hold (q, panic) done none_failed = cc

    pulled_ok :
        (r : Progress R × Result Bytes (ℕ × ℕ × ℕ))
        → (go_on R c net loop (on_pull R c net push t r)).1 ≡ ok tt
        → (go_on R c net loop (on_pull R c net push t r)).0.failed ≡ 0
        → let pushed = push_stream R c (record push { token = [] }) r.0.conn r.0.hold in
          IsOk r.1 × IsOk pushed.1 × Rest pushed.0.conn.state r.0.hold
    unfolding go_on on_pull
    pulled_ok (p, ok (height, f, have)) done none_failed =
        let (both, rest) =
          pushed_ok f p.hold (push_stream R c (record push { token = [] }) p.conn p.hold) done
            none_failed in
        (tt, both, rest)
    pulled_ok (p, err e) done none_failed =
        let u : Totals R = record t {
          hold = p.hold;
          state = p.conn.state;
          failed = suc t.failed;
        } in
        absurd (omega (arith, none_failed, more u))
    pulled_ok (p, panic) done none_failed = cc

    connected :
        (r : R.State × Result Bytes (Unit {0}))
        → (go_on R c net loop (on_connect R c net pull push t r)).1 ≡ ok tt
        → (go_on R c net loop (on_connect R c net pull push t r)).0.failed ≡ 0
        → (r.1 ≡ ok tt) × BothWays pull push Rest r.0 t.hold
    unfolding go_on on_connect
    connected (s, ok u) done none_failed = (
      refl,
      pulled_ok (sync_stream R c pull (record { state = s; unread = [] }) t.hold) done none_failed,
    )
    connected (s, err e) done none_failed =
        let u : Totals R = record t { state = s; failed = suc t.failed } in
        absurd (omega (arith, none_failed, more u))
    connected (s, panic) done none_failed = cc

  -- The failures that a peer leaves, unless the process is gone; none is taken back.
  pass_failed :
      (env : PassSetting) (i : ℕ) (addrs : List Bytes) (t : Totals R)
      → t.failed ≤ (pass_peers R c net env i addrs t).0.failed
  unfolding pass_peers
  pass_failed env i [] t = omega arith
  pass_failed env i (addr ∷ addrs) t =
      go_on_failed (pass_peers R c net env (suc i) addrs) t
        (on_connect R c net (env.pull i) (env.push i) t (net t.state addr))
        (pass_failed env (suc i) addrs)
        (on_connect_failed (env.pull i) (env.push i) t (net t.state addr))

  pass_peers-AllSynced :
      (env : PassSetting) (i : ℕ) (addrs : List Bytes) (t : Totals R)
      → (pass_peers R c net env i addrs t).1 ≡ ok tt
      → (pass_peers R c net env i addrs t).0.failed ≡ 0
      → AllSynced env i addrs t.state t.hold
  unfolding pass_peers
  pass_peers-AllSynced env i [] t done none_failed = tt
  pass_peers-AllSynced env i (addr ∷ addrs) t done none_failed =
      connected (env.pull i) (env.push i) t (pass_peers R c net env (suc i) addrs)
        (AllSynced env (suc i) addrs) (pass_failed env (suc i) addrs)
        (pass_peers-AllSynced env (suc i) addrs) (net t.state addr) done none_failed

  pub sync_pass-AllSynced :
      (env : PassSetting) (s : R.State) (hold : Hold)
      → (sync_pass R c net env s hold).1 ≡ ok tt
      → (sync_pass R c net env s hold).0.failed ≡ 0
      → AllSynced env 0 (peers_list env.faults (peers_file hold)) s hold
  unfolding sync_pass
  sync_pass-AllSynced env s hold done none_failed =
      pass_peers-AllSynced env 0 (peers_list env.faults (peers_file hold)) _ done none_failed
