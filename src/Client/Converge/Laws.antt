-- ===== src/Client/Converge/Laws.antt =====
-- A pass of src/spore_peer.rs over the peers, whatever they answer.
use spore_peer.Prelude.{
  ℕ, zero, suc, ◌+◌, ◌≡◌, refl, List, [], ◌∷◌, Bool, true, false, Option, none, some, Bytes, length,
  Result, ok, err, panic, arith,
}
use spore_peer.Crates.{Crates}
use spore_peer.Store.Files.{Hold}
use spore_peer.Peers.File.{peers_list}
use spore_peer.Client.Call.{Remote}
use spore_peer.Client.Sync.{SyncSetting, Progress, sync_stream}
use spore_peer.Client.Sync.Laws.{IsKept}
use spore_peer.Client.Sync.Pass.{sync_stream-IsKept}
use spore_peer.Client.Push.{PushSetting, Pushing, push_stream}
use spore_peer.Client.Converge.{
  Connect, PassSetting, peers_file, Totals, Passed, on_push, on_pull, on_connect, go_on, pass_peers,
  sync_pass, after_pass, passes, sync_loop,
}

IsKept-trans : (a b d : Hold) → IsKept a b → IsKept b d → IsKept a d
IsKept-trans a b d f g name file l = g name file (f name file l)

module _ (R : Remote) (c : Crates) (net : Connect R) where
  -- What `n` peers have made of a directory and of the totals: no file is changed, and, unless the
  -- process is gone, every one of them is counted once.
  pub record IsPassed (n : ℕ) (t : Totals R) (r : Passed R) : Type 0 where
    pub kept : IsKept t.hold r.0.hold
    pub counted : r.1 ≡ ok tt → r.0.synced + r.0.failed ≡ t.synced + t.failed + n

  on_push-IsPassed :
      (f : ℕ) (t : Totals R) (r : Pushing R × Result Bytes (ℕ × ℕ × ℕ))
      → IsPassed 1 t (on_push R c net f t r)
  unfolding on_push
  on_push-IsPassed f t (q, ok (height, p, had)) = record {
    kept = λ name file l. l;
    counted = λ e. omega arith;
  }
  on_push-IsPassed f t (q, err e) = record { kept = λ name file l. l; counted = λ e. omega arith }
  on_push-IsPassed f t (q, panic) = record { kept = λ name file l. l; counted = λ e. cc }

  on_pull-IsPassed :
      (env : PushSetting) (t : Totals R) (r : Progress R × Result Bytes (ℕ × ℕ × ℕ))
      → IsKept t.hold r.0.hold
      → IsPassed 1 t (on_pull R c net env t r)
  unfolding on_pull
  on_pull-IsPassed env t (p, ok (height, f, have)) k =
      let s = record t { hold = p.hold } in
      let done = push_stream R c (record env { token = [] }) p.conn p.hold in
      let after = on_push-IsPassed f s done in
      record {
        kept = IsKept-trans t.hold p.hold (on_push R c net f s done).0.hold k after.kept;
        counted = after.counted;
      }
  on_pull-IsPassed env t (p, err e) k = record { kept = k; counted = λ e. omega arith }
  on_pull-IsPassed env t (p, panic) k = record { kept = k; counted = λ e. cc }

  on_connect-IsPassed :
      (pull : SyncSetting) (push : PushSetting) (t : Totals R)
      (r : R.State × Result Bytes (Unit {0}))
      → IsPassed 1 t (on_connect R c net pull push t r)
  unfolding on_connect
  on_connect-IsPassed pull push t (s, ok u) =
      on_pull-IsPassed push t (sync_stream R c pull (record { state = s; unread = [] }) t.hold)
        (sync_stream-IsKept R c pull (record { state = s; unread = [] }) t.hold)
  on_connect-IsPassed pull push t (s, err e) = record {
    kept = λ name file l. l;
    counted = λ e. omega arith;
  }
  on_connect-IsPassed pull push t (s, panic) = record { kept = λ name file l. l; counted = λ e. cc }

  go_on-IsPassed :
      (n : ℕ) (t : Totals R) (r : Passed R) (loop : Totals R → Passed R)
      → IsPassed 1 t r
      → ((u : Totals R) → IsPassed n u (loop u))
      → IsPassed (suc n) t (go_on R c net loop r)
  unfolding go_on
  go_on-IsPassed n t (u, ok x) loop h next = record {
    kept = IsKept-trans t.hold u.hold (loop u).0.hold h.kept (next u).kept;
    counted = λ e. omega (arith, h.counted refl, (next u).counted e);
  }
  go_on-IsPassed n t (u, err x) loop h next = record { kept = h.kept; counted = λ e. cc }
  go_on-IsPassed n t (u, panic) loop h next = record { kept = h.kept; counted = λ e. cc }

  pass_peers-IsPassed :
      (env : PassSetting) (i : ℕ) (addrs : List Bytes) (t : Totals R)
      → IsPassed (length addrs) t (pass_peers R c net env i addrs t)
  unfolding pass_peers
  pass_peers-IsPassed env i [] t = record { kept = λ name file l. l; counted = λ e. omega arith }
  pass_peers-IsPassed env i (addr ∷ addrs) t =
      go_on-IsPassed (length addrs) t
        (on_connect R c net (env.pull i) (env.push i) t (net t.state addr))
        (pass_peers R c net env (suc i) addrs)
        (on_connect-IsPassed (env.pull i) (env.push i) t (net t.state addr))
        (pass_peers-IsPassed env (suc i) addrs)

  -- A pass over the peers changes no file of the directory, whatever they answer and wherever it
  -- ends; and unless the process is gone, each peer of the list is counted once, as synced or failed.
  pub sync_pass_lem :
      (env : PassSetting) (s : R.State) (hold : Hold)
      → IsKept hold (sync_pass R c net env s hold).0.hold
        × ((sync_pass R c net env s hold).1 ≡ ok tt
            → (sync_pass R c net env s hold).0.synced + (sync_pass R c net env s hold).0.failed
              ≡ length (peers_list env.faults (peers_file hold)))
  unfolding sync_pass
  sync_pass_lem env s hold =
      let start : Totals R = record {
        hold = hold;
        state = s;
        synced = 0;
        failed = 0;
        transferred = 0;
      } in
      let done = pass_peers-IsPassed env 0 (peers_list env.faults (peers_file hold)) start in
      (done.kept, λ e. omega (arith, done.counted e))

  after_pass-IsKept :
      (loop : R.State → Hold → Totals R × Option (Result Bytes (ℕ × ℕ × ℕ))) (once : Bool)
      (hold : Hold) (r : Passed R)
      → IsKept hold r.0.hold
      → ((s : R.State) (h : Hold) → IsKept h (loop s h).0.hold)
      → IsKept hold (after_pass R c net loop once r).0.hold
  unfolding after_pass
  after_pass-IsKept loop true hold (t, ok u) k next = k
  after_pass-IsKept loop false hold (t, ok u) k next =
      IsKept-trans hold t.hold (loop t.state t.hold).0.hold k (next t.state t.hold)
  after_pass-IsKept loop once hold (t, err u) k next = k
  after_pass-IsKept loop once hold (t, panic) k next = k

  passes-IsKept :
      (envs : ℕ → PassSetting) (once : Bool) (n : ℕ) (s : R.State) (hold : Hold)
      → IsKept hold (passes R c net envs once n s hold).0.hold
  unfolding passes
  passes-IsKept envs once zero s hold = λ name file l. l
  passes-IsKept envs once (suc n) s hold =
      after_pass-IsKept (passes R c net envs once n) once hold (sync_pass R c net (envs n) s hold)
        (sync_pass_lem (envs n) s hold).0 (passes-IsKept envs once n)

  -- However many passes the loop has made, every file that the directory had is there, unchanged.
  pub sync_loop-IsKept :
      (envs : ℕ → PassSetting) (dir : Bytes) (create_dir : Option Bytes) (once : Bool) (n : ℕ)
      (s : R.State) (hold : Hold)
      → IsKept hold (sync_loop R c net envs dir create_dir once n s hold).0.hold
  unfolding sync_loop
  sync_loop-IsKept envs dir none once n s hold = passes-IsKept envs once n s hold
  sync_loop-IsKept envs dir (some e) once n s hold = λ name file l. l
