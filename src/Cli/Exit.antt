-- ===== src/Cli/Exit.antt =====
-- What the exit code of `sync-loop --once` in src/spore_peer.rs tells of the pass.
use spore_peer.Prelude.{
  ℕ, suc, ◌≡◌, refl, ap, List, true, Option, none, some, Bool-cases, Option-cases, inl, inr, Bytes,
  length, ltb, ltb→ge, Result, ok, err, panic, arith,
}
use spore_peer.Crates.{Crates}
use spore_peer.Store.Files.{Hold}
use spore_peer.Peers.File.{peers_list}
use spore_peer.Client.Call.{Remote}
use spore_peer.Client.Converge.{
  Connect, PassSetting, Totals, Passed, peers_file, sync_pass, after_pass, passes,
}
use spore_peer.Client.Converge
use spore_peer.Client.Converge.Laws.{sync_pass_lem}
use spore_peer.Client.Converge.Synced.{AllSynced, sync_pass-AllSynced}
use spore_peer.Cli.{LoopCli}
use spore_peer.Cli.Command.{sync_loop, command}
use spore_peer.Cli.Main.{RunSetting, World, loop_end, run, main}

abbrev code_of : Option ℕ → ℕ
code_of none = 0
code_of (some n) = n

module _ (R : Remote) (c : Crates) (net : Connect R) (env : RunSetting) where
  -- A pass that ends with the code 0 has not been ended by a panic, and no peer failed.
  after_pass_code :
      (w : World R) (loop : R.State → Hold → Totals R × Option (Result Bytes (ℕ × ℕ × ℕ)))
      (r : Passed R)
      → (loop_end R c net env w true (after_pass R c net loop true r)).1 ≡ some 0
      → (r.1 ≡ ok tt) × (r.0.failed ≡ 0)
  unfolding loop_end after_pass
  after_pass_code w loop (t, ok u) e = elim (Bool-cases (ltb 0 t.failed)) [
    | inl y ↦ absurd (omega (arith, ap code_of (rw y at e)))
    | inr y ↦ (refl, omega (arith, ltb→ge _ _ y))
  ]
  after_pass_code w loop (t, err x) e = absurd (omega (arith, ap code_of e))
  after_pass_code w loop (t, panic) e = absurd (omega (arith, ap code_of e))

  sync_loop_code :
      (w : World R) (o : LoopCli) (n : ℕ)
      → o.once ≡ true
      → env.passes ≡ suc n
      → (run R c net env w (sync_loop o)).1 ≡ some 0
      → ((sync_pass R c net (env.pass n) w.state w.hold).1 ≡ ok tt)
        × ((sync_pass R c net (env.pass n) w.state w.hold).0.failed ≡ 0)
  unfolding run Converge.sync_loop passes
  sync_loop_code w o n once some_pass e = elim (Option-cases env.create_dir) [
    | inl y ↦
        after_pass_code w (passes R c net env.pass true n)
          (sync_pass R c net (env.pass n) w.state w.hold) (rw (once, some_pass, y) at e)
    | inr (x, y) ↦ absurd (omega (arith, ap code_of (rw y at e)))
  ]

  -- Where `sync-loop --once` exits with the code 0, every peer that peers.txt lists could be connected
  -- to, the pull from it succeeded, and then the push to it, each on what the peers before it have
  -- left; and the count of the synced peers is their number. The loop has been given one pass or more.
  pub main_once :
      (args : List Bytes) (w : World R) (o : LoopCli) (n : ℕ)
      → command args ≡ sync_loop o
      → o.once ≡ true
      → env.passes ≡ suc n
      → (main R c net env args w).1 ≡ some 0
      → ((sync_pass R c net (env.pass n) w.state w.hold).0.synced
          ≡ length (peers_list (env.pass n).faults (peers_file w.hold)))
        × AllSynced R c net
            (env.pass n)
            0
            (peers_list (env.pass n).faults (peers_file w.hold))
            w.state
            w.hold
  unfolding main
  main_once args w o n is once some_pass e =
      let (done, none_failed) = sync_loop_code w o n once some_pass (rw is at e) in
      (
        omega (arith, none_failed, (sync_pass_lem R c net (env.pass n) w.state w.hold).1 done),
        sync_pass-AllSynced R c net (env.pass n) w.state w.hold done none_failed,
      )
