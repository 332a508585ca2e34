-- ===== src/Cli/Main.antt =====
-- src/spore_peer.rs, `main`: a command is run over the directory, the other side and the files that
-- `--out` and `--pidfile` name, and its result becomes the exit code.
use spore_peer.Prelude.{
  ℕ, List, Bool, ◌&&◌, Option, none, some, Bytes, ascii, ltb, same_bytes, if◌then◌else◌, Result, ok,
  err, panic,
}
use spore_peer.Crates.{Crates}
use spore_peer.Dict.{insert}
use spore_peer.Store.Files.{Hold}
use spore_peer.Peers.File.{PeersFaults, peers_add, peers_remove}
use spore_peer.Fabric.State.{Disk}
use spore_peer.Fabric.Open.{OpenSetting}
use spore_peer.Serve.Process.{Listening, exit_code, PidSetting, Files, serve_process, open_fabric}
use spore_peer.Client.Call.{Remote}
use spore_peer.Client.Sync.{SyncSetting}
use spore_peer.Client.Push.{PushSetting}
use spore_peer.Client.Converge.{Connect, PassSetting, Totals, peers_file}
use spore_peer.Client.Converge
use spore_peer.Client.Legacy.{OutFault}
use spore_peer.Client.Legacy
use spore_peer.Client.Fabric.{fabric_pub}
use spore_peer.Cli.Command.{
  Command, usage, serve, fetch, fabric, sync, push, add, remove, list, sync_loop, command,
}

-- What surrounds a run: what the file system refuses and the readings of the clock, the number of the
-- passes after which a sync-loop is looked at, and what `serve` finds on its way.
pub record RunSetting : Type 0 where
  pub create_dir : Option Bytes
  pub pull : SyncSetting
  pub push : PushSetting
  pub pass : ℕ → PassSetting
  pub passes : ℕ
  pub peers : PeersFaults
  pub write_at : ℕ
  pub out_fault : OutFault
  pub opens : OpenSetting
  pub pid : PidSetting
  pub listening : Listening

-- The directory is the one that the command names.
pub record World (R : Remote) : Type 0 where
  pub hold : Hold
  pub state : R.State
  pub out : Option Bytes
  pub envelopes : Disk
  pub files : Files

-- With `--once` the code tells whether a peer failed.
abbrev pub loop_code : Bool → Result Bytes (ℕ × ℕ × ℕ) → ℕ
loop_code once (ok (synced, failed, transferred)) = if once && ltb 0 failed then 1 else 0
loop_code once (err e) = 1
loop_code once panic = 101

-- The directory after peers.txt had the first text and has the second.
abbrev pub with_peers : ℕ → Option Bytes → Option Bytes → Hold → Hold
with_peers now before none hold = hold
with_peers now none (some text) hold =
    insert (ascii "peers.txt") (record { content = text; modified = now }) hold
with_peers now (some old) (some text) hold =
    if same_bytes old text
    then hold
    else insert (ascii "peers.txt") (record { content = text; modified = now }) hold

module _ (R : Remote) (c : Crates) (net : Connect R) (env : RunSetting) where
  unfoldable pub loop_end :
      World R → Bool → Totals R × Option (Result Bytes (ℕ × ℕ × ℕ)) → World R × Option ℕ
  loop_end w once (t, none) = (record w { hold = t.hold; state = t.state }, none)
  loop_end w once (t, some r) =
      (record w { hold = t.hold; state = t.state }, some (loop_code once r))

  -- No exit code stands for a process that has not ended.
  unfoldable pub run : World R → Command → World R × Option ℕ
  unfolding loop_end
  run w usage = (w, some 2)
  run w (serve o) =
      let done = serve_process env.pid env.listening o.pidfile w.files in
      let fabric = open_fabric c env.opens o.fabric w.envelopes in
      (record w { files = done.0; envelopes = fabric.1 }, done.1)
  run w (fetch o) =
      let done = Legacy.fetch R c net env.out_fault o.addr o.cid o.out w.state w.out in
      (record w { state = done.0.0; out = done.0.1 }, some (exit_code done.1))
  run w (fabric o) =
      let done = fabric_pub R c net o w.state in
      (record w { state = done.0 }, some (exit_code done.1))
  run w (sync o) =
      let pull = env.pull in
      let done =
        Converge.sync R c net (record pull { dir = o.dir }) env.create_dir o.addr w.state w.hold in
      (record w { hold = done.0.0; state = done.0.1 }, some (exit_code done.1))
  run w (push o) =
      let pushing = env.push in
      let done =
        Converge.push R c net (record pushing { dir = o.dir; token = o.token }) env.create_dir
          o.addr w.state w.hold in
      (record w { state = done.0 }, some (exit_code done.1))
  run w (add dir addr) =
      let done = peers_add env.peers dir addr (peers_file w.hold) in
      (
        record w { hold = with_peers env.write_at (peers_file w.hold) done.0 w.hold },
        some (exit_code done.1),
      )
  run w (remove dir addr) =
      let done = peers_remove env.peers dir addr (peers_file w.hold) in
      (
        record w { hold = with_peers env.write_at (peers_file w.hold) done.0 w.hold },
        some (exit_code done.1),
      )
  run w (list dir) = (w, some 0)
  run w (sync_loop o) =
      loop_end w o.once
        (Converge.sync_loop R c net env.pass o.dir env.create_dir o.once env.passes w.state w.hold)

  unfoldable pub main : List Bytes → World R → World R × Option ℕ
  unfolding run command
  main args w = run w (command args)
