-- ===== src/Cli/Lifecycle.antt =====
-- The life of a serving process in src/spore_peer.rs, from its arguments to its exit code.
use spore_peer.Prelude.{◌+◌, ◌≡◌, refl, subst, List, none, some, Bytes, ok}
use spore_peer.Crates.{Crates}
use spore_peer.Dict.{lookup}
use spore_peer.Serve.{drain_window}
use spore_peer.Serve.Drain.{Signalled, Reaches, serve_ends}
use spore_peer.Serve.Process.{Listening, serve_from, serve_process}
use spore_peer.Serve.Pidfile.{IsQuiet, Lives, serve_process-Lives}
use spore_peer.Client.Call.{Remote}
use spore_peer.Client.Converge.{Connect}
use spore_peer.Cli.{ServeCli}
use spore_peer.Cli.Command
use spore_peer.Cli.Command.{command}
use spore_peer.Cli.Main.{RunSetting, World, run, main}

-- The address is bound and the listener set, a signal comes, and the clock reaches the end of the drain.
pub record IsStopped (l : Listening) : Type 0 where
  pub bind : l.bind ≡ none
  pub local_addr : l.local_addr ≡ none
  pub nonblocking : l.nonblocking ≡ none
  pub signalled : Signalled l.turns
  pub late : Reaches (l.now + drain_window) l.clock

serve_from-stopped : (l : Listening) → IsStopped l → serve_from l ≡ some (ok tt)
unfolding serve_from
serve_from-stopped l h =
    let (naps, done, how) = serve_ends l.turns l.now l.clock h.signalled h.late in
    rw (h.bind, h.local_addr, h.nonblocking, done) refl

module _ (R : Remote) (c : Crates) (net : Connect R) (env : RunSetting) where
  -- A node that is started with a pid file and stopped by a signal exits with the code 0, and its pid
  -- file is gone: its address could be bound, the file system has refused nothing, and the clock has
  -- reached the end of the drain.
  pub main-serve :
      (args : List Bytes) (w : World R) (o : ServeCli) (path : Bytes)
      → command args ≡ Command.serve o
      → o.pidfile ≡ some path
      → IsQuiet env.pid path
      → IsStopped env.listening
      → ((main R c net env args w).1 ≡ some 0)
        × (lookup path (main R c net env args w).0.files ≡ none)
  unfolding main run
  main-serve args w o path is pid quiet stopped =
      rw (is, pid)
        (subst (λ r. Lives env.pid path r (serve_process env.pid env.listening (some path) w.files))
          (serve_from-stopped env.listening stopped)
          (serve_process-Lives env.pid path env.listening w.files quiet))
