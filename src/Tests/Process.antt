-- ===== src/Tests/Process.antt =====
-- Runs of a serving process of src/spore_peer.rs with a pid file.
use spore_peer.Prelude.{◌≡◌, refl, [], ◌∷◌, Bytes, List, ascii, none, some, arith, inl, inr}
use spore_peer.Crates.{plain_crates}
use spore_peer.Dict.{lookup}
use spore_peer.Serve.Process.{Listening, serve_from, serve_process}
use spore_peer.Serve.Pidfile.{IsQuiet, Lives, serve_process-Lives}
use spore_peer.Cli.{serve_defaults, run_options, serve_option, fabric_option}
use spore_peer.Cli.Command
use spore_peer.Cli.Command.{command, subcommand}
use spore_peer.Cli.Main.{main}
use spore_peer.Cli.Lifecycle.{IsStopped, main-serve}
use spore_peer.Tests.Commands.{quiet, quiet_pid, reached, setting, world}

abbrev pid_path : Bytes
pid_path = ascii "run/peer.pid"

nothing_refused : IsQuiet quiet_pid pid_path
nothing_refused = record { create_dir = refl; write = refl; rename = refl; removes = refl }

-- No turn has seen the signal.
abbrev still_serving : Listening
still_serving = record {
  bind = none;
  local_addr = none;
  nonblocking = none;
  turns = [];
  now = 10;
  clock = [];
}

serve_process-Lives_example :
    Lives quiet_pid pid_path
      (serve_from still_serving)
      (serve_process quiet_pid still_serving (some pid_path) [])
serve_process-Lives_example =
    serve_process-Lives quiet_pid pid_path still_serving [] nothing_refused

abbrev serve_args : List Bytes
serve_args = ascii "serve" ∷ ascii "--pidfile" ∷ pid_path ∷ []

pidfile_command :
    command serve_args ≡ Command.serve (record serve_defaults { pidfile = some pid_path })
unfolding command subcommand run_options serve_option fabric_option
pidfile_command = refl

stopped : IsStopped setting.listening
stopped = record {
  bind = refl;
  local_addr = refl;
  nonblocking = refl;
  signalled = tt;
  late = inr (inr (inr (inl (omega arith))));
}

main-serve_example :
    ((main quiet plain_crates reached setting serve_args world).1 ≡ some 0)
    × (lookup pid_path (main quiet plain_crates reached setting serve_args world).0.files ≡ none)
main-serve_example =
    main-serve quiet plain_crates reached setting serve_args world
      (record serve_defaults { pidfile = some pid_path }) pid_path pidfile_command refl
      nothing_refused stopped
