-- ===== src/Cli/Command.antt =====
-- src/spore_peer.rs, `main`: which command the arguments spell, the program's name apart.
use spore_peer.Prelude.{
  List, [], ◌∷◌, Bool, false, ◌||◌, none, Bytes, ascii, length, ◌==◌, same_bytes, if◌then◌else◌,
}
use spore_peer.Client.Fabric.{FabricCli}
use spore_peer.Cli.{
  run_options, ServeCli, serve_defaults, serve_option, FetchCli, fetch_option, verb_defaults,
  verb_option, PassCli, pass_defaults, sync_option, push_option, PeersCli, peers_option, LoopCli,
  loop_option,
}

-- `usage` is what is answered with the exit code 2.
pub data Command : Type 0 where
  usage : Command
  serve : ServeCli → Command
  fetch : FetchCli → Command
  fabric : FabricCli → Command
  sync push : PassCli → Command
  add remove : Bytes → Bytes → Command
  list : Bytes → Command
  sync_loop : LoopCli → Command

-- `s.is_empty()`
abbrev pub is_empty : Bytes → Bool
is_empty s = length s == 0

unfoldable pub fetch_command : FetchCli → Command
fetch_command o = if is_empty o.addr || is_empty o.cid then usage else fetch o

unfoldable pub fabric_command : FabricCli → Command
fabric_command o =
    if is_empty o.addr || is_empty o.sub || is_empty o.handle then usage else fabric o

unfoldable pub sync_command : PassCli → Command
sync_command o = if is_empty o.addr then usage else sync o

unfoldable pub push_command : PassCli → Command
push_command o = if is_empty o.addr then usage else push o

unfoldable pub peers_command : PeersCli → Command
peers_command o =
    if same_bytes o.op (ascii "add")
    then (if is_empty o.addr then usage else add o.dir o.addr)
    else (if same_bytes o.op (ascii "remove")
        then (if is_empty o.addr then usage else remove o.dir o.addr)
        else (if same_bytes o.op (ascii "list") then list o.dir else usage))

-- The arguments behind the name of a subcommand.
unfoldable pub subcommand : Bytes → List Bytes → Command
unfolding fetch_command fabric_command sync_command push_command peers_command run_options
    serve_option fetch_option verb_option sync_option push_option peers_option loop_option
subcommand name args =
    if same_bytes name (ascii "serve")
    then serve (run_options serve_option args serve_defaults)
    else (if same_bytes name (ascii "fetch")
        then fetch_command
            (run_options fetch_option args (record { addr = []; cid = []; out = none }))
        else (if same_bytes name (ascii "fabric")
            then fabric_command (run_options verb_option args verb_defaults)
            else (if same_bytes name (ascii "sync")
                then sync_command (run_options sync_option args pass_defaults)
                else (if same_bytes name (ascii "push")
                    then push_command (run_options push_option args pass_defaults)
                    else (if same_bytes name (ascii "peers")
                        then peers_command (
                            run_options peers_option args
                              (record { dir = ascii "."; op = []; addr = [] }))
                        else (if same_bytes name (ascii "sync-loop")
                            then sync_loop (
                                run_options loop_option args
                                  (record { dir = ascii "."; interval = 30; once = false }))
                            else usage))))))

unfoldable pub command : List Bytes → Command
unfolding subcommand
command [] = usage
command (name ∷ args) = subcommand name args
