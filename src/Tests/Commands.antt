-- ===== src/Tests/Commands.antt =====
-- Runs of the command line of src/spore_peer.rs.
use spore_peer.Prelude.{
  ℕ, suc, ◌≡◌, refl, [], ◌∷◌, Bytes, List, ascii, length, none, some, true, ok, arith,
}
use spore_peer.Crates.{plain_crates}
use spore_peer.Text.{lower_hex, digit_char, decimal, is_utf8, from_hex, hex_digit}
use spore_peer.Words.{le_bytes, from_le_bytes, be_bytes, from_be_bytes}
use spore_peer.Json.{insert_field, lookup_field}
use spore_peer.Dict.{lookup, insert}
use spore_peer.Frames.{write_frame, read_exact, read_payload, read_frame}
use spore_peer.Cbor.Encode.{
  message, head, text, uint, bytes, array, map, kv, hash32, header, handshake_request,
  chain_request, handshake_response, chain_pairs, chain_response, getobject_request,
  getobject_response,
}
use spore_peer.Cbor.Decode.{
  slice_from, get_range, read_arg, head_args, read_head, decode_child, decode_items, insert_pair,
  decode_pairs, decode_string, simple_value, decode_body, decode_levels, decode_value,
  decode_payload, decode_message,
}
use spore_peer.Store.Decode.{from_pair, decode_chunks, hex_decode}
use spore_peer.Peer.Chain.{chain_view, entries, entry_cid, sort_entries, insert_entry, number}
use spore_peer.Peers.Lines.{trim, lines, chars, trim_front, trim_back, is_whitespace}
use spore_peer.Peers.File.{no_peers_faults, peers_list, collect, add_line}
use spore_peer.Client.Call.{
  Remote, decoded, received, answer_of, rpc2_call, or_refused, chain_of, after_handshake, opening,
}
use spore_peer.Client.Sync.{
  SyncSetting, pair_of, entry_pair, sync_entries, sync_result, sync_opened, sync_stream, topo_text,
  proceed, write_fetched, check_fetched, fetched_body, on_body, on_object, fetch, on_blid,
  sync_pair,
}
use spore_peer.Client.Push.{
  PushSetting, insert_text, peer_has, push_entries, push_result, push_chain, push_known,
  push_opened, push_stream,
}
use spore_peer.Client.Converge.{
  Connect, PassSetting, peers_file, on_push, on_pull, on_connect, go_on, pass_peers, sync_pass,
  after_pass, passes,
}
use spore_peer.Client.Converge
use spore_peer.Cli.{run_options, loop_option}
use spore_peer.Cli.Command.{Command, sync_loop, push, subcommand, command}
use spore_peer.Cli.Main.{RunSetting, World, loop_end, run, main}
use spore_peer.Serve.Process.{PidSetting}
use spore_peer.Tests.Shutdown.{turns, clock}
use spore_peer.Cli.Spelled.{spelled}
use spore_peer.Cli.Laws.{command-spelled}
use spore_peer.Cli.Exit.{main_once}
use spore_peer.Client.Converge.Synced.{AllSynced}

abbrev push_cli : Command
push_cli = push (record { addr = ascii "host:1"; dir = ascii "store"; token = ascii "key" })

command-spelled_example : command (spelled push_cli) ≡ push_cli
command-spelled_example = command-spelled push_cli (omega arith)

-- A peer that has no bodies.
abbrev pub quiet : Remote
quiet = record {
  State = ℕ;
  send = λ n frame. (suc n, ok (write_frame (message [] 1 [] (chain_response []))));
  eof = ascii "eof";
}

abbrev pub reached : Connect quiet
reached = λ n addr. (n, ok tt)

abbrev pulling : SyncSetting
pulling = record {
  dir = ascii "store";
  write_at = λ i. 9;
  write_fault = λ i. none;
  hex_error = λ s. ascii "bad hex";
}

abbrev pushing : PushSetting
pushing = record {
  dir = ascii "store";
  token = [];
  read_fault = λ n. none;
  missing = ascii "missing";
}

abbrev passing : PassSetting
passing = record { faults = no_peers_faults; pull = λ i. pulling; push = λ i. pushing }

abbrev pub quiet_pid : PidSetting
quiet_pid = record {
  pid = 77;
  parent = λ path. none;
  shown = λ path. path;
  create_dir = none;
  write = none;
  rename = none;
  removes = true;
}

abbrev pub setting : RunSetting
setting = record {
  create_dir = none;
  pull = pulling;
  push = pushing;
  pass = λ n. passing;
  passes = 1;
  peers = no_peers_faults;
  write_at = 9;
  out_fault = none;
  opens = record {
    live_at = λ name. 9;
    horizon_at = λ name. 9;
    reads = λ name. true;
    removes = λ name. true;
  };
  pid = quiet_pid;
  listening = record {
    bind = none;
    local_addr = none;
    nonblocking = none;
    turns = turns;
    now = 10;
    clock = clock;
  };
}

abbrev pub world : World quiet
world = record {
  hold = insert (ascii "peers.txt") (record { content = ascii "alpha:1"; modified = 3 }) [];
  state = 0;
  out = none;
  envelopes = [];
  files = [];
}

abbrev once_args : List Bytes
once_args = ascii "sync-loop" ∷ ascii "--once" ∷ ascii "--dir" ∷ ascii "store" ∷ []

once_command :
    command once_args ≡ sync_loop (record { dir = ascii "store"; interval = 30; once = true })
unfolding command subcommand run_options loop_option
once_command = refl

once_run : (main quiet plain_crates reached setting once_args world).1 ≡ some 0
unfolding main run loop_end command subcommand run_options loop_option Converge.sync_loop passes
    after_pass sync_pass pass_peers go_on on_connect on_pull on_push push_stream push_opened
    push_known push_chain push_result push_entries peer_has insert_text chain_view entries entry_cid
    sort_entries insert_entry number peers_list collect add_line lines trim chars trim_front
    trim_back is_whitespace sync_stream sync_opened sync_result sync_entries sync_pair on_blid fetch
    on_object on_body fetched_body check_fetched write_fetched proceed entry_pair pair_of topo_text
    hex_decode decode_chunks from_pair from_hex hex_digit lookup insert decimal getobject_request
    handshake_request chain_request opening after_handshake chain_of or_refused rpc2_call answer_of
    received decoded decode_message decode_payload decode_value decode_levels decode_body
    simple_value decode_string decode_pairs insert_pair decode_items decode_child read_head
    head_args read_arg get_range slice_from read_frame read_payload read_exact write_frame message
    head text uint bytes array map kv hash32 header handshake_response chain_pairs chain_response
    getobject_response le_bytes from_le_bytes be_bytes from_be_bytes lower_hex digit_char is_utf8
    insert_field lookup_field
once_run = refl

main_once_example :
    ((sync_pass quiet plain_crates reached passing 0 world.hold).0.synced
      ≡ length (peers_list no_peers_faults (peers_file world.hold)))
    × AllSynced quiet plain_crates reached passing 0
        (peers_list no_peers_faults (peers_file world.hold))
        0
        world.hold
main_once_example =
    main_once quiet plain_crates reached setting once_args world
      (record { dir = ascii "store"; interval = 30; once = true }) 0 once_command refl refl once_run
