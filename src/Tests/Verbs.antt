-- ===== src/Tests/Verbs.antt =====
-- Runs of `fetch` and `fabric_pub` of src/spore_peer.rs against peers with canned answers.
use spore_peer.Prelude.{ℕ, ◌≡◌, ◌⊎◌, refl, [], Bytes, ascii, replicate, none, some, true, ok, arith}
use spore_peer.Json.{object}
use spore_peer.Text.{lower_hex, from_hex, hex_digit, to_lowercase}
use spore_peer.Crates.{plain_crates}
use spore_peer.Dict.{lookup, insert, lookup-insert_self}
use spore_peer.Limiter
use spore_peer.Frames.{write_frame}
use spore_peer.Peer.Fetch.{frame_ok}
use spore_peer.Fabric.State.{FabricState, default_config}
use spore_peer.Fabric.Reg.{reg_args, is_handle_hex, run_freg}
use spore_peer.Fabric.Reply.{freg, verb_of}
use spore_peer.Client.Call.{Remote}
use spore_peer.Client.Converge.{Connect}
use spore_peer.Client.Legacy.{fetch, IsFetched, fetch_lem}
use spore_peer.Client.Fabric.{FabricCli, reg_fields, fabric_request}
use spore_peer.Client.Fabric.Laws.{reg_args-fabric_request, fabric_request_live, fabric_request_reg}

-- A peer that answers every request with one body.
abbrev generous : Remote
generous = record {
  State = ℕ;
  send = λ n frame. (n, ok (write_frame (frame_ok (ascii "body"))));
  eof = ascii "eof";
}

abbrev reached : Connect generous
reached = λ n addr. (n, ok tt)

abbrev cid : Bytes
cid = lower_hex (replicate 32 0)

fetch_lem_example :
    (IsFetched plain_crates cid
        (fetch generous plain_crates reached none
          (ascii "host:1")
          cid
          (some (ascii "out"))
          0
          none).0.1
      × ((fetch generous plain_crates reached none
            (ascii "host:1")
            cid
            (some (ascii "out"))
            0
            none).1
          ≡ ok tt))
    ⊎ ((fetch generous plain_crates reached none
          (ascii "host:1")
          cid
          (some (ascii "out"))
          0
          none).0.1
        ≡ none)
fetch_lem_example =
    fetch_lem generous plain_crates cid (ascii "out") none reached (ascii "host:1") 0

abbrev options : FabricCli
options = record {
  addr = ascii "host:1";
  sub = ascii "reg";
  handle = replicate 64 65;
  token = ascii "0123456789abcdef";
  nonce = ascii "n";
  pointer = none;
  lease = 60;
  max = 8;
}

options_handle : is_handle_hex plain_crates options.handle ≡ true
unfolding is_handle_hex from_hex hex_digit
options_handle = refl

reg_args-fabric_request_example :
    (fabric_request options ≡ ok (object (reg_fields options)))
    × (verb_of (object (reg_fields options)) ≡ some freg)
    × (reg_args plain_crates (object (reg_fields options))
        ≡ ok (record {
          handle = to_lowercase plain_crates.lower options.handle;
          token = options.token;
          prev_token = [];
          lease = 60;
        }))
reg_args-fabric_request_example =
    reg_args-fabric_request plain_crates options refl (omega arith) options_handle (omega arith)

abbrev registered : FabricState
registered = record {
  cfg = default_config;
  fput_limiter = Limiter.new 60;
  reg = insert (replicate 64 97) (record { token = options.token; expires = 100 }) [];
  queues = [];
  last_sweep_sec = 0;
}

-- The holder of the token asks for a renewal, and the registration stays as it is.
fabric_request_live_example :
    lookup
      (replicate 64 97)
      (run_freg plain_crates 10 (object (reg_fields options)) registered).0.reg
    ≡ some (record { token = options.token; expires = 100 })
fabric_request_live_example =
    fabric_request_live plain_crates options (object (reg_fields options)) 10 registered
      (replicate 64 97) (record { token = options.token; expires = 100 }) refl
      (fabric_request_reg plain_crates options refl (omega arith))
      (lookup-insert_self (replicate 64 97) (record { token = options.token; expires = 100 }) [])
      refl (omega arith)
