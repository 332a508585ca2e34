-- ===== src/Cli.antt =====
-- src/spore_peer.rs, `main`: the command line as a command, and the exit code of its result.
pub mod Command
pub mod Main
pub mod Spelled
pub mod Laws
pub mod Exit
pub mod Lifecycle
use spore_peer.Prelude.{
  ℕ, ◌^◌, ◌-◌, List, [], ◌∷◌, Bool, true, false, ◌&&◌, Option, none, some, Bytes, ascii, length,
  ltb, ◌==◌, same_bytes, if◌then◌else◌, Result, ok, err, panic, Try,
}
use spore_peer.Json.{and_then, unwrap_or}
use spore_peer.Integers.{parse_uint}
use spore_peer.Fabric.State.{FabricConfig, default_config}
use spore_peer.Peer.Policy.{ServeConfig}
use spore_peer.Client.Fabric.{FabricCli}

abbrev pub max_u64 : ℕ
max_u64 = 2 ^ 64 - 1

abbrev pub max_u32 : ℕ
max_u32 = 2 ^ 32 - 1

-- What an argument does to the options, given the argument behind it; true where that one is taken.
abbrev pub Step : Type 0 → Type 0
Step A = Bytes → Option Bytes → A → A × Bool

-- The `while` loop over the arguments that are left.
unfoldable pub run_options : {A : Type 0} → Step A → List Bytes → A → A
run_options step [] o = o
run_options step (opt ∷ []) o = (step opt none o).0
run_options step (opt ∷ value ∷ args) o = elim (step opt (some value) o).1 [
  | true ↦ run_options step args (step opt (some value) o).0
  | false ↦ run_options step (value ∷ args) (step opt (some value) o).0
]

-- `args.get(i + 1).and_then(|s| s.parse().ok())`, or the value that stood there before.
abbrev pub number_or : ℕ → Option Bytes → ℕ → ℕ
number_or top value n = unwrap_or (and_then value (parse_uint top)) n

pub record ServeCli : Type 0 where
  pub addr : Bytes
  pub dir : Bytes
  pub cfg : ServeConfig
  pub fabric : FabricConfig
  pub pidfile : Option Bytes
  pub announce : Option Bytes

abbrev pub serve_defaults : ServeCli
serve_defaults = record {
  addr = ascii "0.0.0.0:8099";
  dir = ascii ".";
  cfg = record { max_store_bytes = 0; put_rate = 0; token = none };
  fabric = default_config;
  pidfile = none;
  announce = none;
}

-- The options that tune the fabric.
unfoldable pub fabric_option : Step ServeCli
fabric_option opt value o =
    let f = o.fabric in
    if same_bytes opt (ascii "-fabric")
    then (record o { fabric = record f { enabled = true } }, false)
    else (if same_bytes opt (ascii "--fabric")
        then (record o { fabric = record f { enabled = true } }, false)
        else (if same_bytes opt (ascii "--fabric-per-handle")
            then (
              record o {
                fabric = record f { max_per_handle = number_or max_u64 value f.max_per_handle };
              },
              true,
            )
            else (if same_bytes opt (ascii "--fabric-fput-rate")
                then (
                  record o {
                    fabric = record f { fput_rate = number_or max_u32 value f.fput_rate };
                  },
                  true,
                )
                else (if same_bytes opt (ascii "--fabric-max-regs")
                    then (
                      record o {
                        fabric = record f { max_regs = number_or max_u64 value f.max_regs };
                      },
                      true,
                    )
                    else (if same_bytes opt (ascii "--fabric-max-lease")
                        then (
                          record o {
                            fabric = record f {
                              max_lease_sec = number_or max_u64 value f.max_lease_sec;
                            };
                          },
                          true,
                        )
                        else (if same_bytes opt (ascii "--fabric-horizon")
                            then (
                              record o {
                                fabric = record f {
                                  max_deadline_horizon_sec =
                                      number_or max_u64 value f.max_deadline_horizon_sec;
                                };
                              },
                              true,
                            )
                            else (o, false)))))))

unfoldable pub serve_option : Step ServeCli
unfolding fabric_option
serve_option opt value o =
    let cfg = o.cfg in
    if same_bytes opt (ascii "--listen")
    then (record o { addr = unwrap_or value o.addr }, true)
    else (if same_bytes opt (ascii "--dir")
        then (record o { dir = unwrap_or value o.dir }, true)
        else (if same_bytes opt (ascii "--max-store-bytes")
            then (
              record o {
                cfg = record cfg { max_store_bytes = number_or max_u64 value cfg.max_store_bytes };
              },
              true,
            )
            else (if same_bytes opt (ascii "--put-rate")
                then (
                  record o { cfg = record cfg { put_rate = number_or max_u32 value cfg.put_rate } },
                  true,
                )
                else (if same_bytes opt (ascii "--token")
                    then (record o { cfg = record cfg { token = value } }, true)
                    else (if same_bytes opt (ascii "--pidfile")
                        then (record o { pidfile = value }, true)
                        else (if same_bytes opt (ascii "--announce-addr")
                            then (record o { announce = value }, true)
                            else fabric_option opt value o))))))

pub record FetchCli : Type 0 where
  pub addr : Bytes
  pub cid : Bytes
  pub out : Option Bytes

unfoldable pub fetch_option : Step FetchCli
fetch_option opt value o =
    if same_bytes opt (ascii "--addr")
    then (record o { addr = unwrap_or value [] }, true)
    else (if same_bytes opt (ascii "--cid")
        then (record o { cid = unwrap_or value [] }, true)
        else (if same_bytes opt (ascii "--out")
            then (record o { out = value }, true)
            else (o, false)))

-- `if pointer.is_empty() { None } else { Some(pointer) }`
abbrev pub non_empty : Bytes → Option Bytes
non_empty [] = none
non_empty (c ∷ s) = some (c ∷ s)

unfoldable pub verb_option : Step FabricCli
verb_option opt value o =
    if same_bytes opt (ascii "--addr")
    then (record o { addr = unwrap_or value [] }, true)
    else (if same_bytes opt (ascii "--sub")
        then (record o { sub = unwrap_or value [] }, true)
        else (if same_bytes opt (ascii "--handle")
            then (record o { handle = unwrap_or value [] }, true)
            else (if same_bytes opt (ascii "--token")
                then (record o { token = unwrap_or value [] }, true)
                else (if same_bytes opt (ascii "--nonce")
                    then (record o { nonce = unwrap_or value [] }, true)
                    else (if same_bytes opt (ascii "--pointer")
                        then (record o { pointer = non_empty (unwrap_or value []) }, true)
                        else (if same_bytes opt (ascii "--lease")
                            then (record o { lease = number_or max_u64 value o.lease }, true)
                            else (if same_bytes opt (ascii "--max")
                                then (record o { max = number_or max_u64 value o.max }, true)
                                else (o, false))))))))

abbrev pub verb_defaults : FabricCli
verb_defaults = record {
  addr = [];
  sub = [];
  handle = [];
  token = [];
  nonce = [];
  pointer = none;
  lease = 3600;
  max = 8;
}

-- The options of `sync` and `push`; `sync` has no token.
pub record PassCli : Type 0 where
  pub addr : Bytes
  pub dir : Bytes
  pub token : Bytes

unfoldable pub sync_option : Step PassCli
sync_option opt value o =
    if same_bytes opt (ascii "--addr")
    then (record o { addr = unwrap_or value [] }, true)
    else (if same_bytes opt (ascii "--dir")
        then (record o { dir = unwrap_or value o.dir }, true)
        else (o, false))

unfoldable pub push_option : Step PassCli
unfolding sync_option
push_option opt value o =
    if same_bytes opt (ascii "--token")
    then (record o { token = unwrap_or value [] }, true)
    else sync_option opt value o

abbrev pub pass_defaults : PassCli
pass_defaults = record { addr = []; dir = ascii "."; token = [] }

pub record PeersCli : Type 0 where
  pub dir : Bytes
  pub op : Bytes
  pub addr : Bytes

unfoldable pub peers_option : Step PeersCli
peers_option opt value o =
    if same_bytes opt (ascii "--dir")
    then (record o { dir = unwrap_or value o.dir }, true)
    else (if same_bytes opt (ascii "add")
        then (record o { op = opt; addr = unwrap_or value [] }, true)
        else (if same_bytes opt (ascii "remove")
            then (record o { op = opt; addr = unwrap_or value [] }, true)
            else (if same_bytes opt (ascii "list")
                then (record o { op = ascii "list" }, false)
                else (o, false))))

pub record LoopCli : Type 0 where
  pub dir : Bytes
  pub interval : ℕ
  pub once : Bool

unfoldable pub loop_option : Step LoopCli
loop_option opt value o =
    if same_bytes opt (ascii "--dir")
    then (record o { dir = unwrap_or value o.dir }, true)
    else (if same_bytes opt (ascii "--interval")
        then (record o { interval = number_or max_u64 value o.interval }, true)
        else (if same_bytes opt (ascii "--once")
            then (record o { once = true }, false)
            else (o, false)))
