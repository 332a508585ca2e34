-- ===== src/Cli/Laws.antt =====
-- What the arguments of src/spore_peer.rs spell, and what the exit code of a sync-loop tells.
use spore_peer.Prelude.{
  ℕ, ◌≤◌, ◌≡◌, refl, sym, ap, ◌∙◌, List, [], ◌∷◌, Bool, true, false, Option, none, some,
  Option-cases, Bool-cases, inl, inr, Bytes, ascii, arith,
}
use spore_peer.Json.{unwrap_or}
use spore_peer.Text.{decimal}
use spore_peer.Integers.Decimal.{parse_uint-decimal}
use spore_peer.Client.Fabric.{FabricCli}
use spore_peer.Cli.{
  max_u64, max_u32, run_options, number_or, ServeCli, serve_defaults, fabric_option, serve_option,
  fetch_option, verb_option, sync_option, push_option, peers_option, loop_option,
}
use spore_peer.Cli.Command.{
  Command, usage, serve, fetch, fabric, sync, push, add, remove, list, sync_loop, is_empty,
  fetch_command, fabric_command, sync_command, push_command, peers_command, subcommand, command,
}
use spore_peer.Cli.Spelled.{given, flag, spelled, IsGiven, IsPointer, IsCommand}

given-is_empty : (s : Bytes) → IsGiven s → is_empty s ≡ false
given-is_empty s h = ground (arith, h)

number_or-decimal : (top n m : ℕ) → n ≤ max_u64 → n ≤ top → number_or top (some (decimal n)) m ≡ n
number_or-decimal top n m word fits =
    ap (λ o. unwrap_or o m) (parse_uint-decimal top n (omega (arith, word)) fits)

module _ (o : ServeCli) (args : List Bytes) where
  serve_token :
      (v : Option Bytes)
      → run_options serve_option
          (given (ascii "--token") v args)
          (let cfg = o.cfg in record o { cfg = record cfg { token = none } })
        ≡ run_options serve_option args
            (let cfg = o.cfg in record o { cfg = record cfg { token = v } })
  unfolding run_options serve_option
  serve_token none = refl
  serve_token (some t) = refl

  serve_pidfile :
      (v : Option Bytes)
      → run_options serve_option (given (ascii "--pidfile") v args) (record o { pidfile = none })
        ≡ run_options serve_option args (record o { pidfile = v })
  unfolding run_options serve_option
  serve_pidfile none = refl
  serve_pidfile (some t) = refl

  serve_announce :
      (v : Option Bytes)
      → run_options serve_option
          (given (ascii "--announce-addr") v args)
          (record o { announce = none })
        ≡ run_options serve_option args (record o { announce = v })
  unfolding run_options serve_option
  serve_announce none = refl
  serve_announce (some t) = refl

serve_fabric :
    (o : ServeCli) (b : Bool)
    → run_options serve_option
        (flag (ascii "--fabric") b [])
        (let f = o.fabric in record o { fabric = record f { enabled = false } })
      ≡ (let f = o.fabric in record o { fabric = record f { enabled = b } })
unfolding run_options serve_option fabric_option
serve_fabric o false = refl
serve_fabric o true = refl

-- The options of `serve` before those that need not be given.
abbrev serve_start : ServeCli → ServeCli
serve_start o = record {
  addr = o.addr;
  dir = o.dir;
  cfg = record {
    max_store_bytes = number_or max_u64 (some (decimal o.cfg.max_store_bytes)) 0;
    put_rate = number_or max_u32 (some (decimal o.cfg.put_rate)) 0;
    token = none;
  };
  fabric = record {
    enabled = false;
    max_per_handle =
        number_or max_u64 (some (decimal o.fabric.max_per_handle))
          serve_defaults.fabric.max_per_handle;
    max_lease_sec =
        number_or max_u64 (some (decimal o.fabric.max_lease_sec))
          serve_defaults.fabric.max_lease_sec;
    fput_rate =
        number_or max_u32 (some (decimal o.fabric.fput_rate)) serve_defaults.fabric.fput_rate;
    max_regs = number_or max_u64 (some (decimal o.fabric.max_regs)) serve_defaults.fabric.max_regs;
    max_deadline_horizon_sec =
        number_or max_u64 (some (decimal o.fabric.max_deadline_horizon_sec))
          serve_defaults.fabric.max_deadline_horizon_sec;
  };
  pidfile = none;
  announce = none;
}

abbrev with_token : Option Bytes → ServeCli → ServeCli
with_token v o = let cfg = o.cfg in record o { cfg = record cfg { token = v } }

abbrev with_enabled : Bool → ServeCli → ServeCli
with_enabled b o = let f = o.fabric in record o { fabric = record f { enabled = b } }

serve_optional :
    (o : ServeCli) (token pidfile announce : Option Bytes) (b : Bool)
    → run_options serve_option
        (given (ascii "--token") token (
          given
            (ascii "--pidfile")
            pidfile
            (given (ascii "--announce-addr") announce (flag (ascii "--fabric") b []))))
        (serve_start o)
      ≡ with_enabled b
          (record (with_token token (serve_start o)) { pidfile = pidfile; announce = announce })
serve_optional o token pidfile announce b =
    let one = with_token token (serve_start o) in
    let two = record one { pidfile = pidfile } in
    serve_token (serve_start o) _ token
    ∙ serve_pidfile one _ pidfile
    ∙ serve_announce two _ announce
    ∙ serve_fabric (record two { announce = announce }) b

serve_start-with_enabled :
    (o : ServeCli)
    → IsCommand (serve o)
    → with_enabled o.fabric.enabled (record (with_token o.cfg.token (serve_start o)) {
      pidfile = o.pidfile;
      announce = o.announce;
    })
      ≡ o
serve_start-with_enabled o (a, b, d, e, f, g, k) =
    rw
      (
        number_or-decimal max_u64 o.cfg.max_store_bytes 0 a a,
        number_or-decimal max_u32 o.cfg.put_rate 0 (omega (arith, b)) b,
        number_or-decimal max_u64 o.fabric.max_per_handle serve_defaults.fabric.max_per_handle d d,
        number_or-decimal max_u32 o.fabric.fput_rate serve_defaults.fabric.fput_rate
            (omega (arith, e)) e,
        number_or-decimal max_u64 o.fabric.max_regs serve_defaults.fabric.max_regs f f,
        number_or-decimal max_u64 o.fabric.max_lease_sec serve_defaults.fabric.max_lease_sec g g,
        number_or-decimal max_u64 o.fabric.max_deadline_horizon_sec
            serve_defaults.fabric.max_deadline_horizon_sec k k,
      )
      refl

verb_pointer :
    (o : FabricCli) (v : Option Bytes)
    → IsPointer v
    → run_options verb_option (given (ascii "--pointer") v []) (record o { pointer = none })
      ≡ record o { pointer = v }
unfolding run_options verb_option
verb_pointer o none h = refl
verb_pointer o (some []) h = absurd (omega (arith, h))
verb_pointer o (some (c ∷ s)) h = refl

-- A command that is spelled out in arguments is the one that the program runs, with the same options.
-- Its required arguments and a pointer that is given are not empty, its numbers fit the types of the
-- source, and a pull has no token.
pub command-spelled : (cmd : Command) → IsCommand cmd → command (spelled cmd) ≡ cmd
unfolding command subcommand run_options serve_option fabric_option fetch_option verb_option
    sync_option push_option peers_option loop_option fetch_command fabric_command sync_command
    push_command peers_command
command-spelled usage h = refl
command-spelled (serve o) h = ap serve (
    serve_optional o o.cfg.token o.pidfile o.announce o.fabric.enabled
    ∙ serve_start-with_enabled o h)
command-spelled (fetch o) (a, b) = elim (Option-cases o.out) [
  | inl y ↦ rw (y, given-is_empty o.addr a, given-is_empty o.cid b) refl
  | inr (p, y) ↦ rw (y, given-is_empty o.addr a, given-is_empty o.cid b) refl
]
command-spelled (fabric o) (a, b, d, p, l, m) =
    ap fabric_command (
      verb_pointer
        (record o {
          lease = number_or max_u64 (some (decimal o.lease)) 3600;
          max = number_or max_u64 (some (decimal o.max)) 8;
        })
        o.pointer p)
    ∙ rw
        (
          given-is_empty o.addr a,
          given-is_empty o.sub b,
          given-is_empty o.handle d,
          number_or-decimal max_u64 o.lease 3600 l l,
          number_or-decimal max_u64 o.max 8 m m,
        )
        refl
command-spelled (sync o) (a, e) =
    rw (given-is_empty o.addr a) (ap (λ t. sync (record o { token = t })) (sym e))
command-spelled (push o) h = rw (given-is_empty o.addr h) refl
command-spelled (add dir addr) h = rw (given-is_empty addr h) refl
command-spelled (remove dir addr) h = rw (given-is_empty addr h) refl
command-spelled (list dir) h = refl
command-spelled (sync_loop o) h = elim (Bool-cases o.once) [
  | inl y ↦ rw (y, number_or-decimal max_u64 o.interval 30 h h) refl
  | inr y ↦ rw (y, number_or-decimal max_u64 o.interval 30 h h) refl
]
