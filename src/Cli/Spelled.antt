-- ===== src/Cli/Spelled.antt =====
-- The arguments that spell a command of src/spore_peer.rs, every option written out.
use spore_peer.Prelude.{
  ◌<◌, ◌≤◌, ◌≡◌, List, [], ◌∷◌, Bool, true, false, Option, none, some, Bytes, ascii, length,
}
use spore_peer.Text.{decimal}
use spore_peer.Cli.{max_u64, max_u32}
use spore_peer.Cli.Command.{
  Command, usage, serve, fetch, fabric, sync, push, add, remove, list, sync_loop,
}

-- The arguments for an option that need not be given.
abbrev pub given : Bytes → Option Bytes → List Bytes → List Bytes
given name none args = args
given name (some value) args = name ∷ value ∷ args

abbrev pub flag : Bytes → Bool → List Bytes → List Bytes
flag name false args = args
flag name true args = name ∷ args

-- The arguments that spell a command, every option written out.
abbrev pub spelled : Command → List Bytes
spelled usage = []
spelled (serve o) =
    ascii "serve"
    ∷ ascii "--listen"
    ∷ o.addr
    ∷ ascii "--dir"
    ∷ o.dir
    ∷ ascii "--max-store-bytes"
    ∷ decimal o.cfg.max_store_bytes
    ∷ ascii "--put-rate"
    ∷ decimal o.cfg.put_rate
    ∷ ascii "--fabric-per-handle"
    ∷ decimal o.fabric.max_per_handle
    ∷ ascii "--fabric-fput-rate"
    ∷ decimal o.fabric.fput_rate
    ∷ ascii "--fabric-max-regs"
    ∷ decimal o.fabric.max_regs
    ∷ ascii "--fabric-max-lease"
    ∷ decimal o.fabric.max_lease_sec
    ∷ ascii "--fabric-horizon"
    ∷ decimal o.fabric.max_deadline_horizon_sec
    ∷ given (ascii "--token") o.cfg.token (
        given (ascii "--pidfile") o.pidfile (
          given (ascii "--announce-addr") o.announce (flag (ascii "--fabric") o.fabric.enabled [])))
spelled (fetch o) =
    ascii "fetch" ∷ ascii "--addr" ∷ o.addr ∷ ascii "--cid" ∷ o.cid ∷ given (ascii "--out") o.out []
spelled (fabric o) =
    ascii "fabric"
    ∷ ascii "--addr"
    ∷ o.addr
    ∷ ascii "--sub"
    ∷ o.sub
    ∷ ascii "--handle"
    ∷ o.handle
    ∷ ascii "--token"
    ∷ o.token
    ∷ ascii "--nonce"
    ∷ o.nonce
    ∷ ascii "--lease"
    ∷ decimal o.lease
    ∷ ascii "--max"
    ∷ decimal o.max
    ∷ given (ascii "--pointer") o.pointer []
spelled (sync o) = ascii "sync" ∷ ascii "--addr" ∷ o.addr ∷ ascii "--dir" ∷ o.dir ∷ []
spelled (push o) =
    ascii "push" ∷ ascii "--addr" ∷ o.addr ∷ ascii "--dir" ∷ o.dir ∷ ascii "--token" ∷ o.token ∷ []
spelled (add dir addr) = ascii "peers" ∷ ascii "--dir" ∷ dir ∷ ascii "add" ∷ addr ∷ []
spelled (remove dir addr) = ascii "peers" ∷ ascii "--dir" ∷ dir ∷ ascii "remove" ∷ addr ∷ []
spelled (list dir) = ascii "peers" ∷ ascii "--dir" ∷ dir ∷ ascii "list" ∷ []
spelled (sync_loop o) =
    ascii "sync-loop"
    ∷ ascii "--dir"
    ∷ o.dir
    ∷ ascii "--interval"
    ∷ decimal o.interval
    ∷ flag (ascii "--once") o.once []

abbrev pub IsGiven : Bytes → Type 0
IsGiven s = 0 < length s

-- A pointer that is given is not empty.
abbrev pub IsPointer : Option Bytes → Type 0
IsPointer none = Unit
IsPointer (some p) = IsGiven p

-- The required arguments are there, and the numbers fit the types of the source.
abbrev pub IsCommand : Command → Type 0
IsCommand usage = Unit
IsCommand (serve o) =
    (o.cfg.max_store_bytes ≤ max_u64)
    × (o.cfg.put_rate ≤ max_u32)
    × (o.fabric.max_per_handle ≤ max_u64)
    × (o.fabric.fput_rate ≤ max_u32)
    × (o.fabric.max_regs ≤ max_u64)
    × (o.fabric.max_lease_sec ≤ max_u64)
    × (o.fabric.max_deadline_horizon_sec ≤ max_u64)
IsCommand (fetch o) = IsGiven o.addr × IsGiven o.cid
IsCommand (fabric o) =
    IsGiven o.addr
    × IsGiven o.sub
    × IsGiven o.handle
    × IsPointer o.pointer
    × (o.lease ≤ max_u64)
    × (o.max ≤ max_u64)
IsCommand (sync o) = IsGiven o.addr × (o.token ≡ [])
IsCommand (push o) = IsGiven o.addr
IsCommand (add dir addr) = IsGiven addr
IsCommand (remove dir addr) = IsGiven addr
IsCommand (list dir) = Unit
IsCommand (sync_loop o) = o.interval ≤ max_u64
