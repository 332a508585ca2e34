-- ===== src/Fabric/Open.antt =====
-- src/fabric.rs, `FabricState::open`: the queues are rebuilt from the envelopes of the directory.
pub mod Order
pub mod Laws
pub mod Reopened
pub mod Restart
use spore_peer.Prelude.{
  ℕ, zero, suc, ◌+◌, ◌-◌, List, [], ◌∷◌, ◌++◌, Bool, true, false, ◌&&◌, ◌||◌, not, Option, none,
  some, Bytes, ascii, length, take, ltb, leb, ◌==◌, same_bytes, if◌then◌else◌, Result, ok, err,
  panic,
}
use spore_peer.Words.{wrapping_add}
use spore_peer.Json.{key_lt, unwrap_or}
use spore_peer.Text.{ends_with}
use spore_peer.Crates.{Hex}
use spore_peer.Dict.{Dict, lookup, insert, remove}
use spore_peer.Limiter
use spore_peer.Fabric.Envelope.{Envelope, parse_envelope}
use spore_peer.Fabric.State.{FabricConfig, FabricState, Queued, Disk}
use spore_peer.Fabric.Put.{Relay, deadline_of}

-- What surrounds an opening, by the name of a file: the readings of the clock for its two tests, and
-- whether it can be read and removed. Of a directory that cannot be listed no file can be read.
pub record OpenSetting : Type 0 where
  pub live_at : Bytes → ℕ
  pub horizon_at : Bytes → ℕ
  pub reads : Bytes → Bool
  pub removes : Bytes → Bool

-- `p.extension() == Some("fenv")`
abbrev pub is_fenv : Bytes → Bool
is_fenv name = ends_with name (ascii ".fenv") && ltb 5 (length name)

-- `name.trim_end_matches(".fenv")`: every end is cut; there are fewer than the name has bytes.
unfoldable pub trim_ends : ℕ → Bytes → Bytes
trim_ends zero name = name
trim_ends (suc n) name =
    let rest = trim_ends n (take (length name - 5) name) in
    if ends_with name (ascii ".fenv") then rest else name

abbrev pub cid_of_name : Bytes → Bytes
cid_of_name name = trim_ends (length name) name

-- What the loop does with a file.
pub data Fate : Type 0 where
  passed : Fate
  removed : Fate
  queued : Envelope → Fate

-- An envelope that has expired or lies beyond the horizon is removed.
unfoldable pub fate_of : OpenSetting → ℕ → Bytes → Result Bytes Envelope → Fate
fate_of env horizon name (ok e) =
    if leb (deadline_of e.pointer) (env.live_at name)
      || ltb (wrapping_add (env.horizon_at name) horizon) (deadline_of e.pointer)
    then removed
    else queued e
fate_of env horizon name (err x) = removed
fate_of env horizon name panic = removed

unfoldable pub fate : OpenSetting → ℕ → Bytes → Bytes → Fate
unfolding fate_of
fate env horizon name raw =
    if is_fenv name
    then (if env.reads name then fate_of env horizon name (parse_envelope raw) else passed)
    else passed

abbrev pub entry_of : Bytes → Envelope → Queued
entry_of name e = record {
  pointer = e.pointer;
  env_cid_hex = cid_of_name name;
  deadline = deadline_of e.pointer;
  received_at = e.received_at;
}

abbrev pub Queues : Type 0
Queues = Dict (List Queued)

-- `queues.entry(h).or_default().push(x)`
unfoldable pub push_entry : Bytes → Queued → Queues → Queues
push_entry h x queues = insert h (unwrap_or (lookup h queues) [] ++ (x ∷ [])) queues

-- One turn of the loop, on the queues and the directory.
unfoldable pub open_file : Hex → OpenSetting → Bytes → Fate → Queues × Disk → Queues × Disk
unfolding push_entry
open_file hex env name passed (queues, disk) = (queues, disk)
open_file hex env name removed (queues, disk) =
    (queues, if env.removes name then remove name disk else disk)
open_file hex env name (queued e) (queues, disk) =
    (push_entry (hex.encode e.handle) (entry_of name e) queues, disk)

-- The loop over the files that the directory has listed.
unfoldable pub open_files : Hex → OpenSetting → ℕ → Disk → Queues × Disk → Queues × Disk
unfolding fate open_file
open_files hex env horizon [] s = s
open_files hex env horizon ((name, raw) ∷ listing) s =
    open_files hex env horizon listing (open_file hex env name (fate env horizon name raw) s)

-- The order of the keys `(received_at, env_cid_hex)`: `x` does not come after `y`.
abbrev pub not_after : Queued → Queued → Bool
not_after x y =
    ltb x.received_at y.received_at
    || (x.received_at == y.received_at && not (key_lt y.env_cid_hex x.env_cid_hex))

unfoldable pub insert_queued : Queued → List Queued → List Queued
insert_queued x [] = x ∷ []
insert_queued x (y ∷ q) =
    let rest = insert_queued x q in if not_after x y then x ∷ y ∷ q else y ∷ rest

-- `q.sort_by_key`, which is stable.
unfoldable pub sort_queue : List Queued → List Queued
unfolding insert_queued
sort_queue [] = []
sort_queue (x ∷ q) = insert_queued x (sort_queue q)

unfoldable pub sort_queues : Queues → Queues
unfolding sort_queue
sort_queues [] = []
sort_queues ((h, q) ∷ queues) = (h, sort_queue q) ∷ sort_queues queues

abbrev pub empty_state : FabricConfig → Queues → FabricState
empty_state cfg queues = record {
  cfg = cfg;
  fput_limiter = Limiter.new cfg.fput_rate;
  reg = [];
  queues = queues;
  last_sweep_sec = 0;
}

-- The state, and the directory that is left.
unfoldable pub open_state : Hex → OpenSetting → FabricConfig → Disk → Relay
unfolding open_files sort_queues
open_state hex env cfg disk =
    let done = open_files hex env cfg.max_deadline_horizon_sec disk ([], disk) in
    record { state = empty_state cfg (sort_queues done.0); disk = done.1 }
