-- ===== src/Fabric/Put.antt =====
-- src/fabric.rs, `run_fput`: a pointer is checked, its envelope persisted, and it is queued.
pub mod Queue
pub mod Laws
pub mod Checks
use spore_peer.Prelude.{
  ℕ, suc, ◌+◌, ◌-◌, ◌*◌, Bool, true, false, ◌&&◌, not, List, [], ◌∷◌, ◌++◌, Option, none, some,
  Bytes, ascii, length, take, drop, ltb, leb, ◌==◌, same_bytes, if◌then◌else◌, Result, ok, err,
  panic, guard, ok_or, ◌>>=◌, ◌>>◌,
}
use spore_peer.Words.{from_le_bytes, wrapping_add}
use spore_peer.Json.{Value, bool, object, no_fields, insert_field, get_str, unwrap_or}
use spore_peer.Text.{to_lowercase}
use spore_peer.Crates.{Crates}
use spore_peer.Refusal.{
  Refusal, fput_needs_handle, handle_not_32_bytes, unknown_handle, lease_expired, fput_rate,
  needs_pointer, pointer_length, bad_pointer_header, zero_deadline, gone, beyond_horizon,
}
use spore_peer.Dict.{Dict, lookup, insert}
use spore_peer.Limiter.{allow}
use spore_peer.Fabric.Envelope.{Envelope, marshal_envelope, pointer_len, bad_header}
use spore_peer.Fabric.State.{
  FabricConfig, FabricState, Registration, Queued, Disk, Faults, persist_envelope, drop_envelope,
}

-- The state and the directory that the verbs work on.
pub record Relay : Type 0 where
  pub state : FabricState
  pub disk : Disk

-- The readings of the clock, in the order in which `run_fput` makes them.
pub record PutTimes : Type 0 where
  pub lease_at : ℕ
  pub limit_at : ℕ
  pub check_at : ℕ
  pub stamp_at : ℕ
  pub reap_at : ℕ

unfoldable pub put_handle : Crates → Value → Result Refusal Bytes
put_handle c req = do
  h ← ok_or (get_str req (ascii "handle")) fput_needs_handle
  guard (length h == 64) handle_not_32_bytes
  ok (to_lowercase c.lower h)

unfoldable pub check_lease : ℕ → Bytes → FabricState → Result Refusal (Unit {0})
check_lease now h st = elim (lookup h st.reg) [
  | none ↦ err unknown_handle
  | some r ↦ if leb r.expires now then err lease_expired else ok tt
]

-- The deadline inside a pointer: its last eight bytes, little-endian.
abbrev pub deadline_of : Bytes → ℕ
deadline_of pointer = from_le_bytes (take 8 (drop 66 pointer))

-- `hex::decode(ptr_hex)` of the exact length.
unfoldable pub decode_pointer : Crates → Bytes → Result Refusal Bytes
decode_pointer c ptr_hex = do
  guard (length ptr_hex == 2 * pointer_len) pointer_length
  p ← ok_or (c.hex.decode ptr_hex) pointer_length
  guard (length p == pointer_len) pointer_length
  ok p

-- The checks of the pointer's header and deadline.
unfoldable pub check_pointer : ℕ → FabricConfig → Bytes → Result Refusal (Unit {0})
check_pointer now cfg pointer = do
  guard (not (bad_header pointer)) bad_pointer_header
  guard (not (deadline_of pointer == 0)) zero_deadline
  guard (ltb now (deadline_of pointer)) gone
  guard (leb (deadline_of pointer) (wrapping_add now cfg.max_deadline_horizon_sec)) beyond_horizon

unfoldable pub put_pointer : Crates → ℕ → FabricConfig → Value → Result Refusal Bytes
unfolding decode_pointer check_pointer
put_pointer c now cfg req = do
  ptr_hex ← ok_or (get_str req (ascii "pointer_hex")) needs_pointer
  p ← decode_pointer c ptr_hex
  check_pointer now cfg p
  ok p

-- `hex::decode(&h).unwrap()` copied into an array of 32 bytes.
unfoldable pub handle_bytes : Crates → Bytes → Result Refusal Bytes
handle_bytes c h = elim (c.hex.decode h) [
  | none ↦ panic
  | some b ↦ if length b == 32 then ok b else panic
]

-- The entry of the same pointer, refreshed in place; a superseded file is removed.
unfoldable pub refresh : Faults → Queued → List Queued → Disk → Option (List Queued × Disk)
refresh f new [] disk = none
refresh f new (x ∷ q) disk =
    let rest = refresh f new q disk in
    let dropped =
      if same_bytes x.env_cid_hex new.env_cid_hex
      then disk
      else drop_envelope f x.env_cid_hex disk in
    if same_bytes x.pointer new.pointer
    then some (record x { deadline = new.deadline; env_cid_hex = new.env_cid_hex } ∷ q, dropped)
    else (elim rest [ none ↦ none | some (r, d) ↦ some (x ∷ r, d) ])

-- `while q.len() > max_per_handle`, the oldest first.
unfoldable pub evict : Faults → ℕ → List Queued → Disk → List Queued × Disk
evict f max [] disk = ([], disk)
evict f max (x ∷ q) disk =
    let rest = evict f max q (drop_envelope f x.env_cid_hex disk) in
    if ltb max (suc (length q)) then rest else (x ∷ q, disk)

-- `q.retain` on the deadlines, in order.
unfoldable pub reap : Faults → ℕ → List Queued → Disk → List Queued × Disk
reap f now [] disk = ([], disk)
reap f now (x ∷ q) disk =
    let kept = reap f now q disk in
    let burned = reap f now q (drop_envelope f x.env_cid_hex disk) in
    if leb x.deadline now then burned else (x ∷ kept.0, kept.1)

-- Dedupe, or push and evict.
unfoldable pub place : Faults → ℕ → Queued → List Queued → Disk → List Queued × Disk
unfolding refresh evict
place f max new q disk = elim (refresh f new q disk) [
  | some r ↦ r
  | none ↦ evict f max (q ++ (new ∷ [])) disk
]

abbrev pub queue_of : Bytes → FabricState → List Queued
queue_of h st = unwrap_or (lookup h st.queues) []

unfoldable pub enqueue : Faults → ℕ → Bytes → Queued → Relay → Relay
unfolding place reap
enqueue f now h new r =
    let placed = place f r.state.cfg.max_per_handle new (queue_of h r.state) r.disk in
    let reaped = reap f now placed.0 placed.1 in
    record {
      state = (let st = r.state in record st { queues = insert h reaped.0 st.queues });
      disk = reaped.1;
    }

unfoldable pub put_reply : Value
put_reply = object (insert_field (ascii "queued") (bool true) no_fields)

-- The entry of a checked pointer, named by the hash of its envelope.
abbrev pub envelope_of : PutTimes → Bytes → Bytes → Envelope
envelope_of t handle pointer = record {
  handle = handle;
  pointer = pointer;
  received_at = t.stamp_at;
}

abbrev pub new_entry : Crates → PutTimes → Bytes → Bytes → Queued
new_entry c t handle pointer = record {
  pointer = pointer;
  env_cid_hex = c.hex.encode (c.sha.digest (marshal_envelope (envelope_of t handle pointer)));
  deadline = deadline_of pointer;
  received_at = t.stamp_at;
}

-- Behind the write of the envelope, which `?` ends where it failed.
unfoldable pub put_persisted :
    Faults → ℕ → Bytes → Queued → Relay → Result Refusal (Unit {0}) → Relay × Result Refusal Value
unfolding enqueue
put_persisted f now h new r (ok u) = (enqueue f now h new r, ok put_reply)
put_persisted f now h new r (err e) = (r, err e)
put_persisted f now h new r panic = (r, panic)

-- The envelope of a checked pointer is persisted, and the pointer queued.
unfoldable pub put_envelope :
    Crates → Faults → PutTimes → Bytes → Bytes → Bytes → Relay → Relay × Result Refusal Value
unfolding put_persisted
put_envelope c f t h handle pointer r =
    let new = new_entry c t handle pointer in
    let raw = marshal_envelope (envelope_of t handle pointer) in
    let persisted = persist_envelope f new.env_cid_hex raw r.disk in
    put_persisted f t.reap_at h new (record r { disk = persisted.0 }) persisted.1

-- The request's pointer is read and checked, then the handle's bytes are taken.
unfoldable pub put_args : Crates → ℕ → FabricConfig → Bytes → Value → Result Refusal (Bytes × Bytes)
unfolding put_pointer handle_bytes
put_args c now cfg h req = do
  pointer ← put_pointer c now cfg req
  handle ← handle_bytes c h
  ok (handle, pointer)

-- Behind the rate limit.
unfoldable pub put_admitted :
    Crates
    → Faults
    → PutTimes
    → Bytes
    → Relay
    → Result Refusal (Bytes × Bytes)
    → Relay × Result Refusal Value
unfolding put_envelope
put_admitted c f t h r (ok (handle, pointer)) = put_envelope c f t h handle pointer r
put_admitted c f t h r (err e) = (r, err e)
put_admitted c f t h r panic = (r, panic)

-- The limiter that a verb leaves behind.
abbrev pub with_limiter : Bytes → ℕ → Relay → Relay
with_limiter ip now r = record r {
  state = (let st = r.state in record st { fput_limiter = (allow ip now st.fput_limiter).1 });
}

-- Behind the handle and its lease.
unfoldable pub put_leased :
    Crates
    → Faults
    → PutTimes
    → Bytes
    → Value
    → Relay
    → Result Refusal Bytes
    → Relay × Result Refusal Value
unfolding put_admitted
put_leased c f t ip req r (ok h) =
    let limited = with_limiter ip t.limit_at r in
    let args = put_args c t.check_at r.state.cfg h req in
    if (allow ip t.limit_at r.state.fput_limiter).0
    then put_admitted c f t h limited args
    else (limited, err fput_rate)
put_leased c f t ip req r (err e) = (r, err e)
put_leased c f t ip req r panic = (r, panic)

-- The handle of a request whose lease runs.
unfoldable pub leased_handle : Crates → ℕ → Value → FabricState → Result Refusal Bytes
unfolding put_handle check_lease
leased_handle c now req st = do h ← put_handle c req; check_lease now h st; ok h

unfoldable pub run_fput :
    Crates → Faults → PutTimes → Bytes → Value → Relay → Relay × Result Refusal Value
unfolding put_leased
run_fput c f t ip req r = put_leased c f t ip req r (leased_handle c t.lease_at req r.state)
