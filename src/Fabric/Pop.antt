-- ===== src/Fabric/Pop.antt =====
-- src/fabric.rs, `run_fpop`: the owner of a handle drains its queue, oldest first.
pub mod Laws
use spore_peer.Prelude.{
  ℕ, ◌+◌, Bool, true, false, ◌&&◌, not, List, [], ◌∷◌, ◌++◌, Option, none, some, Bytes, ascii,
  length, ltb, leb, ◌==◌, min, if◌then◌else◌, Result, ok, err, panic, guard, ok_or, ◌>>=◌, ◌>>◌,
}
use spore_peer.Json.{
  Value, Items, str, array, no_items, item, object, no_fields, insert_field, get_str, get_u64,
  unwrap_or,
}
use spore_peer.Text.{to_lowercase}
use spore_peer.Crates.{Crates, Hex}
use spore_peer.Refusal.{
  Refusal, fpop_needs_handle, handle_not_32_bytes, fpop_rate, unknown_handle, wrong_token,
}
use spore_peer.Dict.{Dict, lookup, insert}
use spore_peer.Limiter.{allow}
use spore_peer.Tokens.{ct_eq}
use spore_peer.Fabric.State.{FabricState, Registration, Queued, Disk, Faults, drop_envelope}
use spore_peer.Fabric.Put.{Relay, with_limiter}

-- The readings of the clock, in the order in which `run_fpop` makes them.
pub record PopTimes : Type 0 where
  pub limit_at : ℕ
  pub lease_at : ℕ
  pub drain_at : ℕ

-- What `run_fpop` reads off the request.
pub record PopArgs : Type 0 where
  pub handle : Bytes
  pub token : Bytes
  pub max : ℕ

unfoldable pub pop_args : Crates → Value → Result Refusal PopArgs
pop_args c req = do
  h ← ok_or (get_str req (ascii "handle")) fpop_needs_handle
  guard (length h == 64) handle_not_32_bytes
  ok (record {
    handle = to_lowercase c.lower h;
    token = unwrap_or (get_str req (ascii "token")) [];
    max = min (unwrap_or (get_u64 req (ascii "max")) 8) 64;
  })

-- `r.expires <= now || !ct_eq(..)`, of the registration of the handle.
unfoldable pub check_token : ℕ → PopArgs → FabricState → Result Refusal (Unit {0})
check_token now a st = elim (lookup a.handle st.reg) [
  | none ↦ err unknown_handle
  | some r ↦ guard (ltb now r.expires && ct_eq r.token a.token) wrong_token
]

pub record Drained : Type 0 where
  pub out : List Bytes
  pub queue : List Queued
  pub disk : Disk

-- The drain loop: each entry taken is dropped from the disk, and delivered unless it has burned.
unfoldable pub drain : Hex → Faults → ℕ → ℕ → List Bytes → List Queued → Disk → Drained
drain hex f max now out [] disk = record { out = out; queue = []; disk = disk }
drain hex f max now out (x ∷ q) disk =
    let out' = (if ltb now x.deadline then out ++ (hex.encode x.pointer ∷ []) else out) in
    let rest = drain hex f max now out' q (drop_envelope f x.env_cid_hex disk) in
    if ltb (length out) max then rest else record { out = out; queue = x ∷ q; disk = disk }

abbrev pub pointer_items : List Bytes → Items
pointer_items [] = no_items
pointer_items (p ∷ ps) = item (str p) (pointer_items ps)

unfoldable pub pop_reply : List Bytes → Value
pop_reply out = object (insert_field (ascii "pointers") (array (pointer_items out)) no_fields)

-- Behind the token: the queue of the handle, if it has one, is drained.
unfoldable pub pop_found :
    Crates → Faults → ℕ → PopArgs → Relay → Option (List Queued) → Relay × Result Refusal Value
pop_found c f now a r none = (r, ok (pop_reply []))
pop_found c f now a r (some q) =
    let d = drain c.hex f a.max now [] q r.disk in
    (
      record {
        state = (let st = r.state in record st { queues = insert a.handle d.queue st.queues });
        disk = d.disk;
      },
      ok (pop_reply d.out),
    )

unfoldable pub pop_queue : Crates → Faults → ℕ → PopArgs → Relay → Relay × Result Refusal Value
unfolding pop_found drain
pop_queue c f now a r = pop_found c f now a r (lookup a.handle r.state.queues)

unfoldable pub pop_checked :
    Crates → Faults → ℕ → PopArgs → Relay → Result Refusal (Unit {0}) → Relay × Result Refusal Value
unfolding pop_queue
pop_checked c f now a r (ok u) = pop_queue c f now a r
pop_checked c f now a r (err e) = (r, err e)
pop_checked c f now a r panic = (r, panic)

unfoldable pub pop_read :
    Crates
    → Faults
    → PopTimes
    → Bytes
    → Relay
    → Result Refusal PopArgs
    → Relay × Result Refusal Value
unfolding pop_checked check_token
pop_read c f t ip r (ok a) =
    let limited = with_limiter ip t.limit_at r in
    if (allow ip t.limit_at r.state.fput_limiter).0
    then pop_checked c f t.drain_at a limited (check_token t.lease_at a r.state)
    else (limited, err fpop_rate)
pop_read c f t ip r (err e) = (r, err e)
pop_read c f t ip r panic = (r, panic)

unfoldable pub run_fpop :
    Crates → Faults → PopTimes → Bytes → Value → Relay → Relay × Result Refusal Value
unfolding pop_read
run_fpop c f t ip req r = pop_read c f t ip r (pop_args c req)
