-- ===== src/Fabric/Reg.antt =====
-- src/fabric.rs, `run_freg`: a registration is made, renewed or refused.
pub mod Laws
use spore_peer.Prelude.{
  ℕ, ◌+◌, Bool, true, false, ◌&&◌, [], Option, none, some, Bytes, ascii, length, ltb, leb, ◌==◌,
  min, if◌then◌else◌, Result, ok, err, panic, guard, ok_or, ◌>>=◌, ◌>>◌,
}
use spore_peer.Words.{wrapping_add}
use spore_peer.Json.{Value, str, num, object, no_fields, insert_field, get_str, get_u64, unwrap_or}
use spore_peer.Text.{to_lowercase}
use spore_peer.Crates.{Crates}
use spore_peer.Refusal.{
  Refusal, freg_needs_handle, handle_not_32_bytes, freg_needs_token, token_length,
  live_registration, registry_full,
}
use spore_peer.Dict.{Dict, lookup, insert, retain}
use spore_peer.Tokens.{ct_eq}
use spore_peer.Fabric.State.{FabricConfig, FabricState, Registration}

-- What `run_freg` reads off the request; a missing `prev_token` is the empty text.
pub record RegArgs : Type 0 where
  pub handle : Bytes
  pub token : Bytes
  pub prev_token : Bytes
  pub lease : ℕ

-- `hex::decode(h).map(|b| b.len() == 32).unwrap_or(false)`.
unfoldable pub is_handle_hex : Crates → Bytes → Bool
is_handle_hex c h = elim (c.hex.decode h) [ none ↦ false | some b ↦ length b == 32 ]

unfoldable pub reg_args : Crates → Value → Result Refusal RegArgs
unfolding is_handle_hex
reg_args c req = do
  h ← ok_or (get_str req (ascii "handle")) freg_needs_handle
  guard (is_handle_hex c h) handle_not_32_bytes
  token ← ok_or (get_str req (ascii "token")) freg_needs_token
  guard (leb 16 (length token) && leb (length token) 128) token_length
  ok (record {
    handle = to_lowercase c.lower h;
    token = token;
    prev_token = unwrap_or (get_str req (ascii "prev_token")) [];
    lease = unwrap_or (get_u64 req (ascii "lease")) 3600;
  })

-- `expires > now`.
abbrev pub is_live : ℕ → Registration → Bool
is_live now r = ltb now r.expires

-- At most one sweep of the expired registrations in a second.
unfoldable pub sweep : ℕ → FabricState → FabricState
sweep now st =
    if ltb st.last_sweep_sec now
    then record st { reg = retain (is_live now) st.reg; last_sweep_sec = now }
    else st

-- A live registration asks for its own token; any other counts against the budget.
unfoldable pub may_register : ℕ → RegArgs → FabricState → Result Refusal (Unit {0})
may_register now a st =
    let fresh = guard (ltb (length st.reg) st.cfg.max_regs) registry_full in
    elim (lookup a.handle st.reg) [
      | none ↦ fresh
      | some cur ↦
          if is_live now cur then guard (ct_eq cur.token a.prev_token) live_registration else fresh
    ]

-- The lease that is granted: `now + lease.min(max_lease_sec)`.
abbrev pub granted : ℕ → RegArgs → FabricState → Registration
granted now a st = record {
  token = a.token;
  expires = wrapping_add now (min a.lease st.cfg.max_lease_sec);
}

unfoldable pub reg_reply : Registration → Value
reg_reply r = object (
    insert_field (ascii "expires") (num r.expires)
      (insert_field (ascii "token") (str r.token) no_fields))

-- What follows the reading of the request, in the swept state.
unfoldable pub register : ℕ → RegArgs → FabricState → FabricState × Result Refusal Value
register now a st = elim (may_register now a st) [
  | ok u ↦ (
    record st { reg = insert a.handle (granted now a st) st.reg },
    ok (reg_reply (granted now a st)),
  )
  | err e ↦ (st, err e)
  | panic ↦ (st, panic)
]

-- The request has been read, or refused before the state is touched.
unfoldable pub after : ℕ → FabricState → Result Refusal RegArgs → FabricState × Result Refusal Value
after now st (ok a) = register now a (sweep now st)
after now st (err e) = (st, err e)
after now st panic = (st, panic)

unfoldable pub run_freg : Crates → ℕ → Value → FabricState → FabricState × Result Refusal Value
unfolding after
run_freg c now req st = after now st (reg_args c req)
