-- ===== src/Fabric/Reg/Laws.antt =====
-- The registry of src/fabric.rs under `run_freg`: possession of a live handle, the budget, leases.
use spore_peer.Prelude.{
  ℕ, ◌+◌, ◌≤◌, ◌≡◌, ◌⊎◌, refl, ap, Bool, true, [], ◌∷◌, some, Bytes, length, ok, err, panic,
  same_bytes_iff, arith, inl, inr, Result-cases,
}
use spore_peer.Json.{Value}
use spore_peer.Crates.{Crates}
use spore_peer.Dict.{
  Dict, lookup, retain, lookup-insert, lookup-insert_self, length-insert, length-retain,
}
use spore_peer.Tokens.{ct_eq}
use spore_peer.Fabric.State.{FabricConfig, FabricState, Registration}
use spore_peer.Fabric.Reg.{
  RegArgs, reg_args, is_live, sweep, may_register, granted, register, after, run_freg, reg_reply,
}

-- The registrations do not exceed the budget.
abbrev pub IsWithinBudget : FabricState → Type 0
IsWithinBudget st = length st.reg ≤ st.cfg.max_regs

lookup-retain :
    (p : Registration → Bool) (k : Bytes) (r : Registration) (d : Dict Registration)
    → lookup k d ≡ some r
    → p r ≡ true
    → lookup k (retain p d) ≡ some r
unfolding lookup retain
lookup-retain p k r [] h hp = cc
lookup-retain p k r ((j, w) ∷ d) h hp = ground (arith, lookup-retain p k r d)

-- A sweep keeps every live registration.
lookup-sweep :
    (now : ℕ) (st : FabricState) (k : Bytes) (r : Registration)
    → lookup k st.reg ≡ some r
    → is_live now r ≡ true
    → lookup k (sweep now st).reg ≡ some r
unfolding sweep
lookup-sweep now st k r h live = ground (arith, lookup-retain (is_live now) k r st.reg h live)

-- A request that goes through replaces a live registration only with its token.
register_live :
    (now : ℕ) (a : RegArgs) (st : FabricState) (k : Bytes) (cur : Registration)
    → lookup k st.reg ≡ some cur
    → is_live now cur ≡ true
    → (lookup k (register now a st).0.reg ≡ some cur)
      ⊎ ((a.handle ≡ k) × (ct_eq cur.token a.prev_token ≡ true))
unfolding register may_register
register_live now a st k cur h live =
    let r = granted now a st in
    ground (arith, h, live, lookup-insert k a.handle r st.reg, same_bytes_iff a.handle k)

-- What a request does to a live registration is up to its owner: whatever is asked of `run_freg`, the
-- registration stays as it is, or the request names its handle and carries its token.
pub run_freg_live :
    (c : Crates) (now : ℕ) (req : Value) (st : FabricState) (k : Bytes) (cur : Registration)
    → lookup k st.reg ≡ some cur
    → is_live now cur ≡ true
    → (lookup k (run_freg c now req st).0.reg ≡ some cur)
      ⊎ ((a : RegArgs) × (reg_args c req ≡ ok a)
          × (a.handle ≡ k)
          × (ct_eq cur.token a.prev_token ≡ true))
unfolding run_freg
run_freg_live c now req st k cur h live = elim (Result-cases (reg_args c req)) [
  | inl (a, e) ↦
      rw e
        (elim (register_live now a (sweep now st) k cur (lookup-sweep now st k cur h live) live) [
          | inl kept ↦ inl kept
          | inr (same, token) ↦ inr (a, refl, same, token)
        ])
  | inr (inl (x, e)) ↦ rw e (inl h)
  | inr (inr e) ↦ rw e (inl h)
]

sweep-IsWithinBudget :
    (now : ℕ) (st : FabricState) → IsWithinBudget st → IsWithinBudget (sweep now st)
unfolding sweep
sweep-IsWithinBudget now st h = ground (arith, length-retain (is_live now) st.reg)

register-IsWithinBudget :
    (now : ℕ) (a : RegArgs) (st : FabricState)
    → IsWithinBudget st
    → IsWithinBudget (register now a st).0
unfolding register may_register
register-IsWithinBudget now a st h =
    let r = granted now a st in ground (arith, length-insert a.handle r st.reg)

-- The budget of registrations is kept by every request.
pub run_freg-IsWithinBudget :
    (c : Crates) (now : ℕ) (req : Value) (st : FabricState)
    → IsWithinBudget st
    → IsWithinBudget (run_freg c now req st).0
unfolding run_freg
run_freg-IsWithinBudget c now req st h =
    elim (reg_args c req) as (λ r. IsWithinBudget (after now st r).0) [
      | ok a ↦ register-IsWithinBudget now a (sweep now st) (sweep-IsWithinBudget now st h)
      | err x ↦ h
      | panic ↦ h
    ]

register_ok :
    (now : ℕ) (a : RegArgs) (st : FabricState) (v : Value)
    → (register now a st).1 ≡ ok v
    → (lookup a.handle (register now a st).0.reg ≡ some (granted now a st))
      × (v ≡ reg_reply (granted now a st))
unfolding register may_register
register_ok now a st v h = ground (arith, h, lookup-insert_self a.handle (granted now a st) st.reg)

cfg-sweep : (now : ℕ) (st : FabricState) → (sweep now st).cfg ≡ st.cfg
unfolding sweep
cfg-sweep now st = ground arith

-- A request that is accepted leaves its handle registered with its token, for a lease that ends no
-- later than the cap allows, and answers that token and that end.
pub run_freg_ok :
    (c : Crates) (now : ℕ) (req : Value) (st : FabricState) (a : RegArgs) (v : Value)
    → reg_args c req ≡ ok a
    → (run_freg c now req st).1 ≡ ok v
    → (r : Registration) × (lookup a.handle (run_freg c now req st).0.reg ≡ some r)
      × (r.token ≡ a.token)
      × (r.expires ≤ now + st.cfg.max_lease_sec)
      × (v ≡ reg_reply r)
unfolding run_freg
run_freg_ok c now req st a v e h =
    let (there, reply) = register_ok now a (sweep now st) v (rw e at h) in
    rw e (
      granted now a (sweep now st),
      there,
      refl,
      omega (arith, ap (λ (g : FabricConfig). g.max_lease_sec) (cfg-sweep now st)),
      reply,
    )
