-- ===== src/Peer/Threads/Alone.antt =====
-- The steps of a push of src/spore_peer.rs that no other thread comes between.
use spore_peer.Prelude.{
  ℕ, ◌≡◌, refl, ap, ◌∙◌, true, false, [], ◌∷◌, Bool, none, some, Bool-cases, Option-cases, inl, inr,
  Bytes, length, ltb, ◌==◌, Result, ok, err, panic, ◌>>◌,
}
use spore_peer.Json.{Value}
use spore_peer.Crates.{Crates}
use spore_peer.Refusal.{Refusal}
use spore_peer.Limiter.{RateLimiter}
use spore_peer.Dict.{lookup, insert, lookup-insert_self}
use spore_peer.Store.Files.{
  File, Hold, HoldFaults, body_name, part_name, cid_of, max_body_bytes, rename_body, write_body,
  store_new, store_body,
}
use spore_peer.Peer.Policy.{ServeConfig, enforce_write_policy}
use spore_peer.Peer.Rpc2.{Node, PushTimes, check_blid, put_checked, put_decoded}
use spore_peer.Peer.Threads.{
  Shared, after_checks, check_push, stage_part, stage_body, rename_staged, after_stage, stage_push,
  rename_push,
}

abbrev renamed_if : Crates → HoldFaults → Bytes → Hold × Bool → Hold
renamed_if c f body (hold, true) = rename_staged c f body hold
renamed_if c f body (hold, false) = hold

rename_staged-insert :
    (c : Crates) (f : HoldFaults) (body : Bytes) (file : File) (hold : Hold)
    → (rename_body f (cid_of c body) file (insert (part_name (cid_of c body)) file hold)).0
      ≡ rename_staged c f body (insert (part_name (cid_of c body)) file hold)
unfolding rename_staged
rename_staged-insert c f body file hold =
    rw (lookup-insert_self (part_name (cid_of c body)) file hold, rename_staged) refl

module _ (c : Crates) (f : HoldFaults) (now : ℕ) (body : Bytes) where
  write_body-halves :
      (hold : Hold)
      → (write_body f now (cid_of c body) body hold).0
        ≡ renamed_if c f body (stage_part f now (cid_of c body) body hold)
  unfolding write_body stage_part
  write_body-halves hold =
      let file : File = record { content = body; modified = now } in
      elim (Option-cases f.write) [
        | inl y ↦ rw y (rename_staged-insert c (record f { write = none }) body file hold)
        | inr ((none, e), y) ↦ rw y refl
        | inr ((some left, e), y) ↦ rw y refl
      ]

  -- The two halves of a write, one directly after the other, leave the directory as `store_body` does.
  pub store_body-halves :
      (hold : Hold)
      → (store_body c f now body hold).0 ≡ renamed_if c f body (stage_body c f now body hold)
  unfolding store_body store_new stage_body rename_staged
  store_body-halves hold = elim (Bool-cases (length body == 0)) [
    | inl y ↦ rw y refl
    | inr y ↦ rw y (elim (Bool-cases (ltb max_body_bytes (length body))) [
      | inl z ↦ rw z refl
      | inr z ↦ rw z (elim (Option-cases (lookup (body_name (cid_of c body)) hold)) [
        | inr (g, w) ↦ rw (w, store_new) refl
        | inl w ↦
            rw (w, store_new)
              (elim (Option-cases f.create_dir) [
                | inr (e, v) ↦ rw v refl
                | inl v ↦ rw v (write_body-halves hold)
              ])
      ])
    ])
  ]

-- The shared state after the rename of what is written first, if anything is.
abbrev renamed : Crates → ServeConfig → HoldFaults → Shared → Node
renamed c cfg f s = elim s.staged [
  | [] ↦ s.node
  | body ∷ others ↦ (rename_push c cfg f body others s).node
]

-- The node after the write of what waits first, if anything waits.
abbrev written : Crates → ServeConfig → HoldFaults → ℕ → Shared → Node
written c cfg f now s = elim s.pending [
  | [] ↦ s.node
  | body ∷ others ↦ renamed c cfg f (stage_push c cfg f now body others s)
]

module _ (c : Crates) (cfg : ServeConfig) (f : HoldFaults) (t : PushTimes) (node : Node) where
  after_stage-renamed :
      (body : Bytes) (limiter : RateLimiter) (r : Hold × Bool)
      → record { hold = renamed_if c f body r; limiter = limiter }
        ≡ renamed c cfg f (
            after_stage body []
              (record {
                node = record { hold = node.hold; limiter = limiter };
                pending = body ∷ [];
                staged = [];
              })
              r)
  unfolding after_stage rename_push
  after_stage-renamed body limiter (hold, true) = refl
  after_stage-renamed body limiter (hold, false) = refl

  after_checks-written :
      (body : Bytes) (r : RateLimiter × Result Refusal (Unit {0}))
      → (put_checked c f t.write_at body (record node { limiter = r.0 }) r.1).0
        ≡ written c cfg f t.write_at
            (after_checks body (record { node = node; pending = []; staged = [] }) r)
  unfolding put_checked after_checks stage_push
  after_checks-written body (limiter, ok u) =
      ap (λ (hold : Hold). record { hold = hold; limiter = limiter })
        (store_body-halves c f t.write_at body node.hold)
      ∙ after_stage-renamed body limiter (stage_body c f t.write_at body node.hold)
  after_checks-written body (limiter, err e) = refl
  after_checks-written body (limiter, panic) = refl

  -- The three steps of a push, one directly after the other, leave the node as the push of
  -- `handle_rpc2` does.
  pub put_decoded-written :
      (ip : Bytes) (payload : Value) (body : Bytes)
      → (put_decoded c f t cfg ip payload node (ok body)).0
        ≡ written c cfg f t.write_at (
            check_push c cfg ip t.limit_at payload body
              (record { node = node; pending = []; staged = [] }))
  unfolding put_decoded check_push
  put_decoded-written ip payload body =
      let policy =
        enforce_write_policy cfg ip t.limit_at (length body) node.limiter payload node.hold in
      after_checks-written body (policy.0, policy.1 >> check_blid c body payload)
