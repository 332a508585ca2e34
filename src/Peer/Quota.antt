-- ===== src/Peer/Quota.antt =====
-- The quota of the store in src/spore_peer.rs: `store_bytes`, `enforce_write_policy` and `store_body`.
use spore_peer.Prelude.{
  ℕ, ◌+◌, ◌-◌, ◌^◌, ◌<◌, ◌≤◌, ◌≡◌, refl, ◌∙◌, min, [], ◌∷◌, ◌++◌, append_assoc, none, some, false,
  Option-cases, Bool-cases, inl, inr, Bytes, ascii, length, length-append, drop-append, ltb, ltb→ge,
  lt→ltb, ◌==◌, same_bytes, if◌then◌else◌, Result, ok, err, panic, ◌>>◌, arith,
}
use spore_peer.Json.{Value}
use spore_peer.Text.{ends_with}
use spore_peer.Crates.{Crates}
use spore_peer.Refusal.{Refusal}
use spore_peer.Dict.{lookup, insert, remove}
use spore_peer.Cbor.Decode.{Rpc2Message}
use spore_peer.Store.Files.{
  File, Hold, HoldFaults, body_name, part_name, cid_of, max_body_bytes, rename_body, write_body,
  store_new, store_body,
}
use spore_peer.Peer.Policy.{
  ServeConfig, is_body, saturating_add, sum_bytes, store_bytes, check_quota, enforce_write_policy,
}
use spore_peer.Peer.Rpc2.{
  Node, PushTimes, check_blid, put_checked, put_decoded, put_object, pushed_body, handle_rpc2,
}
use spore_peer.Peer.Laws.{seq_ok, handle_rpc2_keeps}

-- The bytes of a file, if it is named as a body.
abbrev counted : Bytes → File → ℕ
counted name file = if is_body name then length file.content else 0

-- The bytes of all bodies of the directory.
abbrev pub body_bytes : Hold → ℕ
body_bytes [] = 0
body_bytes ((name, file) ∷ hold) = counted name file + body_bytes hold

sum_bytes_lem :
    (total : ℕ) (hold : Hold)
    → total < 2 ^ 64
    → sum_bytes total hold ≡ min (total + body_bytes hold) (2 ^ 64 - 1)
unfolding sum_bytes
sum_bytes_lem total [] small = omega (arith, small)
sum_bytes_lem total ((name, file) ∷ hold) small = elim (Bool-cases (is_body name)) [
  | inl y ↦
      rw y (
        sum_bytes_lem (saturating_add total (length file.content)) hold (omega arith) ∙ omega arith)
  | inr y ↦ rw y (sum_bytes_lem total hold small ∙ omega arith)
]

-- The source's sum is the true one up to the largest 64-bit word.
pub store_bytes_lem : (hold : Hold) → store_bytes hold ≡ min (body_bytes hold) (2 ^ 64 - 1)
unfolding store_bytes
store_bytes_lem hold = sum_bytes_lem 0 hold (omega arith) ∙ omega arith

insert-body_bytes :
    (k : Bytes) (file : File) (hold : Hold)
    → body_bytes (insert k file hold) ≤ body_bytes hold + counted k file
unfolding insert
insert-body_bytes k file [] = omega arith
insert-body_bytes k file ((name, g) ∷ hold) = elim (Bool-cases (same_bytes name k)) [
  | inl y ↦ rw (y, insert) (omega arith)
  | inr y ↦ rw (y, insert) (omega (arith, insert-body_bytes k file hold))
]

remove-body_bytes : (k : Bytes) (hold : Hold) → body_bytes (remove k hold) ≤ body_bytes hold
unfolding remove
remove-body_bytes k [] = omega arith
remove-body_bytes k ((name, g) ∷ hold) = elim (Bool-cases (same_bytes name k)) [
  | inl y ↦ rw (y, remove) (omega (arith, remove-body_bytes k hold))
  | inr y ↦ rw (y, remove) (omega (arith, remove-body_bytes k hold))
]

ends_with-part : (s : Bytes) → ends_with (s ++ ascii ".part") (ascii ".body") ≡ false
unfolding ends_with
ends_with-part s =
    let n : length (s ++ ascii ".part") - 5 ≡ length s =
      omega (arith, length-append s (ascii ".part")) in
    rw (n, drop-append s (ascii ".part")) (ground arith)

-- A temporary file is not counted.
counted-part_name : (h : Bytes) (file : File) → counted (part_name h) file ≡ 0
counted-part_name h file =
    let part : ends_with (part_name h) (ascii ".body") ≡ false =
      rw (← append_assoc (ascii ".incoming-") h (ascii ".part"))
        (ends_with-part (ascii ".incoming-" ++ h)) in
    rw part refl

counted_le : (k : Bytes) (file : File) → counted k file ≤ length file.content
counted_le k file = ground arith

pub insert_part-body_bytes :
    (h : Bytes) (file : File) (hold : Hold)
    → body_bytes (insert (part_name h) file hold) ≤ body_bytes hold
insert_part-body_bytes h file hold =
    omega (arith, insert-body_bytes (part_name h) file hold, counted-part_name h file)

module _ (f : HoldFaults) where
  pub rename_body-body_bytes :
      (h : Bytes) (file : File) (hold : Hold)
      → body_bytes (rename_body f h file hold).0 ≤ body_bytes hold + length file.content
  unfolding rename_body
  rename_body-body_bytes h file hold = elim (Option-cases f.rename) [
    | inl y ↦ rw y (
        omega (
          arith,
          insert-body_bytes (body_name h) file (remove (part_name h) hold),
          remove-body_bytes (part_name h) hold,
          counted_le (body_name h) file,
        ))
    | inr (e, y) ↦ rw y (elim (Bool-cases f.removes) [
      | inl z ↦ rw z (omega (arith, remove-body_bytes (part_name h) hold))
      | inr z ↦ rw z (omega arith)
    ])
  ]

  write_body-body_bytes :
      (now : ℕ) (h body : Bytes) (hold : Hold)
      → body_bytes (write_body f now h body hold).0 ≤ body_bytes hold + length body
  unfolding write_body
  write_body-body_bytes now h body hold =
      let file : File = record { content = body; modified = now } in
      elim (Option-cases f.write) [
        | inl y ↦ rw y (
            omega (
              arith,
              rename_body-body_bytes h file (insert (part_name h) file hold),
              insert_part-body_bytes h file hold,
            ))
        | inr ((none, e), y) ↦ rw y (omega arith)
        | inr ((some left, e), y) ↦ rw y (
            omega
              (arith, insert_part-body_bytes h (record { content = left; modified = now }) hold))
      ]

  -- Storing adds the body's bytes at most.
  pub store_body-body_bytes :
      (c : Crates) (now : ℕ) (body : Bytes) (hold : Hold)
      → body_bytes (store_body c f now body hold).0 ≤ body_bytes hold + length body
  unfolding store_body store_new
  store_body-body_bytes c now body hold = elim (Bool-cases (length body == 0)) [
    | inl y ↦ rw y (omega arith)
    | inr y ↦ rw y (elim (Bool-cases (ltb max_body_bytes (length body))) [
      | inl z ↦ rw z (omega arith)
      | inr z ↦ rw z (elim (Option-cases (lookup (body_name (cid_of c body)) hold)) [
        | inr (g, w) ↦ rw (store_new, w) (omega arith)
        | inl w ↦
            rw (store_new, w)
              (elim (Option-cases f.create_dir) [
                | inr (e, v) ↦ rw v (omega arith)
                | inl v ↦ rw v (write_body-body_bytes now (cid_of c body) body hold)
              ])
      ])
    ])
  ]

-- The bodies are within the quota.
abbrev pub IsWithinQuota : ServeConfig → Hold → Type 0
IsWithinQuota cfg hold = body_bytes hold ≤ cfg.max_store_bytes

module _ (c : Crates) (f : HoldFaults) (t : PushTimes) (cfg : ServeConfig) (ip : Bytes)
    (set : 0 < cfg.max_store_bytes) (small : cfg.max_store_bytes < 2 ^ 64 - 1) where
  pub check_quota_ok :
      (n : ℕ) (hold : Hold)
      → check_quota cfg n hold ≡ ok tt
      → body_bytes hold + n ≤ cfg.max_store_bytes
  unfolding check_quota
  check_quota_ok n hold e =
      elim (Bool-cases (ltb cfg.max_store_bytes (saturating_add (store_bytes hold) n))) [
        | inl y ↦ cc (rw (lt→ltb _ _ set, y) at e)
        | inr y ↦ omega (arith, ltb→ge _ _ y, store_bytes_lem hold, small)
      ]

  put_checked-IsWithinQuota :
      (body : Bytes) (node : Node) (p : Result Refusal (Unit {0}))
      → (p ≡ ok tt → body_bytes node.hold + length body ≤ cfg.max_store_bytes)
      → IsWithinQuota cfg node.hold
      → IsWithinQuota cfg (put_checked c f t.write_at body node p).0.hold
  unfolding put_checked
  put_checked-IsWithinQuota body node (ok u) room h =
      omega (arith, room refl, store_body-body_bytes f c t.write_at body node.hold)
  put_checked-IsWithinQuota body node (err e) room h = h
  put_checked-IsWithinQuota body node panic room h = h

  put_decoded-IsWithinQuota :
      (payload : Value) (node : Node) (b : Result Refusal Bytes)
      → IsWithinQuota cfg node.hold
      → IsWithinQuota cfg (put_decoded c f t cfg ip payload node b).0.hold
  unfolding put_decoded enforce_write_policy
  put_decoded-IsWithinQuota payload node (ok body) h =
      let policy =
        enforce_write_policy cfg ip t.limit_at (length body) node.limiter payload node.hold in
      put_checked-IsWithinQuota body (record node { limiter = policy.0 })
        (policy.1 >> check_blid c body payload)
        (λ passed.
          let (all, blid) = seq_ok c f t cfg ip policy.1 (check_blid c body payload) tt passed in
          let (two, quota) =
            seq_ok c f t cfg ip _ (check_quota cfg (length body) node.hold) tt all in
          check_quota_ok (length body) node.hold quota)
        h
  put_decoded-IsWithinQuota payload node (err e) h = h
  put_decoded-IsWithinQuota payload node panic h = h

  -- Where a quota is set, the bodies of the store never exceed it: whatever a peer asks, and whatever
  -- the file system refuses, they are within it after the request if they were before. The quota is
  -- less than the largest 64-bit word.
  pub handle_rpc2-IsWithinQuota :
      (msg : Rpc2Message) (node : Node)
      → IsWithinQuota cfg node.hold
      → IsWithinQuota cfg (handle_rpc2 c f t cfg ip msg node).0.hold
  unfolding put_object
  handle_rpc2-IsWithinQuota msg node h =
      handle_rpc2_keeps c f t cfg ip (IsWithinQuota cfg) msg node
        (put_decoded-IsWithinQuota msg.payload node (pushed_body c msg.payload) h) h
