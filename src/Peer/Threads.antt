-- ===== src/Peer/Threads.antt =====
-- Pushes on several connections of src/spore_peer.rs, each a thread: `handle_rpc2` takes a body past its
-- checks, writes its temporary file and renames it, with steps of the other threads between.
pub mod Staged
pub mod Laws
pub mod Alone
use spore_peer.Prelude.{
  ℕ, ◌+◌, ◌≤◌, ◌≡◌, ◌≢◌, Bool, true, false, List, [], ◌∷◌, ◌++◌, Option, none, some, Bytes, All,
  length, ltb, ◌==◌, if◌then◌else◌, Result, ok, err, panic, ◌>>◌,
}
use spore_peer.Json.{Value}
use spore_peer.Crates.{Crates}
use spore_peer.Refusal.{Refusal}
use spore_peer.Limiter.{RateLimiter}
use spore_peer.Dict.{lookup, insert}
use spore_peer.Store.Files.{
  File, Hold, HoldFaults, body_name, part_name, cid_of, max_body_bytes, rename_body,
}
use spore_peer.Peer.Policy.{ServeConfig, enforce_write_policy}
use spore_peer.Peer.Rpc2.{Node, pushed_body, check_blid}

-- What the threads share, the bodies that have passed the checks and are not yet written, and those
-- whose temporary file is written and not yet renamed.
pub record Shared : Type 0 where
  pub node : Node
  pub pending : List Bytes
  pub staged : List Bytes

-- The end of the checks of a body.
unfoldable pub after_checks : Bytes → Shared → RateLimiter × Result Refusal (Unit {0}) → Shared
after_checks body s (limiter, ok u) = record {
  node = record { hold = s.node.hold; limiter = limiter };
  pending = body ∷ s.pending;
  staged = s.staged;
}
after_checks body s (limiter, err e) = record s {
  node = record { hold = s.node.hold; limiter = limiter };
}
after_checks body s (limiter, panic) = record s {
  node = record { hold = s.node.hold; limiter = limiter };
}

-- `fs::write` of the temporary file, and whether `store_body` goes on to the rename.
unfoldable pub stage_part : HoldFaults → ℕ → Bytes → Bytes → Hold → Hold × Bool
stage_part f now cid_hex body hold = elim f.write [
  | some (none, e) ↦ (hold, false)
  | some (some left, e) ↦
      (insert (part_name cid_hex) (record { content = left; modified = now }) hold, false)
  | none ↦ (insert (part_name cid_hex) (record { content = body; modified = now }) hold, true)
]

-- `store_body` up to the rename.
unfoldable pub stage_body : Crates → HoldFaults → ℕ → Bytes → Hold → Hold × Bool
unfolding stage_part
stage_body c f now body hold =
    if length body == 0
    then (hold, false)
    else (if ltb max_body_bytes (length body)
        then (hold, false)
        else (elim (lookup (body_name (cid_of c body)) hold) [
          | some known ↦ (hold, false)
          | none ↦ elim f.create_dir [
            | some e ↦ (hold, false)
            | none ↦ stage_part f now (cid_of c body) body hold
          ]
        ]))

-- The rename of what has the temporary name; a file that is gone is not renamed.
unfoldable pub rename_staged : Crates → HoldFaults → Bytes → Hold → Hold
rename_staged c f body hold = elim (lookup (part_name (cid_of c body)) hold) [
  | none ↦ hold
  | some file ↦ (rename_body f (cid_of c body) file hold).0
]

-- Behind the temporary file, with the bodies that wait for theirs.
unfoldable pub after_stage : Bytes → List Bytes → Shared → Hold × Bool → Shared
after_stage body others s (hold, true) = record {
  node = record { hold = hold; limiter = s.node.limiter };
  pending = others;
  staged = body ∷ s.staged;
}
after_stage body others s (hold, false) = record {
  node = record { hold = hold; limiter = s.node.limiter };
  pending = others;
  staged = s.staged;
}

module _ (c : Crates) (cfg : ServeConfig) where
  -- The policy, with the directory as it is then, and the comparison of the hash.
  unfoldable pub check_push : Bytes → ℕ → Value → Bytes → Shared → Shared
  unfolding after_checks
  check_push ip now payload body s =
      let policy =
        enforce_write_policy cfg ip now (length body) s.node.limiter payload s.node.hold in
      after_checks body s (policy.0, policy.1 >> check_blid c body payload)

  -- The temporary file of a body that has passed, which leaves the others to be written.
  unfoldable pub stage_push : HoldFaults → ℕ → Bytes → List Bytes → Shared → Shared
  unfolding after_stage stage_body
  stage_push f now body others s = after_stage body others s (stage_body c f now body s.node.hold)

  -- The rename of a written body, which leaves the others to be renamed.
  unfoldable pub rename_push : HoldFaults → Bytes → List Bytes → Shared → Shared
  unfolding rename_staged
  rename_push f body others s = record s {
    node = record { hold = rename_staged c f body s.node.hold; limiter = s.node.limiter };
    staged = others;
  }

  -- No other thread stands between the write and the rename of a body of that hash, which are over one
  -- temporary file.
  abbrev pub IsAlone : Bytes → List Bytes → Type 0
  IsAlone body staged = All (λ other. cid_of c other ≢ cid_of c body) staged

  -- A step of one of the threads, of which `spare` can stand behind their checks beside another.
  pub data Step (spare : ℕ) (s : Shared) : Shared → Type 0 where
    checks :
        (ip : Bytes) (now : ℕ) (payload : Value) (body : Bytes)
        → pushed_body c payload ≡ ok body
        → length s.pending + length s.staged ≤ spare
        → Step spare s (check_push ip now payload body s)
    stages :
        (f : HoldFaults) (now : ℕ) (front : List Bytes) (body : Bytes) (back : List Bytes)
        → s.pending ≡ front ++ (body ∷ back)
        → IsAlone body s.staged
        → Step spare s (stage_push f now body (front ++ back) s)
    renames :
        (f : HoldFaults) (front : List Bytes) (body : Bytes) (back : List Bytes)
        → s.staged ≡ front ++ (body ∷ back)
        → Step spare s (rename_push f body (front ++ back) s)

  -- Any steps of the threads, in any order.
  pub data Reaches (spare : ℕ) (s : Shared) : Shared → Type 0 where
    start : Reaches spare s s
    then_step : {t u : Shared} → Reaches spare s t → Step spare t u → Reaches spare s u
