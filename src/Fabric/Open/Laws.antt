-- ===== src/Fabric/Open/Laws.antt =====
-- What `FabricState::open` of src/fabric.rs makes of a directory.
use spore_peer.Prelude.{
  ℕ, ◌≡◌, refl, sym, ◌∙◌, List, [], ◌∷◌, ◌++◌, append-nil, append_assoc, Bool, true, false, ◌&&◌,
  ◌||◌, none, Bool-cases, inl, inr, Bytes, same_bytes, same_bytes→eq, if◌then◌else◌, arith,
}
use mathlib.Core.List.{Perm}
use spore_peer.Json.{unwrap_or}
use spore_peer.Crates.{Hex}
use spore_peer.Dict.{lookup, lookup-insert, lookup-remove}
use spore_peer.Fabric.State.{FabricConfig, Queued, Disk}
use spore_peer.Fabric.Put.{queue_of}
use spore_peer.Fabric.Open.{
  OpenSetting, Fate, passed, removed, queued, fate, entry_of, Queues, push_entry, open_file,
  open_files, sort_queue, sort_queues, open_state,
}
use spore_peer.Fabric.Open.Order.{IsOrdered, sort_queue-perm, sort_queue-IsOrdered}

-- The entry of a file at the handle `k`, if it is to be queued there.
abbrev pub pick : Hex → Bytes → Bytes → Fate → List Queued → List Queued
pick hex k name passed rest = rest
pick hex k name removed rest = rest
pick hex k name (queued e) rest =
    if same_bytes (hex.encode e.handle) k then entry_of name e ∷ rest else rest

-- The entries of the directory at the handle `k`, in the order of the listing.
abbrev pub restored : Hex → OpenSetting → ℕ → Bytes → Disk → List Queued
restored hex env horizon k [] = []
restored hex env horizon k ((name, raw) ∷ listing) =
    pick hex k name (fate env horizon name raw) (restored hex env horizon k listing)

-- The file is removed: its fate says so, and the file system lets it.
abbrev pub is_removed : Fate → Bool
is_removed passed = false
is_removed removed = true
is_removed (queued e) = false

abbrev pub composted : OpenSetting → ℕ → Bytes → Disk → Bool
composted env horizon n [] = false
composted env horizon n ((name, raw) ∷ listing) =
    (same_bytes name n && is_removed (fate env horizon name raw) && env.removes name)
    || composted env horizon n listing

abbrev queue_at : Bytes → Queues → List Queued
queue_at k queues = unwrap_or (lookup k queues) []

queue_at-push_entry :
    (k h : Bytes) (x : Queued) (queues : Queues)
    → queue_at k (push_entry h x queues)
      ≡ (if same_bytes h k then queue_at k queues ++ (x ∷ []) else queue_at k queues)
unfolding push_entry
queue_at-push_entry k h x queues = elim (Bool-cases (same_bytes h k)) [
  | inl y ↦
      let same : h ≡ k = same_bytes→eq h k y in
      rw (lookup-insert k h (queue_at h queues ++ (x ∷ [])) queues, y, same) refl
  | inr y ↦ rw (lookup-insert k h (queue_at h queues ++ (x ∷ [])) queues, y) refl
]

queue_at-open_file :
    (hex : Hex) (env : OpenSetting) (k name : Bytes) (f : Fate) (s : Queues × Disk)
    (rest : List Queued)
    → queue_at k (open_file hex env name f s).0 ++ rest ≡ queue_at k s.0 ++ pick hex k name f rest
unfolding open_file
queue_at-open_file hex env k name passed (queues, disk) rest = refl
queue_at-open_file hex env k name removed (queues, disk) rest = refl
queue_at-open_file hex env k name (queued e) (queues, disk) rest =
    elim (Bool-cases (same_bytes (hex.encode e.handle) k)) [
      | inl y ↦
          rw (queue_at-push_entry k (hex.encode e.handle) (entry_of name e) queues, y)
            (append_assoc (queue_at k queues) (entry_of name e ∷ []) rest)
      | inr y ↦ rw (queue_at-push_entry k (hex.encode e.handle) (entry_of name e) queues, y) refl
    ]

queue_at-open_files :
    (hex : Hex) (env : OpenSetting) (horizon : ℕ) (k : Bytes) (listing : Disk) (s : Queues × Disk)
    → queue_at k (open_files hex env horizon listing s).0
      ≡ queue_at k s.0 ++ restored hex env horizon k listing
unfolding open_files
queue_at-open_files hex env horizon k [] s = sym (append-nil (queue_at k s.0))
queue_at-open_files hex env horizon k ((name, raw) ∷ listing) s =
    queue_at-open_files hex env horizon k listing
      (open_file hex env name (fate env horizon name raw) s)
    ∙ queue_at-open_file hex env k name (fate env horizon name raw) s
        (restored hex env horizon k listing)

queue_at-sort_queues :
    (k : Bytes) (queues : Queues) → queue_at k (sort_queues queues) ≡ sort_queue (queue_at k queues)
unfolding sort_queues lookup sort_queue
queue_at-sort_queues k [] = refl
queue_at-sort_queues k ((h, q) ∷ queues) = elim (Bool-cases (same_bytes h k)) [
  | inl y ↦ rw (y, lookup) refl
  | inr y ↦ rw (y, lookup) (queue_at-sort_queues k queues)
]

lookup-open_file :
    (hex : Hex) (env : OpenSetting) (n name : Bytes) (f : Fate) (s : Queues × Disk)
    → lookup n (open_file hex env name f s).1
      ≡ (if same_bytes name n && is_removed f && env.removes name then none else lookup n s.1)
unfolding open_file
lookup-open_file hex env n name passed (queues, disk) = ground arith
lookup-open_file hex env n name removed (queues, disk) = ground (arith, lookup-remove n name disk)
lookup-open_file hex env n name (queued e) (queues, disk) = ground arith

lookup-open_files :
    (hex : Hex) (env : OpenSetting) (horizon : ℕ) (n : Bytes) (listing : Disk) (s : Queues × Disk)
    → lookup n (open_files hex env horizon listing s).1
      ≡ (if composted env horizon n listing then none else lookup n s.1)
unfolding open_files open_file
lookup-open_files hex env horizon n [] s = refl
lookup-open_files hex env horizon n ((name, raw) ∷ listing) s =
    lookup-open_files hex env horizon n listing
      (open_file hex env name (fate env horizon name raw) s)
    ∙ ground (arith, lookup-open_file hex env n name (fate env horizon name raw) s)

open_state-restored :
    (hex : Hex) (env : OpenSetting) (cfg : FabricConfig) (disk : Disk) (k : Bytes)
    → queue_of k (open_state hex env cfg disk).state
      ≡ sort_queue (restored hex env cfg.max_deadline_horizon_sec k disk)
unfolding open_state
open_state-restored hex env cfg disk k =
    let horizon = cfg.max_deadline_horizon_sec in
    let done = open_files hex env horizon disk ([], disk) in
    let found : queue_at k done.0 ≡ restored hex env horizon k disk =
      queue_at-open_files hex env horizon k disk ([], disk) ∙ unfold lookup in refl in
    rw (queue_at-sort_queues k done.0, found) refl

pub open_state-entries :
    (hex : Hex) (env : OpenSetting) (cfg : FabricConfig) (disk : Disk) (k : Bytes)
    → Perm
        (queue_of k (open_state hex env cfg disk).state)
        (restored hex env cfg.max_deadline_horizon_sec k disk)
open_state-entries hex env cfg disk k =
    rw (open_state-restored hex env cfg disk k)
      (sort_queue-perm (restored hex env cfg.max_deadline_horizon_sec k disk))

pub open_state-IsOrdered :
    (hex : Hex) (env : OpenSetting) (cfg : FabricConfig) (disk : Disk) (k : Bytes)
    → IsOrdered (queue_of k (open_state hex env cfg disk).state)
open_state-IsOrdered hex env cfg disk k =
    rw (open_state-restored hex env cfg disk k)
      (sort_queue-IsOrdered (restored hex env cfg.max_deadline_horizon_sec k disk))

pub open_state-composted :
    (hex : Hex) (env : OpenSetting) (cfg : FabricConfig) (disk : Disk) (n : Bytes)
    → lookup n (open_state hex env cfg disk).disk
      ≡ (if composted env cfg.max_deadline_horizon_sec n disk then none else lookup n disk)
unfolding open_state
open_state-composted hex env cfg disk n =
    lookup-open_files hex env cfg.max_deadline_horizon_sec n disk ([], disk)
