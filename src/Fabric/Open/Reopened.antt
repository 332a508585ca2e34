-- ===== src/Fabric/Open/Reopened.antt =====
-- `FabricState::open` of src/fabric.rs against the deadlines of the envelopes.
use spore_peer.Prelude.{
  ℕ, ◌+◌, ◌≡◌, refl, ap, ◌∙◌, List, [], ◌∷◌, Bool, true, false, ◌&&◌, ◌||◌, Option, none, some, ◌<◌,
  ◌⊎◌, inl, inr, Bool-cases, ltb→lt, Bytes, same_bytes, if◌then◌else◌, ltb, leb, Result, ok, err,
  panic, arith,
}
use mathlib.Core.List.{Perm}
use spore_peer.Words.{IsU64, wrapping_add-eq}
use spore_peer.Json.{key_lt}
use spore_peer.Crates.{Hex}
use spore_peer.Dict.{lookup}
use spore_peer.Fabric.Envelope.{Envelope, parse_envelope}
use spore_peer.Fabric.State.{FabricConfig, Queued, Disk}
use spore_peer.Fabric.Put.{Relay, deadline_of, queue_of}
use spore_peer.Fabric.Open.{OpenSetting, fate, fate_of, is_fenv, entry_of, not_after, open_state}
use spore_peer.Fabric.Open.Order.{IsOrdered, more}
use spore_peer.Fabric.Open.Laws.{
  pick, restored, is_removed, composted, open_state-entries, open_state-IsOrdered,
  open_state-composted,
}

-- The deadline is not over when it is looked at, and not beyond the horizon.
abbrev pub is_timely : OpenSetting → ℕ → Bytes → ℕ → Bool
is_timely env horizon name deadline =
    ltb (env.live_at name) deadline && leb deadline (env.horizon_at name + horizon)

-- The live envelope in some bytes, if they parse as one.
abbrev pub live_parsed : OpenSetting → ℕ → Bytes → Result Bytes Envelope → Option Envelope
live_parsed env horizon name (ok e) =
    if is_timely env horizon name (deadline_of e.pointer) then some e else none
live_parsed env horizon name (err x) = none
live_parsed env horizon name panic = none

-- The file is an envelope by its name, and can be read.
abbrev pub is_read : OpenSetting → Bytes → Bool
is_read env name = is_fenv name && env.reads name

abbrev pub live_envelope : OpenSetting → ℕ → Bytes → Bytes → Option Envelope
live_envelope env horizon name raw =
    if is_read env name then live_parsed env horizon name (parse_envelope raw) else none

abbrev pub live_entry : Hex → Bytes → Bytes → Option Envelope → List Queued → List Queued
live_entry hex k name none rest = rest
live_entry hex k name (some e) rest =
    if same_bytes (hex.encode e.handle) k then entry_of name e ∷ rest else rest

-- The entries of the live envelopes of the handle `k`, in the order of the listing.
abbrev pub live_entries : Hex → OpenSetting → ℕ → Bytes → Disk → List Queued
live_entries hex env horizon k [] = []
live_entries hex env horizon k ((name, raw) ∷ listing) =
    live_entry hex k name (live_envelope env horizon name raw)
      (live_entries hex env horizon k listing)

abbrev pub is_none : Option Envelope → Bool
is_none none = true
is_none (some e) = false

-- A file of the name `n` is read, holds no live envelope, and can be removed.
abbrev pub is_dead : OpenSetting → ℕ → Bytes → Disk → Bool
is_dead env horizon n [] = false
is_dead env horizon n ((name, raw) ∷ listing) =
    (same_bytes name n
      && (is_read env name && is_none (live_envelope env horizon name raw))
      && env.removes name)
    || is_dead env horizon n listing

module _ (env : OpenSetting) (horizon : ℕ)
    (fits : (m : Bytes) → IsU64 (env.horizon_at m + horizon)) where
  pick-fate_of :
      (hex : Hex) (k name : Bytes) (r : Result Bytes Envelope) (rest : List Queued)
      → pick hex k name (fate_of env horizon name r) rest
        ≡ live_entry hex k name (live_parsed env horizon name r) rest
  unfolding fate_of
  pick-fate_of hex k name (ok e) rest =
      ground (arith, wrapping_add-eq (env.horizon_at name) horizon (fits name))
  pick-fate_of hex k name (err x) rest = refl
  pick-fate_of hex k name panic rest = refl

  pick-fate :
      (hex : Hex) (k name raw : Bytes) (rest : List Queued)
      → pick hex k name (fate env horizon name raw) rest
        ≡ live_entry hex k name (live_envelope env horizon name raw) rest
  unfolding fate
  pick-fate hex k name raw rest = ground (arith, pick-fate_of hex k name (parse_envelope raw) rest)

  restored_lem :
      (hex : Hex) (k : Bytes) (disk : Disk)
      → restored hex env horizon k disk ≡ live_entries hex env horizon k disk
  restored_lem hex k [] = refl
  restored_lem hex k ((name, raw) ∷ disk) =
      pick-fate hex k name raw (restored hex env horizon k disk)
      ∙ ap (live_entry hex k name (live_envelope env horizon name raw)) (restored_lem hex k disk)

  is_removed-fate_of :
      (name : Bytes) (r : Result Bytes Envelope)
      → is_removed (fate_of env horizon name r) ≡ is_none (live_parsed env horizon name r)
  unfolding fate_of
  is_removed-fate_of name (ok e) =
      ground (arith, wrapping_add-eq (env.horizon_at name) horizon (fits name))
  is_removed-fate_of name (err x) = refl
  is_removed-fate_of name panic = refl

  is_removed-fate :
      (name raw : Bytes)
      → is_removed (fate env horizon name raw)
        ≡ (is_read env name && is_none (live_envelope env horizon name raw))
  unfolding fate
  is_removed-fate name raw = ground (arith, is_removed-fate_of name (parse_envelope raw))

  composted_lem :
      (n : Bytes) (disk : Disk) → composted env horizon n disk ≡ is_dead env horizon n disk
  composted_lem n [] = refl
  composted_lem n ((name, raw) ∷ disk) =
      ground (arith, is_removed-fate name raw, composted_lem n disk)

-- `x` was received before `y`, or at the same time and does not come after it by its name.
abbrev pub Before : Queued → Queued → Type 0
Before x y =
    (x.received_at < y.received_at)
    ⊎ ((x.received_at ≡ y.received_at) × (key_lt y.env_cid_hex x.env_cid_hex ≡ false))

abbrev pub IsFifo : List Queued → Type 0
IsFifo [] = Unit
IsFifo (x ∷ []) = Unit
IsFifo (x ∷ y ∷ q) = Before x y × IsFifo (y ∷ q)

not_after-Before : (x y : Queued) → not_after x y ≡ true → Before x y
not_after-Before x y h = elim (Bool-cases (ltb x.received_at y.received_at)) [
  | inl e ↦ inl (ltb→lt _ _ e)
  | inr e ↦ inr (ground (arith, e, h), ground (arith, e, h))
]

ordered-IsFifo : (q : List Queued) → IsOrdered q → IsFifo q
ordered-IsFifo [] o = tt
ordered-IsFifo (x ∷ []) o = tt
ordered-IsFifo (x ∷ y ∷ q) (more h o) = (not_after-Before x y h, ordered-IsFifo (y ∷ q) o)

-- What a reopened relay has at the handle `k`, and of the file `n`.
pub record IsReopened (hex : Hex) (env : OpenSetting) (cfg : FabricConfig) (disk : Disk)
    (k n : Bytes) (r : Relay) : Type 0 where
  pub entries : Perm (queue_of k r.state) (live_entries hex env cfg.max_deadline_horizon_sec k disk)
  pub ordered : IsFifo (queue_of k r.state)
  pub file :
      lookup n r.disk
      ≡ (if is_dead env cfg.max_deadline_horizon_sec n disk then none else lookup n disk)

-- After an opening the queue of every handle has the entries of exactly those files that can be read
-- and hold an envelope of it whose deadline is not over and lies within the horizon, ordered by the
-- time of their receipt and then by name; and of the files only those envelopes are gone that were
-- read, do not parse or are not so live, and could be removed. The sum of the clock and the horizon
-- is a 64-bit word.
pub open_state_lem :
    (hex : Hex) (env : OpenSetting) (cfg : FabricConfig) (disk : Disk) (k n : Bytes)
    → ((m : Bytes) → IsU64 (env.horizon_at m + cfg.max_deadline_horizon_sec))
    → IsReopened hex env cfg disk k n (open_state hex env cfg disk)
open_state_lem hex env cfg disk k n fits =
    let horizon = cfg.max_deadline_horizon_sec in
    record {
      entries =
          rw (← restored_lem env horizon fits hex k disk) (open_state-entries hex env cfg disk k);
      ordered = ordered-IsFifo _ (open_state-IsOrdered hex env cfg disk k);
      file = rw (← composted_lem env horizon fits n disk) (open_state-composted hex env cfg disk n);
    }
