-- ===== src/Fabric/State.antt =====
-- src/fabric.rs: the relay's state, its configuration and the files of the hold directory.
use spore_peer.Prelude.{
  ℕ, ◌*◌, Bool, true, false, List, ◌++◌, Option, none, some, Bytes, ascii, if◌then◌else◌, Result,
  ok, err,
}
use spore_peer.Refusal.{Refusal, envelope_write, envelope_rename}
use spore_peer.Dict.{Dict, insert, remove}
use spore_peer.Limiter.{RateLimiter}

pub record FabricConfig : Type 0 where
  pub enabled : Bool
  pub max_per_handle : ℕ
  pub max_lease_sec : ℕ
  pub fput_rate : ℕ
  pub max_regs : ℕ
  pub max_deadline_horizon_sec : ℕ

abbrev pub default_config : FabricConfig
default_config = record {
  enabled = false;
  max_per_handle = 32;
  max_lease_sec = 7 * 24 * 3600;
  fput_rate = 60;
  max_regs = 50_000;
  max_deadline_horizon_sec = 7 * 24 * 3600;
}

pub record Registration : Type 0 where
  pub token : Bytes
  pub expires : ℕ

pub record Queued : Type 0 where
  pub pointer : Bytes
  pub env_cid_hex : Bytes
  pub deadline : ℕ
  pub received_at : ℕ

-- The maps go from the handle in hexadecimal. A mutex is held for the whole of each use below, so
-- a verb's reads and writes of one map are one step.
pub record FabricState : Type 0 where
  pub cfg : FabricConfig
  pub fput_limiter : RateLimiter
  pub reg : Dict Registration
  pub queues : Dict (List Queued)
  pub last_sweep_sec : ℕ

-- The files of the directory by name, with their bytes.
abbrev pub Disk : Type 0
Disk = Dict Bytes

-- What the file system answers during one call: the text of the error where writing or renaming
-- to a name fails, and whether removing a name works.
pub record Faults : Type 0 where
  pub write_error : Bytes → Option Bytes
  pub rename_error : Bytes → Option Bytes
  pub removes : Bytes → Bool

abbrev pub no_faults : Faults
no_faults = record { write_error = λ n. none; rename_error = λ n. none; removes = λ n. true }

abbrev pub fenv_name : Bytes → Bytes
fenv_name env_cid_hex = env_cid_hex ++ ascii ".fenv"

abbrev pub tmp_name : Bytes → Bytes
tmp_name env_cid_hex = env_cid_hex ++ ascii ".tmp"

-- The rename takes the bytes from the temporary name to the final one.
rename_envelope : Faults → Bytes → Bytes → Disk → Disk × Result Refusal (Unit {0})
rename_envelope f env_cid_hex raw disk = elim (f.rename_error (fenv_name env_cid_hex)) [
  | some e ↦ (disk, err (envelope_rename e))
  | none ↦ (insert (fenv_name env_cid_hex) raw (remove (tmp_name env_cid_hex) disk), ok tt)
]

-- A write that fails leaves the directory as it was, as far as the model goes.
unfoldable pub persist_envelope : Faults → Bytes → Bytes → Disk → Disk × Result Refusal (Unit {0})
unfolding rename_envelope
persist_envelope f env_cid_hex raw disk = elim (f.write_error (tmp_name env_cid_hex)) [
  | some e ↦ (disk, err (envelope_write e))
  | none ↦ rename_envelope f env_cid_hex raw (insert (tmp_name env_cid_hex) raw disk)
]

unfoldable pub drop_envelope : Faults → Bytes → Disk → Disk
drop_envelope f env_cid_hex disk =
    if f.removes (fenv_name env_cid_hex) then remove (fenv_name env_cid_hex) disk else disk
