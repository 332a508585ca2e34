-- ===== src/Tests/Opening.antt =====
-- Runs of `FabricState::open` of src/fabric.rs.
use spore_peer.Prelude.{◌≡◌, ◌-◌, ◌^◌, none, refl, [], ◌∷◌, ◌++◌, replicate, true, arith}
use mathlib.Core.List.{Mem}
use spore_peer.Crates.{plain_crates, plain_hex}
use spore_peer.Text.{lower_hex, digit_char, ends_with}
use spore_peer.Dict.{insert, remove, lookup, lookup-insert_self}
use spore_peer.Words.{le_bytes, from_le_bytes}
use spore_peer.Fabric.State.{Disk, FabricConfig, default_config}
use spore_peer.Fabric.Envelope.{
  Envelope, IsEnvelope, marshal_envelope, parse_envelope, envelope_slices,
}
use spore_peer.Fabric.Put.{queue_of}
use spore_peer.Fabric.Open.{OpenSetting, open_state, open_files, open_file, fate, fate_of}
use spore_peer.Fabric.Open.Reopened.{IsReopened, open_state_lem}
use spore_peer.Fabric.Open.Restart.{name_of, resumed, open_state-resumes}

abbrev envelope : Envelope
envelope = record {
  handle = replicate 32 170;
  pointer = 1 ∷ 0 ∷ replicate 64 7 ++ le_bytes 8 50;
  received_at = 3;
}

envelope-IsEnvelope : IsEnvelope envelope
envelope-IsEnvelope = record {
  handle_len = refl;
  handle_bytes = omega arith;
  pointer_size = unfold le_bytes in refl;
  pointer_bytes = unfold le_bytes in omega arith;
  pointer_header = unfold le_bytes in refl;
  received = omega arith;
}

abbrev directory : Disk
directory = insert (name_of plain_crates envelope) (marshal_envelope envelope) []

abbrev setting : OpenSetting
setting = record { live_at = λ n. 10; horizon_at = λ n. 10; reads = λ n. true; removes = λ n. true }

open_state-resumes_example : Mem (resumed plain_crates envelope) (
    queue_of
      (plain_hex.encode envelope.handle)
      (open_state plain_hex setting default_config directory).state)
open_state-resumes_example =
    open_state-resumes plain_crates setting default_config directory envelope envelope-IsEnvelope
      (lookup-insert_self (name_of plain_crates envelope) (marshal_envelope envelope) []) refl
      (unfold from_le_bytes le_bytes in omega arith) (unfold from_le_bytes le_bytes in omega arith)
      (omega arith)

open_state_lem_example :
    IsReopened plain_hex setting default_config directory
      (plain_hex.encode envelope.handle)
      (name_of plain_crates envelope)
      (open_state plain_hex setting default_config directory)
open_state_lem_example =
    open_state_lem plain_hex setting default_config directory (plain_hex.encode envelope.handle)
      (name_of plain_crates envelope) (λ m. omega arith)

-- A horizon at which the sum wraps around: the opening removes the live envelope.
abbrev wide_config : FabricConfig
wide_config = (let cfg = default_config in record cfg { max_deadline_horizon_sec = 2 ^ 64 - 1 })

wide_removes :
    lookup (name_of plain_crates envelope) (open_state plain_hex setting wide_config directory).disk
    ≡ none
unfolding open_state open_files fate fate_of open_file parse_envelope envelope_slices
    marshal_envelope lookup insert remove le_bytes from_le_bytes ends_with lower_hex digit_char
wide_removes = refl
