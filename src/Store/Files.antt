-- ===== src/Store/Files.antt =====
-- src/spore_peer.rs, `store_body` and `serve_body` over the store's directory.
use spore_peer.Prelude.{
  ℕ, ◌*◌, Bool, true, ◌++◌, Option, none, some, Bytes, ascii, length, ltb, ◌==◌, same_bytes,
  if◌then◌else◌, Result, ok, err, panic, guard, ok_or, Try, ◌>>=◌, ◌>>◌,
}
use spore_peer.Crates.{Crates}
use spore_peer.Refusal.{
  Refusal, empty_body, body_too_large, bad_cid, not_found, cid_mismatch, dir_error, write_error,
  rename_error,
}
use spore_peer.Dict.{Dict, lookup, insert, remove}
use spore_peer.Store.Decode.{hex_decode}

abbrev pub max_body_bytes : ℕ
max_body_bytes = 32 * 1024 * 1024

-- A file's bytes and the time of its last change.
pub record File : Type 0 where
  pub content : Bytes
  pub modified : ℕ

-- The files of the directory by name, in the order in which it lists them.
abbrev pub Hold : Type 0
Hold = Dict File

-- What the file system refuses during one call, with the text of its error. A write that fails
-- may leave a file with some bytes.
pub record HoldFaults : Type 0 where
  pub create_dir : Option Bytes
  pub write : Option (Option Bytes × Bytes)
  pub rename : Option Bytes
  pub removes : Bool

abbrev pub no_hold_faults : HoldFaults
no_hold_faults = record { create_dir = none; write = none; rename = none; removes = true }

abbrev pub body_name : Bytes → Bytes
body_name cid_hex = cid_hex ++ ascii ".body"

abbrev pub part_name : Bytes → Bytes
part_name cid_hex = ascii ".incoming-" ++ (cid_hex ++ ascii ".part")

abbrev pub cid_of : Crates → Bytes → Bytes
cid_of c body = c.hex.encode (c.sha.digest body)

-- The rename of the written file; where it fails, the temporary file is removed.
unfoldable pub rename_body : HoldFaults → Bytes → File → Hold → Hold × Result Refusal Bytes
rename_body f cid_hex file hold = elim f.rename [
  | some e ↦ (if f.removes then remove (part_name cid_hex) hold else hold, err (rename_error e))
  | none ↦ (insert (body_name cid_hex) file (remove (part_name cid_hex) hold), ok cid_hex)
]

unfoldable pub write_body : HoldFaults → ℕ → Bytes → Bytes → Hold → Hold × Result Refusal Bytes
unfolding rename_body
write_body f now cid_hex body hold = elim f.write [
  | some (none, e) ↦ (hold, err (write_error e))
  | some (some left, e) ↦ (
    insert (part_name cid_hex) (record { content = left; modified = now }) hold,
    err (write_error e),
  )
  | none ↦
      let file : File = record { content = body; modified = now } in
      rename_body f cid_hex file (insert (part_name cid_hex) file hold)
]

-- A body that is not refused for its size: a known one is left as it is.
unfoldable pub store_new : Crates → HoldFaults → ℕ → Bytes → Hold → Hold × Result Refusal Bytes
unfolding write_body
store_new c f now body hold = elim (lookup (body_name (cid_of c body)) hold) [
  | some known ↦ (hold, ok (cid_of c body))
  | none ↦ elim f.create_dir [
    | some e ↦ (hold, err (dir_error e))
    | none ↦ write_body f now (cid_of c body) body hold
  ]
]

unfoldable pub store_body : Crates → HoldFaults → ℕ → Bytes → Hold → Hold × Result Refusal Bytes
unfolding store_new
store_body c f now body hold =
    if length body == 0
    then (hold, err empty_body)
    else (if ltb max_body_bytes (length body)
        then (hold, err body_too_large)
        else store_new c f now body hold)

-- `match hex_decode(cid_hex) { Some(r) if r.len() == 32 => r, _ => Err }`.
unfoldable pub cid_bytes : Try Bytes → Result Refusal Bytes
cid_bytes (ok raw) = if length raw == 32 then ok raw else err bad_cid
cid_bytes (err u) = err bad_cid
cid_bytes panic = panic

unfoldable pub check_cid : Crates → Bytes → File → Result Refusal Bytes
check_cid c raw file = do
  guard (same_bytes (c.sha.digest file.content) raw) cid_mismatch
  ok file.content

unfoldable pub serve_body : Crates → Hold → Bytes → Result Refusal Bytes
unfolding cid_bytes check_cid
serve_body c hold cid_hex = do
  raw ← cid_bytes (hex_decode cid_hex)
  file ← ok_or (lookup (body_name cid_hex) hold) not_found
  check_cid c raw file
