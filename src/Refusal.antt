-- ===== src/Refusal.antt =====
-- The errors that src/fabric.rs and src/spore_peer.rs answer, and their "NNN text" on the wire.
use spore_peer.Prelude.{◌++◌, Bytes, ascii}

-- A constructor that carries a text has the error of the operating system in it.
pub data Refusal : Type 0 where
  freg_needs_handle handle_not_32_bytes freg_needs_token token_length live_registration : Refusal
  registry_full fput_needs_handle unknown_handle lease_expired fput_rate needs_pointer : Refusal
  pointer_length bad_pointer_header zero_deadline gone beyond_horizon fpop_needs_handle : Refusal
  fpop_rate wrong_token fabric_disabled bad_fabric_verb : Refusal
  bad_rpc2_method : Bytes → Refusal
  envelope_write : Bytes → Refusal
  envelope_rename : Bytes → Refusal
  put_rate_limit bad_write_token store_full empty_body body_too_large bad_cid not_found : Refusal
  cid_mismatch body_not_hex body_not_blid unknown_method bad_request : Refusal
  dir_error : Bytes → Refusal
  write_error : Bytes → Refusal
  rename_error : Bytes → Refusal

unfoldable pub refusal_text : Refusal → Bytes
refusal_text freg_needs_handle = ascii "400 freg needs handle"
refusal_text handle_not_32_bytes = ascii "400 handle must be 32-byte hex"
refusal_text freg_needs_token = ascii "400 freg needs token"
refusal_text token_length = ascii "400 token must be 16..=128 bytes"
refusal_text live_registration = ascii "403 live registration: prev_token required"
refusal_text registry_full = ascii "503 fabric registry full"
refusal_text fput_needs_handle = ascii "400 fput needs handle"
refusal_text unknown_handle = ascii "404 unknown handle"
refusal_text lease_expired = ascii "404 handle lease expired"
refusal_text fput_rate = ascii "429 fput rate"
refusal_text needs_pointer = ascii "400 fput needs pointer_hex"
refusal_text pointer_length = ascii "400 pointer must be 74-byte hex"
refusal_text bad_pointer_header = ascii "400 bad pointer payload header"
refusal_text zero_deadline = ascii "400 zero pointer deadline"
refusal_text gone = ascii "410 gone"
refusal_text beyond_horizon = ascii "400 deadline beyond horizon cap"
refusal_text fpop_needs_handle = ascii "400 fpop needs handle"
refusal_text fpop_rate = ascii "429 fpop rate"
refusal_text wrong_token = ascii "403 wrong token"
refusal_text fabric_disabled = ascii "501 fabric disabled"
refusal_text bad_fabric_verb = ascii "400 bad fabric verb"
refusal_text (bad_rpc2_method other) = ascii "400 bad fabric rpc2 method " ++ other
refusal_text (envelope_write e) = ascii "500 envelope write: " ++ e
refusal_text (envelope_rename e) = ascii "500 envelope rename: " ++ e
refusal_text put_rate_limit = ascii "429 put rate limit exceeded"
refusal_text bad_write_token = ascii "401 bad write token"
refusal_text store_full = ascii "507 store full"
refusal_text empty_body = ascii "400 empty body"
refusal_text body_too_large = ascii "413 body too large"
refusal_text bad_cid = ascii "400 bad cid"
refusal_text not_found = ascii "404 not found"
refusal_text cid_mismatch = ascii "500 cid mismatch"
refusal_text body_not_hex = ascii "400 body not valid hex"
refusal_text body_not_blid = ascii "400 body sha256 != BLID"
refusal_text unknown_method = ascii "501 unknown method"
refusal_text bad_request = ascii "400 bad request"
refusal_text (dir_error e) = ascii "dir " ++ e
refusal_text (write_error e) = ascii "write " ++ e
refusal_text (rename_error e) = ascii "rename " ++ e
