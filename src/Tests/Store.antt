-- ===== src/Tests/Store.antt =====
-- Runs of the body store and of the peer's requests of src/spore_peer.rs.
use spore_peer.Prelude.{
  ℕ, ◌%◌, ◌≤◌, ◌≡◌, ◌≢◌, refl, ap, [], ◌∷◌, Bytes, IsByte, All, ascii, length, take, replicate,
  some, ok, arith,
}
use spore_peer.Json.{Value, object, str, no_fields, insert_field, lookup_field}
use spore_peer.Text.{lower_hex, digit_char, hex_digit, from_hex}
use spore_peer.Crates.{Crates, Sha256, plain_crates}
use spore_peer.Dict.{lookup, insert, remove}
use spore_peer.Limiter
use spore_peer.Tokens.{ct_eq, diff_bits}
use spore_peer.Cbor.Encode.{putobject_response}
use spore_peer.Cbor.Decode.{Rpc2Message}
use spore_peer.Store.Decode.{from_pair, decode_chunks, hex_decode}
use spore_peer.Store.Files.{
  no_hold_faults, cid_of, rename_body, write_body, store_new, store_body, cid_bytes, check_cid,
  serve_body,
}
use spore_peer.Store.Laws.{IsHold}
use spore_peer.Store.Serve.{IsServed, IsStored, serve_body_ok, store_body_ok}
use spore_peer.Peer.Chain.{select, below, select_lem}
use spore_peer.Peer.Policy.{
  ServeConfig, enforce_write_policy, check_write_token, check_quota, store_bytes, sum_bytes,
}
use spore_peer.Peer.Rpc2.{
  handle_rpc2, Node, PushTimes, put_object, put_decoded, put_checked, put_answer, check_blid,
  pushed_body,
}
use spore_peer.Peer.Quota.{IsWithinQuota, handle_rpc2-IsWithinQuota}
use spore_peer.Peer.Accepted.{carried, IsPushed, put_object_ok}
use spore_peer.Peer.Fetch.{frame_ok, parse_fetch_response, expected_hash, classify, status_body}

-- A hash that tells texts of different lengths apart.
abbrev length_sha : Sha256
length_sha = record {
  digest = λ b. length b % 256 ∷ replicate 31 0;
  length-digest = λ b. refl;
  digest-IsByte = λ b. omega arith;
}

abbrev pub crates : Crates
crates = let p = plain_crates in record p { sha = length_sha }

abbrev body : Bytes
body = ascii "ciphertext"

pub empty_IsHold : IsHold crates []
unfolding lookup
empty_IsHold cid_hex file e = cc

stored_hold : (store_body crates no_hold_faults 4 body []).1 ≡ ok (cid_of crates body)
unfolding store_body store_new write_body rename_body lookup
stored_hold = refl

store_body_ok_example :
    IsStored crates body (cid_of crates body) [] (store_body crates no_hold_faults 4 body []).0
store_body_ok_example =
    store_body_ok crates no_hold_faults 4 body (cid_of crates body) [] empty_IsHold stored_hold

served_body :
    serve_body crates (store_body crates no_hold_faults 4 body []).0 (cid_of crates body) ≡ ok body
unfolding serve_body cid_bytes check_cid store_body store_new write_body rename_body lookup insert
    remove hex_decode decode_chunks from_pair lower_hex digit_char hex_digit
served_body = refl

serve_body_ok_example :
    IsServed crates (store_body crates no_hold_faults 4 body []).0 (cid_of crates body) body
serve_body_ok_example =
    serve_body_ok crates (store_body crates no_hold_faults 4 body []).0 (cid_of crates body) body
      served_body

select_lem_example :
    (select 7 2 0 ((8, body) ∷ (7, body) ∷ (6, body) ∷ (5, body) ∷ [])
      ≡ take 2 (below 7 ((8, body) ∷ (7, body) ∷ (6, body) ∷ (5, body) ∷ [])))
    × (length (select 7 2 0 ((8, body) ∷ (7, body) ∷ (6, body) ∷ (5, body) ∷ [])) ≤ 2)
select_lem_example =
    select_lem 7 2 ((8, body) ∷ (7, body) ∷ (6, body) ∷ (5, body) ∷ []) (omega arith)

abbrev pub config : ServeConfig
config = record { max_store_bytes = 100; put_rate = 2; token = some (ascii "key") }

abbrev pub node : Node
node = record { hold = []; limiter = record { max = 2; wins = [] } }

abbrev push_times : PushTimes
push_times = record { limit_at = 3; write_at = 4 }

abbrev push_payload : Value
push_payload = object (
    insert_field (ascii "BLID") (str (cid_of crates body)) (
      insert_field (ascii "BODY") (str (lower_hex body))
        (insert_field (ascii "TOKEN") (str (ascii "key")) no_fields)))

push_accepted :
    (put_object crates no_hold_faults push_times config (ascii "a") push_payload node).1
    ≡ ok (putobject_response (length_sha.digest body))
unfolding put_object put_decoded put_checked put_answer check_blid pushed_body enforce_write_policy
    check_write_token check_quota store_bytes sum_bytes ct_eq diff_bits Limiter.allow Limiter.window
    lookup_field insert_field store_body store_new write_body rename_body lookup insert remove
    hex_decode decode_chunks from_pair from_hex lower_hex digit_char hex_digit
push_accepted = refl

push_token_bytes : All IsByte (carried push_payload)
unfolding lookup_field insert_field
push_token_bytes = omega arith

put_object_ok_example :
    IsPushed crates no_hold_faults push_times config
      (ascii "a")
      push_payload
      node
      (put_object crates no_hold_faults push_times config (ascii "a") push_payload node).0
      (putobject_response (length_sha.digest body))
put_object_ok_example =
    put_object_ok crates no_hold_faults push_times config (ascii "a") push_payload
      (putobject_response (length_sha.digest body)) node empty_IsHold (omega arith) push_token_bytes
      (omega arith) push_accepted

abbrev push_message : Rpc2Message
push_message = record {
  method = ascii "Peer.PutObject";
  seq = 1;
  error = [];
  payload = push_payload;
}

decoded_cid : hex_decode (cid_of crates body) ≡ ok (length_sha.digest body)
unfolding hex_decode decode_chunks from_pair lower_hex digit_char hex_digit
decoded_cid = refl

fetched : parse_fetch_response crates (frame_ok body) (cid_of crates body) ≡ ok body
unfolding parse_fetch_response expected_hash classify status_body frame_ok hex_decode decode_chunks
    from_pair lower_hex digit_char hex_digit
fetched = refl

abbrev first_of : Bytes → ℕ
first_of [] = 0
first_of (x ∷ s) = x

different_hash : length_sha.digest (frame_ok body) ≢ length_sha.digest body
unfolding frame_ok
different_hash e = absurd (omega (arith, ap first_of e))

handle_rpc2-IsWithinQuota_example :
    IsWithinQuota config
      (handle_rpc2 crates no_hold_faults push_times config (ascii "a") push_message node).0.hold
handle_rpc2-IsWithinQuota_example =
    handle_rpc2-IsWithinQuota crates no_hold_faults push_times config (ascii "a") (omega arith)
      (omega arith) push_message node (omega arith)
