-- ===== src/Tests/Relay.antt =====
-- Runs of the fabric's verbs of src/fabric.rs on small relays.
use spore_peer.Prelude.{
  ◌≡◌, refl, [], ◌∷◌, ◌++◌, Bytes, ascii, replicate, ok, err, arith, some, true, ◌⊎◌, Ensures,
  Bool-cases, inl, inr, same_bytes,
}
use spore_peer.Json.{Value, object, no_fields, insert_field, str, lookup_field}
use spore_peer.Crates.{plain_crates}
use spore_peer.Refusal.{gone}
use spore_peer.Dict.{insert, lookup, remove}
use spore_peer.Words.{le_bytes, from_le_bytes}
use spore_peer.Limiter
use spore_peer.Text.{lower_hex, from_hex, hex_digit, digit_char, to_lowercase, is_ascii, lower_char}
use spore_peer.Tokens.{ct_eq, diff_bits}
use spore_peer.Fabric.State.{
  FabricState, Registration, Queued, default_config, no_faults, persist_envelope, drop_envelope,
}
use spore_peer.Fabric.Envelope.{marshal_envelope}
use spore_peer.Fabric.Reg.{RegArgs, run_freg, reg_args}
use spore_peer.Fabric.Reg.Laws.{run_freg_live}
use spore_peer.Fabric.Put.{
  queue_of, Relay, PutTimes, run_fput, put_leased, leased_handle, put_handle, check_lease, put_args,
  put_pointer, decode_pointer, check_pointer, handle_bytes, put_admitted, put_envelope,
  put_persisted, put_reply, enqueue, place, refresh, evict, reap,
}
use spore_peer.Fabric.Put.Queue.{IsQueue}
use spore_peer.Fabric.Reach.{fresh, start, next, freg, fput, Reaches-IsRelay}
use spore_peer.Fabric.Invariant.{IsRelay}
use spore_peer.Fabric.Put.Laws.{Accepted, IsUntouched, run_fput_ok, run_fput_err}
use spore_peer.Fabric.Put.Checks.{IsPointer, put_pointer-Ensures}
use spore_peer.Fabric.Pop.{
  PopTimes, run_fpop, pop_read, pop_checked, pop_queue, pop_found, pop_args, check_token, drain,
  pop_reply,
}
use spore_peer.Fabric.Pop.Laws.{WasPopped, run_fpop_ok}

abbrev handle_hex : Bytes
handle_hex = replicate 64 97

abbrev token : Bytes
token = ascii "0123456789abcdef"

abbrev registration : Registration
registration = record { token = token; expires = 100 }

abbrev pointer : Bytes
pointer = 1 ∷ 0 ∷ replicate 64 7 ++ le_bytes 8 50

abbrev waiting : Queued
waiting = record { pointer = pointer; env_cid_hex = ascii "cid"; deadline = 50; received_at = 3 }

abbrev empty_state : FabricState
empty_state = record {
  cfg = default_config;
  fput_limiter = Limiter.new 60;
  reg = insert handle_hex registration [];
  queues = [];
  last_sweep_sec = 0;
}

abbrev empty_relay : Relay
empty_relay = record { state = empty_state; disk = [] }

abbrev full_relay : Relay
full_relay = record {
  state = (let st = empty_state in record st { queues = insert handle_hex (waiting ∷ []) [] });
  disk = [];
}

abbrev put_request : Value
put_request = object (
    insert_field (ascii "handle") (str handle_hex)
      (insert_field (ascii "pointer_hex") (str (lower_hex pointer)) no_fields))

abbrev put_times : PutTimes
put_times = record { lease_at = 10; limit_at = 10; check_at = 10; stamp_at = 10; reap_at = 11 }

abbrev late_times : PutTimes
late_times = record { lease_at = 60; limit_at = 60; check_at = 60; stamp_at = 60; reap_at = 60 }

put_accepted :
    (run_fput plain_crates no_faults put_times (ascii "a") put_request empty_relay).1 ≡ ok put_reply
unfolding lookup_field insert_field lookup insert remove to_lowercase is_ascii lower_char lower_hex
    le_bytes from_le_bytes from_hex hex_digit digit_char Limiter.allow Limiter.new Limiter.window
    run_fput put_leased leased_handle put_handle check_lease put_args put_pointer decode_pointer
    check_pointer handle_bytes put_admitted put_envelope put_persisted put_reply enqueue place
    refresh evict reap persist_envelope drop_envelope marshal_envelope
put_accepted = refl

put_late :
    (run_fput plain_crates no_faults late_times (ascii "a") put_request empty_relay).1 ≡ err gone
unfolding lookup_field insert_field lookup insert remove to_lowercase is_ascii lower_char lower_hex
    le_bytes from_le_bytes from_hex hex_digit digit_char Limiter.allow Limiter.new Limiter.window
    run_fput put_leased leased_handle put_handle check_lease put_args put_pointer decode_pointer
    check_pointer handle_bytes put_admitted put_envelope put_persisted put_reply enqueue place
    refresh evict reap persist_envelope drop_envelope marshal_envelope
put_late = refl

run_fput_ok_example :
    Accepted plain_crates no_faults put_times
      (ascii "a")
      put_request
      empty_relay
      (run_fput plain_crates no_faults put_times (ascii "a") put_request empty_relay).0
run_fput_ok_example =
    run_fput_ok plain_crates no_faults put_times (ascii "a") put_request empty_relay put_reply
      put_accepted

run_fput_err_example :
    IsUntouched empty_relay
      (run_fput plain_crates no_faults late_times (ascii "a") put_request empty_relay).0
run_fput_err_example =
    run_fput_err plain_crates no_faults late_times (ascii "a") put_request empty_relay gone put_late

put_pointer-Ensures_example :
    Ensures (IsPointer 10 default_config) (put_pointer plain_crates 10 default_config put_request)
put_pointer-Ensures_example = put_pointer-Ensures plain_crates 10 default_config put_request

full_queues : (k : Bytes) → IsQueue 32 (queue_of k full_relay.state)
unfolding lookup insert
full_queues k =
    let none_left : IsQueue 32 [] = record { capped = omega arith; distinct = tt } in
    let one : IsQueue 32 (waiting ∷ []) = record { capped = omega arith; distinct = (refl, tt) } in
    elim (Bool-cases (same_bytes handle_hex k)) [ inl e ↦ rw e one | inr e ↦ rw e none_left ]

full_IsRelay : IsRelay full_relay
full_IsRelay = (full_queues, unfold insert in omega arith)

abbrev pop_request : Value
pop_request = object (
    insert_field (ascii "handle") (str handle_hex)
      (insert_field (ascii "token") (str token) no_fields))

abbrev pop_times : PopTimes
pop_times = record { limit_at = 10; lease_at = 10; drain_at = 10 }

pop_accepted :
    (run_fpop plain_crates no_faults pop_times (ascii "a") pop_request full_relay).1
    ≡ ok (pop_reply (lower_hex pointer ∷ []))
unfolding lookup_field insert_field lookup insert remove to_lowercase is_ascii lower_char lower_hex
    le_bytes from_le_bytes from_hex hex_digit digit_char Limiter.allow Limiter.new Limiter.window
    run_fpop pop_read pop_checked pop_queue pop_found pop_args check_token ct_eq diff_bits drain
    pop_reply drop_envelope
pop_accepted = refl

run_fpop_ok_example :
    WasPopped plain_crates pop_times pop_request full_relay
      (run_fpop plain_crates no_faults pop_times (ascii "a") pop_request full_relay).0
      (pop_reply (lower_hex pointer ∷ []))
run_fpop_ok_example =
    run_fpop_ok plain_crates no_faults pop_times (ascii "a") pop_request full_relay
      (pop_reply (lower_hex pointer ∷ [])) pop_accepted

abbrev reg_request : Value
reg_request = object (
    insert_field (ascii "handle") (str handle_hex) (
      insert_field (ascii "token") (str (ascii "another token of the owner"))
        (insert_field (ascii "prev_token") (str token) no_fields)))

abbrev read_args : RegArgs
read_args = record {
  handle = handle_hex;
  token = ascii "another token of the owner";
  prev_token = token;
  lease = 3600;
}

registered : lookup handle_hex empty_state.reg ≡ some registration
unfolding lookup insert
registered = refl

run_freg_live_example :
    (lookup handle_hex (run_freg plain_crates 10 reg_request empty_state).0.reg ≡ some registration)
    ⊎ ((a : RegArgs) × (reg_args plain_crates reg_request ≡ ok a)
        × (a.handle ≡ handle_hex)
        × (ct_eq token a.prev_token ≡ true))
run_freg_live_example =
    run_freg_live plain_crates 10 reg_request empty_state handle_hex registration registered refl

abbrev opened : Relay
opened = fresh default_config

Reaches-IsRelay_example :
    IsRelay
      (run_fput plain_crates no_faults put_times
        (ascii "a")
        put_request
        (record opened { state = (run_freg plain_crates 10 reg_request opened.state).0 })).0
Reaches-IsRelay_example =
    Reaches-IsRelay plain_crates default_config
      (run_fput plain_crates no_faults put_times (ascii "a") put_request
        (record opened { state = (run_freg plain_crates 10 reg_request opened.state).0 })).0
      (next (next start (freg 10 reg_request opened))
        (fput no_faults put_times (ascii "a") put_request _))
