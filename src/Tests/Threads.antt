-- ===== src/Tests/Threads.antt =====
-- Two pushes of src/spore_peer.rs on two connections, both past their checks before either is written.
use spore_peer.Prelude.{◌≡◌, refl, [], ◌∷◌, Bytes, ascii, arith}
use spore_peer.Json.{Value, object, str, no_fields, insert_field, lookup_field}
use spore_peer.Text.{lower_hex, digit_char, from_hex, hex_digit, ends_with}
use spore_peer.Dict.{lookup, insert, remove}
use spore_peer.Limiter
use spore_peer.Tokens.{ct_eq, diff_bits}
use spore_peer.Store.Decode.{hex_decode, decode_chunks, from_pair}
use spore_peer.Store.Files.{cid_of, no_hold_faults, rename_body}
use spore_peer.Peer.Policy.{
  ServeConfig, check_write_token, check_quota, store_bytes, sum_bytes, enforce_write_policy,
}
use spore_peer.Peer.Rpc2.{pushed_body, check_blid}
use spore_peer.Peer.Quota.{body_bytes}
use spore_peer.Peer.Threads.{
  Shared, after_checks, check_push, stage_part, stage_body, after_stage, stage_push, rename_staged,
  rename_push, checks, stages, renames, Reaches, start, then_step,
}
use spore_peer.Peer.Threads.Laws.{IsSafe, Reaches-IsSafe}
use spore_peer.Tests.Store.{crates, config, node, empty_IsHold}

abbrev small : ServeConfig
small = record config { max_store_bytes = 6 }

abbrev push_of : Bytes → Value
push_of body = object (
    insert_field (ascii "BLID") (str (cid_of crates body)) (
      insert_field (ascii "BODY") (str (lower_hex body))
        (insert_field (ascii "TOKEN") (str (ascii "key")) no_fields)))

abbrev idle : Shared
idle = record { node = node; pending = []; staged = [] }

abbrev checked : Shared
checked =
    check_push crates small (ascii "b") 3 (push_of (ascii "other")) (ascii "other")
      (check_push crates small (ascii "a") 3 (push_of (ascii "body")) (ascii "body") idle)

both_wait : checked.pending ≡ (ascii "other" ∷ ascii "body" ∷ [])
unfolding check_push after_checks check_blid pushed_body enforce_write_policy check_write_token
    check_quota store_bytes sum_bytes ct_eq diff_bits Limiter.allow Limiter.window lookup_field
    insert_field lookup insert hex_decode decode_chunks from_pair from_hex lower_hex digit_char
    hex_digit ends_with
both_wait = refl

abbrev both_staged : Shared
both_staged =
    stage_push crates small no_hold_faults 5 (ascii "body") []
      (stage_push crates small no_hold_faults 4 (ascii "other") (ascii "body" ∷ []) checked)

both_written : both_staged.staged ≡ (ascii "body" ∷ ascii "other" ∷ [])
unfolding rename_push rename_staged stage_push stage_body stage_part after_stage check_push
    after_checks check_blid pushed_body enforce_write_policy check_write_token check_quota
    store_bytes sum_bytes ct_eq diff_bits Limiter.allow Limiter.window lookup_field insert_field
    rename_body lookup insert remove hex_decode decode_chunks from_pair from_hex lower_hex
    digit_char hex_digit ends_with
both_written = refl

-- Both temporary files are there before either is renamed.
abbrev both : Shared
both =
    rename_push crates small no_hold_faults (ascii "other") []
      (rename_push crates small no_hold_faults (ascii "body") (ascii "other" ∷ []) both_staged)

-- The store is over its quota of six bytes.
over_quota : body_bytes both.node.hold ≡ 9
unfolding rename_push rename_staged stage_push stage_body stage_part after_stage check_push
    after_checks check_blid pushed_body enforce_write_policy check_write_token check_quota
    store_bytes sum_bytes ct_eq diff_bits Limiter.allow Limiter.window lookup_field insert_field
    rename_body lookup insert remove hex_decode decode_chunks from_pair from_hex lower_hex
    digit_char hex_digit ends_with
over_quota = refl

both_reached : Reaches crates small 1 idle both
unfolding rename_push rename_staged stage_push stage_body stage_part after_stage check_push
    after_checks check_blid pushed_body enforce_write_policy check_write_token check_quota
    store_bytes sum_bytes ct_eq diff_bits Limiter.allow Limiter.window lookup_field insert_field
    rename_body lookup insert remove hex_decode decode_chunks from_pair from_hex lower_hex
    digit_char hex_digit ends_with
both_reached =
    then_step
      (then_step
        (then_step
          (then_step
            (then_step
              (then_step start
                (checks (ascii "a") 3 (push_of (ascii "body")) (ascii "body") refl (omega arith)))
              (checks (ascii "b") 3 (push_of (ascii "other")) (ascii "other") refl (omega arith)))
            (stages no_hold_faults 4 [] (ascii "other") (ascii "body" ∷ []) refl tt))
          (stages no_hold_faults 5 [] (ascii "body") [] refl ((λ e. ground (arith, e)), tt)))
        (renames no_hold_faults [] (ascii "body") (ascii "other" ∷ []) refl))
      (renames no_hold_faults [] (ascii "other") [] refl)

Reaches-IsSafe_example : IsSafe crates small 1 both
Reaches-IsSafe_example =
    Reaches-IsSafe crates small 1 (omega arith) (omega arith) idle both
      (record { named = empty_IsHold; distinct = tt; parts = tt; bounded = omega arith })
      both_reached
