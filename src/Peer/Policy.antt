-- ===== src/Peer/Policy.antt =====
-- src/spore_peer.rs, `store_bytes` and `enforce_write_policy`.
use spore_peer.Prelude.{
  ℕ, ◌+◌, ◌-◌, ◌^◌, min, Bool, ◌&&◌, [], ◌∷◌, Option, none, some, Bytes, ascii, length, ltb,
  if◌then◌else◌, Result, ok, err, guard, ◌>>◌,
}
use spore_peer.Json.{Value, get_str, unwrap_or}
use spore_peer.Text.{ends_with}
use spore_peer.Tokens.{ct_eq}
use spore_peer.Limiter.{RateLimiter, allow}
use spore_peer.Refusal.{Refusal, put_rate_limit, bad_write_token, store_full}
use spore_peer.Store.Files.{Hold}

-- What gates a write. The fabric's state, which the source keeps here too, is a state of its own.
pub record ServeConfig : Type 0 where
  pub max_store_bytes : ℕ
  pub put_rate : ℕ
  pub token : Option Bytes

-- `u64::saturating_add`.
abbrev pub saturating_add : ℕ → ℕ → ℕ
saturating_add a b = min (a + b) (2 ^ 64 - 1)

-- `p.extension() == Some("body")`: the name does not consist of the extension alone.
abbrev pub is_body : Bytes → Bool
is_body name = ends_with name (ascii ".body") && ltb 5 (length name)

-- The loop over the directory from the left, `total` so far.
unfoldable pub sum_bytes : ℕ → Hold → ℕ
sum_bytes total [] = total
sum_bytes total ((name, file) ∷ hold) =
    sum_bytes (if is_body name then saturating_add total (length file.content) else total) hold

unfoldable pub store_bytes : Hold → ℕ
unfolding sum_bytes
store_bytes hold = sum_bytes 0 hold

-- The write token, where one is set.
unfoldable pub check_write_token : ServeConfig → Value → Result Refusal (Unit {0})
check_write_token cfg payload = elim cfg.token [
  | none ↦ ok tt
  | some tok ↦ guard (ct_eq (unwrap_or (get_str payload (ascii "TOKEN")) []) tok) bad_write_token
]

unfoldable pub check_quota : ServeConfig → ℕ → Hold → Result Refusal (Unit {0})
unfolding store_bytes
check_quota cfg body_len hold =
    if ltb 0 cfg.max_store_bytes
      && ltb cfg.max_store_bytes (saturating_add (store_bytes hold) body_len)
    then err store_full
    else ok tt

-- The limiter counts the call whatever the other checks say.
unfoldable pub enforce_write_policy :
    ServeConfig
    → Bytes
    → ℕ
    → ℕ
    → RateLimiter
    → Value
    → Hold
    → RateLimiter × Result Refusal (Unit {0})
unfolding check_write_token check_quota
enforce_write_policy cfg ip now body_len limiter payload hold =
    let rate = allow ip now limiter in
    (
      rate.1,
      (guard rate.0 put_rate_limit
          >> check_write_token cfg payload
          >> check_quota cfg body_len hold),
    )
