-- ===== src/Peer/Accepted.antt =====
-- An accepted push of src/spore_peer.rs, `handle_rpc2`, against the policy of the node.
use spore_peer.Prelude.{
  ℕ, ◌+◌, ◌-◌, ◌^◌, ◌<◌, ◌≤◌, ◌≡◌, ◌⊎◌, sym, ap, ◌∙◌, true, [], Option, none, some, Bytes, IsByte,
  All, ascii, length, Bool-cases, Option-cases, inl, inr, ltb, ltb→ge, ltb→lt, ok, guard-eq-ok,
  arith,
}
use spore_peer.Json.{Value, get_str, unwrap_or}
use spore_peer.Crates.{Crates}
use spore_peer.Limiter.{hits, allow_ok}
use spore_peer.Tokens.{ct_eq, ct_eq_iff}
use spore_peer.Refusal.{bad_write_token}
use spore_peer.Cbor.Encode.{putobject_response}
use spore_peer.Store.Decode.{hex_decode}
use spore_peer.Store.Files.{Hold, HoldFaults}
use spore_peer.Store.Laws.{IsHold}
use spore_peer.Store.Serve.{IsStored}
use spore_peer.Peer.Policy.{ServeConfig, check_write_token, check_quota}
use spore_peer.Peer.Rpc2.{Node, PushTimes, pushed_body, put_object}
use spore_peer.Peer.Laws.{put_object-IsChecked}
use spore_peer.Peer.Quota.{body_bytes, check_quota_ok}

-- The token that a request carries; a missing one is the empty text.
abbrev pub carried : Value → Bytes
carried payload = unwrap_or (get_str payload (ascii "TOKEN")) []

-- A token that is set is bytes.
abbrev pub HasTokenBytes : Option Bytes → Type 0
HasTokenBytes none = Unit
HasTokenBytes (some tok) = All IsByte tok

module _ (c : Crates) (f : HoldFaults) (t : PushTimes) (cfg : ServeConfig) (ip : Bytes) where
  check_write_token_ok :
      (payload : Value)
      → HasTokenBytes cfg.token
      → All IsByte (carried payload)
      → check_write_token cfg payload ≡ ok tt
      → (cfg.token ≡ none) ⊎ (cfg.token ≡ some (carried payload))
  unfolding check_write_token
  check_write_token_ok payload ht hc e = elim (Option-cases cfg.token) [
    | inl y ↦ inl y
    | inr (tok, y) ↦
        let same : ct_eq (carried payload) tok ≡ true =
          guard-eq-ok _ bad_write_token (rw (y, check_write_token) at e) in
        inr (y ∙ ap some (sym ((ct_eq_iff (carried payload) tok hc (rw y at ht)).0 same)))
  ]

  check_quota_room :
      (n : ℕ) (hold : Hold)
      → cfg.max_store_bytes < 2 ^ 64 - 1
      → check_quota cfg n hold ≡ ok tt
      → (cfg.max_store_bytes ≡ 0) ⊎ (body_bytes hold + n ≤ cfg.max_store_bytes)
  check_quota_room n hold small e = elim (Bool-cases (ltb 0 cfg.max_store_bytes)) [
    | inl y ↦ inr (check_quota_ok c f t cfg ip (ltb→lt _ _ y) small n hold e)
    | inr y ↦ inl (omega (arith, ltb→ge _ _ y))
  ]

  -- The body of an accepted push, what the policy asked of it, and what it has done.
  pub record IsPushed (payload : Value) (before after : Node) (reply : Bytes) : Type 0 where
    pub body : Bytes
    pub decoded : pushed_body c payload ≡ ok body
    pub admitted :
        (before.limiter.max ≡ 0) ⊎ (hits ip t.limit_at before.limiter < before.limiter.max)
    pub token : (cfg.token ≡ none) ⊎ (cfg.token ≡ some (carried payload))
    pub quota :
        (cfg.max_store_bytes ≡ 0) ⊎ (body_bytes before.hold + length body ≤ cfg.max_store_bytes)
    pub claimed :
        hex_decode (unwrap_or (get_str payload (ascii "BLID")) []) ≡ ok (c.sha.digest body)
    pub cid : Bytes
    pub stored : IsStored c body cid before.hold after.hold
    pub answer : reply ≡ putobject_response (c.sha.digest body)

  -- A push that is accepted: fewer pushes than the limit, where one is set, were counted for the
  -- address in that second; where a write token is set the request carried it; where a quota is set
  -- the bodies of the store and the new one are within it; and the hash that the request claims is
  -- the body's. The body is then served under that hash, which is what the peer is answered. The
  -- directory was addressed by content, the two tokens are bytes, and the quota is less than the
  -- largest 64-bit word.
  pub put_object_ok :
      (payload : Value) (reply : Bytes) (node : Node)
      → IsHold c node.hold
      → HasTokenBytes cfg.token
      → All IsByte (carried payload)
      → cfg.max_store_bytes < 2 ^ 64 - 1
      → (put_object c f t cfg ip payload node).1 ≡ ok reply
      → IsPushed payload node (put_object c f t cfg ip payload node).0 reply
  put_object_ok payload reply node h ht hc small e =
      let checked = put_object-IsChecked c f t cfg ip payload reply node h e in
      record {
        body = checked.body;
        decoded = checked.decoded;
        admitted = allow_ok ip t.limit_at node.limiter checked.admitted;
        token = check_write_token_ok payload ht hc checked.token;
        quota = check_quota_room (length checked.body) node.hold small checked.quota;
        claimed = checked.claimed;
        cid = checked.cid;
        stored = checked.stored;
        answer = checked.answer;
      }
