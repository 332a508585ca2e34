-- ===== src/Client/Fabric/Laws.antt =====
-- What a relay makes of the requests of `fabric_pub`: src/spore_peer.rs against src/fabric.rs.
use spore_peer.Prelude.{
  ℕ, ◌<◌, ◌≤◌, ◌≡◌, refl, ◌∙◌, [], true, false, ◌&&◌, some, Option-cases, Bool-cases, inl, inr,
  Bytes, ascii, length, ltb, leb, le→leb, ok, arith,
}
use spore_peer.Json.{Value, object, insert_field, lookup_field, get_str, unwrap_or}
use spore_peer.Text.{to_lowercase}
use spore_peer.Crates.{Crates}
use spore_peer.Dict.{lookup}
use spore_peer.Tokens.{ct_eq}
use spore_peer.Fabric.State.{FabricState, Registration}
use spore_peer.Fabric.Reg.{RegArgs, reg_args, is_handle_hex, is_live, run_freg}
use spore_peer.Fabric.Reg.Laws.{run_freg_live}
use spore_peer.Fabric.Reply.{freg, verb_of}
use spore_peer.Client.Fabric.{FabricCli, reg_fields, fabric_request}

-- What is read as the former token stands in the request.
reg_args_prev :
    (c : Crates) (req : Value) (a : RegArgs)
    → reg_args c req ≡ ok a
    → a.prev_token ≡ unwrap_or (get_str req (ascii "prev_token")) []
unfolding reg_args
reg_args_prev c req a e = elim (Option-cases (get_str req (ascii "handle"))) [
  | inl y ↦ cc (rw (y, reg_args) at e)
  | inr (h, y) ↦ elim (Bool-cases (is_handle_hex c h)) [
    | inr z ↦ cc (rw (y, z, reg_args) at e)
    | inl z ↦ elim (Option-cases (get_str req (ascii "token"))) [
      | inl w ↦ cc (rw (y, z, w, reg_args) at e)
      | inr (token, w) ↦ elim (Bool-cases (leb 16 (length token) && leb (length token) 128)) [
        | inr v ↦ cc (rw (y, z, w, v, reg_args) at e)
        | inl v ↦ let read = rw (y, z, w, v, reg_args) at e in cc read
      ]
    ]
  ]
]

no_prev_token :
    (o : FabricCli) → unwrap_or (get_str (object (reg_fields o)) (ascii "prev_token")) [] ≡ []
unfolding insert_field lookup_field
no_prev_token o = elim (Bool-cases (ltb 0 (length o.nonce))) [
  | inl y ↦ rw y refl
  | inr y ↦ rw y refl
]

module _ (c : Crates) (o : FabricCli) (sub : o.sub ≡ ascii "reg") (long : 16 ≤ length o.token) where
  pub fabric_request_reg : fabric_request o ≡ ok (object (reg_fields o))
  unfolding fabric_request
  fabric_request_reg = rw (sub, le→leb _ _ long) refl

  -- What a registration asks of a relay is read there as it was meant, save that it never carries the
  -- token of the registration before: the verb, the handle in lower case, the token and the lease.
  -- The handle is 32 bytes in hexadecimal and the token has 16 to 128 bytes.
  pub reg_args-fabric_request :
      is_handle_hex c o.handle ≡ true
      → length o.token ≤ 128
      → (fabric_request o ≡ ok (object (reg_fields o)))
        × (verb_of (object (reg_fields o)) ≡ some freg)
        × (reg_args c (object (reg_fields o))
            ≡ ok (record {
              handle = to_lowercase c.lower o.handle;
              token = o.token;
              prev_token = [];
              lease = o.lease;
            }))
  unfolding verb_of reg_args insert_field lookup_field
  reg_args-fabric_request handle short = elim (Bool-cases (ltb 0 (length o.nonce))) [
    | inl y ↦ (
      fabric_request_reg,
      rw (y, sub) refl,
      rw (y, handle, le→leb _ _ long, le→leb _ _ short) refl,
    )
    | inr y ↦ (
      fabric_request_reg,
      rw (y, sub) refl,
      rw (y, handle, le→leb _ _ long, le→leb _ _ short) refl,
    )
  ]

-- The request of a registration that is sent at all.
fabric_request_sent :
    (o : FabricCli) (req : Value)
    → o.sub ≡ ascii "reg"
    → fabric_request o ≡ ok req
    → object (reg_fields o) ≡ req
unfolding fabric_request
fabric_request_sent o req sub sent = elim (Bool-cases (leb 16 (length o.token))) [
  | inl y ↦ cc (rw (sub, y, fabric_request) at sent)
  | inr y ↦ cc (rw (sub, y, fabric_request) at sent)
]

ct_eq-nil : (a : Bytes) → 0 < length a → ct_eq a [] ≡ false
unfolding ct_eq
ct_eq-nil a h = ground arith

-- A registration that is live, and has a token, is never renewed or replaced by a registration that
-- `fabric_pub` asks for, whatever its options: the relay leaves it as it is.
pub fabric_request_live :
    (c : Crates) (o : FabricCli) (req : Value) (now : ℕ) (st : FabricState) (k : Bytes)
    (cur : Registration)
    → o.sub ≡ ascii "reg"
    → fabric_request o ≡ ok req
    → lookup k st.reg ≡ some cur
    → is_live now cur ≡ true
    → 0 < length cur.token
    → lookup k (run_freg c now req st).0.reg ≡ some cur
fabric_request_live c o req now st k cur sub sent h live token =
    elim (run_freg_live c now req st k cur h live) [
      | inl kept ↦ kept
      | inr (a, read, same, equal) ↦
          let none_sent : a.prev_token ≡ [] =
            reg_args_prev c req a read
            ∙ rw (← fabric_request_sent o req sub sent) (no_prev_token o) in
          absurd (cc (rw (none_sent, ct_eq-nil cur.token token) at equal))
    ]
