-- ===== src/Fabric/Put/Checks.antt =====
-- What the checks of `run_fput` in src/fabric.rs let through.
use spore_peer.Prelude.{
  ℕ, ◌+◌, ◌*◌, ◌≤◌, ◌<◌, ◌≡◌, sym, ap, ◌∙◌, subst, Bool, false, true, [], ◌∷◌, some, Bytes, ascii,
  length, Bool-cases, Option-cases, inl, inr, ltb, leb, leb→le, leb→gt, ltb→lt, ◌==◌, ==_iff, not,
  ok, guard, ok_or, chain_ok, ok_or-eq-ok, guard-eq-ok, ok_inj, Ensures, holds, Ensures-bind,
  Ensures-guard, Ensures-ok_or, Ensures-ok, Ensures-weaken, arith,
}
use spore_peer.Words.{wrapping_add}
use spore_peer.Json.{Value, get_str}
use spore_peer.Text.{to_lowercase}
use spore_peer.Crates.{Crates}
use spore_peer.Refusal.{
  fput_needs_handle, handle_not_32_bytes, needs_pointer, pointer_length, bad_pointer_header,
  zero_deadline, gone, beyond_horizon,
}
use spore_peer.Dict.{lookup}
use spore_peer.Fabric.Envelope.{pointer_len, bad_header}
use spore_peer.Fabric.State.{FabricConfig, FabricState, Registration}
use spore_peer.Fabric.Put.{
  put_handle, check_lease, leased_handle, deadline_of, decode_pointer, check_pointer, put_pointer,
  handle_bytes, put_args,
}

-- A pointer that may be queued at `now`: 74 bytes, the header of version 1, and a deadline that is
-- not over and lies within the horizon.
pub record IsPointer (now : ℕ) (cfg : FabricConfig) (p : Bytes) : Type 0 where
  pub size : length p ≡ pointer_len
  pub header : (rest : Bytes) × (p ≡ 1 ∷ 0 ∷ rest)
  pub ahead : now < deadline_of p
  pub horizon : deadline_of p ≤ now + cfg.max_deadline_horizon_sec

good_header : (p : Bytes) → bad_header p ≡ false → (rest : Bytes) × (p ≡ 1 ∷ 0 ∷ rest)
good_header [] h = cc
good_header (a ∷ []) h = cc
good_header (a ∷ b ∷ rest) h = (rest, ground (arith, h))

not_elim : (b : Bool) → not b ≡ true → b ≡ false
not_elim b h = elim (Bool-cases b) [ inl e ↦ cc | inr e ↦ e ]

decode_pointer-Ensures :
    (c : Crates) (s : Bytes) → Ensures (λ p. length p ≡ pointer_len) (decode_pointer c s)
unfolding decode_pointer
decode_pointer-Ensures c s =
    Ensures-bind (Ensures-guard (length s == 2 * pointer_len) pointer_length) λ _ _.
      Ensures-bind {P = λ p. Unit {0}} (Ensures-ok_or (c.hex.decode s) pointer_length (λ _ _. tt))
        λ p _.
          Ensures-bind (Ensures-guard (length p == pointer_len) pointer_length)
            λ _ e. holds ((==_iff _ _).0 e)

check_pointer-Ensures :
    (now : ℕ) (cfg : FabricConfig) (p : Bytes)
    → length p ≡ pointer_len
    → Ensures (λ u. IsPointer now cfg p) (check_pointer now cfg p)
unfolding check_pointer
check_pointer-Ensures now cfg p size =
    Ensures-bind (Ensures-guard (not (bad_header p)) bad_pointer_header) λ _ header.
      Ensures-bind (Ensures-guard (not (deadline_of p == 0)) zero_deadline) λ _ _.
        Ensures-bind (Ensures-guard (ltb now (deadline_of p)) gone) λ _ ahead.
          Ensures-weaken
            (Ensures-guard (leb (deadline_of p) (wrapping_add now cfg.max_deadline_horizon_sec))
              beyond_horizon)
            λ _ horizon. record {
              size = size;
              header = good_header p (not_elim _ header);
              ahead = ltb→lt _ _ ahead;
              horizon = omega (arith, leb→le _ _ horizon);
            }

-- Reading the pointer of a request never panics in a release build, where an addition on u64 wraps
-- around, and what it returns may be queued: 74 bytes with the header of version 1, and a deadline
-- that is not over and lies within the horizon of the relay, so that no envelope is immortal.
pub put_pointer-Ensures :
    (c : Crates) (now : ℕ) (cfg : FabricConfig) (req : Value)
    → Ensures (IsPointer now cfg) (put_pointer c now cfg req)
unfolding put_pointer
put_pointer-Ensures c now cfg req =
    Ensures-bind {P = λ s. Unit {0}}
      (Ensures-ok_or (get_str req (ascii "pointer_hex")) needs_pointer (λ _ _. tt))
      λ s _.
        Ensures-bind (decode_pointer-Ensures c s)
          λ p size. Ensures-bind (check_pointer-Ensures now cfg p size) λ _ ok_p. holds ok_p

-- The handle of a request, in lower case: it is registered, and its lease runs at `now`.
pub record IsLeased (c : Crates) (now : ℕ) (req : Value) (st : FabricState) (h : Bytes)
    : Type 0 where
  pub spelled : Bytes
  pub named : get_str req (ascii "handle") ≡ some spelled
  pub size : length spelled ≡ 64
  pub lowered : h ≡ to_lowercase c.lower spelled
  pub registration : Registration
  pub registered : lookup h st.reg ≡ some registration
  pub running : now < registration.expires

check_lease_ok :
    (now : ℕ) (h : Bytes) (st : FabricState)
    → check_lease now h st ≡ ok tt
    → (r : Registration) × (lookup h st.reg ≡ some r) × (now < r.expires)
unfolding check_lease
check_lease_ok now h st e = elim (Option-cases (lookup h st.reg)) [
  | inl y ↦ cc (rw (y, check_lease) at e)
  | inr (r, y) ↦ elim (Bool-cases (leb r.expires now)) [
    | inl z ↦ cc (rw (y, z, check_lease) at e)
    | inr z ↦ (r, y, leb→gt _ _ z)
  ]
]

pub leased_handle_ok :
    (c : Crates) (now : ℕ) (req : Value) (st : FabricState) (h : Bytes)
    → leased_handle c now req st ≡ ok h
    → IsLeased c now req st h
unfolding leased_handle put_handle
leased_handle_ok c now req st h e =
    let (h', read, rest) = chain_ok (put_handle c req) _ e in
    let (u, lease, same) = chain_ok (check_lease now h' st) _ rest in
    let (s, given, behind) =
      chain_ok (ok_or (get_str req (ascii "handle")) fput_needs_handle) _ read in
    let (v, size, lower) = chain_ok (guard (length s == 64) handle_not_32_bytes) _ behind in
    let (r, there, running) = check_lease_ok now h' st lease in
    let is_h : h' ≡ h = ok_inj same in
    record {
      spelled = s;
      named = ok_or-eq-ok _ _ given;
      size = (==_iff _ _).0 (guard-eq-ok _ _ size);
      lowered = cc (is_h, ok_inj lower);
      registration = r;
      registered = subst (λ k. lookup k st.reg ≡ some r) is_h there;
      running = running;
    }

-- What `run_fput` queues: the bytes of the handle, and the pointer that the request has.
pub record IsRead (c : Crates) (now : ℕ) (cfg : FabricConfig) (h : Bytes) (req : Value)
    (handle pointer : Bytes) : Type 0 where
  pub text : Bytes
  pub given : get_str req (ascii "pointer_hex") ≡ some text
  pub decoded : c.hex.decode text ≡ some pointer
  pub valid : IsPointer now cfg pointer
  pub handle_decoded : c.hex.decode h ≡ some handle
  pub handle_size : length handle ≡ 32

handle_bytes_ok :
    (c : Crates) (h b : Bytes)
    → handle_bytes c h ≡ ok b
    → (c.hex.decode h ≡ some b) × (length b ≡ 32)
unfolding handle_bytes
handle_bytes_ok c h b e = elim (Option-cases (c.hex.decode h)) [
  | inl y ↦ cc (rw (y, handle_bytes) at e)
  | inr (d, y) ↦ elim (Bool-cases (length d == 32)) [
    | inr z ↦ cc (rw (y, z, handle_bytes) at e)
    | inl z ↦
        let same : d ≡ b = ok_inj (rw (y, z, handle_bytes) at e) in
        (y ∙ ap some same, ap length (sym same) ∙ (==_iff _ _).0 z)
  ]
]

decode_pointer_ok : (c : Crates) (s p : Bytes) → decode_pointer c s ≡ ok p → c.hex.decode s ≡ some p
unfolding decode_pointer
decode_pointer_ok c s p e =
    let (u, long, rest) = chain_ok (guard (length s == 2 * pointer_len) pointer_length) _ e in
    let (q, decoded, behind) = chain_ok (ok_or (c.hex.decode s) pointer_length) _ rest in
    let (v, size, same) = chain_ok (guard (length q == pointer_len) pointer_length) _ behind in
    ok_or-eq-ok _ _ decoded ∙ ap some (ok_inj same)

put_pointer_text :
    (c : Crates) (now : ℕ) (cfg : FabricConfig) (req : Value) (p : Bytes)
    → put_pointer c now cfg req ≡ ok p
    → (text : Bytes) × (get_str req (ascii "pointer_hex") ≡ some text)
      × (c.hex.decode text ≡ some p)
unfolding put_pointer
put_pointer_text c now cfg req p e =
    let (s, given, rest) = chain_ok (ok_or (get_str req (ascii "pointer_hex")) needs_pointer) _ e in
    let (q, decoded, behind) = chain_ok (decode_pointer c s) _ rest in
    let (u, checked, same) = chain_ok (check_pointer now cfg q) _ behind in
    (s, ok_or-eq-ok _ _ given, decode_pointer_ok c s q decoded ∙ ap some (ok_inj same))

pub put_args_ok :
    (c : Crates) (now : ℕ) (cfg : FabricConfig) (h : Bytes) (req : Value) (handle pointer : Bytes)
    → put_args c now cfg h req ≡ ok (handle, pointer)
    → IsRead c now cfg h req handle pointer
unfolding put_args
put_args_ok c now cfg h req handle pointer e =
    let (p, read, rest) = chain_ok (put_pointer c now cfg req) _ e in
    let (b, bytes, same) = chain_ok (handle_bytes c h) _ rest in
    let is_b : b ≡ handle = ap (λ (x : Bytes × Bytes). x.0) (ok_inj same) in
    let is_p : p ≡ pointer = ap (λ (x : Bytes × Bytes). x.1) (ok_inj same) in
    let (text, given, decoded) = put_pointer_text c now cfg req p read in
    let (of_handle, size) = handle_bytes_ok c h b bytes in
    record {
      text = text;
      given = given;
      decoded = decoded ∙ ap some is_p;
      valid = subst (IsPointer now cfg) is_p (Ensures-ok read (put_pointer-Ensures c now cfg req));
      handle_decoded = of_handle ∙ ap some is_b;
      handle_size = ap length (sym is_b) ∙ size;
    }
