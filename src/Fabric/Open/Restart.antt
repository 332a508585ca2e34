-- ===== src/Fabric/Open/Restart.antt =====
-- An envelope that `run_fput` of src/fabric.rs has persisted, after the next `FabricState::open`.
use spore_peer.Prelude.{
  ℕ, zero, suc, ◌+◌, ◌-◌, ◌≤◌, ◌<◌, ◌≡◌, refl, ap, ◌∙◌, subst, List, [], ◌∷◌, ◌++◌, true, false,
  some, Bool-cases, inl, inr, Bytes, IsByte, All, All-drop, ascii, length, length-append, drop,
  take-append, drop-append, same_bytes, same_bytes→eq, same_bytes_refl, lt→ltb, gt→leb, ge→ltb,
  arith,
}
use mathlib.Core.List.{Mem, mem-cons_self, mem-cons_of_mem}
use mathlib.Core.List.Perm
use spore_peer.Words.{IsU64, wrapping_add-eq}
use spore_peer.Text.{lower_hex, digit_char, ends_with}
use spore_peer.Crates.{Crates, Hex}
use spore_peer.Dict.{lookup}
use spore_peer.Store.Decode.{length-lower_hex}
use spore_peer.Fabric.Envelope.{
  Envelope, IsEnvelope, marshal_envelope, parse_envelope-marshal_envelope,
}
use spore_peer.Fabric.State.{FabricConfig, Queued, Disk, fenv_name}
use spore_peer.Fabric.Put.{deadline_of, queue_of}
use spore_peer.Fabric.Open.{
  OpenSetting, Fate, passed, removed, queued, fate, fate_of, trim_ends, cid_of_name, entry_of,
  open_state,
}
use spore_peer.Fabric.Open.Laws.{pick, restored, open_state-entries}

-- A digit is neither a dot nor before it.
lower_hex-digits : (b : Bytes) → All IsByte b → All (λ d. 46 < d) (lower_hex b)
unfolding lower_hex digit_char
lower_hex-digits [] h = tt
lower_hex-digits (x ∷ b) (hx, hb) = (ground arith, (ground arith, lower_hex-digits b hb))

ends_with-digits : (s : Bytes) → All (λ d. 46 < d) s → ends_with s (ascii ".fenv") ≡ false
unfolding ends_with
ends_with-digits s h = elim (Bool-cases (same_bytes (drop (length s - 5) s) (ascii ".fenv"))) [
  | inr y ↦ ground (arith, y)
  | inl y ↦
      let tail : All (λ d. 46 < d) (ascii ".fenv") =
        subst (All (λ d. 46 < d)) (same_bytes→eq _ _ y)
          (All-drop (λ d. 46 < d) (length s - 5) s h) in
      absurd (omega (arith, tail.0))
]

ends_with-fenv : (s : Bytes) → ends_with (s ++ ascii ".fenv") (ascii ".fenv") ≡ true
unfolding ends_with
ends_with-fenv s =
    let n : length (s ++ ascii ".fenv") - 5 ≡ length s =
      omega (arith, length-append s (ascii ".fenv")) in
    rw (n, drop-append s (ascii ".fenv"), same_bytes_refl (ascii ".fenv"))
      (ground (arith, length-append s (ascii ".fenv")))

trim_ends-digits : (n : ℕ) (s : Bytes) → All (λ d. 46 < d) s → trim_ends n s ≡ s
unfolding trim_ends
trim_ends-digits zero s h = refl
trim_ends-digits (suc n) s h = rw (ends_with-digits s h) refl

trim_ends-fenv :
    (n : ℕ) (s : Bytes) → All (λ d. 46 < d) s → trim_ends (suc n) (s ++ ascii ".fenv") ≡ s
unfolding trim_ends
trim_ends-fenv n s h =
    let len : length (s ++ ascii ".fenv") - 5 ≡ length s =
      omega (arith, length-append s (ascii ".fenv")) in
    rw (ends_with-fenv s, len, take-append s (ascii ".fenv")) (trim_ends-digits n s h)

cid_of_name-fenv_name : (s : Bytes) → All (λ d. 46 < d) s → cid_of_name (fenv_name s) ≡ s
cid_of_name-fenv_name s h =
    let len : length (fenv_name s) ≡ suc (length s + 4) =
      omega (arith, length-append s (ascii ".fenv")) in
    rw len (trim_ends-fenv (length s + 4) s h)

mem-pick :
    (hex : Hex) (k name : Bytes) (f : Fate) (x : Queued) (rest : List Queued)
    → Mem x rest
    → Mem x (pick hex k name f rest)
mem-pick hex k name passed x rest h = h
mem-pick hex k name removed x rest h = h
mem-pick hex k name (queued e) x rest h = elim (Bool-cases (same_bytes (hex.encode e.handle) k)) [
  | inl y ↦ rw y (mem-cons_of_mem (entry_of name e) h)
  | inr y ↦ rw y h
]

mem-pick_self :
    (hex : Hex) (name : Bytes) (f : Fate) (e : Envelope) (rest : List Queued)
    → f ≡ queued e
    → Mem (entry_of name e) (pick hex (hex.encode e.handle) name f rest)
mem-pick_self hex name f e rest kept =
    rw (kept, same_bytes_refl (hex.encode e.handle)) (mem-cons_self)

mem-restored :
    (hex : Hex) (env : OpenSetting) (horizon : ℕ) (name raw : Bytes) (e : Envelope) (disk : Disk)
    → lookup name disk ≡ some raw
    → fate env horizon name raw ≡ queued e
    → Mem (entry_of name e) (restored hex env horizon (hex.encode e.handle) disk)
unfolding lookup
mem-restored hex env horizon name raw e [] l f = cc
mem-restored hex env horizon name raw e ((n, r) ∷ disk) l f =
    elim (Bool-cases (same_bytes n name)) [
      | inl y ↦
          let content : r ≡ raw = cc (rw (y, lookup) at l) in
          let kept : fate env horizon n r ≡ queued e = rw (content, same_bytes→eq n name y) f in
          subst
            (λ m. Mem (entry_of m e) (
              pick hex (hex.encode e.handle) n (fate env horizon n r)
                (restored hex env horizon (hex.encode e.handle) disk)))
            (same_bytes→eq n name y)
            (mem-pick_self hex n (fate env horizon n r) e
              (restored hex env horizon (hex.encode e.handle) disk) kept)
      | inr y ↦
          mem-pick hex (hex.encode e.handle) n (fate env horizon n r) (entry_of name e)
            (restored hex env horizon (hex.encode e.handle) disk)
            (mem-restored hex env horizon name raw e disk (rw (y, lookup) at l) f)
    ]

-- The entry that `run_fput` queues for an envelope.
abbrev pub resumed : Crates → Envelope → Queued
resumed c e = record {
  pointer = e.pointer;
  env_cid_hex = c.hex.encode (c.sha.digest (marshal_envelope e));
  deadline = deadline_of e.pointer;
  received_at = e.received_at;
}

-- The name under which an envelope is persisted.
abbrev pub name_of : Crates → Envelope → Bytes
name_of c e = fenv_name (c.hex.encode (c.sha.digest (marshal_envelope e)))

-- A persisted envelope that is read, that has not expired and is not beyond the horizon, is queued
-- again by the next opening, under the handle it was sent to, with the hash it was acknowledged by.
-- The sum of the clock and the horizon is a 64-bit word, and the envelope has its handle of 32 bytes,
-- a pointer of 74 bytes with the header of version 1, and a 64-bit time.
pub open_state-resumes :
    (c : Crates) (env : OpenSetting) (cfg : FabricConfig) (disk : Disk) (e : Envelope)
    → IsEnvelope e
    → lookup (name_of c e) disk ≡ some (marshal_envelope e)
    → env.reads (name_of c e) ≡ true
    → env.live_at (name_of c e) < deadline_of e.pointer
    → deadline_of e.pointer ≤ env.horizon_at (name_of c e) + cfg.max_deadline_horizon_sec
    → IsU64 (env.horizon_at (name_of c e) + cfg.max_deadline_horizon_sec)
    → Mem (resumed c e) (queue_of (c.hex.encode e.handle) (open_state c.hex env cfg disk).state)
open_state-resumes c env cfg disk e h l r live near fits =
    let cid = c.hex.encode (c.sha.digest (marshal_envelope e)) in
    let digits : All (λ d. 46 < d) cid = rw (c.hex.encode_lem) (
      lower_hex-digits (c.sha.digest (marshal_envelope e))
        (c.sha.digest-IsByte (marshal_envelope e))) in
    let long : 5 < length (name_of c e) = rw (length-append cid (ascii ".fenv")) (
      omega (
        arith,
        ap length (c.hex.encode_lem (c.sha.digest (marshal_envelope e)))
            ∙ length-lower_hex (c.sha.digest (marshal_envelope e)),
        c.sha.length-digest (marshal_envelope e),
      )) in
    let name_lem : cid_of_name (name_of c e) ≡ cid = cid_of_name-fenv_name cid digits in
    let kept : fate env cfg.max_deadline_horizon_sec (name_of c e) (marshal_envelope e) ≡ queued e =
      unfold fate fate_of in
      rw (ends_with-fenv cid, lt→ltb _ _ long, r, parse_envelope-marshal_envelope e h)
        (rw
          (
            gt→leb _ _ live,
            wrapping_add-eq (env.horizon_at (name_of c e)) cfg.max_deadline_horizon_sec fits,
            ge→ltb _ _ near,
          )
          refl) in
    rw (← name_lem) (
      (Perm.mem_iff (open_state-entries c.hex env cfg disk (c.hex.encode e.handle))).1 (
        mem-restored c.hex env cfg.max_deadline_horizon_sec (name_of c e) (marshal_envelope e) e
          disk l kept))
