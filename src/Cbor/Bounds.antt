-- ===== src/Cbor/Bounds.antt =====
-- The decoder of src/p2p.rs on any input, well formed or not.
use spore_peer.Prelude.{
  ℕ, zero, suc, ◌+◌, ◌-◌, ◌/◌, ◌%◌, ◌^◌, ◌≤◌, ◌<◌, ◌≡◌, ◌≢◌, [], ◌∷◌, some, Bytes, length, ltb,
  le→leb, ltb→lt, length-drop, inl, inr, Ensures-weaken, Bool-cases, ◌==◌, panic, Ensures, holds,
  fails, Ensures-bind, Ensures-if, Ensures-ok_or, Ensures-ne-panic, Ensures-guard, arith,
}
use spore_peer.Words.{checked_add}
use spore_peer.Text.{is_utf8}
use spore_peer.Json.{Fields, array, object, no_fields, as_object}
use spore_peer.Crates.{Hex}
use spore_peer.Cbor.Decode.{
  Head, Decoder, slice_from, get_range, read_arg, head_args, read_head, decode_child, decode_items,
  decode_pairs, decode_string, decode_body, decode_levels, decode_value, decode_payload,
  decode_message,
}

-- What a decoder takes of `buf` is not empty and lies within it.
abbrev pub Within {ℓ} : {A : Type ℓ} → Bytes → A × ℕ → Type 0
Within buf r = (0 < r.1) × (r.1 ≤ length buf)

get_range_le :
    (buf : Bytes) (from to : ℕ) (b : Bytes) → get_range buf from to ≡ some b → to ≤ length buf
unfolding get_range
get_range_le buf from to b h = ground arith

abbrev Headed : Bytes → Head → Type 0
Headed buf h = (0 < h.pos) × (h.pos ≤ length buf)

read_arg-Ensures :
    (major info k b : ℕ) (rest : Bytes) → Ensures (Headed (b ∷ rest)) (read_arg major info k rest)
unfolding read_arg
read_arg-Ensures major info k b rest =
    Ensures-bind {P = λ a. k ≤ length rest} (Ensures-ok_or _ tt (get_range_le rest 0 k))
      λ a e. holds (omega arith, omega arith)

head_short :
    (major info b : ℕ) (rest : Bytes)
    → Headed (b ∷ rest) (record { major = major; info = info; n = info; pos = 1 })
head_short major info b rest = (omega arith, omega arith)

read_head-Ensures : (buf : Bytes) → Ensures (Headed buf) (read_head buf)
unfolding read_head head_args
read_head-Ensures [] = fails
read_head-Ensures (b ∷ rest) =
    let major = b / 32 in
    let info = b % 32 in
    Ensures-if (ltb info 24) (λ _. holds (head_short major info b rest))
      λ _.
        Ensures-if (info == 24) (λ _. read_arg-Ensures major info 1 b rest)
          λ _.
            Ensures-if (info == 25) (λ _. read_arg-Ensures major info 2 b rest)
              λ _.
                Ensures-if (info == 26) (λ _. read_arg-Ensures major info 4 b rest)
                  λ _.
                    Ensures-if (info == 27) (λ _. read_arg-Ensures major info 8 b rest) λ _. fails

slice_from-Ensures :
    (buf : Bytes) (at : ℕ)
    → at ≤ length buf
    → Ensures (λ b. length b ≡ length buf - at) (slice_from buf at)
unfolding slice_from
slice_from-Ensures buf at h = rw (le→leb at (length buf) h) (holds (length-drop at buf))

checked_add-eq : (a b c : ℕ) → checked_add a b ≡ some c → c ≡ a + b
checked_add-eq a b c h = ground arith

-- `decode_value` one level down, on every buffer.
abbrev IsBounded : Decoder → Type 0
IsBounded child = (b : Bytes) → Ensures (Within b) (child b)

abbrev Behind {ℓ} : {A : Type ℓ} → Bytes → ℕ → A × ℕ → Type 0
Behind buf at r = (at < r.1) × (r.1 ≤ length buf)

module _ (child : Decoder) (bounded : IsBounded child) (buf : Bytes) where
  decode_child-Ensures :
      (at : ℕ) → at ≤ length buf → Ensures (Behind buf at) (decode_child child buf at)
  unfolding decode_child
  decode_child-Ensures at h = Ensures-bind (slice_from-Ensures buf at h) λ here len.
      Ensures-bind (bounded here) λ r w. Ensures-bind (Ensures-guard (ltb 0 r.1) tt) λ _ pos.
        Ensures-bind (Ensures-ok_or (checked_add at r.1) tt (checked_add-eq at r.1))
          λ next e. holds (omega arith, omega arith)

  decode_items-Ensures :
      (n at : ℕ)
      → at ≤ length buf
      → Ensures (λ r. (at ≤ r.1) × (r.1 ≤ length buf)) (decode_items child n buf at)
  unfolding decode_items
  decode_items-Ensures zero at h = holds (omega arith, h)
  decode_items-Ensures (suc n) at h =
      Ensures-bind (decode_child-Ensures at h)
        λ v w. Ensures-bind (decode_items-Ensures n v.1 w.1) λ vs ws. holds (omega arith, ws.1)

  decode_pairs-Ensures :
      (n at : ℕ) (m : Fields)
      → at ≤ length buf
      → Ensures (λ r. (at ≤ r.1) × (r.1 ≤ length buf)) (decode_pairs child n buf at m)
  unfolding decode_pairs
  decode_pairs-Ensures zero at m h = holds (omega arith, h)
  decode_pairs-Ensures (suc n) at m h = Ensures-bind (decode_child-Ensures at h) λ k w.
      Ensures-bind (decode_child-Ensures k.1 w.1)
        λ v ws. Ensures-weaken (decode_pairs-Ensures n v.1 _ ws.1) λ r wr. (omega arith, wr.1)

  decode_string-Ensures :
      (hex : Hex) (h : Head) → Headed buf h → Ensures (Within buf) (decode_string hex h buf)
  unfolding decode_string
  decode_string-Ensures hex h hd =
      Ensures-bind (Ensures-ok_or _ tt (checked_add-eq h.pos h.n)) λ end e.
        Ensures-bind {P = λ b. end ≤ length buf} (Ensures-ok_or _ tt (get_range_le buf h.pos end))
          λ b le.
            Ensures-if (h.major == 3)
              (λ _. Ensures-bind (Ensures-guard (is_utf8 b) tt) λ _ _. holds (omega arith, le))
              (λ _. holds (omega arith, le))

  decode_body-Ensures :
      (hex : Hex) (h : Head) → Headed buf h → Ensures (Within buf) (decode_body hex child h buf)
  unfolding decode_body
  decode_body-Ensures hex h hd =
      Ensures-if (h.major == 0) (λ _. holds hd)
        λ _.
          Ensures-if (h.major == 1)
            (λ _. Ensures-if (ltb (2 ^ 63) (h.n + 1)) (λ _. fails) λ _. holds hd)
            λ _.
              Ensures-if (h.major == 2) (λ _. decode_string-Ensures hex h hd)
                λ _.
                  Ensures-if (h.major == 3) (λ _. decode_string-Ensures hex h hd)
                    λ _.
                      Ensures-if (h.major == 4)
                        (λ _.
                          Ensures-bind (decode_items-Ensures h.n h.pos hd.1)
                            λ vs w. holds {a = (array vs.0, vs.1)} (omega arith, w.1))
                        λ _.
                          Ensures-if (h.major == 5)
                            (λ _.
                              Ensures-bind (decode_pairs-Ensures h.n h.pos no_fields hd.1)
                                λ m w. holds {a = (object m.0, m.1)} (omega arith, w.1))
                            λ _. Ensures-if (ltb h.major 8) (λ _. holds hd) λ _. fails

decode_levels-Ensures :
    (hex : Hex) (levels : ℕ) (buf : Bytes) → Ensures (Within buf) (decode_levels hex levels buf)
unfolding decode_levels
decode_levels-Ensures hex zero buf = fails
decode_levels-Ensures hex (suc levels) buf = Ensures-bind (read_head-Ensures buf) λ h hd.
    decode_body-Ensures (decode_levels hex levels) (decode_levels-Ensures hex levels) buf hex h hd

-- On every buffer and at every depth the decoder of src/p2p.rs does not panic, and where it returns
-- a value it has taken at least one byte and no more than the buffer holds.
pub decode_value-Ensures :
    (hex : Hex) (buf : Bytes) (depth : ℕ) → Ensures (Within buf) (decode_value hex buf depth)
unfolding decode_value
decode_value-Ensures hex buf depth = decode_levels-Ensures hex _ buf

decode_payload-Ensures :
    (hex : Hex) (buf : Bytes) (used : ℕ) → Ensures (λ v. Unit {0}) (decode_payload hex buf used)
unfolding decode_payload
decode_payload-Ensures hex buf used = elim (Bool-cases (ltb used (length buf))) [
  | inr e ↦ rw e (holds tt)
  | inl e ↦ rw e (
      Ensures-bind (slice_from-Ensures buf used (omega (arith, ltb→lt _ _ e))) λ rest len.
        Ensures-bind (decode_value-Ensures hex rest 0)
          λ r w. Ensures-bind (Ensures-guard (ltb 0 r.1) tt) λ _ pos. holds tt)
]

-- No frame makes `decode_message` panic.
pub decode_message-ne-panic : (hex : Hex) (buf : Bytes) → decode_message hex buf ≢ panic
unfolding decode_message
decode_message-ne-panic hex buf = Ensures-ne-panic {P = λ m. Unit {0}} (
    Ensures-bind (decode_value-Ensures hex buf 0) λ head_v w.
      Ensures-bind {P = λ o. Unit {0}} (Ensures-ok_or (as_object head_v.0) tt (λ _ _. tt))
        λ obj _. Ensures-bind (decode_payload-Ensures hex buf head_v.1) λ payload _. holds tt)
