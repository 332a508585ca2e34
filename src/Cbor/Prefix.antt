-- ===== src/Cbor/Prefix.antt =====
-- The decoder of src/p2p.rs on a buffer and on the same buffer with more bytes behind it.
use spore_peer.Prelude.{
  ℕ, zero, suc, ◌+◌, ◌-◌, ◌/◌, ◌%◌, ◌≤◌, ◌≡◌, ◌⊎◌, refl, inl, inr, true, [], ◌∷◌, ◌++◌,
  Option-cases, Bool-cases, Result-cases, Bytes, length, length-append, length-drop, drop-append,
  take, drop, ltb, leb, leb→le, le→leb, lt→ltb, ltb→ge, ◌==◌, ok, err, ok_or, Ensures-ok, arith,
}
use spore_peer.Words.{checked_add}
use spore_peer.Json.{Value, Fields, as_object, no_fields}
use spore_peer.Crates.{Hex}
use spore_peer.Cbor.Decode.{
  max_depth, Rpc2Message, Head, Decoder, slice_from, get_range, read_arg, head_args, read_head,
  decode_child, decode_items, insert_pair, decode_pairs, decode_string, decode_body, decode_levels,
  decode_value, decode_payload, decode_message,
}
use spore_peer.Cbor.Extends.{
  Extends, Extends-bind, Extends-after, Extends-if, take-front, drop-front,
}
use spore_peer.Cbor.Bounds.{Within, decode_value-Ensures}

module _ (t : Bytes) where
  get_range-Extends :
      (buf : Bytes) (from to : ℕ)
      → Extends (ok_or (get_range buf from to) tt) (ok_or (get_range (buf ++ t) from to) tt)
  unfolding get_range
  get_range-Extends buf from to b e = elim (Bool-cases (leb from to)) [
    | inr y ↦ cc (rw y at e)
    | inl y ↦ elim (Bool-cases (leb to (length buf))) [
      | inr z ↦ cc (rw (y, z) at e)
      | inl z ↦
          let far : leb to (length (buf ++ t)) ≡ true =
            le→leb _ _ (omega (arith, leb→le _ _ z, length-append buf t)) in
          let cut : drop from (buf ++ t) ≡ drop from buf ++ t =
            drop-front from buf t (omega (arith, leb→le _ _ y, leb→le _ _ z)) in
          let part : take (to - from) (drop from buf ++ t) ≡ take (to - from) (drop from buf) =
            take-front (to - from) (drop from buf) t
              (omega (arith, leb→le _ _ y, leb→le _ _ z, length-drop from buf)) in
          rw (y, far, cut, part) (rw (y, z) at e)
    ]
  ]

  read_arg-Extends :
      (major info k : ℕ) (rest : Bytes)
      → Extends (read_arg major info k rest) (read_arg major info k (rest ++ t))
  unfolding read_arg
  read_arg-Extends major info k rest =
      Extends-bind (ok_or (get_range rest 0 k) tt) (ok_or (get_range (rest ++ t) 0 k) tt) _ _
        (get_range-Extends rest 0 k) (λ b a e. e)

  read_head-Extends : (buf : Bytes) → Extends (read_head buf) (read_head (buf ++ t))
  unfolding read_head head_args
  read_head-Extends [] = λ a e. cc
  read_head-Extends (ib ∷ rest) =
      let arg = λ (k : ℕ). read_arg-Extends (ib / 32) (ib % 32) k rest in
      Extends-if (ltb (ib % 32) 24) _ _ _ _ (λ a e. e)
        (Extends-if (ib % 32 == 24) _ _ _ _ (arg 1) (
          Extends-if (ib % 32 == 25) _ _ _ _ (arg 2) (
            Extends-if (ib % 32 == 26) _ _ _ _ (arg 4)
              (Extends-if (ib % 32 == 27) _ _ _ _ (arg 8) (λ a e. e)))))

  decode_string-Extends :
      (hex : Hex) (h : Head) (buf : Bytes)
      → Extends (decode_string hex h buf) (decode_string hex h (buf ++ t))
  unfolding decode_string
  decode_string-Extends hex h buf = Extends-after (ok_or (checked_add h.pos h.n) tt) _ _ (λ end.
      Extends-bind (ok_or (get_range buf h.pos end) tt) (ok_or (get_range (buf ++ t) h.pos end) tt)
        _ _ (get_range-Extends buf h.pos end) (λ b a e. e))

  -- The decoder one level down.
  abbrev Stable : Decoder → Type 0
  Stable child = (b : Bytes) → Extends (child b) (child (b ++ t))

  module _ (child : Decoder) (stable : Stable child) (buf : Bytes) where
    decode_child-Extends :
        (at : ℕ) → Extends (decode_child child buf at) (decode_child child (buf ++ t) at)
    unfolding decode_child slice_from
    decode_child-Extends at a e = elim (Bool-cases (leb at (length buf))) [
      | inr y ↦ cc (rw y at e)
      | inl y ↦
          let far : leb at (length (buf ++ t)) ≡ true =
            le→leb _ _ (omega (arith, leb→le _ _ y, length-append buf t)) in
          rw (far, drop-front at buf t (leb→le _ _ y))
            (Extends-bind (child (drop at buf)) (child (drop at buf ++ t)) _ _
              (stable (drop at buf)) (λ r b f. f) a (rw y at e))
    ]

    decode_items-Extends :
        (n at : ℕ) → Extends (decode_items child n buf at) (decode_items child n (buf ++ t) at)
    unfolding decode_items
    decode_items-Extends zero at = λ a e. e
    decode_items-Extends (suc n) at =
        Extends-bind (decode_child child buf at) (decode_child child (buf ++ t) at) _ _
          (decode_child-Extends at)
          (λ v.
            Extends-bind (decode_items child n buf v.1) (decode_items child n (buf ++ t) v.1) _ _
              (decode_items-Extends n v.1) (λ vs a e. e))

    decode_pairs-Extends :
        (n at : ℕ) (m : Fields)
        → Extends (decode_pairs child n buf at m) (decode_pairs child n (buf ++ t) at m)
    unfolding decode_pairs
    decode_pairs-Extends zero at m = λ a e. e
    decode_pairs-Extends (suc n) at m =
        Extends-bind (decode_child child buf at) (decode_child child (buf ++ t) at) _ _
          (decode_child-Extends at)
          (λ k.
            Extends-bind (decode_child child buf k.1) (decode_child child (buf ++ t) k.1) _ _
              (decode_child-Extends k.1) (λ v. decode_pairs-Extends n v.1 (insert_pair k.0 v.0 m)))

    decode_body-Extends :
        (hex : Hex) (h : Head)
        → Extends (decode_body hex child h buf) (decode_body hex child h (buf ++ t))
    unfolding decode_body
    decode_body-Extends hex h =
        Extends-if (h.major == 0) _ _ _ _ (λ a e. e)
          (Extends-if (h.major == 1) _ _ _ _ (λ a e. e)
            (Extends-if (h.major == 2) _ _ _ _ (decode_string-Extends hex h buf) (
              Extends-if (h.major == 3) _ _ _ _ (decode_string-Extends hex h buf) (
                Extends-if (h.major == 4) _ _ _ _
                  (Extends-bind (decode_items child h.n buf h.pos)
                    (decode_items child h.n (buf ++ t) h.pos) _ _ (decode_items-Extends h.n h.pos)
                    (λ vs a e. e))
                  (Extends-if (h.major == 5) _ _ _ _
                    (Extends-bind (decode_pairs child h.n buf h.pos no_fields)
                      (decode_pairs child h.n (buf ++ t) h.pos no_fields) _ _
                      (decode_pairs-Extends h.n h.pos no_fields) (λ m a e. e))
                    (λ a e. e))))))

  decode_levels-Extends :
      (hex : Hex) (levels : ℕ) (buf : Bytes)
      → Extends (decode_levels hex levels buf) (decode_levels hex levels (buf ++ t))
  unfolding decode_levels
  decode_levels-Extends hex zero buf = λ a e. cc
  decode_levels-Extends hex (suc levels) buf =
      Extends-bind (read_head buf) (read_head (buf ++ t)) _ _ (read_head-Extends buf) (λ h.
        decode_body-Extends (decode_levels hex levels) (decode_levels-Extends hex levels) buf hex h)

  -- What is read off the front of a buffer does not depend on what follows.
  pub decode_value-Extends :
      (hex : Hex) (buf : Bytes) (depth : ℕ)
      → Extends (decode_value hex buf depth) (decode_value hex (buf ++ t) depth)
  unfolding decode_value
  decode_value-Extends hex buf depth = decode_levels-Extends hex _ buf

-- No item begins with the byte 0xff.
decode_value_ff :
    (hex : Hex) (t : Bytes) (depth : ℕ)
    → depth ≤ max_depth
    → decode_value hex (0xff ∷ t) depth ≡ err tt
unfolding decode_value
decode_value_ff hex t depth low =
    let levels : max_depth + 1 - depth ≡ suc (max_depth - depth) = omega (arith, low) in
    rw levels (unfold decode_levels read_head head_args in refl)

module _ (hex : Hex) (buf t : Bytes) where
  -- The payload stays, or where there was none the bytes behind are refused.
  decode_payload-append :
      (used : ℕ) (v : Value)
      → used ≤ length buf
      → decode_payload hex buf used ≡ ok v
      → (decode_payload hex (buf ++ (0xff ∷ t)) used ≡ ok v)
        ⊎ (decode_payload hex (buf ++ (0xff ∷ t)) used ≡ err tt)
  unfolding decode_payload slice_from
  decode_payload-append used v small e =
      let later : ltb used (length (buf ++ (0xff ∷ t))) ≡ true =
        lt→ltb _ _ (omega (arith, small, length-append buf (0xff ∷ t))) in
      let there : leb used (length (buf ++ (0xff ∷ t))) ≡ true =
        le→leb _ _ (omega (arith, small, length-append buf (0xff ∷ t))) in
      elim (Bool-cases (ltb used (length buf))) [
        | inl y ↦ inl (
            rw (later, there, drop-front used buf (0xff ∷ t) small)
              (Extends-bind (decode_value hex (drop used buf) 0)
                (decode_value hex (drop used buf ++ (0xff ∷ t)) 0) _ _
                (decode_value-Extends (0xff ∷ t) hex (drop used buf) 0) (λ r a f. f) v
                (rw (y, le→leb _ _ small) at e)))
        | inr y ↦
            let whole : used ≡ length buf = omega (arith, small, ltb→ge _ _ y) in
            inr (
              rw (later, there)
                (rw (whole, drop-append buf (0xff ∷ t), decode_value_ff hex t 0 (omega arith))
                  refl))
      ]

  -- The whole message: with bytes behind it that begin with 0xff it is read as before, or refused.
  pub decode_message-append :
      (m : Rpc2Message)
      → decode_message hex buf ≡ ok m
      → (decode_message hex (buf ++ (0xff ∷ t)) ≡ ok m)
        ⊎ (decode_message hex (buf ++ (0xff ∷ t)) ≡ err tt)
  unfolding decode_message
  decode_message-append m e = elim (Result-cases (decode_value hex buf 0)) [
    | inr (inl (u, y)) ↦ cc (rw y at e)
    | inr (inr y) ↦ cc (rw y at e)
    | inl (head_v, y) ↦ elim (Option-cases (as_object head_v.0)) [
      | inl z ↦ cc (rw (y, z) at e)
      | inr (obj, z) ↦ elim (Result-cases (decode_payload hex buf head_v.1)) [
        | inr (inl (u, w)) ↦ cc (rw (y, z, w) at e)
        | inr (inr w) ↦ cc (rw (y, z, w) at e)
        | inl (v, w) ↦
            let front = decode_value-Extends (0xff ∷ t) hex buf 0 head_v y in
            let small : head_v.1 ≤ length buf =
              (Ensures-ok {P = Within buf} y (decode_value-Ensures hex buf 0)).1 in
            elim (decode_payload-append head_v.1 v small w) [
              | inl same ↦ inl (rw (front, z, same) (rw (y, z, w) at e))
              | inr refused_tail ↦ inr (rw (front, z, refused_tail) refl)
            ]
      ]
    ]
  ]
