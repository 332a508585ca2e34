-- ===== src/Fuzz.antt =====
-- fuzz/fuzz_targets/fuzz_p2p_decode.rs: the oracle over `decode_message`. An assertion that fails is a
-- panic.
use spore_peer.Prelude.{
  ◌≡◌, refl, true, false, Bool, ◌&&◌, ◌∷◌, ◌++◌, Result-cases, inl, inr, Bytes, ascii, ◌==◌,
  ==_refl, same_bytes, same_bytes_refl, Try, ok, err, panic, ◌>>◌,
}
use spore_peer.Json.{
  Value, Fields, Items, object, array, str, num, neg, float, bool, null, field, no_fields, item,
  no_items,
}
use spore_peer.Crates.{Hex}
use spore_peer.Cbor.Decode.{Rpc2Message, decode_message}
use spore_peer.Cbor.Bounds.{decode_message-ne-panic}
use spore_peer.Cbor.Prefix.{decode_message-append}

-- `==` on Booleans and on the values of serde_json.
abbrev pub same_bool : Bool → Bool → Bool
same_bool true true = true
same_bool false false = true
same_bool _ _ = false

unfoldable mutual
  pub same_value : Value → Value → Bool
  same_value (object fs) (object gs) = same_fields fs gs
  same_value (array vs) (array ws) = same_items vs ws
  same_value (str s) (str t) = same_bytes s t
  same_value (num n) (num m) = n == m
  same_value (neg n) (neg m) = n == m
  same_value (float n) (float m) = n == m
  same_value (bool a) (bool b) = same_bool a b
  same_value null null = true
  same_value _ _ = false

  pub same_fields : Fields → Fields → Bool
  same_fields no_fields no_fields = true
  same_fields (field k v fs) (field j w gs) = same_bytes k j && same_value v w && same_fields fs gs
  same_fields _ _ = false

  pub same_items : Items → Items → Bool
  same_items no_items no_items = true
  same_items (item v vs) (item w ws) = same_value v w && same_items vs ws
  same_items _ _ = false

-- The hostile tail.
abbrev behind : Bytes
behind =
    0xff ∷ 0xff ∷ 0xff ∷ 0x9b ∷ 0xff ∷ 0xff ∷ 0xff ∷ 0xff ∷ 0xff ∷ 0xff ∷ 0xff ∷ 0xff ∷ ascii "tail"

abbrev pub tail : Bytes
tail = 0xff ∷ behind

-- `assert!`
abbrev pub assert : Bool → Try (Unit {0})
assert true = ok tt
assert false = panic

unfoldable pub compared : Rpc2Message → Try Rpc2Message → Try (Unit {0})
unfolding same_value
compared m (ok again) =
    assert (same_bytes again.method m.method)
    >> assert (again.seq == m.seq)
    >> assert (same_bytes again.error m.error)
    >> assert (same_value again.payload m.payload)
compared m (err u) = ok tt
compared m panic = panic

unfoldable pub probed : Hex → Bytes → Try Rpc2Message → Try (Unit {0})
unfolding compared
probed hex input (ok m) = compared m (decode_message hex (input ++ tail))
probed hex input (err u) = ok tt
probed hex input panic = panic

unfoldable pub fuzz_target : Hex → Bytes → Try (Unit {0})
unfolding probed
fuzz_target hex input = probed hex input (decode_message hex input)

mutual
  unfolding same_value

  same_value_refl : (v : Value) → same_value v v ≡ true
  same_value_refl (object fs) = same_fields_refl fs
  same_value_refl (array vs) = same_items_refl vs
  same_value_refl (str s) = same_bytes_refl s
  same_value_refl (num n) = ==_refl n
  same_value_refl (neg n) = ==_refl n
  same_value_refl (float n) = ==_refl n
  same_value_refl (bool true) = refl
  same_value_refl (bool false) = refl
  same_value_refl null = refl

  same_fields_refl : (fs : Fields) → same_fields fs fs ≡ true
  same_fields_refl no_fields = refl
  same_fields_refl (field k v fs) = rw (same_bytes_refl k, same_value_refl v) (same_fields_refl fs)

  same_items_refl : (vs : Items) → same_items vs vs ≡ true
  same_items_refl no_items = refl
  same_items_refl (item v vs) = rw (same_value_refl v) (same_items_refl vs)

compared_refl : (m : Rpc2Message) → compared m (ok m) ≡ ok tt
unfolding compared
compared_refl m =
    rw (same_bytes_refl m.method, ==_refl m.seq, same_bytes_refl m.error, same_value_refl m.payload)
      refl

-- No input makes the fuzz target fail: the decoder never panics, and a frame that decodes decodes to
-- the same message with the hostile tail behind it, or not at all.
pub fuzz_target_lem : (hex : Hex) (input : Bytes) → fuzz_target hex input ≡ ok tt
unfolding fuzz_target probed
fuzz_target_lem hex input = elim (Result-cases (decode_message hex input)) [
  | inl (m, y) ↦ elim (decode_message-append hex input behind m y) [
    | inl same ↦ rw (y, same) (compared_refl m)
    | inr tail_refused ↦ rw (y, tail_refused) (unfold compared in refl)
  ]
  | inr (inl (u, y)) ↦ rw y refl
  | inr (inr y) ↦ absurd (decode_message-ne-panic hex input y)
]
