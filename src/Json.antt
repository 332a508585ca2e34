-- ===== src/Json.antt =====
-- The values of serde_json, as src/p2p.rs, src/fabric.rs and src/spore_peer.rs build and read them.
-- A text is its UTF-8 bytes; an object is serde_json's default map, which is ordered by key.
use spore_peer.Prelude.{
  ℕ, suc, Bool, true, false, [], ◌∷◌, Option, none, some, Bytes, ltb, ◌==◌, same_bytes,
  if◌then◌else◌,
}

-- `neg n` is the integer -(n + 1); `float` carries the bits of a number that is no integer.
mutual
  pub data Value : Type 0 where
    object : Fields → Value
    array : Items → Value
    str : Bytes → Value
    num neg float : ℕ → Value
    bool : Bool → Value
    null : Value

  pub data Fields : Type 0 where
    field : Bytes → Value → Fields → Fields
    no_fields : Fields

  pub data Items : Type 0 where
    item : Value → Items → Items
    no_items : Items

abbrev pub count_items : Items → ℕ
count_items no_items = 0
count_items (item v vs) = suc (count_items vs)

abbrev pub count_fields : Fields → ℕ
count_fields no_fields = 0
count_fields (field k v fs) = suc (count_fields fs)

-- The order of keys: `Ord` on `String`, which is that of the bytes.
abbrev pub key_lt : Bytes → Bytes → Bool
key_lt [] [] = false
key_lt [] (y ∷ ys) = true
key_lt (x ∷ xs) [] = false
key_lt (x ∷ xs) (y ∷ ys) = if ltb x y then true else (if x == y then key_lt xs ys else false)

-- `Map::insert`: the value at the key is replaced, or the key is added at its place.
unfoldable pub insert_field : Bytes → Value → Fields → Fields
insert_field k v no_fields = field k v no_fields
insert_field k v (field j w fs) =
    let rest = insert_field k v fs in
    if same_bytes k j
    then field k v fs
    else (if key_lt k j then field k v (field j w fs) else field j w rest)

-- `Map::get`.
unfoldable pub lookup_field : Bytes → Fields → Option Value
lookup_field k no_fields = none
lookup_field k (field j w fs) = if same_bytes k j then some w else lookup_field k fs

-- `Value::as_str`, `as_u64`, `as_array`, `as_object` and `get`.
abbrev pub as_str : Value → Option Bytes
as_str (str s) = some s
as_str _ = none

abbrev pub as_u64 : Value → Option ℕ
as_u64 (num n) = some n
as_u64 _ = none

abbrev pub as_array : Value → Option Items
as_array (array vs) = some vs
as_array _ = none

abbrev pub as_object : Value → Option Fields
as_object (object fs) = some fs
as_object _ = none

abbrev pub get : Value → Bytes → Option Value
get (object fs) k = lookup_field k fs
get _ k = none

-- `o.and_then(f)`.
abbrev pub and_then {ℓ κ} : {A : Type ℓ} {B : Type κ} → Option A → (A → Option B) → Option B
and_then none f = none
and_then (some a) f = f a

-- `o.unwrap_or(d)`.
abbrev pub unwrap_or {ℓ} : {A : Type ℓ} → Option A → A → A
unwrap_or none d = d
unwrap_or (some a) d = a

-- `v.get(k).and_then(|v| v.as_str())` and the same with `as_u64`.
abbrev pub get_str : Value → Bytes → Option Bytes
get_str v k = and_then (get v k) as_str

abbrev pub get_u64 : Value → Bytes → Option ℕ
get_u64 v k = and_then (get v k) as_u64
