-- ===== src/Cbor/Item.antt =====
-- CBOR items as abstract syntax: an independent description of what the encoder of src/p2p.rs
-- writes, and of the value that a reader is to see.
use spore_peer.Prelude.{ℕ, zero, suc, ◌<◌, ◌≡◌, true, [], ◌++◌, Bytes, length}
use spore_peer.Words.{IsU64}
use spore_peer.Text.{is_utf8}
use spore_peer.Json.{Value, Fields, num, str, object, no_fields, insert_field}
use spore_peer.Json
use spore_peer.Crates.{Hex}
use spore_peer.Cbor.Encode.{head}
use spore_peer.Cbor.Decode.{simple_value}

mutual
  pub data Item : Type 0 where
    uint : ℕ → Item
    bytes : Bytes → Item
    text : Bytes → Item
    array : Items → Item
    map : Pairs → Item
    simple : ℕ → Item

  pub data Items : Type 0 where
    nil : Items
    cons : Item → Items → Items

  pub data Pairs : Type 0 where
    end : Pairs
    pair : Bytes → Item → Pairs → Pairs

abbrev pub count : Items → ℕ
count nil = 0
count (cons i is) = suc (count is)

abbrev pub count_pairs : Pairs → ℕ
count_pairs end = 0
count_pairs (pair k i ps) = suc (count_pairs ps)

unfoldable mutual
  pub encode : Item → Bytes
  encode (uint n) = head 0 n
  encode (bytes b) = head 2 (length b) ++ b
  encode (text s) = head 3 (length s) ++ s
  encode (array is) = head 4 (count is) ++ encode_items is
  encode (map ps) = head 5 (count_pairs ps) ++ encode_pairs ps
  encode (simple k) = head 7 k

  pub encode_items : Items → Bytes
  encode_items nil = []
  encode_items (cons i is) = encode i ++ encode_items is

  pub encode_pairs : Pairs → Bytes
  encode_pairs end = []
  encode_pairs (pair k i ps) = (head 3 (length k) ++ k) ++ (encode i ++ encode_pairs ps)

-- The JSON value of an item: byte strings in hexadecimal, and of two pairs with one key the later.
unfoldable mutual
  pub value : Hex → Item → Value
  value hex (uint n) = num n
  value hex (bytes b) = str (hex.encode b)
  value hex (text s) = str s
  value hex (array is) = Value.array (values hex is)
  value hex (map ps) = object (fields hex ps no_fields)
  value hex (simple k) = simple_value 7 k

  pub values : Hex → Items → Json.Items
  values hex nil = Json.no_items
  values hex (cons i is) = Json.item (value hex i) (values hex is)

  pub fields : Hex → Pairs → Fields → Fields
  fields hex end m = m
  fields hex (pair k i ps) m = fields hex ps (insert_field k (value hex i) m)

-- The item nests at most `levels` deep, its numbers are 64-bit words and its texts are UTF-8.
abbrev pub FitsKey : ℕ → Bytes → Type 0
FitsKey levels k = (0 < levels) × IsU64 (length k) × (is_utf8 k ≡ true)

abbrev mutual
  pub Fits : ℕ → Item → Type 0
  Fits zero i = ⊥
  Fits (suc levels) (uint n) = IsU64 n
  Fits (suc levels) (bytes b) = IsU64 (length b)
  Fits (suc levels) (text s) = IsU64 (length s) × (is_utf8 s ≡ true)
  Fits (suc levels) (array is) = IsU64 (count is) × FitsItems levels is
  Fits (suc levels) (map ps) = IsU64 (count_pairs ps) × FitsPairs levels ps
  Fits (suc levels) (simple k) = k < 24

  pub FitsItems : ℕ → Items → Type 0
  FitsItems levels nil = Unit
  FitsItems levels (cons i is) = Fits levels i × FitsItems levels is

  pub FitsPairs : ℕ → Pairs → Type 0
  FitsPairs levels end = Unit
  FitsPairs levels (pair k i ps) = FitsKey levels k × Fits levels i × FitsPairs levels ps
