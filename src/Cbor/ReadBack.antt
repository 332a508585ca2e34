-- ===== src/Cbor/ReadBack.antt =====
-- What the decoder of src/p2p.rs reads off the encoding of an item.
use spore_peer.Prelude.{
  ℕ, zero, suc, ◌+◌, ◌<◌, ◌≡◌, ap, ◌∙◌, true, ◌++◌, append_assoc, Bytes, length, length-append,
  lt→ltb, ok, ◌>>=◌, arith, lengths,
}
use native.Mathlib.Nat.{add_assoc}
use spore_peer.Words.{IsU64}
use spore_peer.Text.{is_utf8}
use spore_peer.Json.{Value, Fields, str, object, no_fields, insert_field}
use spore_peer.Json
use spore_peer.Crates.{Hex}
use spore_peer.Cbor.Encode.{head}
use spore_peer.Cbor.Decode.{
  Decoder, decode_child, decode_items, decode_pairs, decode_string, decode_body, decode_levels,
  decode_value,
}
use spore_peer.Cbor.Item.{
  Item, Items, Pairs, uint, bytes, text, array, map, simple, nil, cons, end, pair, count,
  count_pairs, encode, encode_items, encode_pairs, value, values, fields, Fits, FitsItems,
  FitsPairs, FitsKey,
}
use spore_peer.Cbor.Slices.{get_range_mid, slice_from_mid}
use spore_peer.Cbor.Head.{read_head-head, head_of, short_info}

pub length-head_pos : (major n : ℕ) → 0 < length (head major n)
unfolding head
length-head_pos major n = ground arith

pub length-encode_pos : (i : Item) → 0 < length (encode i)
unfolding encode
length-encode_pos (uint n) = length-head_pos 0 n
length-encode_pos (bytes b) = omega (lengths, length-head_pos 2 (length b))
length-encode_pos (text s) = omega (lengths, length-head_pos 3 (length s))
length-encode_pos (array is) = omega (lengths, length-head_pos 4 (count is))
length-encode_pos (map ps) = omega (lengths, length-head_pos 5 (count_pairs ps))
length-encode_pos (simple k) = length-head_pos 7 k

-- A child that reads `taken` off the front of what follows `front`.
decode_child_mid :
    (child : Decoder) (front taken rest : Bytes) (v : Value)
    → child (taken ++ rest) ≡ ok (v, length taken)
    → 0 < length taken
    → IsU64 (length front + length taken)
    → decode_child child (front ++ (taken ++ rest)) (length front)
      ≡ ok (v, length front + length taken)
unfolding decode_child
decode_child_mid child front taken rest v e pos small =
    ground (arith, slice_from_mid front (taken ++ rest), e)

read_bytes :
    (hex : Hex) (b rest : Bytes)
    → IsU64 (length (head 2 (length b)) + length b)
    → decode_string hex (head_of 2 (length b)) (head 2 (length b) ++ (b ++ rest))
      ≡ ok (str (hex.encode b), length (head 2 (length b)) + length b)
unfolding decode_string
read_bytes hex b rest h = ground (arith, get_range_mid (head 2 (length b)) b rest)

read_text :
    (hex : Hex) (s rest : Bytes)
    → is_utf8 s ≡ true
    → IsU64 (length (head 3 (length s)) + length s)
    → decode_string hex (head_of 3 (length s)) (head 3 (length s) ++ (s ++ rest))
      ≡ ok (str s, length (head 3 (length s)) + length s)
unfolding decode_string
read_text hex s rest u h = ground (arith, get_range_mid (head 3 (length s)) s rest)

-- One level: the head is read, and the rest is up to `decode_body`.
read_level :
    (hex : Hex) (levels major n : ℕ) (tail : Bytes)
    → major < 8
    → IsU64 n
    → decode_levels hex (suc levels) (head major n ++ tail)
      ≡ decode_body hex (decode_levels hex levels) (head_of major n) (head major n ++ tail)
unfolding decode_levels
read_level hex levels major n tail hm hn = rw (read_head-head major n tail hm hn)

-- The three statements of the induction: on an item, on the items of an array and on the pairs of
-- a map, the latter two behind the part `front` of the buffer that is read already.
abbrev ReadsItem : Hex → Item → Type 0
ReadsItem hex i =
    (levels : ℕ) (rest : Bytes)
    → Fits levels i
    → IsU64 (length (encode i ++ rest))
    → decode_levels hex levels (encode i ++ rest) ≡ ok (value hex i, length (encode i))

abbrev ReadsItems : Hex → Items → Type 0
ReadsItems hex is =
    (levels : ℕ) (front rest : Bytes)
    → FitsItems levels is
    → IsU64 (length (front ++ (encode_items is ++ rest)))
    → decode_items (decode_levels hex levels) (count is) (front ++ (encode_items is ++ rest))
        (length front)
      ≡ ok (values hex is, length front + length (encode_items is))

abbrev ReadsPairs : Hex → Pairs → Type 0
ReadsPairs hex ps =
    (levels : ℕ) (front rest : Bytes) (m : Fields)
    → FitsPairs levels ps
    → IsU64 (length (front ++ (encode_pairs ps ++ rest)))
    → decode_pairs (decode_levels hex levels) (count_pairs ps) (front ++ (encode_pairs ps ++ rest))
        (length front) m
      ≡ ok (fields hex ps m, length front + length (encode_pairs ps))

read_uint : (hex : Hex) (n : ℕ) → ReadsItem hex (uint n)
unfolding encode value decode_body
read_uint hex n zero rest f h = absurd f
read_uint hex n (suc l) rest f h = read_level hex l 0 n rest (omega arith) f

read_simple : (hex : Hex) (k : ℕ) → ReadsItem hex (simple k)
unfolding encode value decode_body short_info
read_simple hex k zero rest f h = absurd f
read_simple hex k (suc l) rest f h =
    read_level hex l 7 k rest (omega arith) (omega arith) ∙ rw (lt→ltb k 24 f)

read_bytes_item : (hex : Hex) (b : Bytes) → ReadsItem hex (bytes b)
unfolding encode value decode_body
read_bytes_item hex b zero rest f h = absurd f
read_bytes_item hex b (suc l) rest f h = rw (append_assoc (head 2 (length b)) b rest) (
    read_level hex l 2 (length b) (b ++ rest) (omega arith) f
    ∙ rw (length-append (head 2 (length b)) b) (read_bytes hex b rest (omega lengths)))

read_text_item : (hex : Hex) (s : Bytes) → ReadsItem hex (text s)
unfolding encode value decode_body
read_text_item hex s zero rest f h = absurd f
read_text_item hex s (suc l) rest (f, u) h = rw (append_assoc (head 3 (length s)) s rest) (
    read_level hex l 3 (length s) (s ++ rest) (omega arith) f
    ∙ rw (length-append (head 3 (length s)) s) (read_text hex s rest u (omega lengths)))

read_array : (hex : Hex) (is : Items) → ReadsItems hex is → ReadsItem hex (array is)
unfolding encode value decode_body
read_array hex is ih zero rest f h = absurd f
read_array hex is ih (suc l) rest (f, fs) h =
    let hd = head 4 (count is) in
    let assoc = append_assoc hd (encode_items is) rest in
    rw assoc (
      read_level hex l 4 (count is) (encode_items is ++ rest) (omega arith) f
      ∙ rw (ih l hd rest fs (rw assoc at h), length-append hd (encode_items is)))

read_map : (hex : Hex) (ps : Pairs) → ReadsPairs hex ps → ReadsItem hex (map ps)
unfolding encode value decode_body
read_map hex ps ih zero rest f h = absurd f
read_map hex ps ih (suc l) rest (f, fs) h =
    let hd = head 5 (count_pairs ps) in
    let assoc = append_assoc hd (encode_pairs ps) rest in
    rw assoc (
      read_level hex l 5 (count_pairs ps) (encode_pairs ps ++ rest) (omega arith) f
      ∙ rw (ih l hd rest no_fields fs (rw assoc at h), length-append hd (encode_pairs ps)))

ruleset regroup = (append_assoc, length-append, add_assoc)

read_key :
    (hex : Hex) (k : Bytes) (levels : ℕ) (rest : Bytes)
    → FitsKey levels k
    → IsU64 (length (encode (text k) ++ rest))
    → decode_levels hex levels (encode (text k) ++ rest) ≡ ok (str k, length (encode (text k)))
unfolding value
read_key hex k zero rest (f, g, u) h = absurd (omega arith)
read_key hex k (suc l) rest (f, g, u) h = read_text_item hex k (suc l) rest (g, u) h

read_nil : (hex : Hex) → ReadsItems hex nil
unfolding encode value decode_items
read_nil hex levels front rest f h = ap (λ (n : ℕ). ok (Json.no_items, n)) (omega arith)

read_end : (hex : Hex) → ReadsPairs hex end
unfolding encode value decode_pairs
read_end hex levels front rest m f h = ap (λ (n : ℕ). ok (m, n)) (omega arith)

items_step :
    (child : Decoder) (n at : ℕ) (buf : Bytes) (v : Value) (at₁ : ℕ) (vs : Json.Items) (at₂ : ℕ)
    → decode_child child buf at ≡ ok (v, at₁)
    → decode_items child n buf at₁ ≡ ok (vs, at₂)
    → decode_items child (suc n) buf at ≡ ok (Json.item v vs, at₂)
unfolding decode_items
items_step child n at buf v at₁ vs at₂ e f = rw (e, ◌>>=◌) (rw (f, ◌>>=◌))

pairs_step :
    (child : Decoder) (n at : ℕ) (buf k : Bytes) (at₁ : ℕ) (v : Value) (at₂ : ℕ) (m : Fields)
    → decode_child child buf at ≡ ok (str k, at₁)
    → decode_child child buf at₁ ≡ ok (v, at₂)
    → decode_pairs child (suc n) buf at m ≡ decode_pairs child n buf at₂ (insert_field k v m)
unfolding decode_pairs
pairs_step child n at buf k at₁ v at₂ m e f = rw (e, ◌>>=◌) (rw (f, ◌>>=◌))

read_cons :
    (hex : Hex) (i : Item) (is : Items)
    → ReadsItem hex i
    → ReadsItems hex is
    → ReadsItems hex (cons i is)
unfolding encode value
read_cons hex i is ih ihs levels front rest (f, fs) h =
    let tail = encode_items is ++ rest in
    let first =
      decode_child_mid (decode_levels hex levels) front (encode i) tail (value hex i)
        (ih levels tail f (omega lengths)) (length-encode_pos i) (omega lengths) in
    let others = ihs levels (front ++ encode i) rest fs (omega lengths) in
    simp regroup (items_step _ _ _ _ _ _ _ _ first (simp regroup at others))

read_pair :
    (hex : Hex) (k : Bytes) (i : Item) (ps : Pairs)
    → ReadsItem hex i
    → ReadsPairs hex ps
    → ReadsPairs hex (pair k i ps)
unfolding encode value
read_pair hex k i ps ih ihs levels front rest m (fk, f, fs) h =
    let key = encode (text k) in
    let tail = encode_pairs ps ++ rest in
    let first =
      decode_child_mid (decode_levels hex levels) front key (encode i ++ tail) (str k)
        (read_key hex k levels (encode i ++ tail) fk (omega lengths)) (length-encode_pos (text k))
        (omega lengths) in
    let second =
      decode_child_mid (decode_levels hex levels) (front ++ key) (encode i) tail (value hex i)
        (ih levels tail f (omega lengths)) (length-encode_pos i) (omega lengths) in
    let others =
      ihs levels ((front ++ key) ++ encode i) rest (insert_field k (value hex i) m) fs
        (omega lengths) in
    simp regroup (
      pairs_step _ _ _ _ _ _ _ _ m (simp regroup at first) (simp regroup at second)
      ∙ simp regroup at others)

mutual
  read_item : (hex : Hex) (i : Item) → ReadsItem hex i
  read_item hex (uint n) = read_uint hex n
  read_item hex (bytes b) = read_bytes_item hex b
  read_item hex (text s) = read_text_item hex s
  read_item hex (array is) = read_array hex is (read_items hex is)
  read_item hex (map ps) = read_map hex ps (read_pairs hex ps)
  read_item hex (simple k) = read_simple hex k

  read_items : (hex : Hex) (is : Items) → ReadsItems hex is
  read_items hex nil = read_nil hex
  read_items hex (cons i is) = read_cons hex i is (read_item hex i) (read_items hex is)

  read_pairs : (hex : Hex) (ps : Pairs) → ReadsPairs hex ps
  read_pairs hex end = read_end hex
  read_pairs hex (pair k i ps) = read_pair hex k i ps (read_item hex i) (read_pairs hex ps)

-- The decoder of src/p2p.rs reads an encoded item off the front of any buffer: it returns the item's
-- value and the number of the item's bytes, whatever follows them. The item nests at most 65 deep,
-- its texts are UTF-8, and its numbers and the buffer's length are 64-bit words.
pub decode_value-encode :
    (hex : Hex) (i : Item) (rest : Bytes)
    → Fits 65 i
    → IsU64 (length (encode i ++ rest))
    → decode_value hex (encode i ++ rest) 0 ≡ ok (value hex i, length (encode i))
unfolding decode_value
decode_value-encode hex i rest f h = read_item hex i 65 rest f h
