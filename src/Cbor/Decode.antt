-- ===== src/Cbor/Decode.antt =====
-- src/p2p.rs, `decode_value` and `decode_message`. A slice out of bounds is a panic.
use spore_peer.Prelude.{
  ℕ, zero, suc, ◌+◌, ◌-◌, ◌/◌, ◌%◌, ◌^◌, true, false, ◌&&◌, [], ◌∷◌, Option, none, some, Bytes,
  ascii, length, take, drop, ltb, leb, ◌==◌, if◌then◌else◌, Try, ok, panic, refused, guard, ok_or,
  ◌>>=◌, ◌>>◌,
}
use spore_peer.Words.{from_be_bytes, checked_add}
use spore_peer.Text.{is_utf8}
use spore_peer.Json.{
  Value, Items, Fields, null, bool, num, neg, str, array, object, no_items, item, no_fields,
  insert_field, as_str, as_object, lookup_field, as_u64, and_then, unwrap_or,
}
use spore_peer.Crates.{Hex}

pub record Rpc2Message : Type 0 where
  pub method : Bytes
  pub seq : ℕ
  pub error : Bytes
  pub payload : Value

abbrev pub max_depth : ℕ
max_depth = 64

-- `&buf[at..]`.
unfoldable pub slice_from : Bytes → ℕ → Try Bytes
slice_from buf at = if leb at (length buf) then ok (drop at buf) else panic

-- `buf.get(from..to)`.
unfoldable pub get_range : Bytes → ℕ → ℕ → Option Bytes
get_range buf from to =
    if leb from to && leb to (length buf) then some (take (to - from) (drop from buf)) else none

-- The head of an item: its major type, its short argument, the argument and the bytes taken.
pub record Head : Type 0 where
  pub major : ℕ
  pub info : ℕ
  pub n : ℕ
  pub pos : ℕ

-- An argument of `k` bytes behind the first.
unfoldable pub read_arg : ℕ → ℕ → ℕ → Bytes → Try Head
read_arg major info k rest = do
  b ← ok_or (get_range rest 0 k) tt
  ok (record { major = major; info = info; n = from_be_bytes b; pos = k + 1 })

-- The `match info`.
unfoldable pub head_args : ℕ → ℕ → Bytes → Try Head
head_args major info rest =
    if ltb info 24
    then ok (record { major = major; info = info; n = info; pos = 1 })
    else (if info == 24
        then read_arg major info 1 rest
        else (if info == 25
            then read_arg major info 2 rest
            else (if info == 26
                then read_arg major info 4 rest
                else (if info == 27 then read_arg major info 8 rest else refused))))

unfoldable pub read_head : Bytes → Try Head
unfolding head_args read_arg get_range
read_head [] = refused
read_head (ib ∷ rest) = head_args (ib / 32) (ib % 32) rest

-- `decode_value` at the next depth.
abbrev pub Decoder : Type 0
Decoder = Bytes → Try (Value × ℕ)

-- One child at `at`: the value and the position behind it.
unfoldable pub decode_child : Decoder → Bytes → ℕ → Try (Value × ℕ)
unfolding slice_from
decode_child child buf at = do
  here ← slice_from buf at
  r ← child here
  guard (ltb 0 r.1) tt
  next ← ok_or (checked_add at r.1) tt
  ok (r.0, next)

-- The loop of an array over the items that are left.
unfoldable pub decode_items : Decoder → ℕ → Bytes → ℕ → Try (Items × ℕ)
decode_items child zero buf at = ok (no_items, at)
decode_items child (suc n) buf at = do
  v ← decode_child child buf at
  vs ← decode_items child n buf v.1
  ok (item v.0 vs.0, vs.1)

-- A key that is no text is dropped with its value.
unfoldable pub insert_pair : Value → Value → Fields → Fields
insert_pair (str ks) v m = insert_field ks v m
insert_pair _ v m = m

-- The loop of a map over the pairs that are left.
unfoldable pub decode_pairs : Decoder → ℕ → Bytes → ℕ → Fields → Try (Fields × ℕ)
unfolding insert_pair
decode_pairs child zero buf at m = ok (m, at)
decode_pairs child (suc n) buf at m = do
  k ← decode_child child buf at
  v ← decode_child child buf k.1
  decode_pairs child n buf v.1 (insert_pair k.0 v.0 m)

-- Byte strings and texts.
unfoldable pub decode_string : Hex → Head → Bytes → Try (Value × ℕ)
unfolding get_range
decode_string hex h buf = do
  end ← ok_or (checked_add h.pos h.n) tt
  b ← ok_or (get_range buf h.pos end) tt
  if h.major == 3 then (guard (is_utf8 b) tt >> ok (str b, end)) else ok (str (hex.encode b), end)

-- Tags, simple values, booleans and null.
unfoldable pub simple_value : ℕ → ℕ → Value
simple_value major info =
    if major == 7 && info == 20
    then bool false
    else (if major == 7 && info == 21 then bool true else null)

-- The item behind a head.
unfoldable pub decode_body : Hex → Decoder → Head → Bytes → Try (Value × ℕ)
unfolding decode_string simple_value
decode_body hex child h buf =
    if h.major == 0
    then ok (num h.n, h.pos)
    else (if h.major == 1
        then (if ltb (2 ^ 63) (h.n + 1) then refused else ok (neg h.n, h.pos))
        else (if h.major == 2
            then decode_string hex h buf
            else (if h.major == 3
                then decode_string hex h buf
                else (if h.major == 4
                    then (do vs ← decode_items child h.n buf h.pos; ok (array vs.0, vs.1))
                    else (if h.major == 5
                        then (do
                          m ← decode_pairs child h.n buf h.pos no_fields
                          ok (object m.0, m.1))
                        else (if ltb h.major 8
                            then ok (simple_value h.major h.info, h.pos)
                            else refused))))))

-- `decode_value` with `levels` depths left: at depth `d` these are `max_depth + 1 - d`, and at
-- none left the nesting is refused.
unfoldable pub decode_levels : Hex → ℕ → Bytes → Try (Value × ℕ)
decode_levels hex zero buf = refused
decode_levels hex (suc levels) buf = do
  h ← read_head buf
  decode_body hex (decode_levels hex levels) h buf

unfoldable pub decode_value : Hex → Bytes → ℕ → Try (Value × ℕ)
decode_value hex buf depth = decode_levels hex (max_depth + 1 - depth) buf

unfoldable pub decode_payload : Hex → Bytes → ℕ → Try Value
unfolding slice_from
decode_payload hex buf used =
    if ltb used (length buf)
    then (do rest ← slice_from buf used; r ← decode_value hex rest 0; guard (ltb 0 r.1) tt; ok r.0)
    else ok null

unfoldable pub decode_message : Hex → Bytes → Try Rpc2Message
decode_message hex buf = do
  head_v ← decode_value hex buf 0
  obj ← ok_or (as_object head_v.0) tt
  payload ← decode_payload hex buf head_v.1
  ok (record {
    method = unwrap_or (and_then (lookup_field (ascii "M") obj) as_str) [];
    seq = unwrap_or (and_then (lookup_field (ascii "S") obj) as_u64) 0;
    error = unwrap_or (and_then (lookup_field (ascii "E") obj) as_str) [];
    payload = payload;
  })
