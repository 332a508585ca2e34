-- ===== src/Fabric/Reply.antt =====
-- src/fabric.rs, `handle_verb`, `handle_rpc2_fabric` and `json_to_cbor`: the verbs behind their two
-- encodings.
use spore_peer.Prelude.{
  ℕ, ◌≡◌, refl, ap, suc, true, false, [], ◌++◌, append_assoc, Option, none, some, Bytes, ascii,
  length, same_bytes, if◌then◌else◌, Result, ok, err, panic, Try,
}
use spore_peer.Words.{IsU64}
use spore_peer.Json.{
  Value, Fields, Items, null, bool, num, neg, float, str, array, object, no_items, item, no_fields,
  field, count_items, count_fields, get_str,
}
use spore_peer.Crates.{Crates, Hex}
use spore_peer.Refusal.{Refusal, refusal_text, fabric_disabled, bad_fabric_verb, bad_rpc2_method}
use spore_peer.Cbor.Encode
use spore_peer.Cbor.Encode.{head, kv, message, error_response}
use spore_peer.Cbor.Decode.{Rpc2Message, decode_value}
use spore_peer.Cbor.Item
use spore_peer.Cbor.Item.{
  Item, Pairs, uint, text, map, simple, nil, cons, end, pair, count, count_pairs, encode,
  encode_items, encode_pairs, value, Fits,
}
use spore_peer.Cbor.ReadBack.{decode_value-encode}
use spore_peer.Fabric.State.{Faults}
use spore_peer.Fabric.Reg.{run_freg}
use spore_peer.Fabric.Put.{Relay, PutTimes, run_fput}
use spore_peer.Fabric.Pop.{PopTimes, run_fpop}
use spore_peer.Peer.Fetch.{frame_ok, frame_err}

-- `n.as_u64().unwrap_or(0)` is 0 for a number that is negative or no integer.
unfoldable mutual
  pub json_to_cbor : Value → Bytes
  json_to_cbor (object m) = Encode.map (count_fields m) ++ cbor_fields m
  json_to_cbor (array a) = Encode.array (count_items a) ++ cbor_items a
  json_to_cbor (str t) = Encode.text t
  json_to_cbor (num n) = Encode.uint n
  json_to_cbor (neg n) = Encode.uint 0
  json_to_cbor (float b) = Encode.uint 0
  json_to_cbor (bool b) = if b then head 7 20 else head 7 19
  json_to_cbor null = head 7 22

  pub cbor_fields : Fields → Bytes
  cbor_fields no_fields = []
  cbor_fields (field k v m) = kv k (json_to_cbor v) ++ cbor_fields m

  pub cbor_items : Items → Bytes
  cbor_items no_items = []
  cbor_items (item v a) = json_to_cbor v ++ cbor_items a

-- The readings of the clock of any of the three verbs.
pub record VerbTimes : Type 0 where
  pub reg_at : ℕ
  pub put : PutTimes
  pub pop : PopTimes

pub data Verb : Type 0 where
  freg fput fpop : Verb

unfoldable pub run_verb :
    Crates → Faults → VerbTimes → Bytes → Verb → Value → Relay → Relay × Result Refusal Value
run_verb c f t ip freg req r =
    let done = run_freg c t.reg_at req r.state in (record r { state = done.0 }, done.1)
run_verb c f t ip fput req r = run_fput c f t.put ip req r
run_verb c f t ip fpop req r = run_fpop c f t.pop ip req r

-- `req.get("verb")`.
unfoldable pub verb_of : Value → Option Verb
verb_of req = elim (get_str req (ascii "verb")) [
  | none ↦ none
  | some v ↦
      if same_bytes v (ascii "freg")
      then some freg
      else (if same_bytes v (ascii "fput")
          then some fput
          else (if same_bytes v (ascii "fpop") then some fpop else none))
]

-- `reply`: the frame of the legacy encoding.
unfoldable pub reply : Crates → Result Refusal Value → Try Bytes
reply c (ok body) = ok (frame_ok (c.json.to_string body))
reply c (err e) = ok (frame_err (refusal_text e))
reply c panic = panic

-- `none` stands for a node without the fabric.
unfoldable pub handle_verb :
    Crates → Faults → VerbTimes → Bytes → Value → Option Relay → Option Relay × Try Bytes
unfolding run_verb verb_of reply
handle_verb c f t ip req none = (none, reply c (err fabric_disabled))
handle_verb c f t ip req (some r) = elim (verb_of req) [
  | none ↦ (some r, reply c (err bad_fabric_verb))
  | some v ↦ let done = run_verb c f t ip v req r in (some done.0, reply c done.1)
]

-- The method's verb.
unfoldable pub method_verb : Bytes → Option Verb
method_verb m =
    if same_bytes m (ascii "Peer.FabricReg")
    then some freg
    else (if same_bytes m (ascii "Peer.FabricPut")
        then some fput
        else (if same_bytes m (ascii "Peer.FabricPop") then some fpop else none))

-- The frame of the rpc2 encoding.
unfoldable pub rpc2_reply : ℕ → Result Refusal Value → Try Bytes
unfolding json_to_cbor
rpc2_reply seq (ok body) = ok (message [] seq [] (json_to_cbor body))
rpc2_reply seq (err e) = ok (error_response seq (refusal_text e))
rpc2_reply seq panic = panic

unfoldable pub handle_rpc2_fabric :
    Crates → Faults → VerbTimes → Bytes → Rpc2Message → Option Relay → Option Relay × Try Bytes
unfolding run_verb method_verb rpc2_reply
handle_rpc2_fabric c f t ip msg none = (none, rpc2_reply msg.seq (err fabric_disabled))
handle_rpc2_fabric c f t ip msg (some r) = elim (method_verb msg.method) [
  | none ↦ (some r, rpc2_reply msg.seq (err (bad_rpc2_method msg.method)))
  | some v ↦
      let done = run_verb c f t ip v msg.payload r in (some done.0, rpc2_reply msg.seq done.1)
]

-- The item that stands for a value. The Booleans stand for the simple values 20 and 19.
abbrev mutual
  pub item_of : Value → Item
  item_of (object m) = map (pairs_of m)
  item_of (array a) = Item.array (items_of a)
  item_of (str t) = text t
  item_of (num n) = uint n
  item_of (neg n) = uint 0
  item_of (float b) = uint 0
  item_of (bool b) = simple (if b then 20 else 19)
  item_of null = simple 22

  pub pairs_of : Fields → Pairs
  pairs_of no_fields = end
  pairs_of (field k v m) = pair k (item_of v) (pairs_of m)

  pub items_of : Items → Item.Items
  items_of no_items = nil
  items_of (item v a) = cons (item_of v) (items_of a)

count-pairs_of : (m : Fields) → count_pairs (pairs_of m) ≡ count_fields m
count-pairs_of no_fields = refl
count-pairs_of (field k v m) = ap suc (count-pairs_of m)

count-items_of : (a : Items) → count (items_of a) ≡ count_items a
count-items_of no_items = refl
count-items_of (item v a) = ap suc (count-items_of a)

mutual
  unfolding json_to_cbor encode Encode.map Encode.array Encode.text Encode.uint Encode.kv

  json_to_cbor-encode : (v : Value) → json_to_cbor v ≡ encode (item_of v)
  json_to_cbor-encode (object m) = rw (count-pairs_of m, cbor_fields-encode m) refl
  json_to_cbor-encode (array a) = rw (count-items_of a, cbor_items-encode a) refl
  json_to_cbor-encode (str t) = refl
  json_to_cbor-encode (num n) = refl
  json_to_cbor-encode (neg n) = refl
  json_to_cbor-encode (float b) = refl
  json_to_cbor-encode (bool true) = refl
  json_to_cbor-encode (bool false) = refl
  json_to_cbor-encode null = refl

  cbor_fields-encode : (m : Fields) → cbor_fields m ≡ encode_pairs (pairs_of m)
  cbor_fields-encode no_fields = refl
  cbor_fields-encode (field k v m) =
      rw (json_to_cbor-encode v, cbor_fields-encode m)
        (append_assoc (Encode.text k) (encode (item_of v)) (encode_pairs (pairs_of m)))

  cbor_items-encode : (a : Items) → cbor_items a ≡ encode_items (items_of a)
  cbor_items-encode no_items = refl
  cbor_items-encode (item v a) = rw (json_to_cbor-encode v, cbor_items-encode a) refl

-- What `json_to_cbor` writes is read back whole, at the front of any bytes, as the value of the item
-- that stands for it, in which true is the simple value 20 and false is 19. The item nests at most 65 deep, its texts are UTF-8, and its numbers and the buffer's length
-- are 64-bit words.
pub decode_value-json_to_cbor :
    (hex : Hex) (v : Value) (rest : Bytes)
    → Fits 65 (item_of v)
    → IsU64 (length (json_to_cbor v ++ rest))
    → decode_value hex (json_to_cbor v ++ rest) 0
      ≡ ok (value hex (item_of v), length (json_to_cbor v))
decode_value-json_to_cbor hex v rest f small =
    rw (json_to_cbor-encode v)
      (decode_value-encode hex (item_of v) rest f (rw (json_to_cbor-encode v) at small))
