-- ===== src/Cbor/Payloads.antt =====
-- The payload builders of src/p2p.rs as items, and the JSON values that the servers and clients of
-- src/spore_peer.rs look into.
use spore_peer.Prelude.{
  ℕ, suc, ◌≡◌, refl, ap, ◌∙◌, true, Bool-cases, inl, inr, List, [], ◌∷◌, append-nil, append_assoc,
  Bytes, All, ascii, length, ltb, if◌then◌else◌, ok, arith,
}
use spore_peer.Words.{IsU64}
use spore_peer.Text.{is_utf8}
use spore_peer.Json.{
  Fields, num, str, array, object, no_items, item, no_fields, field, insert_field,
}
use spore_peer.Json
use spore_peer.Crates.{Hex}
use spore_peer.Cbor.Encode
use spore_peer.Cbor.Encode.{
  message, chain_response, chain_pairs, handshake_request, handshake_response, chain_request,
  getobject_request, getobject_response, putobject_request, putobject_response,
}
use spore_peer.Cbor.Decode.{decode_message}
use spore_peer.Cbor.Item.{
  Item, Items, uint, bytes, text, map, nil, cons, end, pair, count, encode, encode_items, value,
  values, Fits, FitsItems,
}
use spore_peer.Cbor.Messages.{IsHeader, empty-IsHeader, decode_message-message}

ruleset builders = (append_assoc, append-nil)

abbrev pub chain_item : List (ℕ × Bytes) → Items
chain_item [] = nil
chain_item ((h, blid) ∷ pairs) =
    cons (Item.array (cons (uint h) (cons (bytes blid) nil))) (chain_item pairs)

pub count-chain_item : (pairs : List (ℕ × Bytes)) → count (chain_item pairs) ≡ length pairs
count-chain_item [] = refl
count-chain_item ((h, blid) ∷ pairs) = ap suc (count-chain_item pairs)

chain_pairs-encode :
    (pairs : List (ℕ × Bytes)) → chain_pairs pairs ≡ encode_items (chain_item pairs)
unfolding chain_pairs encode Encode.array Encode.uint Encode.hash32 Encode.bytes
chain_pairs-encode [] = refl
chain_pairs-encode ((h, blid) ∷ pairs) = simp (builders, chain_pairs-encode pairs)

pub chain_response-encode :
    (pairs : List (ℕ × Bytes)) → chain_response pairs ≡ encode (Item.array (chain_item pairs))
unfolding chain_response encode Encode.array
chain_response-encode pairs = rw (count-chain_item pairs, chain_pairs-encode pairs)

-- The heights of a chain response are 64-bit words and its hashes have 64-bit lengths.
abbrev pub IsChain : List (ℕ × Bytes) → Type 0
IsChain pairs = All (λ p. IsU64 p.0 × IsU64 (length p.1)) pairs

chain-FitsItems : (pairs : List (ℕ × Bytes)) → IsChain pairs → FitsItems 64 (chain_item pairs)
chain-FitsItems [] h = tt
chain-FitsItems ((n, blid) ∷ pairs) ((hn, hb), hs) =
    ((omega arith, (hn, (hb, tt))), chain-FitsItems pairs hs)

-- The JSON array of [topoheight, blid] pairs.
abbrev pub chain_values : Hex → List (ℕ × Bytes) → Json.Items
chain_values hex [] = no_items
chain_values hex ((h, blid) ∷ pairs) =
    item (array (item (num h) (item (str (hex.encode blid)) no_items))) (chain_values hex pairs)

values-chain_item :
    (hex : Hex) (pairs : List (ℕ × Bytes)) → values hex (chain_item pairs) ≡ chain_values hex pairs
unfolding value
values-chain_item hex [] = refl
values-chain_item hex ((h, blid) ∷ pairs) = rw (values-chain_item hex pairs)

-- A Peer.Chain response reads back as the array of its [topoheight, blid] pairs, in their order and
-- with the hashes in hexadecimal. The sequence number, the heights, the number of pairs and the
-- frame's length are 64-bit words.
pub decode_message-chain_response :
    (hex : Hex) (seq : ℕ) (pairs : List (ℕ × Bytes))
    → IsU64 seq
    → IsChain pairs
    → IsU64 (length pairs)
    → IsU64 (length (message [] seq [] (chain_response pairs)))
    → decode_message hex (message [] seq [] (chain_response pairs))
      ≡ ok (record { method = []; seq = seq; error = []; payload = array (chain_values hex pairs) })
unfolding value
decode_message-chain_response hex seq pairs hs hc hl small =
    let eq = chain_response-encode pairs in
    rw eq (
      decode_message-message hex [] seq [] (Item.array (chain_item pairs)) (empty-IsHeader seq hs)
        (rw (count-chain_item pairs) hl, chain-FitsItems pairs hc) (rw eq at small)
      ∙ rw (values-chain_item hex pairs))

-- The fields of a Peer.PutObject request: TOKEN stands only where the token is not empty.
abbrev pub put_item : Bytes → Bytes → Bytes → Item
put_item blid body token = map (
    pair (ascii "BLID") (bytes blid) (
      pair (ascii "BODY") (bytes body)
        (if ltb 0 (length token) then pair (ascii "TOKEN") (text token) end else end)))

pub putobject_request-encode :
    (blid body token : Bytes)
    → putobject_request blid body token ≡ encode (put_item blid body token)
unfolding putobject_request encode Encode.map Encode.kv Encode.text Encode.hash32 Encode.bytes
putobject_request-encode blid body token = elim (Bool-cases (ltb 0 (length token))) [
  | inl e ↦ rw e (simp builders)
  | inr e ↦ rw e (simp builders)
]

-- The JSON object that the server reads a Peer.PutObject request as.
abbrev pub put_fields : Hex → Bytes → Bytes → Bytes → Fields
put_fields hex blid body token = field (ascii "BLID") (str (hex.encode blid)) (
    field (ascii "BODY") (str (hex.encode body))
      (if ltb 0 (length token) then field (ascii "TOKEN") (str token) no_fields else no_fields))

put_value :
    (hex : Hex) (blid body token : Bytes)
    → value hex (put_item blid body token) ≡ object (put_fields hex blid body token)
unfolding value insert_field
put_value hex blid body token = elim (Bool-cases (ltb 0 (length token))) [
  | inl e ↦ rw e
  | inr e ↦ rw e
]

put-Fits :
    (blid body token : Bytes)
    → IsU64 (length blid)
    → IsU64 (length body)
    → IsU64 (length token)
    → is_utf8 token ≡ true
    → Fits 65 (put_item blid body token)
unfolding is_utf8
put-Fits blid body token hb hd ht u = elim (Bool-cases (ltb 0 (length token))) [
  | inl e ↦ rw e (
    omega arith,
    (
      (omega arith, omega arith, refl),
      hb,
      ((omega arith, omega arith, refl), hd, ((omega arith, omega arith, refl), (ht, u), tt)),
    ),
  )
  | inr e ↦ rw e (
    omega arith,
    ((omega arith, omega arith, refl), hb, ((omega arith, omega arith, refl), hd, tt)),
  )
]

-- A Peer.PutObject request reads back as its method and an object with the hash and the body in
-- hexadecimal, and the token exactly where it is not empty. The token is UTF-8, and the sequence
-- number, the lengths and the frame's length are 64-bit words.
pub decode_message-putobject_request :
    (hex : Hex) (seq : ℕ) (blid body token : Bytes)
    → IsU64 seq
    → IsU64 (length blid)
    → IsU64 (length body)
    → IsU64 (length token)
    → is_utf8 token ≡ true
    → IsU64 (length (message (ascii "Peer.PutObject") seq [] (putobject_request blid body token)))
    → decode_message hex
        (message (ascii "Peer.PutObject") seq [] (putobject_request blid body token))
      ≡ ok (record {
        method = ascii "Peer.PutObject";
        seq = seq;
        error = [];
        payload = object (put_fields hex blid body token);
      })
unfolding is_utf8
decode_message-putobject_request hex seq blid body token hs hb hd ht u small =
    let eq = putobject_request-encode blid body token in
    let hdr : IsHeader (ascii "Peer.PutObject") seq [] = record {
      method_len = omega arith;
      method_utf8 = refl;
      seq_word = hs;
      error_len = omega arith;
      error_utf8 = refl;
    } in
    rw eq (
      decode_message-message hex (ascii "Peer.PutObject") seq [] (put_item blid body token) hdr
        (put-Fits blid body token hb hd ht u) (rw eq at small)
      ∙ rw (put_value hex blid body token))
