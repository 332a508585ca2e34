-- ===== src/Peer/Ledger.antt =====
-- The entries of the ledger of src/spore_peer.rs, `chain_view`, and of what Peer.Chain selects of it.
use mathlib.Core.List.{reverse_aux}
use spore_peer.Prelude.{
  ℕ, suc, ◌+◌, ◌*◌, ◌%◌, ◌≤◌, ◌<◌, ◌≡◌, refl, ap, subst, ◌&&◌, not, Bool-cases, Option-cases,
  Result-cases, inl, inr, List, [], ◌∷◌, reverse, Option, none, some, Bytes, IsByte, ascii, All,
  length, take, ltb, leb, ◌==◌, ==_iff, ok, arith,
}
use spore_peer.Text.{hex_digit, ends_with}
use spore_peer.Store.Decode.{at_boundary, from_pair, decode_chunks, hex_decode}
use spore_peer.Store.Files.{File, Hold}
use spore_peer.Peer.Chain.{
  Entry, entry_cid, entries, insert_entry, sort_entries, number, chain_view, select,
}

-- A hash of 32 bytes.
abbrev pub IsHash : Bytes → Type 0
IsHash blid = (length blid ≡ 32) × All IsByte blid

hex_digit-below : (c d : ℕ) → hex_digit c ≡ some d → d < 16
unfolding hex_digit
hex_digit-below c d e = ground arith

or_zero : Option ℕ → ℕ
or_zero none = 0
or_zero (some n) = n

from_pair-IsByte : (a b x : ℕ) → from_pair a b ≡ some x → IsByte x
unfolding from_pair or_zero
from_pair-IsByte a b x e = elim (Option-cases (hex_digit b)) [
  | inl y ↦ cc (rw (y, from_pair) at e)
  | inr (l, y) ↦ elim (Bool-cases (a == b'+')) [
    | inl z ↦
        let same : some l ≡ some x = rw (y, z, from_pair) at e in
        omega (arith, hex_digit-below b l y, ap or_zero same)
    | inr z ↦ elim (Option-cases (hex_digit a)) [
      | inl w ↦ cc (rw (y, z, w, from_pair) at e)
      | inr (h, w) ↦
          let same : some (16 * h + l) ≡ some x = rw (y, z, w, from_pair) at e in
          omega (arith, hex_digit-below b l y, hex_digit-below a h w, ap or_zero same)
    ]
  ]
]

decode_chunks-IsByte : (s b : Bytes) → decode_chunks s ≡ ok b → All IsByte b
unfolding decode_chunks
decode_chunks-IsByte [] b e = let same : [] ≡ b = cc e in subst (All IsByte) same tt
decode_chunks-IsByte (c ∷ []) b e = cc
decode_chunks-IsByte (c ∷ d ∷ s) b e =
    elim (Bool-cases (at_boundary (c ∷ d ∷ s) && at_boundary s)) [
      | inr y ↦ cc (rw y at e)
      | inl y ↦ elim (Option-cases (from_pair c d)) [
        | inl z ↦ cc (rw (y, z) at e)
        | inr (x, z) ↦ elim (Result-cases (decode_chunks s)) [
          | inl (xs, w) ↦
              let same : (x ∷ xs) ≡ b = cc (rw (y, z, w) at e) in
              rw (← same) (from_pair-IsByte c d x z, decode_chunks-IsByte s xs w)
          | inr (inl (u, w)) ↦ cc (rw (y, z, w) at e)
          | inr (inr w) ↦ cc (rw (y, z, w) at e)
        ]
      ]
    ]

pub hex_decode-IsByte : (s b : Bytes) → hex_decode s ≡ ok b → All IsByte b
unfolding hex_decode
hex_decode-IsByte s b e = elim (Bool-cases (length s % 2 == 0)) [
  | inl y ↦ decode_chunks-IsByte s b (rw y at e)
  | inr y ↦ cc (rw y at e)
]

entry_cid-IsHash : (name cid : Bytes) → entry_cid name ≡ ok (some cid) → IsHash cid
unfolding entry_cid
entry_cid-IsHash name cid e =
    elim (Bool-cases (length name == 64 + 5 && ends_with name (ascii ".body"))) [
      | inr y ↦ cc (rw y at e)
      | inl y ↦ elim (Result-cases (hex_decode (take 64 name))) [
        | inr (inl (u, z)) ↦ cc (rw (y, z) at e)
        | inr (inr z) ↦ cc (rw (y, z) at e)
        | inl (raw, z) ↦ elim (Bool-cases (length raw == 32)) [
          | inr w ↦ cc (rw (y, z, w) at e)
          | inl w ↦
              let same : raw ≡ cid = cc (rw (y, z, w) at e) in
              rw (← same) ((==_iff (length raw) 32).0 w, hex_decode-IsByte (take 64 name) raw z)
        ]
      ]
    ]

-- Every entry has a hash.
abbrev Hashes : List Entry → Type 0
Hashes es = All (λ e. IsHash e.1) es

with_entry :
    (name : Bytes) (file : File) (cid : Option Bytes) (xs es : List Entry)
    → entry_cid name ≡ ok cid
    → Hashes xs
    → (elim cid [ none ↦ xs | some b ↦ (file.modified, b) ∷ xs ]) ≡ es
    → Hashes es
with_entry name file none xs es e hs same = subst Hashes same hs
with_entry name file (some b) xs es e hs same = subst Hashes same (entry_cid-IsHash name b e, hs)

entries-Hashes : (hold : Hold) (es : List Entry) → entries hold ≡ ok es → Hashes es
unfolding entries
entries-Hashes [] es e = let same : [] ≡ es = cc e in subst Hashes same tt
entries-Hashes ((name, file) ∷ hold) es e = elim (Result-cases (entry_cid name)) [
  | inr (inl (u, y)) ↦ cc (rw y at e)
  | inr (inr y) ↦ cc (rw y at e)
  | inl (cid, y) ↦ elim (Result-cases (entries hold)) [
    | inr (inl (u, z)) ↦ cc (rw (y, z) at e)
    | inr (inr z) ↦ cc (rw (y, z) at e)
    | inl (xs, z) ↦
        with_entry name file cid xs es y (entries-Hashes hold xs z) (cc (rw (y, z) at e))
  ]
]

insert_entry-Hashes :
    (e : Entry) (es : List Entry) → IsHash e.1 → Hashes es → Hashes (insert_entry e es)
unfolding insert_entry
insert_entry-Hashes e [] h hs = (h, tt)
insert_entry-Hashes e (x ∷ xs) h (hx, hs) = elim (Bool-cases (leb e.0 x.0)) [
  | inl y ↦ rw y (h, (hx, hs))
  | inr y ↦ rw y (hx, insert_entry-Hashes e xs h hs)
]

sort_entries-Hashes : (es : List Entry) → Hashes es → Hashes (sort_entries es)
unfolding sort_entries
sort_entries-Hashes [] hs = tt
sort_entries-Hashes (e ∷ es) (h, hs) =
    insert_entry-Hashes e (sort_entries es) h (sort_entries-Hashes es hs)

-- A height below a bound, and a hash.
abbrev pub IsEntry : ℕ → ℕ × Bytes → Type 0
IsEntry bound e = (e.0 < bound) × IsHash e.1

length-number : (n : ℕ) (es : List Entry) → length (number n es) ≡ length es
unfolding number
length-number n [] = refl
length-number n (e ∷ es) = ap suc (length-number (suc n) es)

number-IsEntry :
    (n bound : ℕ) (es : List Entry)
    → n + length es ≤ bound
    → Hashes es
    → All (IsEntry bound) (number n es)
unfolding number
number-IsEntry n bound [] le hs = tt
number-IsEntry n bound (e ∷ es) le (h, hs) =
    ((omega arith, h), number-IsEntry (suc n) bound es (omega arith) hs)

-- The heights of the ledger are below its length, and its hashes are hashes.
pub chain_view-IsEntry :
    (hold : Hold) (chain : List (ℕ × Bytes))
    → chain_view hold ≡ ok chain
    → All (IsEntry (length chain)) chain
unfolding chain_view
chain_view-IsEntry hold chain e = elim (Result-cases (entries hold)) [
  | inl (es, y) ↦
      let same : number 0 (sort_entries es) ≡ chain = cc (rw y at e) in
      rw (← same) (
        number-IsEntry 0 (length (number 0 (sort_entries es))) (sort_entries es)
          (omega (arith, length-number 0 (sort_entries es)))
          (sort_entries-Hashes es (entries-Hashes hold es y)))
  | inr (inl (u, y)) ↦ cc (rw y at e)
  | inr (inr y) ↦ cc (rw y at e)
]

module _ {A : Type 0} (P : A → Type 0) where
  All-reverse_aux : (xs ys : List A) → All P xs → All P ys → All P (reverse_aux xs ys)
  All-reverse_aux [] ys hx hy = hy
  All-reverse_aux (x ∷ xs) ys (h, hx) hy = All-reverse_aux xs (x ∷ ys) hx (h, hy)

  pub All-reverse : (xs : List A) → All P xs → All P (reverse xs)
  All-reverse xs h = All-reverse_aux xs [] h tt

pub All-select :
    (P : ℕ × Bytes → Type 0) (top n count : ℕ) (es : List (ℕ × Bytes))
    → All P es
    → All P (select top n count es)
unfolding select
All-select P top n count [] hs = tt
All-select P top n count (e ∷ es) (h, hs) = elim (Bool-cases (not (top == 0) && ltb top e.0)) [
  | inl y ↦ rw y (All-select P top n count es hs)
  | inr y ↦ elim (Bool-cases (suc count == n)) [
    | inl z ↦ rw (y, z) (h, tt)
    | inr z ↦ rw (y, z) (h, All-select P top n (suc count) es hs)
  ]
]
