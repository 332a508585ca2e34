-- ===== src/Peer/Chain.antt =====
-- src/spore_peer.rs: the ledger of the stored bodies (`chain_view`) and the part of it that
-- Peer.Chain answers.
use spore_peer.Prelude.{
  ℕ, zero, suc, ◌+◌, ◌≤◌, ◌<◌, ◌≡◌, refl, Bool, ◌&&◌, ◌||◌, not, List, [], ◌∷◌, Option, none, some,
  Bytes, ascii, length, take, length-take, ltb, leb, ◌==◌, if◌then◌else◌, ok, err, panic, Try,
  ◌>>=◌, arith,
}
use spore_peer.Text.{ends_with}
use spore_peer.Store.Decode.{hex_decode}
use spore_peer.Store.Files.{Hold}

-- The time of a body with its hash.
abbrev pub Entry : Type 0
Entry = ℕ × Bytes

-- What the name of a file decodes to, `none` where the file is passed over.
unfoldable pub entry_cid : Bytes → Try (Option Bytes)
entry_cid name =
    if length name == 64 + 5 && ends_with name (ascii ".body")
    then (elim (hex_decode (take 64 name)) [
      | ok cid ↦ ok (if length cid == 32 then some cid else none)
      | err u ↦ ok none
      | panic ↦ panic
    ])
    else ok none

-- The loop over the directory, in its order.
unfoldable pub entries : Hold → Try (List Entry)
unfolding entry_cid
entries [] = ok []
entries ((name, file) ∷ hold) =
    let rest = entries hold in
    entry_cid name >>= λ cid.
    rest >>= λ es. ok (elim cid [ none ↦ es | some b ↦ (file.modified, b) ∷ es ])

-- `sort_by_key` on the time, which is stable.
unfoldable pub insert_entry : Entry → List Entry → List Entry
insert_entry e [] = e ∷ []
insert_entry e (x ∷ xs) = if leb e.0 x.0 then e ∷ x ∷ xs else x ∷ insert_entry e xs

unfoldable pub sort_entries : List Entry → List Entry
unfolding insert_entry
sort_entries [] = []
sort_entries (e ∷ es) = insert_entry e (sort_entries es)

-- `enumerate`, from the height `n`.
unfoldable pub number : ℕ → List Entry → List (ℕ × Bytes)
number n [] = []
number n (e ∷ es) = (n, e.1) ∷ number (suc n) es

unfoldable pub chain_view : Hold → Try (List (ℕ × Bytes))
unfolding entries sort_entries number
chain_view hold = entries hold >>= λ es. ok (number 0 (sort_entries es))

abbrev pub eligible : ℕ → ℕ × Bytes → Bool
eligible top e = top == 0 || leb e.0 top

-- The loop of Peer.Chain over the reversed chain, of which `count` entries have been selected.
unfoldable pub select : ℕ → ℕ → ℕ → List (ℕ × Bytes) → List (ℕ × Bytes)
select top n count [] = []
select top n count (e ∷ es) =
    let skipped = select top n count es in
    let more = select top n (suc count) es in
    if not (top == 0) && ltb top e.0 then skipped else (if suc count == n then e ∷ [] else e ∷ more)

-- The entries at or below the height, or all of them for the height 0.
abbrev pub below : ℕ → List (ℕ × Bytes) → List (ℕ × Bytes)
below top [] = []
below top (e ∷ es) = if eligible top e then e ∷ below top es else below top es

select_count :
    (top n count : ℕ) (es : List (ℕ × Bytes))
    → (k : ℕ) → n ≡ count + suc k
    → select top n count es ≡ take (suc k) (below top es)
unfolding select
select_count top n count [] k e = refl
select_count top n count (x ∷ es) zero e = ground (arith, select_count top n count es zero e)
select_count top n count (x ∷ es) (suc k) e = ground (
  arith,
  select_count top n count es (suc k) e,
  select_count top n (suc count) es k (omega (arith, e)),
)

-- What Peer.Chain selects for a count that is not zero: the first so many of the entries at or below
-- the height that was asked, in the order of the list, so never more than the count.
pub select_lem :
    (top n : ℕ) (es : List (ℕ × Bytes))
    → 0 < n
    → (select top n 0 es ≡ take n (below top es)) × (length (select top n 0 es) ≤ n)
select_lem top (suc k) es h =
    let e = select_count top (suc k) 0 es k (omega arith) in
    (e, rw e (omega (arith, length-take (suc k) (below top es))))
select_lem top zero es h = absurd (omega arith)
