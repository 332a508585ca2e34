-- ===== src/Dict.antt =====
-- A map from texts, such as a `HashMap<String, V>` or the files of a directory, as an association
-- list in which a key stands once.
use spore_peer.Prelude.{
  ◌+◌, ◌≤◌, ◌≡◌, ◌≢◌, refl, Bool, List, [], ◌∷◌, Option, none, some, Bytes, same_bytes,
  same_bytes_refl, same_bytes_iff, length, if◌then◌else◌, arith,
}

abbrev pub Dict {ℓ} : Type ℓ → Type ℓ
Dict V = List (Bytes × V)

module _ {ℓ} {V : Type ℓ} where
  unfoldable pub lookup : Bytes → Dict V → Option V
  lookup k [] = none
  lookup k ((j, v) ∷ d) = if same_bytes j k then some v else lookup k d

  unfoldable pub insert : Bytes → V → Dict V → Dict V
  insert k v [] = (k, v) ∷ []
  insert k v ((j, w) ∷ d) = if same_bytes j k then (k, v) ∷ d else (j, w) ∷ insert k v d

  unfoldable pub remove : Bytes → Dict V → Dict V
  remove k [] = []
  remove k ((j, w) ∷ d) = if same_bytes j k then remove k d else (j, w) ∷ remove k d

  -- `HashMap::retain` by a test on the value.
  unfoldable pub retain : (V → Bool) → Dict V → Dict V
  retain p [] = []
  retain p ((j, w) ∷ d) = if p w then (j, w) ∷ retain p d else retain p d

  pub lookup-insert :
      (j k : Bytes) (v : V) (d : Dict V)
      → lookup j (insert k v d) ≡ (if same_bytes k j then some v else lookup j d)
  unfolding lookup insert
  lookup-insert j k v [] = refl
  lookup-insert j k v ((i, w) ∷ d) =
      ground
        (arith, same_bytes_iff k j, same_bytes_iff i k, same_bytes_iff i j, lookup-insert j k v d)

  pub lookup-insert_self : (k : Bytes) (v : V) (d : Dict V) → lookup k (insert k v d) ≡ some v
  lookup-insert_self k v d = rw (lookup-insert k k v d, same_bytes_refl k)

  pub lookup-insert_other :
      (j k : Bytes) (v : V) (d : Dict V) → k ≢ j → lookup j (insert k v d) ≡ lookup j d
  lookup-insert_other j k v d ne = ground (arith, lookup-insert j k v d, same_bytes_iff k j)

  pub lookup-remove :
      (j k : Bytes) (d : Dict V)
      → lookup j (remove k d) ≡ (if same_bytes k j then none else lookup j d)
  unfolding lookup remove
  lookup-remove j k [] = ground arith
  lookup-remove j k ((i, w) ∷ d) =
      ground
        (arith, same_bytes_iff k j, same_bytes_iff i k, same_bytes_iff i j, lookup-remove j k d)

  -- An insertion adds one entry, and none where the key is there.
  pub length-insert :
      (k : Bytes) (v : V) (d : Dict V)
      → length (insert k v d) ≡ (elim (lookup k d) [ none ↦ length d + 1 | some w ↦ length d ])
  unfolding insert lookup
  length-insert k v [] = omega arith
  length-insert k v ((i, w) ∷ d) = ground (arith, length-insert k v d)

  pub length-retain : (p : V → Bool) (d : Dict V) → length (retain p d) ≤ length d
  unfolding retain
  length-retain p [] = omega arith
  length-retain p ((i, w) ∷ d) = ground (arith, length-retain p d)
