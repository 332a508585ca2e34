-- ===== src/Store/Origin.antt =====
-- Where the bodies of the directory of src/spore_peer.rs come from after `store_body`.
use spore_peer.Prelude.{
  ℕ, ◌≡◌, ◌⊎◌, refl, sym, ◌∙◌, none, some, Option-cases, Bool-cases, inl, inr, Bytes, length, ltb,
  ◌==◌, same_bytes, same_bytes→eq,
}
use spore_peer.Crates.{Crates}
use spore_peer.Dict.{lookup, insert, remove, lookup-insert, lookup-insert_other, lookup-remove}
use spore_peer.Store.Files.{
  File, Hold, HoldFaults, body_name, part_name, cid_of, max_body_bytes, rename_body, write_body,
  store_new, store_body,
}
use spore_peer.Store.Laws.{IsHold, body_name_injective, part_name-ne-body_name}

-- Every body of the second directory is in the first, or is the one that was stored.
abbrev pub IsStep : Crates → Bytes → Hold → Hold → Type 0
IsStep c body before after =
    (k : Bytes) (file : File)
    → lookup (body_name k) after ≡ some file
    → (lookup (body_name k) before ≡ some file) ⊎ ((k ≡ cid_of c body) × (file.content ≡ body))

module _ (c : Crates) (body : Bytes) where
  pub same-IsStep : (hold : Hold) → IsStep c body hold hold
  same-IsStep hold k file l = inl l

  insert_part-IsStep :
      (before hold : Hold) (h : Bytes) (g : File)
      → IsStep c body before hold
      → IsStep c body before (insert (part_name h) g hold)
  insert_part-IsStep before hold h g i k file l = i k file (
      sym (lookup-insert_other (body_name k) (part_name h) g hold (part_name-ne-body_name h k)) ∙ l)

  remove-IsStep :
      (before hold : Hold) (n : Bytes)
      → IsStep c body before hold
      → IsStep c body before (remove n hold)
  remove-IsStep before hold n i k file l = elim (Bool-cases (same_bytes n (body_name k))) [
    | inl y ↦ cc (rw (lookup-remove (body_name k) n hold, y) at l)
    | inr y ↦ i k file (rw (lookup-remove (body_name k) n hold, y) at l)
  ]

  insert_body-IsStep :
      (before hold : Hold) (g : File)
      → g.content ≡ body
      → IsStep c body before hold
      → IsStep c body before (insert (body_name (cid_of c body)) g hold)
  insert_body-IsStep before hold g e i k file l =
      let h = cid_of c body in
      elim (Bool-cases (same_bytes (body_name h) (body_name k))) [
        | inl y ↦
            let same : g ≡ file =
              cc (rw (lookup-insert (body_name k) (body_name h) g hold, y) at l) in
            inr (sym (body_name_injective h k (same_bytes→eq _ _ y)), rw (← same) e)
        | inr y ↦ i k file (rw (lookup-insert (body_name k) (body_name h) g hold, y) at l)
      ]

  module _ (f : HoldFaults) (now : ℕ) where
    pub rename_body-IsStep :
        (before hold : Hold)
        → IsStep c body before hold
        → IsStep c body before
            (rename_body f (cid_of c body) (record { content = body; modified = now }) hold).0
    unfolding rename_body
    rename_body-IsStep before hold i =
        let file : File = record { content = body; modified = now } in
        let part = part_name (cid_of c body) in
        elim (Option-cases f.rename) [
          | inl y ↦ rw y (
              insert_body-IsStep before (remove part hold) file refl
                (remove-IsStep before hold part i))
          | inr (e, y) ↦ rw y (elim (Bool-cases f.removes) [
            | inl z ↦ rw z (remove-IsStep before hold part i)
            | inr z ↦ rw z i
          ])
        ]

    write_body-IsStep :
        (hold : Hold) → IsStep c body hold (write_body f now (cid_of c body) body hold).0
    unfolding write_body
    write_body-IsStep hold =
        let file : File = record { content = body; modified = now } in
        let part = part_name (cid_of c body) in
        elim (Option-cases f.write) [
          | inl y ↦ rw y (
              rename_body-IsStep hold (insert part file hold)
                (insert_part-IsStep hold hold (cid_of c body) file (same-IsStep hold)))
          | inr ((none, e), y) ↦ rw y (same-IsStep hold)
          | inr ((some left, e), y) ↦ rw y (
              insert_part-IsStep hold hold (cid_of c body)
                (record { content = left; modified = now }) (same-IsStep hold))
        ]

    -- Storing a body adds no other body.
    pub store_body-IsStep : (hold : Hold) → IsStep c body hold (store_body c f now body hold).0
    unfolding store_body store_new
    store_body-IsStep hold = elim (Bool-cases (length body == 0)) [
      | inl y ↦ rw y (same-IsStep hold)
      | inr y ↦ rw y (elim (Bool-cases (ltb max_body_bytes (length body))) [
        | inl z ↦ rw z (same-IsStep hold)
        | inr z ↦ rw z (elim (Option-cases (lookup (body_name (cid_of c body)) hold)) [
          | inr (g, w) ↦ rw (store_new, w) (same-IsStep hold)
          | inl w ↦
              rw (store_new, w)
                (elim (Option-cases f.create_dir) [
                  | inr (e, v) ↦ rw v (same-IsStep hold)
                  | inl v ↦ rw v (write_body-IsStep hold)
                ])
        ])
      ])
    ]

-- Storing a body keeps the directory addressed by content: every file that is named as a body still has
-- the hash of its bytes for a name, whatever the file system refuses.
pub store_body-IsHold :
    (c : Crates) (f : HoldFaults) (now : ℕ) (body : Bytes) (hold : Hold)
    → IsHold c hold
    → IsHold c (store_body c f now body hold).0
store_body-IsHold c f now body hold h k file l =
    elim (store_body-IsStep c body f now hold k file l) [
      | inl there ↦ h k file there
      | inr (name, same) ↦ rw same name
    ]
