-- ===== src/Peer/Threads/Staged.antt =====
-- The two halves of a write of src/spore_peer.rs, `store_body`: the temporary file and its rename.
use spore_peer.Prelude.{
  ℕ, ◌+◌, ◌≤◌, ◌≡◌, ◌≢◌, refl, sym, ap, ◌∙◌, Bool, true, false, none, some, Bool-cases,
  Option-cases, inl, inr, Bytes, length, ltb, ◌==◌, same_bytes, same_bytes→eq, arith,
}
use spore_peer.Crates.{Crates}
use spore_peer.Dict.{lookup, insert, remove, lookup-insert_self, lookup-insert_other, lookup-remove}
use spore_peer.Store.Files.{
  File, Hold, HoldFaults, body_name, part_name, cid_of, max_body_bytes, rename_body,
}
use spore_peer.Store.Laws.{IsHold, part_name-ne-body_name, part_name_injective}
use spore_peer.Store.Origin.{same-IsStep, rename_body-IsStep}
use spore_peer.Peer.Quota.{body_bytes, insert_part-body_bytes, rename_body-body_bytes}
use spore_peer.Peer.Threads.{stage_part, stage_body, rename_staged}

-- The temporary file of the body holds it.
pub record HasPart (c : Crates) (hold : Hold) (body : Bytes) : Type 0 where
  pub small : ltb max_body_bytes (length body) ≡ false
  pub file : File
  pub there : lookup (part_name (cid_of c body)) hold ≡ some file
  pub content : file.content ≡ body

module _ (c : Crates) where
  insert_part-IsHold :
      (h : Bytes) (g : File) (hold : Hold) → IsHold c hold → IsHold c (insert (part_name h) g hold)
  insert_part-IsHold h g hold i k file l = i k file (
      sym (lookup-insert_other (body_name k) (part_name h) g hold (part_name-ne-body_name h k)) ∙ l)

  insert_part-HasPart :
      (body other : Bytes) (g : File) (hold : Hold)
      → cid_of c other ≢ cid_of c body
      → HasPart c hold other
      → HasPart c (insert (part_name (cid_of c body)) g hold) other
  insert_part-HasPart body other g hold ne p = record {
    small = p.small;
    file = p.file;
    there =
        lookup-insert_other (part_name (cid_of c other)) (part_name (cid_of c body)) g hold
          (λ e. ne (sym (part_name_injective (cid_of c body) (cid_of c other) e)))
        ∙ p.there;
    content = p.content;
  }

  -- What the first half leaves: `r.1` tells that the temporary file holds the body.
  pub record IsStaged (body : Bytes) (hold : Hold) (r : Hold × Bool) : Type 0 where
    pub named : IsHold c r.0
    pub no_larger : body_bytes r.0 ≤ body_bytes hold
    pub written : r.1 ≡ true → HasPart c r.0 body
    pub others :
        (other : Bytes)
        → cid_of c other ≢ cid_of c body
        → HasPart c hold other
        → HasPart c r.0 other

  unwritten-IsStaged :
      (body : Bytes) (hold : Hold) → IsHold c hold → IsStaged body hold (hold, false)
  unwritten-IsStaged body hold i = record {
    named = i;
    no_larger = omega arith;
    written = λ e. cc;
    others = λ other ne p. p;
  }

  module _ (f : HoldFaults) (now : ℕ) (body : Bytes) where
    stage_part-IsStaged :
        (hold : Hold)
        → IsHold c hold
        → ltb max_body_bytes (length body) ≡ false
        → IsStaged body hold (stage_part f now (cid_of c body) body hold)
    unfolding stage_part
    stage_part-IsStaged hold i small =
        let h = cid_of c body in
        elim (Option-cases f.write) [
          | inl y ↦
              let g : File = record { content = body; modified = now } in
              rw y (record {
                named = insert_part-IsHold h g hold i;
                no_larger = insert_part-body_bytes h g hold;
                written = λ e. record {
                  small = small;
                  file = g;
                  there = lookup-insert_self (part_name h) g hold;
                  content = refl;
                };
                others = λ other ne p. insert_part-HasPart body other g hold ne p;
              })
          | inr ((none, e), y) ↦ rw y (unwritten-IsStaged body hold i)
          | inr ((some left, e), y) ↦
              let g : File = record { content = left; modified = now } in
              rw y (record {
                named = insert_part-IsHold h g hold i;
                no_larger = insert_part-body_bytes h g hold;
                written = λ e. cc;
                others = λ other ne p. insert_part-HasPart body other g hold ne p;
              })
        ]

    pub stage_body-IsStaged :
        (hold : Hold) → IsHold c hold → IsStaged body hold (stage_body c f now body hold)
    unfolding stage_body
    stage_body-IsStaged hold i = elim (Bool-cases (length body == 0)) [
      | inl y ↦ rw y (unwritten-IsStaged body hold i)
      | inr y ↦ rw y (elim (Bool-cases (ltb max_body_bytes (length body))) [
        | inl z ↦ rw z (unwritten-IsStaged body hold i)
        | inr z ↦ rw z (elim (Option-cases (lookup (body_name (cid_of c body)) hold)) [
          | inr (g, w) ↦ rw w (unwritten-IsStaged body hold i)
          | inl w ↦ rw w (elim (Option-cases f.create_dir) [
            | inr (e, v) ↦ rw v (unwritten-IsStaged body hold i)
            | inl v ↦ rw v (stage_part-IsStaged hold i z)
          ])
        ])
      ])
    ]

  -- What the rename of a body leaves of the parts of the others.
  rename_body-there :
      (f : HoldFaults) (body other : Bytes) (file : File) (hold : Hold)
      → cid_of c other ≢ cid_of c body
      → lookup (part_name (cid_of c other)) (rename_body f (cid_of c body) file hold).0
        ≡ lookup (part_name (cid_of c other)) hold
  unfolding rename_body
  rename_body-there f body other file hold ne =
      let part = part_name (cid_of c body) in
      let k = part_name (cid_of c other) in
      let away : lookup k (remove part hold) ≡ lookup k hold =
        (elim (Bool-cases (same_bytes part k)) [
          | inl y ↦ absurd (
              ne (
                sym
                  (part_name_injective (cid_of c body) (cid_of c other) (same_bytes→eq part k y))))
          | inr y ↦ lookup-remove k part hold ∙ rw y refl
        ]) in
      elim (Option-cases f.rename) [
        | inl y ↦ rw y (
            lookup-insert_other k (body_name (cid_of c body)) file (remove part hold)
              (λ e. part_name-ne-body_name (cid_of c other) (cid_of c body) (sym e))
            ∙ away)
        | inr (e, y) ↦ rw y (elim (Bool-cases f.removes) [ inl z ↦ rw z away | inr z ↦ rw z refl ])
      ]

  module _ (f : HoldFaults) (body : Bytes) (hold : Hold) (p : HasPart c hold body) where
    rename_staged_lem : rename_staged c f body hold ≡ (rename_body f (cid_of c body) p.file hold).0
    unfolding rename_staged
    rename_staged_lem = rw (p.there, rename_staged) refl

    pub rename_staged-IsHold : IsHold c hold → IsHold c (rename_staged c f body hold)
    rename_staged-IsHold i k file l =
        let whole = p.file.content in
        let step =
          rename_body-IsStep c whole f p.file.modified hold hold (same-IsStep c whole hold) in
        let same : rename_staged c f body hold ≡ (rename_body f (cid_of c whole) p.file hold).0 =
          rename_staged_lem
          ∙ ap (λ (b : Bytes). (rename_body f (cid_of c b) p.file hold).0) (sym p.content) in
        elim (step k file (rw same at l)) [
          | inl there ↦ i k file there
          | inr (name, content) ↦ rw content name
        ]

    pub rename_staged-body_bytes :
        body_bytes (rename_staged c f body hold) ≤ body_bytes hold + length body
    rename_staged-body_bytes =
        rw rename_staged_lem
          (omega (arith, rename_body-body_bytes f (cid_of c body) p.file hold, ap length p.content))

    pub rename_staged-HasPart :
        (other : Bytes)
        → cid_of c other ≢ cid_of c body
        → HasPart c hold other
        → HasPart c (rename_staged c f body hold) other
    rename_staged-HasPart other ne q = record {
      small = q.small;
      file = q.file;
      there = rw rename_staged_lem (rename_body-there f body other p.file hold ne ∙ q.there);
      content = q.content;
    }
