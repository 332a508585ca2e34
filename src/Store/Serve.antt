-- ===== src/Store/Serve.antt =====
-- What `serve_body` of src/spore_peer.rs answers, alone and after `store_body`.
use spore_peer.Prelude.{
  ℕ, ◌≡◌, ◌⊎◌, refl, sym, ap, ◌∙◌, Option, none, some, Option-cases, Bool-cases, inl, inr, Bytes,
  length, ltb, ◌==◌, same_bytes, same_bytes_refl, same_bytes→eq, ok, err, panic, Try, ok_or, ◌>>=◌,
}
use spore_peer.Crates.{Crates}
use spore_peer.Refusal.{not_found}
use spore_peer.Dict.{lookup, lookup-insert_self}
use spore_peer.Store.Decode.{hex_decode}
use spore_peer.Store.Files.{
  File, Hold, HoldFaults, body_name, cid_of, max_body_bytes, rename_body, write_body, store_new,
  store_body, cid_bytes, check_cid, serve_body,
}
use spore_peer.Store.Laws.{IsHold, hex_decode-cid_of, digest-eq}

-- The bytes are those of a file under the text, and hash to what the text decodes to.
pub record IsServed (c : Crates) (hold : Hold) (cid_hex bytes : Bytes) : Type 0 where
  pub decodes : hex_decode cid_hex ≡ ok (c.sha.digest bytes)
  pub file : File
  pub there : lookup (body_name cid_hex) hold ≡ some file
  pub content : file.content ≡ bytes

module _ (c : Crates) (hold : Hold) (cid_hex : Bytes) where
  serve_found :
      (raw : Bytes) (o : Option File) (bytes : Bytes)
      → hex_decode cid_hex ≡ ok raw
      → lookup (body_name cid_hex) hold ≡ o
      → (ok_or o not_found >>= λ file. check_cid c raw file) ≡ ok bytes
      → IsServed c hold cid_hex bytes
  unfolding check_cid
  serve_found raw none bytes d l e = cc
  serve_found raw (some file) bytes d l e =
      elim (Bool-cases (same_bytes (c.sha.digest file.content) raw)) [
        | inr y ↦ cc (rw y at e)
        | inl y ↦
            let same : file.content ≡ bytes = cc (rw y at e) in
            record {
              decodes = d ∙ ap ok (sym (same_bytes→eq _ _ y) ∙ ap c.sha.digest same);
              file = file;
              there = l;
              content = same;
            }
      ]

  serve_decoded :
      (d : Try Bytes) (bytes : Bytes)
      → hex_decode cid_hex ≡ d
      → (cid_bytes d >>= λ raw.
          ok_or (lookup (body_name cid_hex) hold) not_found >>= λ file. check_cid c raw file)
        ≡ ok bytes
      → IsServed c hold cid_hex bytes
  unfolding cid_bytes
  serve_decoded (ok raw) bytes d e = elim (Bool-cases (length raw == 32)) [
    | inl y ↦ serve_found raw (lookup (body_name cid_hex) hold) bytes d refl (rw y at e)
    | inr y ↦ cc (rw y at e)
  ]
  serve_decoded (err u) bytes d e = cc
  serve_decoded panic bytes d e = cc

  -- What is served is the content of a file of that name, and its hash is what was asked for: no
  -- corrupted or planted file is answered.
  pub serve_body_ok :
      (bytes : Bytes) → serve_body c hold cid_hex ≡ ok bytes → IsServed c hold cid_hex bytes
  unfolding serve_body
  serve_body_ok bytes e = serve_decoded (hex_decode cid_hex) bytes refl e

module _ (c : Crates) where
  serve_there :
      (hold : Hold) (body : Bytes) (file : File)
      → lookup (body_name (cid_of c body)) hold ≡ some file
      → c.sha.digest file.content ≡ c.sha.digest body
      → serve_body c hold (cid_of c body) ≡ ok file.content
  unfolding serve_body cid_bytes check_cid
  serve_there hold body file l d =
      rw
        (
          hex_decode-cid_of c body,
          c.sha.length-digest body,
          l,
          d,
          same_bytes_refl (c.sha.digest body),
        )
        refl

  -- The body is served under its name after the store, and is the stored one or was there.
  pub record IsStored (body cid : Bytes) (before after : Hold) : Type 0 where
    pub name : cid ≡ cid_of c body
    pub bytes : Bytes
    pub served : serve_body c after cid ≡ ok bytes
    pub hash : c.sha.digest bytes ≡ c.sha.digest body
    pub origin :
        (bytes ≡ body)
        ⊎ ((file : File) × (lookup (body_name cid) before ≡ some file) × (file.content ≡ bytes))

  rename_body_ok :
      (f : HoldFaults) (now : ℕ) (body cid : Bytes) (hold before : Hold)
      → (rename_body f (cid_of c body) (record { content = body; modified = now }) hold).1 ≡ ok cid
      → IsStored body cid before
          (rename_body f (cid_of c body) (record { content = body; modified = now }) hold).0
  unfolding rename_body
  rename_body_ok f now body cid hold before e = elim (Option-cases f.rename) [
    | inr (x, y) ↦ cc (rw y at e)
    | inl y ↦
        let file : File = record { content = body; modified = now } in
        let name : cid_of c body ≡ cid = cc (rw y at e) in
        rw (y, ← name)
          (record {
            name = refl;
            bytes = body;
            served =
                serve_there _ body file (lookup-insert_self (body_name (cid_of c body)) file _)
                  refl;
            hash = refl;
            origin = inl refl;
          })
  ]

  store_new_ok :
      (f : HoldFaults) (now : ℕ) (body cid : Bytes) (hold : Hold)
      → IsHold c hold
      → (store_new c f now body hold).1 ≡ ok cid
      → IsStored body cid hold (store_new c f now body hold).0
  unfolding store_new write_body
  store_new_ok f now body cid hold i e =
      elim (Option-cases (lookup (body_name (cid_of c body)) hold)) [
        | inr (file, y) ↦
            let name : cid_of c body ≡ cid = cc (rw (store_new, y) at e) in
            let same = sym (digest-eq c body file.content (i (cid_of c body) file y)) in
            rw (store_new, y, ← name)
              (record {
                name = refl;
                bytes = file.content;
                served = serve_there hold body file y same;
                hash = same;
                origin = inr (file, y, refl);
              })
        | inl y ↦ elim (Option-cases f.create_dir) [
          | inr (x, z) ↦ cc (rw (store_new, y, z) at e)
          | inl z ↦ elim (Option-cases f.write) [
            | inr ((none, x), w) ↦ cc (rw (store_new, y, z, write_body, w) at e)
            | inr ((some left, x), w) ↦ cc (rw (store_new, y, z, write_body, w) at e)
            | inl w ↦
                rw (store_new, y, z, write_body, w)
                  (rename_body_ok f now body cid _ hold (rw (store_new, y, z, write_body, w) at e))
          ]
        ]
      ]

  -- A body that is stored is named by its hash and served under that name: as the bytes that were
  -- given, or, where a file of that name was there, as its bytes, which have the same hash. The
  -- directory was addressed by content.
  pub store_body_ok :
      (f : HoldFaults) (now : ℕ) (body cid : Bytes) (hold : Hold)
      → IsHold c hold
      → (store_body c f now body hold).1 ≡ ok cid
      → IsStored body cid hold (store_body c f now body hold).0
  unfolding store_body
  store_body_ok f now body cid hold i e = elim (Bool-cases (length body == 0)) [
    | inl y ↦ cc (rw y at e)
    | inr y ↦ elim (Bool-cases (ltb max_body_bytes (length body))) [
      | inl z ↦ cc (rw (y, z) at e)
      | inr z ↦ rw (y, z) (store_new_ok f now body cid hold i (rw (y, z) at e))
    ]
  ]
