-- ===== src/Client/Sync/Laws.antt =====
-- One turn of the loop of `sync_stream` in src/spore_peer.rs, on the store.
use spore_peer.Prelude.{
  ℕ, suc, ◌+◌, ◌≤◌, ◌≡◌, refl, sym, ap, ◌∙◌, false, none, some, Option-cases, Bool-cases,
  Result-cases, inl, inr, Bytes, ascii, length, ltb, leb, ◌==◌, same_bytes, same_bytes→eq, min,
  Result, ok, err, panic, Try, arith,
}
use spore_peer.Crates.{Crates}
use spore_peer.Dict.{lookup, insert, lookup-insert}
use spore_peer.Cbor.Encode.{getobject_request}
use spore_peer.Cbor.Decode.{Rpc2Message}
use spore_peer.Store.Decode.{hex_decode}
use spore_peer.Store.Files.{File, Hold, body_name}
use spore_peer.Store.Laws.{body_name_injective}
use spore_peer.Client.Call.{Remote, Called, rpc2_call}
use spore_peer.Client.Sync.{
  SyncSetting, Progress, Turn, goes, stops, fails, panics, write_fetched, check_fetched,
  fetched_body, on_body, on_object, max_fetches, fetch, on_blid, sync_pair,
}

-- Every body of the directory has the hash that its name decodes to, in whatever case it is spelled.
abbrev pub IsAddressed : Crates → Hold → Type 0
IsAddressed c hold =
    (cid_hex : Bytes) (file : File)
    → lookup (body_name cid_hex) hold ≡ some file
    → hex_decode cid_hex ≡ ok (c.sha.digest file.content)

-- Every file of the first directory is in the second, unchanged.
abbrev pub IsKept : Hold → Hold → Type 0
IsKept before after =
    (name : Bytes) (file : File) → lookup name before ≡ some file → lookup name after ≡ some file

insert_new-IsKept :
    (name : Bytes) (file : File) (hold : Hold)
    → lookup name hold ≡ none
    → IsKept hold (insert name file hold)
insert_new-IsKept name file hold new k f e = elim (Bool-cases (same_bytes name k)) [
  | inl y ↦ cc (e, new, same_bytes→eq name k y)
  | inr y ↦ rw (lookup-insert k name file hold, y) e
]

module _ (c : Crates) where
  insert_body-IsAddressed :
      (cid_hex : Bytes) (file : File) (hold : Hold)
      → hex_decode cid_hex ≡ ok (c.sha.digest file.content)
      → IsAddressed c hold
      → IsAddressed c (insert (body_name cid_hex) file hold)
  insert_body-IsAddressed cid_hex file hold d h k f e =
      elim (Bool-cases (same_bytes (body_name cid_hex) (body_name k))) [
        | inl y ↦
            let same : file ≡ f =
              cc (rw (lookup-insert (body_name k) (body_name cid_hex) file hold, y) at e) in
            rw (← same, ← body_name_injective cid_hex k (same_bytes→eq _ _ y)) d
        | inr y ↦ h k f (rw (lookup-insert (body_name k) (body_name cid_hex) file hold, y) at e)
      ]

module _ (R : Remote) (c : Crates) (env : SyncSetting) where
  -- What one turn of the loop at the entry `i` has made of a directory and a count.
  pub record IsTurn (i : ℕ) (hold : Hold) (n : ℕ) (q : Progress R) : Type 0 where
    pub kept : IsKept hold q.hold
    pub addressed : IsAddressed c hold → IsAddressed c q.hold
    pub count : n ≤ min i max_fetches → q.fetched ≤ min (suc i) max_fetches

  abbrev pub Sound : ℕ → Hold → ℕ → Turn R → Type 0
  Sound i hold n (goes q) = IsTurn i hold n q
  Sound i hold n (stops q) = IsTurn i hold n q
  Sound i hold n (fails q e) = IsKept hold q.hold
  Sound i hold n (panics q) = IsKept hold q.hold

  -- A turn that leaves the directory and the count.
  same-IsTurn : (i : ℕ) (q : Progress R) → IsTurn i q.hold q.fetched q
  same-IsTurn i q = record { kept = λ k f e. e; addressed = λ a. a; count = λ b. omega (arith, b) }

  module _ (i top : ℕ) (blid_hex expected : Bytes)
      (decodes : hex_decode blid_hex ≡ ok expected) where
    write_fetched-Sound :
        (body : Bytes) (p : Progress R)
        → lookup (body_name blid_hex) p.hold ≡ none
        → c.sha.digest body ≡ expected
        → leb max_fetches i ≡ false
        → Sound i p.hold p.fetched (write_fetched R c env i blid_hex body p)
    unfolding write_fetched
    write_fetched-Sound body p new hash low = elim (Option-cases (env.write_fault i)) [
      | inl y ↦
          rw (y, write_fetched)
            (record {
              kept = insert_new-IsKept _ _ p.hold new;
              addressed =
                  λ a. insert_body-IsAddressed c blid_hex _ p.hold (decodes ∙ ap ok (sym hash)) a;
              count = λ b. ground (arith, b, low);
            })
      | inr ((none, e), y) ↦ rw (y, write_fetched) (λ k f l. l)
      | inr ((some left, e), y) ↦ rw (y, write_fetched) (insert_new-IsKept _ _ p.hold new)
    ]

    check_fetched-Sound :
        (body : Bytes) (p : Progress R)
        → lookup (body_name blid_hex) p.hold ≡ none
        → leb max_fetches i ≡ false
        → Sound i p.hold p.fetched (check_fetched R c env i top blid_hex expected body p)
    unfolding check_fetched
    check_fetched-Sound body p new low =
        elim (Bool-cases (same_bytes (c.sha.digest body) expected)) [
          | inl y ↦ rw (y, check_fetched) (write_fetched-Sound body p new (same_bytes→eq _ _ y) low)
          | inr y ↦ rw (y, check_fetched) (λ k f l. l)
        ]

    on_object-Sound :
        (p : Progress R) (r : Called R Rpc2Message)
        → lookup (body_name blid_hex) p.hold ≡ none
        → leb max_fetches i ≡ false
        → Sound i p.hold p.fetched (on_object R c env i top blid_hex expected p r)
    unfolding on_object on_body
    on_object-Sound p (conn, ok obj) new low =
        let q = record p { conn = conn } in
        elim (Bool-cases (ltb 0 (length obj.error))) [
          | inl y ↦ rw (y, on_object) (same-IsTurn i q)
          | inr y ↦ elim (Result-cases (fetched_body R c env obj.payload)) [
            | inl (body, z) ↦ rw (y, z, on_object, on_body) (check_fetched-Sound body q new low)
            | inr (inl (e, z)) ↦ rw (y, z, on_object, on_body) (λ k f l. l)
            | inr (inr z) ↦ rw (y, z, on_object, on_body) (λ k f l. l)
          ]
        ]
    on_object-Sound p (conn, err e) new low = λ k f l. l
    on_object-Sound p (conn, panic) new low = λ k f l. l

    fetch-Sound :
        (p : Progress R) → Sound i p.hold p.fetched (fetch R c env i top blid_hex expected p)
    unfolding fetch
    fetch-Sound p = elim (Option-cases (lookup (body_name blid_hex) p.hold)) [
      | inr (file, y) ↦ rw (y, fetch) (same-IsTurn i (record p { have = suc p.have }))
      | inl y ↦ elim (Bool-cases (leb max_fetches i)) [
        | inl z ↦ rw (y, z, fetch) (same-IsTurn i p)
        | inr z ↦
            rw (y, z, fetch)
              (on_object-Sound p
                (rpc2_call R c p.conn (ascii "Peer.GetObject") (100 + i)
                  (getobject_request expected))
                y z)
      ]
    ]

  on_blid-Sound :
      (i top : ℕ) (blid_hex : Bytes) (p : Progress R) (d : Try Bytes)
      → hex_decode blid_hex ≡ d
      → Sound i p.hold p.fetched (on_blid R c env i top blid_hex p d)
  unfolding on_blid
  on_blid-Sound i top blid_hex p (ok expected) d = elim (Bool-cases (length expected == 32)) [
    | inl y ↦ rw (y, on_blid) (fetch-Sound i top blid_hex expected d p)
    | inr y ↦ rw (y, on_blid) (same-IsTurn i p)
  ]
  on_blid-Sound i top blid_hex p (err u) d = same-IsTurn i p
  on_blid-Sound i top blid_hex p panic d = λ k f l. l

  pub sync_pair-Sound :
      (i : ℕ) (p : Progress R) (r : Result Bytes (ℕ × Bytes))
      → Sound i p.hold p.fetched (sync_pair R c env i p r)
  unfolding sync_pair
  sync_pair-Sound i p (ok (top, blid_hex)) =
      on_blid-Sound i top blid_hex p (hex_decode blid_hex) refl
  sync_pair-Sound i p (err e) = λ k f l. l
  sync_pair-Sound i p panic = λ k f l. l
