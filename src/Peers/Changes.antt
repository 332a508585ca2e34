-- ===== src/Peers/Changes.antt =====
-- `peers_add` and `peers_remove` of src/spore_peer.rs on the list of peers.
use spore_peer.Prelude.{
  ◌<◌, ◌≡◌, refl, ap, List, [], ◌∷◌, ◌++◌, true, false, Option, none, some, Option-cases,
  Bool-cases, inl, inr, Bytes, All, length, length-append, ◌==◌, same_bytes, same_bytes_refl,
  Result, ok, err, panic, arith,
}
use spore_peer.Client.Push.{contains}
use spore_peer.Peers.Address.{validate_peer_addr}
use spore_peer.Peers.File.{
  PeersFaults, is_comment, peers_list, peers_text, peers_write, written, add_valid, peers_add,
  without, peers_remove,
}
use spore_peer.Peers.Laws.{IsPeer, IsDistinct, contains-snoc, peers_list-peers_text}
use spore_peer.Peers.Valid.{IsAddress, validate_peer_addr_ok}

-- A write that succeeds leaves the text of the list.
written_ok :
    (f : PeersFaults) (dir : Bytes) (list : List Bytes) (file : Option Bytes)
    → (written (peers_write f dir list file)).1 ≡ ok true
    → (written (peers_write f dir list file)).0 ≡ some (peers_text list)
unfolding written peers_write
written_ok f dir list file e = elim (Option-cases f.create_dir) [
  | inr (x, y) ↦ cc (rw (y, peers_write) at e)
  | inl y ↦ elim (Option-cases f.write) [
    | inr ((none, x), z) ↦ cc (rw (y, z, peers_write) at e)
    | inr ((some left, x), z) ↦ cc (rw (y, z, peers_write) at e)
    | inl z ↦ rw (y, z, peers_write) refl
  ]
]

snoc-IsPeer : (ps : List Bytes) (p : Bytes) → All IsPeer ps → IsPeer p → All IsPeer (ps ++ (p ∷ []))
snoc-IsPeer [] p h hp = (hp, tt)
snoc-IsPeer (q ∷ ps) p (hq, hs) hp = (hq, snoc-IsPeer ps p hs hp)

snoc-IsDistinct :
    (ps : List Bytes) (p : Bytes)
    → IsDistinct ps
    → contains p ps ≡ false
    → IsDistinct (ps ++ (p ∷ []))
snoc-IsDistinct [] p d n = (refl, tt)
snoc-IsDistinct (q ∷ ps) p (dq, ds) n = elim (Bool-cases (same_bytes q p)) [
  | inl y ↦ cc (rw y at n)
  | inr y ↦ (
    contains-snoc q p ps dq (λ e. cc (rw (e, same_bytes_refl p) at y)),
    snoc-IsDistinct ps p ds (rw y at n),
  )
]

without-IsPeer : (addr : Bytes) (ps : List Bytes) → All IsPeer ps → All IsPeer (without addr ps)
unfolding without
without-IsPeer addr [] h = tt
without-IsPeer addr (p ∷ ps) (hp, hs) = elim (Bool-cases (same_bytes p addr)) [
  | inl y ↦ rw (y, without) (without-IsPeer addr ps hs)
  | inr y ↦ rw (y, without) (hp, without-IsPeer addr ps hs)
]

contains-without :
    (x addr : Bytes) (ps : List Bytes)
    → contains x ps ≡ false
    → contains x (without addr ps) ≡ false
unfolding without
contains-without x addr [] h = refl
contains-without x addr (p ∷ ps) h = ground (arith, h, contains-without x addr ps)

without-IsDistinct : (addr : Bytes) (ps : List Bytes) → IsDistinct ps → IsDistinct (without addr ps)
unfolding without
without-IsDistinct addr [] d = tt
without-IsDistinct addr (p ∷ ps) (dp, ds) = elim (Bool-cases (same_bytes p addr)) [
  | inl y ↦ rw (y, without) (without-IsDistinct addr ps ds)
  | inr y ↦ rw (y, without) (contains-without p addr ps dp, without-IsDistinct addr ps ds)
]

address-IsPeer : (addr : Bytes) → is_comment addr ≡ false → IsAddress addr → IsPeer addr
address-IsPeer [] unmarked a =
    absurd (omega (arith, ap length a.split, length-append a.host (b':' ∷ a.port)))
address-IsPeer (c ∷ s) unmarked a = (λ e. ground (arith, e, unmarked), a.visible.0, a.visible.1)

module _ (f : PeersFaults) (dir addr : Bytes) (file : Option Bytes) (reads : f.reads ≡ true)
    (peers : All IsPeer (peers_list f file)) (distinct : IsDistinct (peers_list f file)) where
  add_valid_ok :
      (r : Result Bytes (Unit {0}))
      → (r ≡ ok tt → IsPeer addr)
      → (add_valid f dir addr file r).1 ≡ ok true
      → (peers_list f (add_valid f dir addr file r).0 ≡ peers_list f file ++ (addr ∷ []))
        × (contains addr (peers_list f file) ≡ false)
        × (r ≡ ok tt)
  unfolding add_valid
  add_valid_ok (ok u) hp e = elim (Bool-cases (contains addr (peers_list f file))) [
    | inl y ↦ cc (rw (y, add_valid) at e)
    | inr y ↦
        let list = peers_list f file in
        let text = written_ok f dir (list ++ (addr ∷ [])) file (rw (y, add_valid) at e) in
        rw (y, add_valid)
          (
            rw text (
                peers_list-peers_text f (list ++ (addr ∷ [])) reads
                  (snoc-IsPeer list addr peers (hp refl)) (snoc-IsDistinct list addr distinct y)),
            refl,
            refl,
          )
  ]
  add_valid_ok (err x) hp e = cc
  add_valid_ok panic hp e = cc

  -- An address that is added was not listed, and is a host that is not empty, a colon and a port from
  -- 1 to 65535 in decimal digits, perhaps with a plus sign, without white space, slash or backslash;
  -- it is then the last of the list, behind the peers that were listed. The file could be read, its
  -- peers were distinct, of ASCII without white space, and the address is ASCII; none of them begins
  -- with the mark of a comment.
  pub peers_add_ok :
      All (λ b. b < 128) addr
      → is_comment addr ≡ false
      → (peers_add f dir addr file).1 ≡ ok true
      → (peers_list f (peers_add f dir addr file).0 ≡ peers_list f file ++ (addr ∷ []))
        × (contains addr (peers_list f file) ≡ false)
        × IsAddress addr
  unfolding peers_add
  peers_add_ok small unmarked e =
      let (listed, fresh, valid) =
        add_valid_ok (validate_peer_addr addr)
          (λ v. address-IsPeer addr unmarked (validate_peer_addr_ok addr small v)) e in
      (listed, fresh, validate_peer_addr_ok addr small valid)

  -- After a removal the list is what it was without the address, in its order. The file could be
  -- read, and its peers were distinct, of ASCII without white space and not beginning with the mark of a comment.
  pub peers_remove_ok :
      (peers_remove f dir addr file).1 ≡ ok true
      → peers_list f (peers_remove f dir addr file).0 ≡ without addr (peers_list f file)
  unfolding peers_remove
  peers_remove_ok e =
      let list = peers_list f file in
      elim (Bool-cases (length (without addr list) == length list)) [
        | inl y ↦ cc (rw (y, peers_remove) at e)
        | inr y ↦
            let text = written_ok f dir (without addr list) file (rw (y, peers_remove) at e) in
            rw (y, peers_remove, text)
              (peers_list-peers_text f (without addr list) reads (without-IsPeer addr list peers)
                (without-IsDistinct addr list distinct))
      ]
