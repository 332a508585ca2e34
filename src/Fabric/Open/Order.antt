-- ===== src/Fabric/Open/Order.antt =====
-- The order in which `FabricState::open` of src/fabric.rs leaves a queue.
use spore_peer.Prelude.{◌≡◌, refl, List, [], ◌∷◌, true, false, Bool-cases, inl, inr, Bytes, arith}
use mathlib.Core.List.{Perm}
use mathlib.Core.List.Perm
use spore_peer.Json.{key_lt}
use spore_peer.Fabric.State.{Queued}
use spore_peer.Fabric.Open.{not_after, insert_queued, sort_queue}

-- No entry comes after its neighbour.
pub data IsOrdered : List Queued → Type 0 where
  none_left : IsOrdered []
  one : (x : Queued) → IsOrdered (x ∷ [])
  more :
      {x y : Queued} {q : List Queued}
      → not_after x y ≡ true
      → IsOrdered (y ∷ q)
      → IsOrdered (x ∷ y ∷ q)

key_lt_asymm : (a b : Bytes) → key_lt a b ≡ true → key_lt b a ≡ false
key_lt_asymm [] [] h = cc
key_lt_asymm [] (y ∷ ys) h = refl
key_lt_asymm (x ∷ xs) [] h = cc
key_lt_asymm (x ∷ xs) (y ∷ ys) h = ground (arith, h, key_lt_asymm xs ys)

not_after_total : (x y : Queued) → not_after x y ≡ false → not_after y x ≡ true
not_after_total x y h = ground (arith, h, key_lt_asymm y.env_cid_hex x.env_cid_hex)

insert_queued-perm : (x : Queued) (q : List Queued) → Perm (insert_queued x q) (x ∷ q)
unfolding insert_queued
insert_queued-perm x [] = Perm.refl (x ∷ [])
insert_queued-perm x (y ∷ q) = elim (Bool-cases (not_after x y)) [
  | inl e ↦ rw (e, insert_queued) (Perm.refl (x ∷ y ∷ q))
  | inr e ↦
      rw (e, insert_queued) (Perm.trans (Perm.cons y (insert_queued-perm x q)) (Perm.swap x y q))
]

-- An entry goes behind its new neighbour, which comes before it or was before it.
insert_after-IsOrdered :
    (y x : Queued) (q : List Queued)
    → not_after y x ≡ true
    → IsOrdered (y ∷ q)
    → IsOrdered (insert_queued x q)
    → IsOrdered (y ∷ insert_queued x q)
unfolding insert_queued
insert_after-IsOrdered y x [] h o i = more h i
insert_after-IsOrdered y x (z ∷ q) h (more hz o) i = elim (Bool-cases (not_after x z)) [
  | inl e ↦ rw (e, insert_queued) (more h (rw (e, insert_queued) at i))
  | inr e ↦ rw (e, insert_queued) (more hz (rw (e, insert_queued) at i))
]

insert_queued-IsOrdered :
    (x : Queued) (q : List Queued) → IsOrdered q → IsOrdered (insert_queued x q)
unfolding insert_queued
insert_queued-IsOrdered x [] o = one x
insert_queued-IsOrdered x (y ∷ []) o = elim (Bool-cases (not_after x y)) [
  | inl e ↦ rw (e, insert_queued) (more e o)
  | inr e ↦ rw (e, insert_queued) (more (not_after_total x y e) (one x))
]
insert_queued-IsOrdered x (y ∷ z ∷ q) (more h o) = elim (Bool-cases (not_after x y)) [
  | inl e ↦ rw (e, insert_queued) (more e (more h o))
  | inr e ↦
      let later : IsOrdered (y ∷ insert_queued x (z ∷ q)) =
        insert_after-IsOrdered y x (z ∷ q) (not_after_total x y e) (more h o)
          (insert_queued-IsOrdered x (z ∷ q) o) in
      rw (e, insert_queued) later
]

pub sort_queue-perm : (q : List Queued) → Perm (sort_queue q) q
unfolding sort_queue
sort_queue-perm [] = Perm.refl []
sort_queue-perm (x ∷ q) =
    Perm.trans (insert_queued-perm x (sort_queue q)) (Perm.cons x (sort_queue-perm q))

pub sort_queue-IsOrdered : (q : List Queued) → IsOrdered (sort_queue q)
unfolding sort_queue
sort_queue-IsOrdered [] = none_left
sort_queue-IsOrdered (x ∷ q) = insert_queued-IsOrdered x (sort_queue q) (sort_queue-IsOrdered q)
