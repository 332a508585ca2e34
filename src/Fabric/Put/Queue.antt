-- ===== src/Fabric/Put/Queue.antt =====
-- The queue of one handle in src/fabric.rs: what a put does to it, against a plain description, and
-- the invariants that it keeps.
use spore_peer.Prelude.{
  ℕ, zero, suc, ◌-◌, ◌≤◌, ◌<◌, ◌≡◌, ◌≢◌, refl, Bool, true, false, List, [], ◌∷◌, ◌++◌, Option, none,
  some, Bytes, length, length-drop, drop, ltb, leb, ltb→lt, ltb→ge, same_bytes, same_bytes_iff,
  if◌then◌else◌, Bool-cases, inl, inr, All, arith,
}
use spore_peer.Fabric.State.{Queued, Disk, Faults, drop_envelope}
use spore_peer.Fabric.Put.{refresh, evict, reap, place}

-- The pointer stands in the queue.
abbrev pub holds_pointer : Bytes → List Queued → Bool
holds_pointer p [] = false
holds_pointer p (x ∷ q) = if same_bytes x.pointer p then true else holds_pointer p q

-- The entries that are not burned yet, in their order.
abbrev pub unburned : ℕ → List Queued → List Queued
unburned now [] = []
unburned now (x ∷ q) = if leb x.deadline now then unburned now q else x ∷ unburned now q

-- The entry of the pointer with the deadline and the file of the new one, in its place.
abbrev pub refreshed : Queued → List Queued → List Queued
refreshed new [] = []
refreshed new (x ∷ q) =
    if same_bytes x.pointer new.pointer
    then record x { deadline = new.deadline; env_cid_hex = new.env_cid_hex } ∷ q
    else x ∷ refreshed new q

-- The newest `max` entries.
abbrev pub newest : ℕ → List Queued → List Queued
newest max q = drop (length q - max) q

-- A put, described: a known pointer is refreshed where it stands, a new one goes to the back and the
-- oldest go beyond the cap; then what has burned goes.
abbrev pub put_queue : ℕ → ℕ → Queued → List Queued → List Queued
put_queue max now new q =
    unburned now
      (if holds_pointer new.pointer q then refreshed new q else newest max (q ++ (new ∷ [])))

pub reap-eq-unburned :
    (f : Faults) (now : ℕ) (q : List Queued) (disk : Disk) → (reap f now q disk).0 ≡ unburned now q
unfolding reap
reap-eq-unburned f now [] disk = refl
reap-eq-unburned f now (x ∷ q) disk = ground (
  arith,
  reap-eq-unburned f now q disk,
  reap-eq-unburned f now q (drop_envelope f x.env_cid_hex disk),
)

drop_nil : (n : ℕ) → [] ≡ drop n (let q : List Queued = [] in q)
drop_nil zero = refl
drop_nil (suc n) = refl

evict-eq-newest :
    (f : Faults) (max : ℕ) (q : List Queued) (disk : Disk) → (evict f max q disk).0 ≡ newest max q
unfolding evict
evict-eq-newest f max [] disk = drop_nil (0 - max)
evict-eq-newest f max (x ∷ q) disk = elim (Bool-cases (ltb max (suc (length q)))) [
  | inl e ↦
      let more : suc (length q) - max ≡ suc (length q - max) = omega (arith, ltb→lt _ _ e) in
      rw (e, more) (evict-eq-newest f max q _)
  | inr e ↦ let all : suc (length q) - max ≡ 0 = omega (arith, ltb→ge _ _ e) in rw (e, all)
]

-- The queue that `refresh` returns, if it does.
abbrev queue_part : Option (List Queued × Disk) → Option (List Queued)
queue_part none = none
queue_part (some (q, d)) = some q

refresh-eq :
    (f : Faults) (new : Queued) (q : List Queued) (disk : Disk)
    → queue_part (refresh f new q disk)
      ≡ (if holds_pointer new.pointer q then some (refreshed new q) else none)
unfolding refresh
refresh-eq f new [] disk = refl
refresh-eq f new (x ∷ q) disk = ground (arith, refresh-eq f new q disk)

pub place-eq :
    (f : Faults) (max : ℕ) (new : Queued) (q : List Queued) (disk : Disk)
    → (place f max new q disk).0
      ≡ (if holds_pointer new.pointer q then refreshed new q else newest max (q ++ (new ∷ [])))
unfolding place
place-eq f max new q disk =
    ground (arith, refresh-eq f new q disk, evict-eq-newest f max (q ++ (new ∷ [])) disk)

-- No two entries of a queue have one pointer.
abbrev pub IsDistinct : List Queued → Type 0
IsDistinct [] = Unit
IsDistinct (x ∷ q) = (holds_pointer x.pointer q ≡ false) × IsDistinct q

holds-unburned :
    (now : ℕ) (p : Bytes) (q : List Queued)
    → holds_pointer p q ≡ false
    → holds_pointer p (unburned now q) ≡ false
holds-unburned now p [] h = refl
holds-unburned now p (x ∷ q) h = ground (arith, holds-unburned now p q)

unburned-IsDistinct : (now : ℕ) (q : List Queued) → IsDistinct q → IsDistinct (unburned now q)
unburned-IsDistinct now [] h = tt
unburned-IsDistinct now (x ∷ q) (hx, hq) =
    ground (arith, holds-unburned now x.pointer q hx, unburned-IsDistinct now q hq)

length-unburned : (now : ℕ) (q : List Queued) → length (unburned now q) ≤ length q
length-unburned now [] = omega arith
length-unburned now (x ∷ q) = ground (arith, length-unburned now q)

unburned_lem : (now : ℕ) (q : List Queued) → All (λ x. now < x.deadline) (unburned now q)
unburned_lem now [] = tt
unburned_lem now (x ∷ q) = ground (arith, unburned_lem now q)

length-refreshed : (new : Queued) (q : List Queued) → length (refreshed new q) ≡ length q
length-refreshed new [] = refl
length-refreshed new (x ∷ q) = ground (arith, length-refreshed new q)

holds-refreshed :
    (new : Queued) (p : Bytes) (q : List Queued)
    → holds_pointer p (refreshed new q) ≡ holds_pointer p q
holds-refreshed new p [] = refl
holds-refreshed new p (x ∷ q) = ground (arith, holds-refreshed new p q)

refreshed-IsDistinct :
    (new : Queued) (q : List Queued) → IsDistinct q → IsDistinct (refreshed new q)
refreshed-IsDistinct new [] h = tt
refreshed-IsDistinct new (x ∷ q) (hx, hq) =
    ground (arith, holds-refreshed new x.pointer q, refreshed-IsDistinct new q hq)

holds-snoc :
    (new : Queued) (p : Bytes) (q : List Queued)
    → holds_pointer p q ≡ false
    → p ≢ new.pointer
    → holds_pointer p (q ++ (new ∷ [])) ≡ false
holds-snoc new p [] h ne = ground (arith, same_bytes_iff new.pointer p)
holds-snoc new p (x ∷ q) h ne = ground (arith, holds-snoc new p q)

snoc-IsDistinct :
    (new : Queued) (q : List Queued)
    → IsDistinct q
    → holds_pointer new.pointer q ≡ false
    → IsDistinct (q ++ (new ∷ []))
snoc-IsDistinct new [] h n = (refl, tt)
snoc-IsDistinct new (x ∷ q) (hx, hq) n = ground (
  arith,
  same_bytes_iff x.pointer new.pointer,
  holds-snoc new x.pointer q hx,
  snoc-IsDistinct new q hq,
)

drop-IsDistinct : (n : ℕ) (q : List Queued) → IsDistinct q → IsDistinct (drop n q)
drop-IsDistinct zero q h = h
drop-IsDistinct (suc n) [] h = tt
drop-IsDistinct (suc n) (x ∷ q) (hx, hq) = drop-IsDistinct n q hq

-- A queue within its cap, with distinct pointers.
pub record IsQueue (max : ℕ) (q : List Queued) : Type 0 where
  pub capped : length q ≤ max
  pub distinct : IsDistinct q

pub put_queue-IsQueue :
    (max now : ℕ) (new : Queued) (q : List Queued)
    → IsQueue max q
    → IsQueue max (put_queue max now new q)
put_queue-IsQueue max now new q h = elim (Bool-cases (holds_pointer new.pointer q)) [
  | inl e ↦ rw e (record {
    capped = omega (arith, length-unburned now (refreshed new q), length-refreshed new q, h.capped);
    distinct = unburned-IsDistinct now _ (refreshed-IsDistinct new q h.distinct);
  })
  | inr e ↦
      let all = q ++ (new ∷ []) in
      rw e (record {
        capped =
            omega (arith, length-unburned now (newest max all), length-drop (length all - max) all);
        distinct =
            unburned-IsDistinct now _ (drop-IsDistinct _ all (snoc-IsDistinct new q h.distinct e));
      })
]
