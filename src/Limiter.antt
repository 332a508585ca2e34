-- ===== src/Limiter.antt =====
-- src/spore_peer.rs, `RateLimiter`: the per-address window counter that the write path and the
-- fabric verbs share.
use spore_peer.Prelude.{
  ℕ, ◌+◌, ◌<◌, ◌≡◌, ◌≢◌, Bool, true, false, [], none, some, Bytes, ltb, leb, ◌==◌, same_bytes_iff,
  if◌then◌else◌, arith, ◌⊎◌, inl, inr, Bool-cases, ==_iff, ltb→lt, sym, ◌∙◌,
}
use spore_peer.Dict.{Dict, lookup, insert, lookup-insert, lookup-insert_other}

-- A window is the second it stands for and the hits counted in it.
pub record RateLimiter : Type 0 where
  pub max : ℕ
  pub wins : Dict (ℕ × ℕ)

unfoldable pub new : ℕ → RateLimiter
new max = record { max = max; wins = [] }

-- `w.entry(ip).or_insert((now_sec, 0))`.
unfoldable pub window : Bytes → ℕ → RateLimiter → ℕ × ℕ
window ip now r = elim (lookup ip r.wins) [ none ↦ (now, 0) | some e ↦ e ]

-- The answer and the limiter behind the call.
unfoldable pub allow : Bytes → ℕ → RateLimiter → Bool × RateLimiter
unfolding window
allow ip now r =
    let e = window ip now r in
    let set = λ (w : ℕ × ℕ). record r { wins = insert ip w r.wins } in
    if r.max == 0
    then (true, r)
    else (if e.0 == now
        then (if leb r.max e.1 then (false, set e) else (true, set (e.0, e.1 + 1)))
        else (true, set (now, 1)))

-- The hits counted for an address in the second `now`.
unfoldable pub hits : Bytes → ℕ → RateLimiter → ℕ
unfolding window
hits ip now r = let e = window ip now r in if e.0 == now then e.1 else 0

-- With a limit set, a call at the second `now` is allowed exactly when fewer than `max` calls of that
-- address were counted in that second; an allowed call is counted, a refused one is not, and the
-- limit stays.
pub allow_lem :
    (ip : Bytes) (now : ℕ) (r : RateLimiter)
    → 0 < r.max
    → ((allow ip now r).0 ≡ ltb (hits ip now r) r.max)
      × (hits ip now (allow ip now r).1
          ≡ (if ltb (hits ip now r) r.max then hits ip now r + 1 else hits ip now r))
      × ((allow ip now r).1.max ≡ r.max)
unfolding allow hits
allow_lem ip now r h =
    let self = λ (w : ℕ × ℕ). lookup-insert ip ip w r.wins in
    (
      ground arith,
      ground (
        arith,
        same_bytes_iff ip ip,
        self (now, 1),
        self (window ip now r),
        self (now, (window ip now r).1 + 1),
      ),
      ground arith,
    )

-- A call that is allowed was within the limit, where one is set.
pub allow_ok :
    (ip : Bytes) (now : ℕ) (r : RateLimiter)
    → (allow ip now r).0 ≡ true
    → (r.max ≡ 0) ⊎ (hits ip now r < r.max)
allow_ok ip now r h = elim (Bool-cases (r.max == 0)) [
  | inl y ↦ inl ((==_iff r.max 0).0 y)
  | inr y ↦
      let limited : 0 < r.max = ground (arith, y) in
      inr (ltb→lt _ _ (sym (allow_lem ip now r limited).0 ∙ h))
]

-- A call leaves the count of every other address as it was, at every second.
pub hits-allow_other :
    (ip other : Bytes) (now at : ℕ) (r : RateLimiter)
    → ip ≢ other
    → hits other at (allow ip now r).1 ≡ hits other at r
unfolding allow hits
hits-allow_other ip other now at r ne =
    let away = λ (w : ℕ × ℕ). lookup-insert_other other ip w r.wins ne in
    ground (arith, away (now, 1), away (window ip now r), away (now, (window ip now r).1 + 1))
