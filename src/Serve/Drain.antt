-- ===== src/Serve/Drain.antt =====
-- How long the drain of `serve` in src/spore_peer.rs lasts, and that it ends.
use spore_peer.Prelude.{
  ℕ, suc, ◌+◌, ◌<◌, ◌≤◌, ◌≡◌, ◌⊎◌, refl, sym, ap, ◌∙◌, List, [], ◌∷◌, Bool, true, false, ◌&&◌,
  Option, none, some, Bool-cases, inl, inr, ltb, ltb→lt, lt→ltb, ltb→ge, ge→ltb, arith,
}
use spore_peer.Serve.{
  Event, accepted, not_blocking, would_block, accept_error, Serving, on_event, accept_loop,
  drain_window, one_more, drain, shut_down, serve,
}

-- The connections among the turns before the signal.
abbrev pub connections : List (Bool × Event) → ℕ
connections [] = 0
connections ((true, event) ∷ turns) = 0
connections ((false, accepted ip) ∷ turns) = suc (connections turns)
connections ((false, not_blocking) ∷ turns) = connections turns
connections ((false, would_block) ∷ turns) = connections turns
connections ((false, accept_error) ∷ turns) = connections turns

-- The signal is seen in some turn.
abbrev pub Signalled : List (Bool × Event) → Type 0
Signalled [] = ⊥
Signalled ((true, event) ∷ turns) = Unit
Signalled ((false, event) ∷ turns) = Signalled turns

accept_loop-in_flight :
    (turns : List (Bool × Event)) (s : Serving)
    → Signalled turns
    → (t : Serving) × (accept_loop turns s ≡ some t)
      × (t.in_flight ≡ s.in_flight + connections turns)
unfolding accept_loop on_event
accept_loop-in_flight [] s h = absurd h
accept_loop-in_flight ((true, event) ∷ turns) s h = (s, refl, omega arith)
accept_loop-in_flight ((false, accepted ip) ∷ turns) s h =
    let (t, e, n) = accept_loop-in_flight turns (on_event (accepted ip) s) h in
    (t, e, omega (arith, n))
accept_loop-in_flight ((false, not_blocking) ∷ turns) s h = accept_loop-in_flight turns s h
accept_loop-in_flight ((false, would_block) ∷ turns) s h = accept_loop-in_flight turns s h
accept_loop-in_flight ((false, accept_error) ∷ turns) s h = accept_loop-in_flight turns s h

-- The number of the readings before the first that is not before the deadline.
abbrev pub before : ℕ → List ℕ → Option ℕ
before deadline [] = none
before deadline (now ∷ clock) = elim (ltb now deadline) [
  | true ↦ one_more (before deadline clock)
  | false ↦ some 0
]

drain-before :
    (n deadline : ℕ) (clock : List ℕ) → 0 < n → drain n deadline clock ≡ before deadline clock
unfolding drain
drain-before n deadline [] h = refl
drain-before n deadline (now ∷ clock) h = elim (Bool-cases (ltb now deadline)) [
  | inl y ↦ rw (lt→ltb 0 n h, y, drain, before) (ap one_more (drain-before n deadline clock h))
  | inr y ↦ rw (lt→ltb 0 n h, y, drain, before) refl
]

-- With a connection before the signal the drain lasts until its deadline.
serve_busy :
    (turns : List (Bool × Event)) (now : ℕ) (clock : List ℕ)
    → Signalled turns
    → 0 < connections turns
    → serve turns now clock ≡ before (now + drain_window) clock
unfolding serve shut_down
serve_busy turns now clock h some_there =
    let (s, e, n) = accept_loop-in_flight turns (record { in_flight = 0; started = [] }) h in
    rw e (drain-before s.in_flight (now + drain_window) clock (omega (arith, n, some_there)))

-- Without a connection it returns at once.
serve_idle :
    (turns : List (Bool × Event)) (now first : ℕ) (clock : List ℕ)
    → Signalled turns
    → connections turns ≡ 0
    → serve turns now (first ∷ clock) ≡ some 0
unfolding serve shut_down drain
serve_idle turns now first clock h idle =
    let (s, e, n) = accept_loop-in_flight turns (record { in_flight = 0; started = [] }) h in
    let free : ltb 0 s.in_flight ≡ false = ge→ltb _ _ (omega (arith, n, idle)) in
    rw (e, shut_down, free, drain) refl

-- The clock reaches the deadline.
abbrev pub Reaches : ℕ → List ℕ → Type 0
Reaches deadline [] = ⊥
Reaches deadline (now ∷ clock) = (deadline ≤ now) ⊎ Reaches deadline clock

drain-Reaches :
    (n deadline : ℕ) (clock : List ℕ)
    → Reaches deadline clock
    → (naps : ℕ) × (drain n deadline clock ≡ some naps)
unfolding drain
drain-Reaches n deadline [] h = absurd h
drain-Reaches n deadline (now ∷ clock) (inl late) =
    let over : (ltb 0 n && ltb now deadline) ≡ false = ground (arith, late) in
    (0, rw (over, drain) refl)
drain-Reaches n deadline (now ∷ clock) (inr later) =
    let (naps, e) = drain-Reaches n deadline clock later in
    elim (Bool-cases (ltb 0 n && ltb now deadline)) [
      | inl y ↦ (suc naps, rw (y, drain, e) refl)
      | inr y ↦ (0, rw (y, drain) refl)
    ]

-- Once the signal is seen `serve` returns, whatever the connections do: as soon as the clock has
-- reached the end of the drain, at the latest. With no connection before it does not sleep at all, and
-- with one it sleeps for the whole of the drain: its naps are the readings of the clock before the end.
pub serve_ends :
    (turns : List (Bool × Event)) (now : ℕ) (clock : List ℕ)
    → Signalled turns
    → Reaches (now + drain_window) clock
    → (naps : ℕ) × (serve turns now clock ≡ some naps)
      × (((connections turns ≡ 0) × (naps ≡ 0))
          ⊎ ((0 < connections turns) × (before (now + drain_window) clock ≡ some naps)))
serve_ends turns now [] h late = absurd late
serve_ends turns now (first ∷ clock) h late = elim (Bool-cases (ltb 0 (connections turns))) [
  | inl y ↦
      let (naps, e) = drain-Reaches 1 (now + drain_window) (first ∷ clock) late in
      let passed : before (now + drain_window) (first ∷ clock) ≡ some naps =
        sym (drain-before 1 (now + drain_window) (first ∷ clock) (omega arith)) ∙ e in
      (
        naps,
        serve_busy turns now (first ∷ clock) h (ltb→lt _ _ y) ∙ passed,
        inr (ltb→lt _ _ y, passed),
      )
  | inr y ↦
      let idle : connections turns ≡ 0 = omega (arith, ltb→ge _ _ y) in
      (0, serve_idle turns now first clock h idle, inl (idle, refl))
]
