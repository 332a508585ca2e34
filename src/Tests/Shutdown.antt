-- ===== src/Tests/Shutdown.antt =====
-- A run of `serve` of src/spore_peer.rs up to its return.
use spore_peer.Prelude.{
  ℕ, ◌≡◌, ◌⊎◌, ◌<◌, List, [], ◌∷◌, Bool, true, false, ascii, some, arith, inl, inr,
}
use spore_peer.Serve.{Event, accepted, would_block, serve}
use spore_peer.Serve.Drain.{connections, before, serve_ends}

abbrev pub turns : List (Bool × Event)
turns = (false, accepted (ascii "10.0.0.1")) ∷ (false, would_block) ∷ (true, would_block) ∷ []

abbrev pub clock : List ℕ
clock = 10 ∷ 2000 ∷ 4000 ∷ 6000 ∷ []

serve_ends_example :
    (naps : ℕ) × (serve turns 10 clock ≡ some naps)
    × (((connections turns ≡ 0) × (naps ≡ 0))
        ⊎ ((0 < connections turns) × (before 5010 clock ≡ some naps)))
serve_ends_example = serve_ends turns 10 clock tt (inr (inr (inr (inl (omega arith)))))
