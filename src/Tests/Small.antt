-- ===== src/Tests/Small.antt =====
-- Runs of the token comparison and of the rate limiter.
use spore_peer.Prelude.{◌+◌, ◌≡◌, [], ◌∷◌, ascii, ltb, arith, if◌then◌else◌}
use spore_peer.Limiter.{RateLimiter, allow, hits, allow_lem}

abbrev counted : RateLimiter
counted = record { max = 2; wins = (ascii "a", (5, 1)) ∷ [] }

allow_lem_example :
    ((allow (ascii "a") 5 counted).0 ≡ ltb (hits (ascii "a") 5 counted) 2)
    × (hits (ascii "a") 5 (allow (ascii "a") 5 counted).1 ≡ (
        if ltb (hits (ascii "a") 5 counted) 2
        then hits (ascii "a") 5 counted + 1
        else hits (ascii "a") 5 counted))
    × ((allow (ascii "a") 5 counted).1.max ≡ 2)
allow_lem_example = allow_lem (ascii "a") 5 counted (omega arith)
