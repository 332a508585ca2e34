-- ===== src/Peer/Threads/Laws.antt =====
-- What holds of the store of src/spore_peer.rs whatever the order of the threads' steps is.
use spore_peer.Prelude.{
  ℕ, ◌+◌, ◌-◌, ◌*◌, ◌^◌, ◌<◌, ◌≤◌, ◌≡◌, ◌≢◌, refl, sym, ap, ◌∙◌, subst, Bool, true, false, All,
  List, [], ◌∷◌, ◌++◌, Bytes, length, ltb, if◌then◌else◌, Result, ok, err, panic, ◌>>◌, arith,
}
use spore_peer.Json.{Value}
use spore_peer.Crates.{Crates}
use spore_peer.Limiter.{RateLimiter}
use spore_peer.Refusal.{Refusal}
use spore_peer.Store.Files.{Hold, HoldFaults, no_hold_faults, cid_of, max_body_bytes}
use spore_peer.Store.Laws.{IsHold}
use spore_peer.Peer.Policy.{ServeConfig, check_quota, enforce_write_policy}
use spore_peer.Peer.Rpc2.{PushTimes, check_blid}
use spore_peer.Peer.Laws.{seq_ok}
use spore_peer.Peer.Quota.{body_bytes, check_quota_ok}
use spore_peer.Peer.Threads.{
  Shared, after_checks, check_push, stage_body, after_stage, stage_push, rename_staged, rename_push,
  IsAlone, Step, checks, stages, renames, Reaches, start, then_step,
}
use spore_peer.Peer.Threads.Staged.{
  HasPart, IsStaged, stage_body-IsStaged, rename_staged-IsHold, rename_staged-body_bytes,
  rename_staged-HasPart,
}

-- What a body adds to the store: nothing where it is refused for its size.
abbrev size : Bytes → ℕ
size body = if ltb max_body_bytes (length body) then 0 else length body

abbrev total : List Bytes → ℕ
total [] = 0
total (b ∷ bs) = size b + total bs

size_cap : (body : Bytes) → size body ≤ max_body_bytes
size_cap body = ground arith

size_le : (body : Bytes) → size body ≤ length body
size_le body = ground arith

total_cap : (bs : List Bytes) → total bs ≤ length bs * max_body_bytes
total_cap [] = omega arith
total_cap (b ∷ bs) = omega (arith, total_cap bs, size_cap b)

All-middle {κ} :
    (P : Bytes → Type κ) (front : List Bytes) (body : Bytes) (back : List Bytes)
    → All P (front ++ (body ∷ back))
    → P body × All P (front ++ back)
All-middle P [] body back h = h
All-middle P (b ∷ front) body back (hb, hs) =
    let (h, rest) = All-middle P front body back hs in (h, (hb, rest))

total-middle :
    (front : List Bytes) (body : Bytes) (back : List Bytes)
    → total (front ++ (body ∷ back)) ≡ size body + total (front ++ back)
total-middle [] body back = refl
total-middle (b ∷ front) body back = omega (arith, total-middle front body back)

-- The bodies that are written and not yet renamed have different temporary files.
abbrev pub IsDistinct : Crates → List Bytes → Type 0
IsDistinct c [] = Unit
IsDistinct c (b ∷ bs) = All (λ other. cid_of c other ≢ cid_of c b) bs × IsDistinct c bs

middle-IsDistinct :
    (c : Crates) (front : List Bytes) (body : Bytes) (back : List Bytes)
    → IsDistinct c (front ++ (body ∷ back))
    → IsDistinct c (front ++ back) × All (λ other. cid_of c other ≢ cid_of c body) (front ++ back)
middle-IsDistinct c [] body back (away, rest) = (rest, away)
middle-IsDistinct c (b ∷ front) body back (away, rest) =
    let (distinct, others) = middle-IsDistinct c front body back rest in
    let (ne, away') = All-middle (λ other. cid_of c other ≢ cid_of c b) front body back away in
    ((away', distinct), (λ e. ne (sym e), others))

-- Every body that is written has its temporary file.
abbrev pub HasParts : Crates → Hold → List Bytes → Type 0
HasParts c hold staged = All (HasPart c hold) staged

HasParts-keep :
    (c : Crates) (body : Bytes) (hold hold' : Hold) (staged : List Bytes)
    → ((other : Bytes)
        → cid_of c other ≢ cid_of c body
        → HasPart c hold other
        → HasPart c hold' other)
    → All (λ other. cid_of c other ≢ cid_of c body) staged
    → HasParts c hold staged
    → HasParts c hold' staged
HasParts-keep c body hold hold' [] keep away h = tt
HasParts-keep c body hold hold' (b ∷ staged) keep (ne, away) (hb, hs) =
    (keep b ne hb, HasParts-keep c body hold hold' staged keep away hs)

-- The bodies are named by their hashes, what is written has its temporary file, and with those that
-- wait the bodies exceed the quota by as many of the largest bodies as threads can wait beside
-- another.
pub record IsSafe (c : Crates) (cfg : ServeConfig) (spare : ℕ) (s : Shared) : Type 0 where
  pub named : IsHold c s.node.hold
  pub distinct : IsDistinct c s.staged
  pub parts : HasParts c s.node.hold s.staged
  pub bounded :
      body_bytes s.node.hold + total s.pending + total s.staged
      ≤ cfg.max_store_bytes + spare * max_body_bytes

module _ (c : Crates) (cfg : ServeConfig) (spare : ℕ) (set : 0 < cfg.max_store_bytes)
    (small : cfg.max_store_bytes < 2 ^ 64 - 1) where
  after_checks-IsSafe :
      (body : Bytes) (s : Shared) (r : RateLimiter × Result Refusal (Unit {0}))
      → (r.1 ≡ ok tt → body_bytes s.node.hold + length body ≤ cfg.max_store_bytes)
      → length s.pending + length s.staged ≤ spare
      → IsSafe c cfg spare s
      → IsSafe c cfg spare (after_checks body s r)
  unfolding after_checks
  after_checks-IsSafe body s (limiter, ok u) room few h = record {
    named = h.named;
    distinct = h.distinct;
    parts = h.parts;
    bounded =
        let waiting : (length s.pending + length s.staged) * max_body_bytes
            ≤ spare * max_body_bytes =
          omega (arith, few) in
        omega (arith, room refl, size_le body, total_cap s.pending, total_cap s.staged, waiting);
  }
  after_checks-IsSafe body s (limiter, err e) room few h = record {
    named = h.named;
    distinct = h.distinct;
    parts = h.parts;
    bounded = h.bounded;
  }
  after_checks-IsSafe body s (limiter, panic) room few h = record {
    named = h.named;
    distinct = h.distinct;
    parts = h.parts;
    bounded = h.bounded;
  }

  check_push-IsSafe :
      (ip : Bytes) (now : ℕ) (payload : Value) (body : Bytes) (s : Shared)
      → length s.pending + length s.staged ≤ spare
      → IsSafe c cfg spare s
      → IsSafe c cfg spare (check_push c cfg ip now payload body s)
  unfolding check_push enforce_write_policy
  check_push-IsSafe ip now payload body s few h =
      let t : PushTimes = record { limit_at = now; write_at = now } in
      let policy =
        enforce_write_policy cfg ip now (length body) s.node.limiter payload s.node.hold in
      after_checks-IsSafe body s (policy.0, policy.1 >> check_blid c body payload)
        (λ passed.
          let (all, blid) =
            seq_ok c no_hold_faults t cfg ip policy.1 (check_blid c body payload) tt passed in
          let (two, quota) =
            seq_ok c no_hold_faults t cfg ip _ (check_quota cfg (length body) s.node.hold) tt all in
          check_quota_ok c no_hold_faults t cfg ip set small (length body) s.node.hold quota)
        few h

  after_stage-IsSafe :
      (body : Bytes) (others : List Bytes) (s : Shared) (r : Hold × Bool)
      → total s.pending ≡ size body + total others
      → IsStaged c body s.node.hold r
      → IsAlone c cfg body s.staged
      → IsSafe c cfg spare s
      → IsSafe c cfg spare (after_stage body others s r)
  unfolding after_stage
  after_stage-IsSafe body others s (hold, true) split done alone h = record {
    named = done.named;
    distinct = (alone, h.distinct);
    parts = (
      done.written refl,
      HasParts-keep c body s.node.hold hold s.staged done.others alone h.parts,
    );
    bounded = omega (arith, h.bounded, split, done.no_larger);
  }
  after_stage-IsSafe body others s (hold, false) split done alone h = record {
    named = done.named;
    distinct = h.distinct;
    parts = HasParts-keep c body s.node.hold hold s.staged done.others alone h.parts;
    bounded = omega (arith, h.bounded, split, done.no_larger);
  }

  stage_push-IsSafe :
      (f : HoldFaults) (now : ℕ) (front : List Bytes) (body : Bytes) (back : List Bytes)
      (s : Shared)
      → s.pending ≡ front ++ (body ∷ back)
      → IsAlone c cfg body s.staged
      → IsSafe c cfg spare s
      → IsSafe c cfg spare (stage_push c cfg f now body (front ++ back) s)
  unfolding stage_push
  stage_push-IsSafe f now front body back s e alone h =
      after_stage-IsSafe body (front ++ back) s (stage_body c f now body s.node.hold)
        (ap total e ∙ total-middle front body back)
        (stage_body-IsStaged c f now body s.node.hold h.named) alone h

  rename_push-IsSafe :
      (f : HoldFaults) (front : List Bytes) (body : Bytes) (back : List Bytes) (s : Shared)
      → s.staged ≡ front ++ (body ∷ back)
      → IsSafe c cfg spare s
      → IsSafe c cfg spare (rename_push c cfg f body (front ++ back) s)
  unfolding rename_push
  rename_push-IsSafe f front body back s e h =
      let split : total s.staged ≡ size body + total (front ++ back) =
        ap total e ∙ total-middle front body back in
      let (part, parts) =
        All-middle (HasPart c s.node.hold) front body back
          (subst (HasParts c s.node.hold) e h.parts) in
      let (distinct, away) =
        middle-IsDistinct c front body back (subst (IsDistinct c) e h.distinct) in
      let whole : size body ≡ length body = rw part.small refl in
      record {
        named = rename_staged-IsHold c f body s.node.hold part h.named;
        distinct = distinct;
        parts =
            HasParts-keep c body s.node.hold (rename_staged c f body s.node.hold) (front ++ back)
              (rename_staged-HasPart c f body s.node.hold part) away parts;
        bounded =
            omega
              (arith, h.bounded, split, whole, rename_staged-body_bytes c f body s.node.hold part);
      }

  Step-IsSafe : (s t : Shared) → Step c cfg spare s t → IsSafe c cfg spare s → IsSafe c cfg spare t
  Step-IsSafe s t (checks ip now payload body b few) h =
      check_push-IsSafe ip now payload body s few h
  Step-IsSafe s t (stages f now front body back e alone) h =
      stage_push-IsSafe f now front body back s e alone h
  Step-IsSafe s t (renames f front body back e) h = rename_push-IsSafe f front body back s e h

  -- Pushes on several connections, whose checks, temporary files and renames happen in any order: if at
  -- first every body of the store has the name of its hash, every body that waits for its rename has
  -- a temporary file of its own, and the store with what waits to be written or renamed exceeds the
  -- quota by no more than `spare` bodies of the largest size, then so it is ever after. A body passes
  -- its checks only while at most `spare` others wait, and its temporary file is written only while
  -- no other body of that hash waits for its rename. With `spare` zero the bound is the quota itself.
  -- A quota is set, and it is less than the largest 64-bit word.
  pub Reaches-IsSafe :
      (s t : Shared) → IsSafe c cfg spare s → Reaches c cfg spare s t → IsSafe c cfg spare t
  Reaches-IsSafe s t h start = h
  Reaches-IsSafe s t h (then_step {t = v} r step) = Step-IsSafe v t step (Reaches-IsSafe s v h r)
