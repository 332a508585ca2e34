-- ===== src/Fabric/Pop/Laws.antt =====
-- `run_fpop` of src/fabric.rs: who drains, and what is drained.
use spore_peer.Prelude.{
  ℕ, ◌≤◌, ◌<◌, ◌≡◌, ◌≢◌, ◌⊎◌, refl, sym, ap, ◌∙◌, true, List, [], ◌∷◌, ◌++◌, map, append-nil,
  append_assoc, Option, none, some, Bytes, length, length-append, ltb, ltb→ge, ltb→lt, le→leb,
  gt→leb, Bool-cases, Option-cases, inl, inr, Result, ok, err, panic, arith,
}
use spore_peer.Json.{Value}
use spore_peer.Crates.{Crates, Hex}
use spore_peer.Refusal.{Refusal}
use spore_peer.Dict.{lookup, lookup-insert_self, lookup-insert_other}
use spore_peer.Limiter.{allow}
use spore_peer.Tokens.{ct_eq}
use spore_peer.Fabric.State.{FabricState, Registration, Queued, Disk, Faults, drop_envelope}
use spore_peer.Fabric.Put.{Relay, with_limiter, queue_of}
use spore_peer.Fabric.Put.Queue.{unburned}
use spore_peer.Fabric.Pop.{
  PopTimes, PopArgs, pop_args, check_token, Drained, drain, pop_reply, pop_found, pop_queue,
  pop_checked, pop_read, run_fpop,
}

-- The pointers of the entries that have not burned, in hexadecimal, in the queue's order.
abbrev pub delivered : Hex → ℕ → List Queued → List Bytes
delivered hex now q = map (λ x. hex.encode x.pointer) (unburned now q)

-- A drain splits the queue: a front part is taken, its unburned pointers are delivered in order, and
-- it ends at the limit or at the end of the queue.
pub record IsDrained (hex : Hex) (max now : ℕ) (out : List Bytes) (q : List Queued) (d : Drained)
    : Type 0 where
  pub taken : List Queued
  pub split : q ≡ taken ++ d.queue
  pub delivers : d.out ≡ out ++ delivered hex now taken
  pub limited : length d.out ≤ max
  pub ends : (d.queue ≡ []) ⊎ (length d.out ≡ max)

module _ (hex : Hex) (max now : ℕ) (out : List Bytes) (x : Queued) (q : List Queued)
    (d : Drained) where
  live-IsDrained :
      now < x.deadline
      → IsDrained hex max now (out ++ (hex.encode x.pointer ∷ [])) q d
      → IsDrained hex max now out (x ∷ q) d
  live-IsDrained h r = record {
    taken = x ∷ r.taken;
    split = ap (λ l. x ∷ l) r.split;
    delivers =
        r.delivers
        ∙ (append_assoc out (hex.encode x.pointer ∷ []) (delivered hex now r.taken)
            ∙ rw (gt→leb x.deadline now h));
    limited = r.limited;
    ends = r.ends;
  }

  burned-IsDrained :
      x.deadline ≤ now → IsDrained hex max now out q d → IsDrained hex max now out (x ∷ q) d
  burned-IsDrained h r = record {
    taken = x ∷ r.taken;
    split = ap (λ l. x ∷ l) r.split;
    delivers = r.delivers ∙ rw (le→leb x.deadline now h);
    limited = r.limited;
    ends = r.ends;
  }

pub drain-IsDrained :
    (hex : Hex) (f : Faults) (max now : ℕ) (out : List Bytes) (q : List Queued) (disk : Disk)
    → length out ≤ max
    → IsDrained hex max now out q (drain hex f max now out q disk)
unfolding drain
drain-IsDrained hex f max now out [] disk h = record {
  taken = [];
  split = refl;
  delivers = sym (append-nil out);
  limited = h;
  ends = inl refl;
}
drain-IsDrained hex f max now out (x ∷ q) disk h = elim (Bool-cases (ltb (length out) max)) [
  | inr e ↦ rw e (record {
    taken = [];
    split = refl;
    delivers = sym (append-nil out);
    limited = h;
    ends = inr (omega (arith, ltb→ge _ _ e));
  })
  | inl e ↦ rw e (elim (Bool-cases (ltb now x.deadline)) [
    | inl live ↦ rw live (
        live-IsDrained hex max now out x q _ (ltb→lt _ _ live) (
          drain-IsDrained hex f max now (out ++ (hex.encode x.pointer ∷ [])) q
            (drop_envelope f x.env_cid_hex disk)
            (omega (arith, ltb→lt _ _ e, length-append out (hex.encode x.pointer ∷ [])))))
    | inr burned ↦ rw burned (
        burned-IsDrained hex max now out x q _ (ltb→ge _ _ burned)
          (drain-IsDrained hex f max now out q (drop_envelope f x.env_cid_hex disk) h))
  ])
]

-- What an accepted drain has done.
pub record WasPopped (c : Crates) (t : PopTimes) (req : Value) (before after : Relay) (v : Value)
    : Type 0 where
  pub args : PopArgs
  pub owner : Registration
  pub asked : pop_args c req ≡ ok args
  pub registered : lookup args.handle before.state.reg ≡ some owner
  pub lease : t.lease_at < owner.expires
  pub token : ct_eq owner.token args.token ≡ true
  pub drained : Drained
  pub takes : IsDrained c.hex args.max t.drain_at [] (queue_of args.handle before.state) drained
  pub reply : v ≡ pop_reply drained.out
  pub rest : queue_of args.handle after.state ≡ drained.queue
  pub others :
      (k : Bytes) → args.handle ≢ k → lookup k after.state.queues ≡ lookup k before.state.queues
  pub registry : after.state.reg ≡ before.state.reg

module _ (c : Crates) (f : Faults) (t : PopTimes) where
  -- The drain of the queue of a handle whose token was right.
  record Popped (a : PopArgs) (before after : Relay) (v : Value) : Type 0 where
    drained : Drained
    takes : IsDrained c.hex a.max t.drain_at [] (queue_of a.handle before.state) drained
    reply : v ≡ pop_reply drained.out
    rest : queue_of a.handle after.state ≡ drained.queue
    others : (k : Bytes) → a.handle ≢ k → lookup k after.state.queues ≡ lookup k before.state.queues
    registry : after.state.reg ≡ before.state.reg

  pop_found_lem :
      (a : PopArgs) (r : Relay) (o : Option (List Queued)) (v : Value)
      → lookup a.handle r.state.queues ≡ o
      → (pop_found c f t.drain_at a r o).1 ≡ ok v
      → Popped a r (pop_found c f t.drain_at a r o).0 v
  unfolding pop_found
  pop_found_lem a r none v s e = record {
    drained = record { out = []; queue = []; disk = r.disk };
    takes = rw s (record {
      taken = [];
      split = refl;
      delivers = refl;
      limited = omega arith;
      ends = inl refl;
    });
    reply = cc;
    rest = rw s;
    others = λ k ne. refl;
    registry = refl;
  }
  pop_found_lem a r (some q) v s e = record {
    drained = drain c.hex f a.max t.drain_at [] q r.disk;
    takes = rw s (drain-IsDrained c.hex f a.max t.drain_at [] q r.disk (omega arith));
    reply = cc;
    rest = rw (
        lookup-insert_self a.handle (drain c.hex f a.max t.drain_at [] q r.disk).queue
          r.state.queues);
    others = λ k ne. lookup-insert_other k a.handle _ r.state.queues ne;
    registry = refl;
  }

  -- The check of the token, in parts.
  check_token_ok :
      (now : ℕ) (a : PopArgs) (st : FabricState) (u : Unit {0})
      → check_token now a st ≡ ok u
      → (o : Registration) × (lookup a.handle st.reg ≡ some o)
        × (now < o.expires)
        × (ct_eq o.token a.token ≡ true)
  unfolding check_token
  check_token_ok now a st u e = elim (Option-cases (lookup a.handle st.reg)) [
    | inl n ↦ cc (rw (n, check_token) at e)
    | inr (o, s) ↦ let e' = rw (s, check_token) at e in (o, s, ground arith, ground arith)
  ]

  pop_checked_ok :
      (req : Value) (ip : Bytes) (a : PopArgs) (r : Relay) (k : Result Refusal (Unit {0}))
      (v : Value)
      → pop_args c req ≡ ok a
      → check_token t.lease_at a r.state ≡ k
      → (pop_checked c f t.drain_at a (with_limiter ip t.limit_at r) k).1 ≡ ok v
      → WasPopped c t req r (pop_checked c f t.drain_at a (with_limiter ip t.limit_at r) k).0 v
  unfolding pop_checked pop_queue
  pop_checked_ok req ip a r (ok u) v asked k e =
      let (o, there, live, token) = check_token_ok t.lease_at a r.state u k in
      let p =
        pop_found_lem a (with_limiter ip t.limit_at r) (lookup a.handle r.state.queues) v refl e in
      record {
        args = a;
        owner = o;
        asked = asked;
        registered = there;
        lease = live;
        token = token;
        drained = p.drained;
        takes = p.takes;
        reply = p.reply;
        rest = p.rest;
        others = p.others;
        registry = p.registry;
      }
  pop_checked_ok req ip a r (err x) v asked k e = cc
  pop_checked_ok req ip a r panic v asked k e = cc

  pop_read_ok :
      (ip : Bytes) (req : Value) (r : Relay) (l : Result Refusal PopArgs) (v : Value)
      → pop_args c req ≡ l
      → (pop_read c f t ip r l).1 ≡ ok v
      → WasPopped c t req r (pop_read c f t ip r l).0 v
  unfolding pop_read
  pop_read_ok ip req r (ok a) v l e =
      elim (Bool-cases (allow ip t.limit_at r.state.fput_limiter).0) [
        | inl y ↦
            rw y (pop_checked_ok req ip a r (check_token t.lease_at a r.state) v l refl (rw y at e))
        | inr n ↦ cc (rw n at e)
      ]
  pop_read_ok ip req r (err x) v l e = cc
  pop_read_ok ip req r panic v l e = cc

  -- A drain that is accepted was asked by the owner: the handle is registered, its lease runs and
  -- the token is the registration's. The queue is split in order: the pointers of its front part that
  -- have not burned are delivered, at most as many as asked, nothing of that part stays queued, and
  -- the drain ends at the limit or at the end of the queue. No other queue and no registration has
  -- changed.
  pub run_fpop_ok :
      (ip : Bytes) (req : Value) (r : Relay) (v : Value)
      → (run_fpop c f t ip req r).1 ≡ ok v
      → WasPopped c t req r (run_fpop c f t ip req r).0 v
  unfolding run_fpop
  run_fpop_ok ip req r v e = pop_read_ok ip req r (pop_args c req) v refl e
