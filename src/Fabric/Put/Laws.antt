-- ===== src/Fabric/Put/Laws.antt =====
-- `run_fput` of src/fabric.rs on the relay: what an accepted put does, and what a refused one leaves.
use spore_peer.Prelude.{
  ℕ, ◌<◌, ◌⊎◌, ◌≡◌, ◌≢◌, refl, ap, ◌∙◌, Bytes, Bool-cases, inl, inr, Result, ok, err, panic,
}
use spore_peer.Json.{Value}
use spore_peer.Crates.{Crates}
use spore_peer.Refusal.{Refusal}
use spore_peer.Dict.{lookup, lookup-insert_self, lookup-insert_other}
use spore_peer.Limiter.{allow, hits, allow_ok}
use spore_peer.Fabric.Envelope.{marshal_envelope}
use spore_peer.Fabric.State.{FabricState, Queued, Faults, persist_envelope}
use spore_peer.Fabric.Put.{
  Relay, PutTimes, leased_handle, put_args, place, reap, enqueue, queue_of, put_persisted,
  new_entry, envelope_of, put_envelope, put_admitted, put_leased, run_fput, with_limiter,
}
use spore_peer.Fabric.Put.Checks.{IsLeased, IsRead, leased_handle_ok, put_args_ok}
use spore_peer.Fabric.Put.Queue.{put_queue, place-eq, reap-eq-unburned}

pub queue_of-enqueue :
    (f : Faults) (now : ℕ) (h : Bytes) (new : Queued) (r : Relay)
    → queue_of h (enqueue f now h new r).state
      ≡ put_queue r.state.cfg.max_per_handle now new (queue_of h r.state)
unfolding enqueue
queue_of-enqueue f now h new r =
    let max = r.state.cfg.max_per_handle in
    let q = queue_of h r.state in
    let placed = place f max new q r.disk in
    rw (lookup-insert_self h (reap f now placed.0 placed.1).0 r.state.queues)
      (reap-eq-unburned f now placed.0 placed.1 ∙ rw (place-eq f max new q r.disk))

pub lookup-enqueue_other :
    (f : Faults) (now : ℕ) (h k : Bytes) (new : Queued) (r : Relay)
    → h ≢ k
    → lookup k (enqueue f now h new r).state.queues ≡ lookup k r.state.queues
unfolding enqueue
lookup-enqueue_other f now h k new r ne = lookup-insert_other k h _ r.state.queues ne

-- What an accepted put of `pointer` at the handle `h` (whose bytes are `handle`) has done to a relay.
pub record WasPut (c : Crates) (t : PutTimes) (h handle pointer : Bytes) (before after : Relay)
    : Type 0 where
  pub queued :
      queue_of h after.state
      ≡ put_queue before.state.cfg.max_per_handle t.reap_at
          (new_entry c t handle pointer)
          (queue_of h before.state)
  pub others : (k : Bytes) → h ≢ k → lookup k after.state.queues ≡ lookup k before.state.queues
  pub registry : after.state.reg ≡ before.state.reg
  pub settings : after.state.cfg ≡ before.state.cfg

module _ (c : Crates) (f : Faults) (t : PutTimes) where
  put_persisted_ok :
      (h handle pointer : Bytes) (r r' : Relay) (p : Result Refusal (Unit {0})) (v : Value)
      → r'.state ≡ r.state
      → (put_persisted f t.reap_at h (new_entry c t handle pointer) r' p).1 ≡ ok v
      → WasPut c t h handle pointer r
          (put_persisted f t.reap_at h (new_entry c t handle pointer) r' p).0
  unfolding put_persisted
  put_persisted_ok h handle pointer r r' (ok u) v same e =
      let new = new_entry c t handle pointer in
      record {
        queued = rw (← same) (queue_of-enqueue f t.reap_at h new r');
        others = λ k ne. rw (← same) (lookup-enqueue_other f t.reap_at h k new r' ne);
        registry = unfold enqueue in ap (λ (s : FabricState). s.reg) same;
        settings = unfold enqueue in ap (λ (s : FabricState). s.cfg) same;
      }
  put_persisted_ok h handle pointer r r' (err x) v same e = cc
  put_persisted_ok h handle pointer r r' panic v same e = cc

  -- What the verb has found out when it queues a pointer.
  pub record Accepted (ip : Bytes) (req : Value) (before after : Relay) : Type 0 where
    pub h : Bytes
    pub handle : Bytes
    pub pointer : Bytes
    pub leased : IsLeased c t.lease_at req before.state h
    pub admitted :
        (before.state.fput_limiter.max ≡ 0)
        ⊎ (hits ip t.limit_at before.state.fput_limiter < before.state.fput_limiter.max)
    pub read : IsRead c t.check_at before.state.cfg h req handle pointer
    pub put : WasPut c t h handle pointer before after

  put_admitted_ok :
      (ip h : Bytes) (now : ℕ) (r : Relay) (args : Result Refusal (Bytes × Bytes)) (v : Value)
      → (put_admitted c f t h (with_limiter ip now r) args).1 ≡ ok v
      → (a : Bytes × Bytes) × (args ≡ ok a)
        × WasPut c t h a.0 a.1 r (put_admitted c f t h (with_limiter ip now r) args).0
  unfolding put_admitted put_envelope
  put_admitted_ok ip h now r (ok (handle, pointer)) v e =
      let r' = with_limiter ip now r in
      let raw = marshal_envelope (envelope_of t handle pointer) in
      let p = persist_envelope f (new_entry c t handle pointer).env_cid_hex raw r.disk in
      let w = put_persisted_ok h handle pointer r' (record r' { disk = p.0 }) p.1 v refl e in
      (
        (handle, pointer),
        refl,
        record {
          queued = w.queued;
          others = w.others;
          registry = w.registry;
          settings = w.settings;
        },
      )
  put_admitted_ok ip h now r (err x) v e = cc
  put_admitted_ok ip h now r panic v e = cc

  put_leased_ok :
      (ip : Bytes) (req : Value) (r : Relay) (l : Result Refusal Bytes) (v : Value)
      → leased_handle c t.lease_at req r.state ≡ l
      → (put_leased c f t ip req r l).1 ≡ ok v
      → Accepted ip req r (put_leased c f t ip req r l).0
  unfolding put_leased
  put_leased_ok ip req r (ok h) v l e =
      elim (Bool-cases (allow ip t.limit_at r.state.fput_limiter).0) [
        | inl y ↦
            let (a, args, w) =
              put_admitted_ok ip h t.limit_at r (put_args c t.check_at r.state.cfg h req) v
                (rw y at e) in
            rw y (record {
              h = h;
              handle = a.0;
              pointer = a.1;
              leased = leased_handle_ok c t.lease_at req r.state h l;
              admitted = allow_ok ip t.limit_at r.state.fput_limiter y;
              read = put_args_ok c t.check_at r.state.cfg h req a.0 a.1 args;
              put = w;
            })
        | inr n ↦ cc (rw n at e)
      ]
  put_leased_ok ip req r (err x) v l e = cc
  put_leased_ok ip req r panic v l e = cc

  -- A put that is accepted named, in either case, a handle of 64 digits that is registered with a
  -- lease that runs; fewer puts than the limit, where one is set, were counted for the address in
  -- that second; and the request's pointer is 74 bytes with the header of version 1, and has a
  -- deadline that is not over and lies within the horizon. The pointer's entry is then in the queue
  -- of its handle as `put_queue` says, with the caps and the burned entries taken out, and no other
  -- queue, no registration and no setting has changed.
  pub run_fput_ok :
      (ip : Bytes) (req : Value) (r : Relay) (v : Value)
      → (run_fput c f t ip req r).1 ≡ ok v
      → Accepted ip req r (run_fput c f t ip req r).0
  unfolding run_fput
  run_fput_ok ip req r v e =
      put_leased_ok ip req r (leased_handle c t.lease_at req r.state) v refl e

-- Nothing but the rate counters has changed in the relay's state.
pub record IsUntouched (before after : Relay) : Type 0 where
  pub queues : after.state.queues ≡ before.state.queues
  pub registry : after.state.reg ≡ before.state.reg
  pub settings : after.state.cfg ≡ before.state.cfg

module _ (c : Crates) (f : Faults) (t : PutTimes) where
  put_persisted_err :
      (now : ℕ) (h : Bytes) (new : Queued) (r : Relay) (p : Result Refusal (Unit {0})) (x : Refusal)
      → (put_persisted f now h new r p).1 ≡ err x
      → (put_persisted f now h new r p).0 ≡ r
  unfolding put_persisted
  put_persisted_err now h new r (ok u) x e = cc
  put_persisted_err now h new r (err y) x e = refl
  put_persisted_err now h new r panic x e = refl

  put_admitted_err :
      (h : Bytes) (r : Relay) (args : Result Refusal (Bytes × Bytes)) (x : Refusal)
      → (put_admitted c f t h r args).1 ≡ err x
      → (put_admitted c f t h r args).0.state ≡ r.state
  unfolding put_admitted put_envelope
  put_admitted_err h r (ok (handle, pointer)) x e =
      ap (λ (s : Relay). s.state) (put_persisted_err t.reap_at h _ _ _ x e)
  put_admitted_err h r (err y) x e = refl
  put_admitted_err h r panic x e = refl

  put_leased_err :
      (ip : Bytes) (req : Value) (r : Relay) (l : Result Refusal Bytes) (x : Refusal)
      → (put_leased c f t ip req r l).1 ≡ err x
      → IsUntouched r (put_leased c f t ip req r l).0
  unfolding put_leased
  put_leased_err ip req r (ok h) x e =
      elim (Bool-cases (allow ip t.limit_at r.state.fput_limiter).0) [
        | inl y ↦
            let same = put_admitted_err h (with_limiter ip t.limit_at r) _ x (rw y at e) in
            rw y (record {
              queues = ap (λ (s : FabricState). s.queues) same;
              registry = ap (λ (s : FabricState). s.reg) same;
              settings = ap (λ (s : FabricState). s.cfg) same;
            })
        | inr n ↦ rw n (record { queues = refl; registry = refl; settings = refl })
      ]
  put_leased_err ip req r (err y) x e = record { queues = refl; registry = refl; settings = refl }
  put_leased_err ip req r panic x e = record { queues = refl; registry = refl; settings = refl }

  -- A put that is refused, for whatever reason and a failed write included, leaves every queue,
  -- every registration and the settings as they were.
  pub run_fput_err :
      (ip : Bytes) (req : Value) (r : Relay) (x : Refusal)
      → (run_fput c f t ip req r).1 ≡ err x
      → IsUntouched r (run_fput c f t ip req r).0
  unfolding run_fput
  run_fput_err ip req r x e = put_leased_err ip req r (leased_handle c t.lease_at req r.state) x e
