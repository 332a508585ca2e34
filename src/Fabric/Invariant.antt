-- ===== src/Fabric/Invariant.antt =====
-- The relay of src/fabric.rs between requests: the caps of its queues and of its registry.
use spore_peer.Prelude.{
  ℕ, ◌≡◌, refl, subst, List, [], ◌∷◌, ◌++◌, Option, none, some, Bytes, same_bytes, same_bytes→eq,
  same_bytes_refl, Bool-cases, inl, inr, Result, ok, err, panic, arith,
}
use spore_peer.Json.{Value, unwrap_or}
use spore_peer.Crates.{Crates, Hex}
use spore_peer.Refusal.{Refusal}
use spore_peer.Dict.{lookup, lookup-insert_self, lookup-insert_other}
use spore_peer.Limiter.{allow}
use spore_peer.Fabric.Envelope.{marshal_envelope}
use spore_peer.Fabric.State.{Queued, Faults, Disk, persist_envelope}
use spore_peer.Fabric.Put.{
  Relay, PutTimes, queue_of, enqueue, put_persisted, new_entry, envelope_of, put_envelope,
  put_admitted, put_leased, leased_handle, run_fput, with_limiter,
}
use spore_peer.Fabric.Pop.{
  PopTimes, PopArgs, pop_args, drain, pop_found, pop_queue, pop_checked, pop_read, run_fpop,
}
use spore_peer.Fabric.Pop.Laws.{drain-IsDrained}
use spore_peer.Fabric.Reg.Laws.{IsWithinBudget}
use spore_peer.Fabric.Put.Queue.{IsQueue, put_queue-IsQueue}
use spore_peer.Fabric.Put.Laws.{queue_of-enqueue, lookup-enqueue_other}

-- Every queue of the relay is within the cap and has distinct pointers, and the registrations are
-- within the budget.
abbrev pub IsRelay : Relay → Type 0
IsRelay r =
    ((k : Bytes) → IsQueue r.state.cfg.max_per_handle (queue_of k r.state)) × IsWithinBudget r.state

enqueue-IsQueue :
    (f : Faults) (now : ℕ) (h : Bytes) (new : Queued) (r : Relay)
    → ((k : Bytes) → IsQueue r.state.cfg.max_per_handle (queue_of k r.state))
    → (k : Bytes)
    → IsQueue
        (enqueue f now h new r).state.cfg.max_per_handle
        (queue_of k (enqueue f now h new r).state)
enqueue-IsQueue f now h new r q k =
    let max = r.state.cfg.max_per_handle in
    let settings : (enqueue f now h new r).state.cfg ≡ r.state.cfg = unfold enqueue in refl in
    elim (Bool-cases (same_bytes h k)) [
      | inl e ↦
          let here : IsQueue max (queue_of h (enqueue f now h new r).state) =
            rw (queue_of-enqueue f now h new r) (put_queue-IsQueue max now new _ (q h)) in
          rw (settings, ← same_bytes→eq h k e) here
      | inr e ↦
          rw
            (
              settings,
              lookup-enqueue_other f now h k new r (λ s. cc (rw (s, same_bytes_refl k) at e)),
            )
            (q k)
    ]

enqueue-IsRelay :
    (f : Faults) (now : ℕ) (h : Bytes) (new : Queued) (r : Relay)
    → IsRelay r
    → IsRelay (enqueue f now h new r)
enqueue-IsRelay f now h new r q = (enqueue-IsQueue f now h new r q.0, unfold enqueue in q.1)

module _ (c : Crates) (f : Faults) (t : PutTimes) where
  put_persisted-IsRelay :
      (h : Bytes) (new : Queued) (r : Relay) (p : Result Refusal (Unit {0}))
      → IsRelay r
      → IsRelay (put_persisted f t.reap_at h new r p).0
  unfolding put_persisted
  put_persisted-IsRelay h new r (ok u) q = enqueue-IsRelay f t.reap_at h new r q
  put_persisted-IsRelay h new r (err e) q = q
  put_persisted-IsRelay h new r panic q = q

  put_admitted-IsRelay :
      (h : Bytes) (r : Relay) (args : Result Refusal (Bytes × Bytes))
      → IsRelay r
      → IsRelay (put_admitted c f t h r args).0
  unfolding put_admitted put_envelope
  put_admitted-IsRelay h r (ok (handle, pointer)) q =
      let raw = marshal_envelope (envelope_of t handle pointer) in
      let p = persist_envelope f (new_entry c t handle pointer).env_cid_hex raw r.disk in
      put_persisted-IsRelay h (new_entry c t handle pointer) (record r { disk = p.0 }) p.1 q
  put_admitted-IsRelay h r (err e) q = q
  put_admitted-IsRelay h r panic q = q

  put_leased-IsRelay :
      (ip : Bytes) (req : Value) (r : Relay) (l : Result Refusal Bytes)
      → IsRelay r
      → IsRelay (put_leased c f t ip req r l).0
  unfolding put_leased
  put_leased-IsRelay ip req r (ok h) q =
      elim (Bool-cases (allow ip t.limit_at r.state.fput_limiter).0) [
        | inl y ↦ rw y (put_admitted-IsRelay h (with_limiter ip t.limit_at r) _ q)
        | inr n ↦ rw n q
      ]
  put_leased-IsRelay ip req r (err e) q = q
  put_leased-IsRelay ip req r panic q = q

  -- A put keeps every queue of the relay within the cap and free of a pointer that stands twice, and
  -- the registrations within their budget, whatever its request, the clock and the file system are.
  pub run_fput-IsRelay :
      (ip : Bytes) (req : Value) (r : Relay) → IsRelay r → IsRelay (run_fput c f t ip req r).0
  unfolding run_fput
  run_fput-IsRelay ip req r q =
      put_leased-IsRelay ip req r (leased_handle c t.lease_at req r.state) q

suffix-IsQueue : (max : ℕ) (taken q : List Queued) → IsQueue max (taken ++ q) → IsQueue max q
suffix-IsQueue max [] q h = h
suffix-IsQueue max (x ∷ taken) q h =
    suffix-IsQueue max taken q
      (record { capped = omega (arith, h.capped); distinct = h.distinct.1 })

drain-IsQueue :
    (hex : Hex) (f : Faults) (max now n : ℕ) (q : List Queued) (disk : Disk)
    → IsQueue max q
    → IsQueue max (drain hex f n now [] q disk).queue
drain-IsQueue hex f max now n q disk h =
    let d = drain-IsDrained hex f n now [] q disk (omega arith) in
    suffix-IsQueue max d.taken (drain hex f n now [] q disk).queue (rw (← d.split) h)

module _ (c : Crates) (f : Faults) (t : PopTimes) where
  pop_found-IsQueue :
      (now : ℕ) (a : PopArgs) (r : Relay) (o : Option (List Queued))
      → lookup a.handle r.state.queues ≡ o
      → ((k : Bytes) → IsQueue r.state.cfg.max_per_handle (queue_of k r.state))
      → (k : Bytes)
      → IsQueue
          (pop_found c f now a r o).0.state.cfg.max_per_handle
          (queue_of k (pop_found c f now a r o).0.state)
  unfolding pop_found
  pop_found-IsQueue now a r none s h k = h k
  pop_found-IsQueue now a r (some q) s h k =
      let max = r.state.cfg.max_per_handle in
      let d = drain c.hex f a.max now [] q r.disk in
      elim (Bool-cases (same_bytes a.handle k)) [
        | inl e ↦
            let before : IsQueue max q = subst (λ o. IsQueue max (unwrap_or o [])) s (h a.handle) in
            rw (← same_bytes→eq a.handle k e, lookup-insert_self a.handle d.queue r.state.queues)
              (drain-IsQueue c.hex f max now a.max q r.disk before)
        | inr e ↦
            rw
              (lookup-insert_other k a.handle d.queue r.state.queues
                (λ y. cc (rw (y, same_bytes_refl k) at e)))
              (h k)
      ]

  pop_found-IsRelay :
      (now : ℕ) (a : PopArgs) (r : Relay) (o : Option (List Queued))
      → lookup a.handle r.state.queues ≡ o
      → IsRelay r
      → IsRelay (pop_found c f now a r o).0
  pop_found-IsRelay now a r none s h =
      (pop_found-IsQueue now a r none s h.0, unfold pop_found in h.1)
  pop_found-IsRelay now a r (some q) s h =
      (pop_found-IsQueue now a r (some q) s h.0, unfold pop_found in h.1)

  pop_checked-IsRelay :
      (a : PopArgs) (r : Relay) (p : Result Refusal (Unit {0}))
      → IsRelay r
      → IsRelay (pop_checked c f t.drain_at a r p).0
  unfolding pop_checked pop_queue
  pop_checked-IsRelay a r (ok u) h =
      pop_found-IsRelay t.drain_at a r (lookup a.handle r.state.queues) refl h
  pop_checked-IsRelay a r (err e) h = h
  pop_checked-IsRelay a r panic h = h

  pop_read-IsRelay :
      (ip : Bytes) (r : Relay) (p : Result Refusal PopArgs)
      → IsRelay r
      → IsRelay (pop_read c f t ip r p).0
  unfolding pop_read
  pop_read-IsRelay ip r (ok a) h = elim (Bool-cases (allow ip t.limit_at r.state.fput_limiter).0) [
    | inl y ↦ rw y (pop_checked-IsRelay a (with_limiter ip t.limit_at r) _ h)
    | inr n ↦ rw n h
  ]
  pop_read-IsRelay ip r (err e) h = h
  pop_read-IsRelay ip r panic h = h

  -- A drain keeps every queue of the relay within the cap and free of a pointer that stands twice, and
  -- the registrations within their budget, whatever its request, the clock and the file system are.
  pub run_fpop-IsRelay :
      (ip : Bytes) (req : Value) (r : Relay) → IsRelay r → IsRelay (run_fpop c f t ip req r).0
  unfolding run_fpop
  run_fpop-IsRelay ip req r h = pop_read-IsRelay ip r (pop_args c req) h
