-- ===== src/Fabric/Reach.antt =====
-- The histories of a relay of src/fabric.rs: the requests that its verbs serve, one after another.
use spore_peer.Prelude.{ℕ, ◌≡◌, refl, [], Bytes, Result, ok, err, panic, arith}
use spore_peer.Json.{Value}
use spore_peer.Crates.{Crates}
use spore_peer.Refusal.{Refusal}
use spore_peer.Dict.{lookup}
use spore_peer.Limiter
use spore_peer.Fabric.State.{FabricConfig, FabricState, Faults}
use spore_peer.Fabric.Reg.{RegArgs, reg_args, sweep, register, may_register, after, run_freg}
use spore_peer.Fabric.Reg.Laws.{run_freg-IsWithinBudget}
use spore_peer.Fabric.Put.{Relay, PutTimes, run_fput}
use spore_peer.Fabric.Pop.{PopTimes, run_fpop}
use spore_peer.Fabric.Invariant.{IsRelay, run_fput-IsRelay, run_fpop-IsRelay}

-- One request of any address, with any content, at any time, under any faults of the file system.
pub data Serves (c : Crates) : Relay → Relay → Type 0 where
  freg :
      (now : ℕ) (req : Value) (r : Relay)
      → Serves c r (record r { state = (run_freg c now req r.state).0 })
  fput :
      (f : Faults) (t : PutTimes) (ip : Bytes) (req : Value) (r : Relay)
      → Serves c r (run_fput c f t ip req r).0
  fpop :
      (f : Faults) (t : PopTimes) (ip : Bytes) (req : Value) (r : Relay)
      → Serves c r (run_fpop c f t ip req r).0

-- The relays that requests make of a first one.
pub data Reaches (c : Crates) (first : Relay) : Relay → Type 0 where
  start : Reaches c first first
  next : {r s : Relay} → Reaches c first r → Serves c r s → Reaches c first s

-- A registration leaves the queues and the settings as they are.
register-queues :
    (now : ℕ) (a : RegArgs) (st : FabricState)
    → ((register now a st).0.queues ≡ st.queues) × ((register now a st).0.cfg ≡ st.cfg)
unfolding register may_register
register-queues now a st = ground arith

sweep-queues :
    (now : ℕ) (st : FabricState)
    → ((sweep now st).queues ≡ st.queues) × ((sweep now st).cfg ≡ st.cfg)
unfolding sweep
sweep-queues now st = ground arith

after-queues :
    (now : ℕ) (st : FabricState) (p : Result Refusal RegArgs)
    → ((after now st p).0.queues ≡ st.queues) × ((after now st p).0.cfg ≡ st.cfg)
unfolding after
after-queues now st (ok a) =
    ground (arith, register-queues now a (sweep now st), sweep-queues now st)
after-queues now st (err e) = (refl, refl)
after-queues now st panic = (refl, refl)

pub run_freg-IsRelay :
    (c : Crates) (now : ℕ) (req : Value) (r : Relay)
    → IsRelay r
    → IsRelay (record r { state = (run_freg c now req r.state).0 })
run_freg-IsRelay c now req r h =
    let same : ((run_freg c now req r.state).0.queues ≡ r.state.queues)
        × ((run_freg c now req r.state).0.cfg ≡ r.state.cfg) =
      unfold run_freg in after-queues now r.state (reg_args c req) in
    (λ k. rw (same.0, same.1) (h.0 k), run_freg-IsWithinBudget c now req r.state h.1)

Serves-IsRelay : (c : Crates) (r s : Relay) → Serves c r s → IsRelay r → IsRelay s
Serves-IsRelay c _ _ (freg now req r) h = run_freg-IsRelay c now req r h
Serves-IsRelay c _ _ (fput f t ip req r) h = run_fput-IsRelay c f t ip req r h
Serves-IsRelay c _ _ (fpop f t ip req r) h = run_fpop-IsRelay c f t ip req r h

-- A relay without registrations and queues, as it is opened on an empty directory.
abbrev pub fresh : FabricConfig → Relay
fresh cfg = record {
  state = record {
    cfg = cfg;
    fput_limiter = Limiter.new cfg.fput_rate;
    reg = [];
    queues = [];
    last_sweep_sec = 0;
  };
  disk = [];
}

pub fresh-IsRelay : (cfg : FabricConfig) → IsRelay (fresh cfg)
unfolding lookup
fresh-IsRelay cfg = (λ k. record { capped = omega arith; distinct = tt }, omega arith)

-- Along every history of requests to a relay that began empty, in every order and from all
-- addresses, each queue stays within the cap and holds no pointer twice, and the registrations stay
-- within their budget.
pub Reaches-IsRelay :
    (c : Crates) (cfg : FabricConfig) (r : Relay) → Reaches c (fresh cfg) r → IsRelay r
Reaches-IsRelay c cfg _ start = fresh-IsRelay cfg
Reaches-IsRelay c cfg s (next {r} h step) = Serves-IsRelay c r s step (Reaches-IsRelay c cfg r h)
