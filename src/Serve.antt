-- ===== src/Serve.antt =====
-- src/spore_peer.rs, `serve`: the loop that accepts connections until a signal, and the drain behind it.
pub mod Drain
pub mod Process
pub mod Pidfile
use spore_peer.Prelude.{
  ℕ, suc, ◌+◌, List, [], ◌∷◌, Bool, true, false, ◌&&◌, Option, none, some, Bytes, ltb,
  if◌then◌else◌, Result, ok, err, panic,
}

-- What `listener.accept()` has given in one turn: a connection from an address, one whose mode could
-- not be set, nothing yet, or an error.
pub data Event : Type 0 where
  accepted : Bytes → Event
  not_blocking would_block accept_error : Event

-- The count of the loop, and the addresses for which a thread has been started, the last first.
pub record Serving : Type 0 where
  pub in_flight : ℕ
  pub started : List Bytes

unfoldable pub on_event : Event → Serving → Serving
on_event (accepted ip) s = record { in_flight = suc s.in_flight; started = ip ∷ s.started }
on_event not_blocking s = s
on_event would_block s = s
on_event accept_error s = s

-- The turns of the loop: what SHUTDOWN holds at the beginning of each, and what is accepted in it. There
-- is no result while no turn has seen the signal.
unfoldable pub accept_loop : List (Bool × Event) → Serving → Option Serving
unfolding on_event
accept_loop [] s = none
accept_loop ((down, event) ∷ turns) s = elim down [
  | true ↦ some s
  | false ↦ accept_loop turns (on_event event s)
]

-- SHUTDOWN_DRAIN_SECS, in the clock's milliseconds.
abbrev pub drain_window : ℕ
drain_window = 5000

abbrev pub one_more : Option ℕ → Option ℕ
one_more none = none
one_more (some n) = some (suc n)

-- The naps of the drain, by the readings of the clock before each: their number, once it has ended.
unfoldable pub drain : ℕ → ℕ → List ℕ → Option ℕ
drain in_flight deadline [] = none
drain in_flight deadline (now ∷ clock) = elim (ltb 0 in_flight && ltb now deadline) [
  | true ↦ one_more (drain in_flight deadline clock)
  | false ↦ some 0
]

-- What follows the loop, at the time `now`.
unfoldable pub shut_down : ℕ → List ℕ → Option Serving → Option ℕ
unfolding drain
shut_down now clock none = none
shut_down now clock (some s) = drain s.in_flight (now + drain_window) clock

-- From the bound listener to the return, with the number of the naps of the drain.
unfoldable pub serve : List (Bool × Event) → ℕ → List ℕ → Option ℕ
unfolding accept_loop shut_down
serve turns now clock =
    shut_down now clock (accept_loop turns (record { in_flight = 0; started = [] }))
