-- ===== src/Client/Converge.antt =====
-- src/spore_peer.rs: `sync`, `push`, `sync_pass` and `sync_loop`, over `sync_stream` and `push_stream`.
pub mod Laws
pub mod Synced
use spore_peer.Prelude.{
  ℕ, zero, suc, ◌+◌, List, [], ◌∷◌, ◌++◌, Bool, true, false, Option, none, some, Bytes, ascii,
  if◌then◌else◌, Result, ok, err, panic, Try,
}
use spore_peer.Crates.{Crates}
use spore_peer.Dict.{lookup}
use spore_peer.Store.Files.{File, Hold}
use spore_peer.Peers.File.{PeersFaults, peers_list}
use spore_peer.Client.Call.{Remote, Conn}
use spore_peer.Client.Sync.{SyncSetting, Progress, sync_stream}
use spore_peer.Client.Push.{PushSetting, Pushing, push_stream}

-- `TcpStream::connect`: what it makes of the other side, or the text of its error.
abbrev pub Connect : Remote → Type 0
Connect R = R.State → Bytes → R.State × Result Bytes (Unit {0})

-- What surrounds a pass over the peers: the readings of peers.txt and, by the number of the peer in
-- the list, what surrounds a pull and a push.
pub record PassSetting : Type 0 where
  pub faults : PeersFaults
  pub pull : ℕ → SyncSetting
  pub push : ℕ → PushSetting

-- The text of peers.txt, which lies with the bodies.
abbrev pub peers_file : Hold → Option Bytes
peers_file hold = elim (lookup (ascii "peers.txt") hold) [
  | none ↦ none
  | some file ↦ some file.content
]

-- The variables of a pass, with the directory and the other side that it changes.
pub record Totals (R : Remote) : Type 0 where
  pub hold : Hold
  pub state : R.State
  pub synced : ℕ
  pub failed : ℕ
  pub transferred : ℕ

-- The totals; a pass has no errors of its own.
abbrev pub Passed : Remote → Type 0
Passed R = Totals R × Result Bytes (Unit {0})

module _ (R : Remote) (c : Crates) (net : Connect R) where
  -- `fs::create_dir_all`, the connection and one pull.
  unfoldable pub pulled :
      Progress R × Result Bytes (ℕ × ℕ × ℕ) → (Hold × R.State) × Result Bytes (Unit {0})
  pulled (p, ok counts) = ((p.hold, p.conn.state), ok tt)
  pulled (p, err e) = ((p.hold, p.conn.state), err e)
  pulled (p, panic) = ((p.hold, p.conn.state), panic)

  abbrev pub failed_connect : Bytes → Bytes → Bytes
  failed_connect addr e = ascii "connect " ++ (addr ++ (ascii ": " ++ e))

  unfoldable pub sync_connected :
      SyncSetting
      → Bytes
      → Hold
      → R.State × Result Bytes (Unit {0})
      → (Hold × R.State) × Result Bytes (Unit {0})
  unfolding pulled
  sync_connected env addr hold (s, ok u) =
      pulled (sync_stream R c env (record { state = s; unread = [] }) hold)
  sync_connected env addr hold (s, err e) = ((hold, s), err (failed_connect addr e))
  sync_connected env addr hold (s, panic) = ((hold, s), panic)

  abbrev pub failed_dir : Bytes → Bytes → Bytes
  failed_dir dir e = ascii "dir " ++ (dir ++ (ascii ": " ++ e))

  unfoldable pub sync :
      SyncSetting
      → Option Bytes
      → Bytes
      → R.State
      → Hold
      → (Hold × R.State) × Result Bytes (Unit {0})
  unfolding sync_connected
  sync env create_dir addr s hold = elim create_dir [
    | some e ↦ ((hold, s), err (failed_dir env.dir e))
    | none ↦ sync_connected env addr hold (net s addr)
  ]

  unfoldable pub pushed_to :
      Pushing R × Result Bytes (ℕ × ℕ × ℕ) → R.State × Result Bytes (Unit {0})
  pushed_to (q, ok counts) = (q.conn.state, ok tt)
  pushed_to (q, err e) = (q.conn.state, err e)
  pushed_to (q, panic) = (q.conn.state, panic)

  unfoldable pub push_connected :
      PushSetting
      → Bytes
      → Hold
      → R.State × Result Bytes (Unit {0})
      → R.State × Result Bytes (Unit {0})
  unfolding pushed_to
  push_connected env addr hold (s, ok u) =
      pushed_to (push_stream R c env (record { state = s; unread = [] }) hold)
  push_connected env addr hold (s, err e) = (s, err (failed_connect addr e))
  push_connected env addr hold (s, panic) = (s, panic)

  unfoldable pub push :
      PushSetting → Option Bytes → Bytes → R.State → Hold → R.State × Result Bytes (Unit {0})
  unfolding push_connected
  push env create_dir addr s hold = elim create_dir [
    | some e ↦ (s, err (failed_dir env.dir e))
    | none ↦ push_connected env addr hold (net s addr)
  ]

  -- The results of both directions, the pull having fetched `f` bodies.
  unfoldable pub on_push : ℕ → Totals R → Pushing R × Result Bytes (ℕ × ℕ × ℕ) → Passed R
  on_push f t (q, ok (height, p, had)) = (
    record t { state = q.conn.state; synced = suc t.synced; transferred = t.transferred + (f + p) },
    ok tt,
  )
  on_push f t (q, err e) = (record t { state = q.conn.state; failed = suc t.failed }, ok tt)
  on_push f t (q, panic) = (record t { state = q.conn.state }, panic)

  -- The peer is pushed to, without a token, only where the pull has succeeded.
  unfoldable pub on_pull : PushSetting → Totals R → Progress R × Result Bytes (ℕ × ℕ × ℕ) → Passed R
  unfolding on_push
  on_pull env t (p, ok (height, f, have)) =
      on_push f (record t { hold = p.hold })
        (push_stream R c (record env { token = [] }) p.conn p.hold)
  on_pull env t (p, err e) =
      (record t { hold = p.hold; state = p.conn.state; failed = suc t.failed }, ok tt)
  on_pull env t (p, panic) = (record t { hold = p.hold; state = p.conn.state }, panic)

  unfoldable pub on_connect :
      SyncSetting → PushSetting → Totals R → R.State × Result Bytes (Unit {0}) → Passed R
  unfolding on_pull
  on_connect pull push t (s, ok u) =
      on_pull push t (sync_stream R c pull (record { state = s; unread = [] }) t.hold)
  on_connect pull push t (s, err e) = (record t { state = s; failed = suc t.failed }, ok tt)
  on_connect pull push t (s, panic) = (record t { state = s }, panic)

  unfoldable pub go_on : (Totals R → Passed R) → Passed R → Passed R
  go_on loop (t, ok u) = loop t
  go_on loop (t, err u) = (t, err u)
  go_on loop (t, panic) = (t, panic)

  -- The loop over the peers, from the one of the number `i`.
  unfoldable pub pass_peers : PassSetting → ℕ → List Bytes → Totals R → Passed R
  unfolding go_on on_connect
  pass_peers env i [] t = (t, ok tt)
  pass_peers env i (addr ∷ addrs) t =
      go_on (pass_peers env (suc i) addrs)
        (on_connect (env.pull i) (env.push i) t (net t.state addr))

  unfoldable pub sync_pass : PassSetting → R.State → Hold → Passed R
  unfolding pass_peers
  sync_pass env s hold =
      pass_peers env 0 (peers_list env.faults (peers_file hold))
        (record { hold = hold; state = s; synced = 0; failed = 0; transferred = 0 })

  -- The loop for `n` passes: `none` where it has not ended by then. `envs` surround the passes.
  unfoldable pub after_pass :
      (R.State → Hold → Totals R × Option (Result Bytes (ℕ × ℕ × ℕ)))
      → Bool
      → Passed R
      → Totals R × Option (Result Bytes (ℕ × ℕ × ℕ))
  after_pass loop once (t, ok u) =
      if once then (t, some (ok (t.synced, t.failed, t.transferred))) else loop t.state t.hold
  after_pass loop once (t, err u) = (t, some (err u))
  after_pass loop once (t, panic) = (t, some panic)

  unfoldable pub passes :
      (ℕ → PassSetting) → Bool → ℕ → R.State → Hold → Totals R × Option (Result Bytes (ℕ × ℕ × ℕ))
  unfolding after_pass sync_pass
  passes envs once zero s hold =
      (record { hold = hold; state = s; synced = 0; failed = 0; transferred = 0 }, none)
  passes envs once (suc n) s hold = after_pass (passes envs once n) once (sync_pass (envs n) s hold)

  unfoldable pub sync_loop :
      (ℕ → PassSetting)
      → Bytes
      → Option Bytes
      → Bool
      → ℕ
      → R.State
      → Hold
      → Totals R × Option (Result Bytes (ℕ × ℕ × ℕ))
  unfolding passes
  sync_loop envs dir create_dir once n s hold = elim create_dir [
    | none ↦ passes envs once n s hold
    | some e ↦ (
      record { hold = hold; state = s; synced = 0; failed = 0; transferred = 0 },
      some (err (failed_dir dir e)),
    )
  ]
