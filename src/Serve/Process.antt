-- ===== src/Serve/Process.antt =====
-- src/spore_peer.rs: the `serve` of the command line, from the opened fabric and the pid file to the
-- exit code.
use spore_peer.Prelude.{
  ℕ, List, ◌++◌, Bool, Option, none, some, Bytes, ascii, length, ◌==◌, if◌then◌else◌, Result, ok,
  err, panic,
}
use spore_peer.Text.{decimal}
use spore_peer.Crates.{Crates}
use spore_peer.Dict.{Dict, insert, remove}
use spore_peer.Fabric.State.{FabricConfig, Disk}
use spore_peer.Fabric.Put.{Relay}
use spore_peer.Fabric.Open.{OpenSetting, open_state}
use spore_peer.Serve.{Event, serve}

-- What `serve` finds: the texts of the errors with which the binding, the reading of the bound address
-- and the change of the listener's mode fail, the turns of its loop, and the clock behind it.
pub record Listening : Type 0 where
  pub bind : Option Bytes
  pub local_addr : Option Bytes
  pub nonblocking : Option Bytes
  pub turns : List (Bool × Event)
  pub now : ℕ
  pub clock : List ℕ

abbrev pub returned : Option ℕ → Option (Result Bytes (Unit {0}))
returned none = none
returned (some naps) = some (ok tt)

-- The result of `serve`; there is none while the process serves.
unfoldable pub serve_from : Listening → Option (Result Bytes (Unit {0}))
serve_from l = elim l.bind [
  | some e ↦ some (err e)
  | none ↦ elim l.local_addr [
    | some e ↦ some (err e)
    | none ↦ elim l.nonblocking [
      | some e ↦ some (err e)
      | none ↦ returned (serve l.turns l.now l.clock)
    ]
  ]
]

-- A panic ends the process with the code 101.
abbrev pub exit_code : {A : Type 0} → Result Bytes A → ℕ
exit_code (ok a) = 0
exit_code (err e) = 1
exit_code panic = 101

-- What surrounds the pid file: the process's number, `Path::parent` and the text of a path in a message,
-- and what the file system refuses. A write that fails may leave some bytes.
pub record PidSetting : Type 0 where
  pub pid : ℕ
  pub parent : Bytes → Option Bytes
  pub shown : Bytes → Bytes
  pub create_dir : Option Bytes
  pub write : Option (Option Bytes × Bytes)
  pub rename : Option Bytes
  pub removes : Bool

-- Files by their paths.
abbrev pub Files : Type 0
Files = Dict Bytes

abbrev pub temporary : Bytes → Bytes
temporary path = path ++ ascii ".tmp"

module _ (env : PidSetting) where
  abbrev pub pid_text : Bytes
  pid_text = decimal env.pid ++ ascii "\n"

  unfoldable pub make_parent : Bytes → Result Bytes (Unit {0})
  make_parent path = elim (env.parent path) [
    | none ↦ ok tt
    | some dir ↦ if length dir == 0 then ok tt else (elim env.create_dir [
      | none ↦ ok tt
      | some e ↦ err (ascii "pidfile dir " ++ (env.shown dir ++ (ascii ": " ++ e)))
    ])
  ]

  unfoldable pub rename_pid : Bytes → Files → Files × Result Bytes (Unit {0})
  rename_pid path files = elim env.rename [
    | some e ↦ (files, err (ascii "pidfile rename " ++ (path ++ (ascii ": " ++ e))))
    | none ↦ (insert path pid_text (remove (temporary path) files), ok tt)
  ]

  unfoldable pub write_made :
      Bytes → Files → Result Bytes (Unit {0}) → Files × Result Bytes (Unit {0})
  unfolding rename_pid
  write_made path files (ok u) = elim env.write [
    | some (none, e) ↦ (files, err (ascii "pidfile " ++ (path ++ (ascii ": " ++ e))))
    | some (some left, e) ↦
        (insert (temporary path) left files, err (ascii "pidfile " ++ (path ++ (ascii ": " ++ e))))
    | none ↦ rename_pid path (insert (temporary path) pid_text files)
  ]
  write_made path files (err e) = (files, err e)
  write_made path files panic = (files, panic)

  unfoldable pub write_pidfile : Bytes → Files → Files × Result Bytes (Unit {0})
  unfolding write_made make_parent
  write_pidfile path files = write_made path files (make_parent path)

  -- Behind the end of `serve`; the error of the removal is ignored.
  unfoldable pub clear_pidfile : Bytes → Files → Option (Result Bytes (Unit {0})) → Files × Option ℕ
  clear_pidfile path files none = (files, none)
  clear_pidfile path files (some r) =
      (if env.removes then remove path files else files, some (exit_code r))

  -- Behind the pid file.
  unfoldable pub serve_bound :
      Listening → Bytes → Files × Result Bytes (Unit {0}) → Files × Option ℕ
  unfolding clear_pidfile serve_from
  serve_bound l path (files, ok u) = clear_pidfile path files (serve_from l)
  serve_bound l path (files, err e) = (files, some 1)
  serve_bound l path (files, panic) = (files, some 101)

  -- The files and the exit code, which is none while the process serves.
  unfoldable pub serve_process : Listening → Option Bytes → Files → Files × Option ℕ
  unfolding serve_bound write_pidfile
  serve_process l none files = elim (serve_from l) [
    | none ↦ (files, none)
    | some r ↦ (files, some (exit_code r))
  ]
  serve_process l (some path) files = serve_bound l path (write_pidfile path files)

-- The fabric of a node that has it, and the envelopes that are left.
unfoldable pub open_fabric : Crates → OpenSetting → FabricConfig → Disk → Option Relay × Disk
open_fabric c env cfg disk =
    let relay = open_state c.hex env cfg disk in
    if cfg.enabled then (some relay, relay.disk) else (none, disk)
