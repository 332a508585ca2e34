-- ===== src/Serve/Pidfile.antt =====
-- The pid file of `serve` in src/spore_peer.rs over the life of the process.
use spore_peer.Prelude.{
  ℕ, ◌≡◌, ◌≢◌, refl, sym, ap, subst, ◌∙◌, true, Option, none, some, Option-cases, Bool-cases, inl,
  inr, Bytes, length, ◌==◌, same_bytes, same_bytes_refl, same_bytes→eq, Result, ok, err, panic,
}
use spore_peer.Dict.{lookup, insert, remove, lookup-insert_self, lookup-insert_other, lookup-remove}
use spore_peer.Serve.Process.{
  Listening, serve_from, exit_code, PidSetting, Files, temporary, pid_text, make_parent, rename_pid,
  write_made, write_pidfile, clear_pidfile, serve_bound, serve_process,
}

lookup-remove_self : (k : Bytes) (files : Files) → lookup k (remove k files) ≡ none
lookup-remove_self k files = rw (lookup-remove k k files, same_bytes_refl k) refl

lookup-remove_other :
    (k j : Bytes) (files : Files) → j ≢ k → lookup k (remove j files) ≡ lookup k files
lookup-remove_other k j files other = elim (Bool-cases (same_bytes j k)) [
  | inl y ↦ absurd (other (same_bytes→eq j k y))
  | inr y ↦ rw (lookup-remove k j files, y) refl
]

module _ (env : PidSetting) (path : Bytes) where
  -- The file system refuses nothing.
  pub record IsQuiet : Type 0 where
    pub create_dir : env.create_dir ≡ none
    pub write : env.write ≡ none
    pub rename : env.rename ≡ none
    pub removes : env.removes ≡ true

  make_parent-quiet : env.create_dir ≡ none → make_parent env path ≡ ok tt
  unfolding make_parent
  make_parent-quiet e = elim (Option-cases (env.parent path)) [
    | inl y ↦ rw (y, make_parent) refl
    | inr (dir, y) ↦ elim (Bool-cases (length dir == 0)) [
      | inl z ↦ rw (y, z, make_parent) refl
      | inr z ↦ rw (y, z, e, make_parent) refl
    ]
  ]

  write_pidfile-quiet :
      (files : Files)
      → IsQuiet
      → write_pidfile env path files ≡ (
        insert path
            (pid_text env)
            (remove (temporary path) (insert (temporary path) (pid_text env) files)),
        ok tt,
      )
  unfolding write_pidfile write_made rename_pid
  write_pidfile-quiet files q =
      ap (write_made env path files) (make_parent-quiet q.create_dir)
      ∙ rw (q.write, q.rename, rename_pid) refl

  -- How a process stands that has a pid file: it serves, and the file has its number; or it has ended,
  -- with the code of what `serve` has returned, and the file is gone.
  abbrev pub Lives : Option (Result Bytes (Unit {0})) → Files × Option ℕ → Type 0
  Lives none r = (r.1 ≡ none) × (lookup path r.0 ≡ some (pid_text env))
  Lives (some result) r = (r.1 ≡ some (exit_code result)) × (lookup path r.0 ≡ none)

  clear_pidfile-Lives :
      (files : Files) (o : Option (Result Bytes (Unit {0})))
      → env.removes ≡ true
      → lookup path files ≡ some (pid_text env)
      → Lives o (clear_pidfile env path files o)
  unfolding clear_pidfile
  clear_pidfile-Lives files none e l = (refl, l)
  clear_pidfile-Lives files (some r) e l = rw e (refl, lookup-remove_self path files)

  -- The pid file tells whether the process serves: where the file system refuses nothing, the file holds
  -- the process's number as long as it serves, and it is gone once it has ended, also where the address
  -- could not be bound.
  pub serve_process-Lives :
      (l : Listening) (files : Files)
      → IsQuiet
      → Lives (serve_from l) (serve_process env l (some path) files)
  unfolding serve_process serve_bound
  serve_process-Lives l files q =
      subst (λ w. Lives (serve_from l) (serve_bound env l path w))
        (sym (write_pidfile-quiet files q))
        (clear_pidfile-Lives
          (insert path (pid_text env)
            (remove (temporary path) (insert (temporary path) (pid_text env) files)))
          (serve_from l) q.removes (lookup-insert_self path (pid_text env) _))

  module _ (name : Bytes) (other : path ≢ name) (no_part : temporary path ≢ name) where
    -- The file of that name is as it was.
    abbrev Same : Files → Files → Type 0
    Same before after = lookup name after ≡ lookup name before

    rename_pid-Same :
        (before files : Files) → Same before files → Same before (rename_pid env path files).0
    unfolding rename_pid
    rename_pid-Same before files h = elim (Option-cases env.rename) [
      | inr (e, y) ↦ rw (y, rename_pid) h
      | inl y ↦
          rw (y, rename_pid)
            (lookup-insert_other name path (pid_text env) _ other
              ∙ lookup-remove_other name (temporary path) files no_part
              ∙ h)
    ]

    write_made-Same :
        (files : Files) (r : Result Bytes (Unit {0})) → Same files (write_made env path files r).0
    unfolding write_made
    write_made-Same files (ok u) = elim (Option-cases env.write) [
      | inr ((none, e), y) ↦ rw (y, write_made) refl
      | inr ((some left, e), y) ↦
          rw (y, write_made) (lookup-insert_other name (temporary path) left files no_part)
      | inl y ↦
          rw (y, write_made)
            (rename_pid-Same files (insert (temporary path) (pid_text env) files)
              (lookup-insert_other name (temporary path) (pid_text env) files no_part))
    ]
    write_made-Same files (err e) = refl
    write_made-Same files panic = refl

    clear_pidfile-Same :
        (before files : Files) (o : Option (Result Bytes (Unit {0})))
        → Same before files
        → Same before (clear_pidfile env path files o).0
    unfolding clear_pidfile
    clear_pidfile-Same before files none h = h
    clear_pidfile-Same before files (some r) h = elim (Bool-cases env.removes) [
      | inl y ↦ rw y (lookup-remove_other name path files other ∙ h)
      | inr y ↦ rw y h
    ]

    serve_bound-Same :
        (l : Listening) (before : Files) (w : Files × Result Bytes (Unit {0}))
        → Same before w.0
        → Same before (serve_bound env l path w).0
    unfolding serve_bound
    serve_bound-Same l before (files, ok u) h = clear_pidfile-Same before files (serve_from l) h
    serve_bound-Same l before (files, err e) h = h
    serve_bound-Same l before (files, panic) h = h

    -- A process with a pid file changes no file but that and its temporary one, whatever the file system
    -- refuses, and however the process ends.
    pub serve_process_other :
        (l : Listening) (files : Files) → Same files (serve_process env l (some path) files).0
    unfolding serve_process write_pidfile
    serve_process_other l files =
        serve_bound-Same l files (write_pidfile env path files)
          (write_made-Same files (make_parent env path))
