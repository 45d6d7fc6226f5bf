-- ===== src/Fuse/Lifetime/Cleanup.antt =====
-- The directory that `main` makes, and who removes it (main.cxx).
use prodosfs.Base.{
  ℕ, ◌≡◌, ◌⊎◌, inl, inr, ap, ◌∙◌, sym, true, false, Bool, List, [], ◌∷◌, some, ok, ℤ, arith,
  if◌then◌else◌,
}
use prodosfs.Volume.Paths.{Volume}
use prodosfs.Fuse.Settings.{Settings}
use prodosfs.Fuse.MountPoint.{update_mount_directory}
use prodosfs.Fuse.Program.{Platform, serves, main, fuse_arguments}
use prodosfs.Fuse.Program.Ready.{main-IsReady}
use prodosfs.Fuse.Lifetime.{
  Fork, fork_failed, parent, child, stays, begin, prodosfs_mount, log_fd, is_above_zero,
}

begun :
    (s : Settings) (mount_dir : List ℕ) (fd : ℤ) (fork : Fork) (detached : Bool)
    (at_exit : List (List ℕ)) (out : List ℕ)
    → prodosfs_mount s mount_dir fd fork ≡ stays detached at_exit out
    → (at_exit ≡ (if s.use_name then mount_dir ∷ [] else []))
      × (detached ≡ true → (is_above_zero fd ≡ true) × (fork ≡ child))
unfolding prodosfs_mount begin
begun s mount_dir fd fork_failed detached at_exit out e = ground (arith, e)
begun s mount_dir fd parent detached at_exit out e = ground (arith, e)
begun s mount_dir fd child detached at_exit out e = ground (arith, e)

log_fd_quiet :
    (p : Platform) (s : Settings)
    → is_above_zero (log_fd p s) ≡ true
    → (s.foreground ≡ false) × (s.debug ≡ false)
unfolding log_fd
log_fd_quiet p s e = ground (arith, e)

-- The process that goes on to serve cleans up after `main`: when `main` enters the loop of FUSE and
-- `init` has begun to serve, the exit of the process removes the mount directory that `main` chose for the
-- volume and made, and no other, if the option `-n` was given; without it, it removes none, and the mount
-- directory is the one of the arguments. It is detached only if it is neither in the foreground nor
-- debugging, and then it is the child of a fork.
pub main-prodosfs_mount :
    (p : Platform) (options : List (ℕ × List ℕ)) (mount_dir image_file : List ℕ)
    (more : List (List ℕ)) (s : Settings) (v : Volume) (args : List (List ℕ))
    → main p options (mount_dir ∷ image_file ∷ more) ≡ ok (serves s v args)
    → (dir : List ℕ) × (args ≡ fuse_arguments p s dir)
      × ((fork : Fork) (detached : Bool) (at_exit : List (List ℕ)) (out : List ℕ)
          → prodosfs_mount s dir (log_fd p s) fork ≡ stays detached at_exit out
          → (((s.use_name ≡ true)
                × (at_exit ≡ dir ∷ [])
                × (p.mkdir_fails dir ≡ false)
                × ((base : List ℕ) × (p.realpath mount_dir ≡ some base)
                    × (update_mount_directory p.stat p.errno v base ≡ ok (true, dir))))
              ⊎ ((s.use_name ≡ false) × (at_exit ≡ []) × (p.realpath mount_dir ≡ some dir)))
            × (detached ≡ true → (s.foreground ≡ false) × (s.debug ≡ false) × (fork ≡ child)))
main-prodosfs_mount p options mount_dir image_file more s v args e =
    let ready = main-IsReady p options mount_dir image_file more s v args e in
    let (dir, is_args, (base, real, placed)) = ready.placed in
    (
      dir,
      is_args,
      (λ fork detached at_exit out up.
          let (removed, child_only) = begun s dir (log_fd p s) fork detached at_exit out up in
          (
            elim placed [
              | inl (given, same) ↦ inr (given, rw given at removed, real ∙ ap some (sym same))
              | inr (named, updated, made) ↦
                  inl (named, rw named at removed, made, (base, real, updated))
            ],
            (λ is_detached.
                let (above, is_child) = child_only is_detached in
                let (back, silent) = log_fd_quiet p s above in (back, silent, is_child)),
          )),
    )
