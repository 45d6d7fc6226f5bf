-- ===== src/Fuse/Lifetime.antt =====
-- `S_LogMessage`, `prodosfs_mount`, `prodosfs_umount` and `S_Cleanup` (main.cxx): what happens when FUSE
-- begins and ends to serve. `mount_dir` is not null here: `main` does not come so far with it.
pub mod Cleanup
use prodosfs.Base.{
  ℕ, Bool, true, false, ◌≡◌, List, [], ◌∷◌, ◌++◌, ltb, not, ◌&&◌, if◌then◌else◌, ℤ, pos, negsuc,
  Result, ok, ◌>>=◌,
}
use prodosfs.Base.Text.{codes, decimal, pad_left}
use prodosfs.Util.Logger.{Logger, initial_log, set_logger, log_info, log_debug1}
use prodosfs.Volume.Paths.{Volume}
use prodosfs.Volume.Header
use prodosfs.Fuse.Settings.{Settings}
use prodosfs.Fuse.Program.{Platform, log_file}

abbrev is_logged : ℕ → ℤ → Bool
is_logged level (pos limit) = not (ltb limit level)
is_logged level (negsuc limit) = false

-- What is written to stderr for a message whose format is filled in.
unfoldable pub log_message : Settings → Logger
log_message s level text =
    if is_logged level s.log_level
    then codes "prodosfs[" ++ pad_left b'0' 2 (decimal level) ++ codes "]: " ++ text ++ 10 ∷ []
    else []

-- `LOG` from the call of `SetLogger` in `main` on.
abbrev pub main_log : Settings → Logger
main_log s = set_logger initial_log (log_message s)

-- What `fork` gives: below 0, above 0, or 0.
pub data Fork : Type 0 where
  fork_failed parent child : Fork

-- How `init` ends: the process exits, in success or not; or it serves, detached or not, with the directories
-- that its exit removes, and what it wrote.
pub data Begun : Type 0 where
  leaves : Bool → Begun
  stays : Bool → List (List ℕ) → List ℕ → Begun

abbrev is_above_zero : ℤ → Bool
is_above_zero (pos n) = ltb 0 n
is_above_zero (negsuc n) = false

module _ (s : Settings) (mount_dir : List ℕ) where
  -- From the first message on.
  unfoldable pub begin : Bool → Begun
  unfolding log_message
  begin detached = stays detached (if s.use_name then mount_dir ∷ [] else []) (
      log_message s log_debug1 (codes "prodosfs_mount()")
      ++ (if s.use_name then log_message s log_info (codes "created " ++ mount_dir) else [])
      ++ log_message s log_info (codes "mounted " ++ s.disk_image ++ codes " in " ++ mount_dir))

  unfoldable pub prodosfs_mount : ℤ → Fork → Begun
  unfolding begin
  prodosfs_mount log_fd fork =
      if is_above_zero log_fd
      then elim fork [ fork_failed ↦ leaves false | parent ↦ leaves true | child ↦ begin true ]
      else begin false

  -- What is written. `pointer` is the text of the address of the volume.
  unfoldable pub prodosfs_umount : Volume → List ℕ → Result (List ℕ)
  unfolding log_message
  prodosfs_umount v pointer = do
    volume_name ← Header.name v
    ok (
        log_message s log_debug1 (codes "prodosfs_umount(" ++ pointer ++ codes ")")
        ++ log_message s log_info (codes "unmounted " ++ s.disk_image ++ codes " in " ++ mount_dir))

  -- What is written before the directory is removed.
  unfoldable pub cleanup : List ℕ
  unfolding log_message
  cleanup = log_message s log_info (codes "removing " ++ mount_dir)

-- `log_fd` when the loop of FUSE is entered: that of the log file, where `main` opened one.
unfoldable pub log_fd : Platform → Settings → ℤ
unfolding log_file
log_fd p s = if not s.foreground && not s.debug then p.open_log (log_file p s.disk_image) else pos 0
