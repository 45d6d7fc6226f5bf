-- ===== src/Fuse/MountPoint.antt =====
-- `S_UpdateMountDirectory` (main.cxx): the directory named after the volume.
pub mod Choice
use prodosfs.Base.{
  ℕ, zero, suc, ◌+◌, Bool, true, false, not, ◌||◌, ◌&&◌, List, [], ◌∷◌, ◌++◌, if◌then◌else◌, Result,
  ok, ◌>>=◌,
}
use prodosfs.Entry.{is_valid_name}
use prodosfs.Volume.Paths.{Volume}
use prodosfs.Volume.Header

-- What `stat` finds at a path: something, nothing (`ENOENT`), or another error.
pub data Probe : Type 0 where
  present : Probe
  absent : Probe
  failing : ℕ → Probe

-- `errno`: 0, `ENOENT`, or another error.
pub data ErrnoState : Type 0 where
  clear : ErrnoState
  no_entry : ErrnoState
  other : ℕ → ErrnoState

-- `errno` after a call of `stat`, which leaves it alone where it finds something.
abbrev pub after_stat : Probe → ErrnoState → ErrnoState
after_stat present errno = errno
after_stat absent errno = no_entry
after_stat (failing n) errno = other n

abbrev pub is_present : Probe → Bool
is_present present = true
is_present absent = false
is_present (failing n) = false

abbrev pub is_no_entry : ErrnoState → Bool
is_no_entry no_entry = true
is_no_entry clear = false
is_no_entry (other n) = false

abbrev pub is_clear : ErrnoState → Bool
is_clear clear = true
is_clear no_entry = false
is_clear (other n) = false

abbrev pub with_suffix : List ℕ → ℕ → List ℕ
with_suffix dir i = dir ++ (b'-' ∷ (b'0' + i) ∷ [])

module _ (stat : List ℕ → Probe) where
  -- The loop over the suffixes, from `i` on with `n` of them left: `errno` and the directory.
  unfoldable pub suffix_loop : List ℕ → ℕ → ℕ → ErrnoState → List ℕ → ErrnoState × List ℕ
  suffix_loop base i zero errno dir = (errno, dir)
  suffix_loop base i (suc n) errno dir =
      let tried = with_suffix base i in
      let rest = suffix_loop base (i + 1) n (after_stat (stat tried) clear) tried in
      if is_no_entry errno then (errno, dir) else rest

  -- Whether there is a name for the directory, and what `mount_dir` is then. The buffer has room for
  -- the slash, the name and the suffix.
  unfoldable pub choose_directory : ErrnoState → List ℕ → Bool × List ℕ
  choose_directory errno dir =
      let errno' = after_stat (stat dir) errno in
      let (errno'', dir') = suffix_loop dir 1 9 errno' dir in
      if is_present (stat dir) || not (is_no_entry errno')
      then (if is_clear errno'' then (false, dir) else (true, dir'))
      else (true, dir)

  unfoldable pub update_mount_directory : ErrnoState → Volume → List ℕ → Result (Bool × List ℕ)
  update_mount_directory errno v mount_dir = do
    vol_name ← Header.name v
    (if not (is_valid_name vol_name)
        then ok (false, mount_dir)
        else ok (choose_directory errno (mount_dir ++ (b'/' ∷ vol_name))))
