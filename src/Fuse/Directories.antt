-- ===== src/Fuse/Directories.antt =====
-- The operations on open directories: `prodosfs_opendir`, `prodosfs_readdir` and
-- `prodosfs_closedir` (main.cxx).
pub mod Entries
pub mod Paths
use prodosfs.Base.{
  ℕ, zero, suc, Bool, true, false, List, [], ◌∷◌, ◌++◌, Option, none, some, ◌==◌, if◌then◌else◌,
  Result, ok, thrown, out_of_fuel, wild_pointer, ◌>>=◌, Err, err_end_of_file,
}
use prodosfs.Base.Text.{codes}
use prodosfs.Disk.{Disk}
use prodosfs.Directory.{Handle, next_entry}
use prodosfs.Volume.Paths.{Volume, open_directory}
use prodosfs.Fuse.Settings.{Settings}
use prodosfs.Fuse.Errors.{Reply, success, minus_error, error_code}
use prodosfs.Fuse.Names.{exported_filename}
use prodosfs.Fuse.Files.{OpenFile, file, listing, directory, nothing}

-- The answer, `fi->fh` if it is set, and the thread's error.
unfoldable pub prodosfs_opendir : ℕ → Volume → Err → List ℕ → Result (Reply × Option OpenFile × Err)
prodosfs_opendir fuel v err path = do
  (dh, err') ← open_directory fuel v err path
  elim dh [
    | none ↦ ok (minus_error err', none, err')
    | some h ↦ ok (success 0, some (directory h), err')
  ]

-- `filler` is FUSE's: it adds a name to the buffer, or says that the buffer is full. What is there
-- decides, and so does the name.
module _ (full : List (List ℕ) → List ℕ → Bool) where
  abbrev pub filled : List (List ℕ) → List ℕ → List (List ℕ)
  filled buf name = if full buf name then buf else buf ++ name ∷ []

  -- The loop over the entries: the names in the buffer, the handle, and the thread's error. `limit` is
  -- the fuel of each `NextEntry`.
  unfoldable pub readdir_loop :
      ℕ → ℕ → Settings → Disk → Err → Handle → List (List ℕ) → Result (List (List ℕ) × Handle × Err)
  readdir_loop zero limit s d err h buf = out_of_fuel
  readdir_loop (suc fuel) limit s d err h buf = do
    (entry, h', err') ← next_entry limit d err h
    elim entry [
      | none ↦ ok (buf, h', err')
      | some e ↦ elim (full buf (exported_filename s d e)) [
        | true ↦ ok (buf, h', err')
        | false ↦ readdir_loop fuel limit s d err' h' (buf ++ exported_filename s d e ∷ [])
      ]
    ]

  unfoldable pub prodosfs_readdir :
      ℕ
      → Settings
      → Volume
      → Err
      → OpenFile
      → List (List ℕ)
      → Result (Reply × List (List ℕ) × OpenFile × Err)
  prodosfs_readdir fuel s v err (directory h) buf = do
    (buf', h', err') ←
        readdir_loop fuel fuel s v.disk err h (filled (filled buf (codes ".")) (codes ".."))
    (if error_code err' == error_code err_end_of_file
        then ok (success 0, buf', directory h', err')
        else ok (minus_error err', buf', directory h', err'))
  prodosfs_readdir fuel s v err (file h) buf = thrown wild_pointer
  prodosfs_readdir fuel s v err (listing text) buf = thrown wild_pointer
  prodosfs_readdir fuel s v err nothing buf = thrown wild_pointer

unfoldable pub prodosfs_closedir : OpenFile → Result Reply
prodosfs_closedir (directory h) = ok (success 0)
prodosfs_closedir (file h) = thrown wild_pointer
prodosfs_closedir (listing text) = thrown wild_pointer
prodosfs_closedir nothing = thrown wild_pointer
