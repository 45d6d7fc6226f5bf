-- ===== src/Fuse/Directories/Entries.antt =====
-- `prodosfs_readdir` (main.cxx) on an open directory.
use prodosfs.Base.{
  ℕ, zero, suc, ◌<◌, ◌≡◌, ap, Bool, false, List, [], ◌∷◌, ◌++◌, map, length, arith, ok, Err,
  err_end_of_file,
}
use mathlib.Core.List.{append_assoc, append-nil}
use prodosfs.Base.Text.{codes}
use prodosfs.Disk.{Disk, image}
use prodosfs.Directory.{Handle}
use prodosfs.Directory.Next.{Ahead, next_entry-Ahead, next_entry_end}
use prodosfs.Volume.Paths.{Volume}
use prodosfs.Fuse.Settings.{Settings}
use prodosfs.Fuse.Errors.{success}
use prodosfs.Fuse.Names.{exported_filename}
use prodosfs.Fuse.Files.{directory}
use prodosfs.Fuse.Directories.{readdir_loop, prodosfs_readdir}

-- The names of entries at these offsets.
abbrev pub exported : Settings → Disk → List ℕ → List (List ℕ)
exported s d entries = map (λ e. exported_filename s d (image e)) entries

module _ (full : List (List ℕ) → List ℕ → Bool)
    (roomy : (buf : List (List ℕ)) (name : List ℕ) → full buf name ≡ false) (limit bound : ℕ)
    (enough : bound < limit) (s : Settings) (d : Disk) where
  readdir_loop-Ahead :
      (fuel : ℕ) (err : Err) (h : Handle) (entries spare : List ℕ) (buf : List (List ℕ))
      → length entries < fuel
      → Ahead d bound h entries spare
      → (h' : Handle) × (readdir_loop full fuel limit s d err h buf
          ≡ ok (buf ++ exported s d entries, h', err_end_of_file))
  unfolding readdir_loop
  readdir_loop-Ahead zero err h entries spare buf lt ahead = absurd (omega arith)
  readdir_loop-Ahead (suc fuel) err h [] spare buf lt ahead =
      (h, rw (next_entry_end d bound limit err h spare ahead, append-nil buf))
  readdir_loop-Ahead (suc fuel) err h (e ∷ entries) spare buf lt ahead =
      let (h1, delivered, ahead1) =
        next_entry-Ahead d bound limit err h e entries spare ahead enough in
      let name = exported_filename s d (image e) in
      let (h2, rest) =
        readdir_loop-Ahead fuel err h1 entries spare (buf ++ name ∷ []) (omega arith) ahead1 in
      (
        h2,
        rw (delivered, roomy buf name, rest)
            (ap (λ b. ok (b, h2, err_end_of_file))
              (append_assoc buf (name ∷ []) (exported s d entries))),
      )

-- Listing a directory succeeds and gives, after "." and "..", the exported names of all its entries in
-- order: for a handle with these entries ahead, fuel for the slots of the directory and more than the
-- number of its entries, and a buffer that does not fill up.
pub prodosfs_readdir-Ahead :
    (full : List (List ℕ) → List ℕ → Bool) (s : Settings) (v : Volume) (err : Err) (h : Handle)
    (bound fuel : ℕ) (entries spare : List ℕ)
    → ((buf : List (List ℕ)) (name : List ℕ) → full buf name ≡ false)
    → bound < fuel
    → length entries < fuel
    → Ahead v.disk bound h entries spare
    → (h' : Handle) × (prodosfs_readdir full fuel s v err (directory h) []
        ≡ ok (
          success 0,
          codes "." ∷ codes ".." ∷ exported s v.disk entries,
          directory h',
          err_end_of_file,
        ))
unfolding prodosfs_readdir
prodosfs_readdir-Ahead full s v err h bound fuel entries spare roomy enough lt ahead =
    let (h', listed) =
      readdir_loop-Ahead full roomy fuel bound enough s v.disk fuel err h entries spare
        (codes "." ∷ codes ".." ∷ []) lt ahead in
    (h', rw (roomy [] (codes "."), roomy (codes "." ∷ []) (codes ".."), listed))
