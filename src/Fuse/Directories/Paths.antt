-- ===== src/Fuse/Directories/Paths.antt =====
-- `prodosfs_opendir` and `prodosfs_readdir` (main.cxx) together, from the path to the names.
use prodosfs.Base.{
  Bool, ℕ, ◌+◌, ◌*◌, ◌≤◌, ◌<◌, ◌≡◌, refl, true, false, some, List, [], ◌∷◌, length, ok, Err,
  err_end_of_file, bytes_eq, arith,
}
use prodosfs.Base.Text.{codes}
use prodosfs.Disk.{image}
use prodosfs.Entry.{is_directory, key_pointer}
use prodosfs.Directory.{Handle}
use prodosfs.Directory.Layout.{IsDirectory}
use prodosfs.Volume.Paths.{Volume, split_path}
use prodosfs.Volume.Resolve.{entry, Resolves}
use prodosfs.Volume.Folders.{slots, open_directory-Ahead}
use prodosfs.Fuse.Settings.{Settings}
use prodosfs.Fuse.Errors.{success}
use prodosfs.Fuse.Files.{directory}
use prodosfs.Fuse.Directories.{prodosfs_opendir, prodosfs_readdir}
use prodosfs.Fuse.Directories.Entries.{exported, prodosfs_readdir-Ahead}

module _ (full : List (List ℕ) → List ℕ → Bool) (s : Settings) (v : Volume) (a : ℕ) (path : List ℕ)
    (err : Err) (entries : List ℕ)
    (roomy : (buf : List (List ℕ)) (name : List ℕ) → full buf name ≡ false)
    (root : v.root ≡ image a) (dir : IsDirectory v.disk a entries)
    (proper : bytes_eq path (b'/' ∷ []) ≡ false) where
  -- Listing a directory by its path: for a path but "/" that leads to a subdirectory with its key block in
  -- the image, and with enough fuel, `opendir` answers 0 with a handle, and `readdir` of the handle answers
  -- 0 and gives, after "." and "..", the exported names of all entries of that directory in order, into
  -- a buffer that does not fill up.
  pub prodosfs_opendir-prodosfs_readdir :
      (e : ℕ) (inner : List ℕ)
      → Resolves v.disk entries (split_path path) (entry e)
      → is_directory v.disk (image e) ≡ true
      → key_pointer v.disk (image e) < v.disk.num_blocks
      → IsDirectory v.disk (key_pointer v.disk (image e) * 512) inner
      → (n : ℕ) × ((fuel : ℕ)
          → n ≤ fuel
          → (h : Handle) × (prodosfs_opendir fuel v err path
              ≡ ok (success 0, some (directory h), err))
            × ((err' : Err)
                → (h' : Handle) × (prodosfs_readdir full fuel s v err' (directory h) []
                    ≡ ok (
                      success 0,
                      codes "." ∷ codes ".." ∷ exported s v.disk inner,
                      directory h',
                      err_end_of_file,
                    ))))
  unfolding prodosfs_opendir
  prodosfs_opendir-prodosfs_readdir e inner spec is_dir lt sub =
      let (n, opens) =
        open_directory-Ahead v a path err entries root dir proper e inner spec is_dir lt sub in
      let bound = slots v.disk (key_pointer v.disk (image e) * 512) sub in
      (
        n + (bound + 1) + (length inner + 1),
        (λ fuel enough.
            let (h, opened, ahead) = opens fuel (omega arith) in
            (
              h,
              rw opened refl,
              (λ err'.
                  prodosfs_readdir-Ahead full s v err' h bound fuel inner sub.spare roomy
                    (omega arith) (omega arith) ahead),
            )),
      )
