-- ===== src/Fuse/Refusals.antt =====
-- What the operations of FUSE (main.cxx) answer for a path that leads nowhere.
use prodosfs.Base.{
  ℕ, ◌≤◌, ◌≡◌, ◌⊎◌, inl, inr, refl, false, List, [], ◌∷◌, none, ok, Err, bytes_eq, ℤ,
  err_file_not_found, err_directory_not_found,
}
use prodosfs.Disk.{Disk, image}
use prodosfs.Directory.Layout.{IsDirectory}
use prodosfs.Volume.Paths.{Volume, open_file, open_directory}
use prodosfs.Volume.SplitLaws.{Spells}
use prodosfs.Volume.Resolve.{missing, Resolves, absent, not_directory, below}
use prodosfs.Volume.GetEntry.{get_entry-Resolves}
use prodosfs.Fuse.Settings.{Settings, Tm}
use prodosfs.Fuse.Errors.{Reply, failure, enoent, enotdir, minus_error}
use prodosfs.Fuse.Names.{prodos_filename}
use prodosfs.Fuse.Status.{Stat, is_virtual, prodosfs_getattr}
use prodosfs.Fuse.Files.{prodosfs_open}
use prodosfs.Fuse.Directories.{prodosfs_opendir}
use prodosfs.Fuse.Attributes.{Attributes, prodosfs_getxattr, prodosfs_listxattr}

-- The two ways to lead nowhere, and what they are answered with.
abbrev pub IsNotFound : Err → Reply → Type 0
IsNotFound x reply =
    ((x ≡ err_file_not_found) × (reply ≡ failure enoent))
    ⊎ ((x ≡ err_directory_not_found) × (reply ≡ failure enotdir))

missing-IsNotFound :
    {d : Disk} {entries : List ℕ} {names : List (List ℕ)} {x : Err}
    → Resolves d entries names (missing x)
    → IsNotFound x (minus_error x)
unfolding minus_error
missing-IsNotFound (absent e) = inl (refl, refl)
missing-IsNotFound (not_directory e first file) = inr (refl, refl)
missing-IsNotFound (below e inner first dir key is_dir spec) = missing-IsNotFound spec

module _ (mktime : Tm → ℤ) (in_order : Attributes → Attributes) (s : Settings) (v : Volume) (a : ℕ)
    (path : List ℕ) (err : Err) (entries : List ℕ) (root : v.root ≡ image a)
    (dir : IsDirectory v.disk a entries)
    (proper : bytes_eq (prodos_filename s path) (b'/' ∷ []) ≡ false)
    (real : is_virtual s path ≡ false)
    (real_name : is_virtual s (prodos_filename s path) ≡ false) where
  -- A path of one or two components that leads nowhere once the extension is cut off, and is not that of
  -- a virtual file: with enough fuel, `getattr`, `open` and `listxattr` of it, and `opendir` and `getxattr`,
  -- which cut off no extension, of the path without it, all give the same answer, ENOENT where the name of
  -- some component is not in its directory, and ENOTDIR where a file is used as a directory; the error of
  -- the lookup is left behind, the status and the buffer as they were, and no handle is given.
  pub not_found :
      (names : List (List ℕ)) (x : Err) (st : Stat) (name : List ℕ) (size : ℕ)
      → Spells (prodos_filename s path) names
      → Resolves v.disk entries names (missing x)
      → (reply : Reply) × IsNotFound x reply
        × ((n : ℕ) × ((fuel : ℕ)
              → n ≤ fuel
              → (prodosfs_getattr mktime fuel s v err path st ≡ ok (reply, st, x))
                × (prodosfs_open fuel s v err path ≡ ok (reply, none, x))
                × (prodosfs_opendir fuel v err (prodos_filename s path) ≡ ok (reply, none, x))
                × (prodosfs_getxattr fuel s v err (prodos_filename s path) name size
                    ≡ ok (reply, [], x))
                × (prodosfs_listxattr in_order fuel s v err path size ≡ ok (reply, [], x))))
  unfolding prodosfs_getattr prodosfs_open prodosfs_opendir prodosfs_getxattr prodosfs_listxattr
      open_file open_directory
  not_found names x st name size spells spec =
      let (n, found) =
        get_entry-Resolves v a (prodos_filename s path) names err entries (missing x) root dir
          proper spells spec in
      (
        minus_error x,
        missing-IsNotFound spec,
        (
          n,
          (λ fuel enough. (
            rw (real, found fuel enough) refl,
            rw (real_name, found fuel enough) refl,
            rw (proper, found fuel enough) refl,
            rw (found fuel enough) refl,
            rw (found fuel enough) refl,
          )),
        ),
      )
