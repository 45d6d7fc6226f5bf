-- ===== src/Volume/Open.antt =====
-- `OpenFile` (source/volume.cxx): path lookup and the constructor of a file handle together.
use prodosfs.Base.{
  ℕ, ◌≤◌, ◌≡◌, refl, true, false, some, none, List, [], ◌∷◌, ok, Err, err_unsupported_storage_type,
  bytes_eq,
}
use prodosfs.Disk.{Ptr, image}
use prodosfs.Entry.{is_file}
use prodosfs.Directory.Layout.{IsDirectory}
use prodosfs.File.{FileHandle}
use prodosfs.File.Content.{block_of}
use prodosfs.File.Seek.{IsAt, open_handle-IsAt}
use prodosfs.Volume.Paths.{Volume, split_path, open_file}
use prodosfs.Volume.Resolve.{Lookup, entry, missing, Resolves}
use prodosfs.Volume.GetEntry.{get_entry-split_path}

-- The error that a lookup which does not lead to a file ends with.
abbrev pub refusal : Lookup → Err
refusal (entry e) = err_unsupported_storage_type
refusal (missing x) = x

module _ (v : Volume) (a : ℕ) (pathname : List ℕ) (err : Err) (entries : List ℕ)
    (root : v.root ≡ image a) (dir : IsDirectory v.disk a entries)
    (proper : bytes_eq pathname (b'/' ∷ []) ≡ false) where
  -- On a volume whose root is a directory, and with enough fuel, `OpenFile` opens any path but "/"
  -- that leads to a file with a readable first block: it returns a handle of that file's entry at
  -- position 0, with its first block, and leaves the error alone.
  pub open_file-IsAt :
      (e : ℕ) (b : Ptr)
      → Resolves v.disk entries (split_path pathname) (entry e)
      → is_file v.disk (image e) ≡ true
      → block_of v.disk (image e) 0 ≡ ok b
      → (n : ℕ) × ((fuel : ℕ)
          → n ≤ fuel
          → (h : FileHandle) × (open_file fuel v err pathname ≡ ok (some h, err))
            × (h.entry ≡ image e)
            × (h.content ≡ b)
            × IsAt v.disk h 0)
  unfolding open_file
  open_file-IsAt e b spec file readable =
      let (n, found) =
        get_entry-split_path v a pathname err entries (entry e) root dir proper spec in
      let (h, opened, of_entry, content, at) = open_handle-IsAt v.disk (image e) b readable in
      (n, (λ fuel enough. (h, rw (found fuel enough, file, opened), of_entry, content, at)))

  -- With enough fuel, `OpenFile` of a path but "/" that does not lead to a file is a null pointer:
  -- with `err_unsupported_storage_type` for an entry that is no file, and for a path that leads to no
  -- entry with the error of the lookup.
  open_file_refused :
      (r : Lookup)
      → Resolves v.disk entries (split_path pathname) r
      → ((e : ℕ) → r ≡ entry e → is_file v.disk (image e) ≡ false)
      → (n : ℕ) × ((fuel : ℕ) → n ≤ fuel → open_file fuel v err pathname ≡ ok (none, refusal r))
  unfolding open_file
  open_file_refused (entry e) spec no_file =
      let (n, found) =
        get_entry-split_path v a pathname err entries (entry e) root dir proper spec in
      (n, (λ fuel enough. rw (found fuel enough, no_file e refl)))
  open_file_refused (missing x) spec no_file =
      let (n, found) =
        get_entry-split_path v a pathname err entries (missing x) root dir proper spec in
      (n, (λ fuel enough. rw (found fuel enough)))
