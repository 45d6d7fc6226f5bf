-- ===== src/Volume/Folders.antt =====
-- `OpenDirectory` (source/volume.cxx): path lookup and the constructor of a directory handle together.
use prodosfs.Base.{
  ℕ, ◌+◌, ◌*◌, ◌≤◌, ◌<◌, ◌≡◌, refl, true, false, some, none, List, [], ◌∷◌, ok, Err,
  err_directory_not_found, bytes_eq, pos, arith,
}
use prodosfs.Disk.{Disk, image, read_block}
use prodosfs.Entry.{is_directory, key_pointer, entries_per_block}
use prodosfs.Directory.{Handle}
use prodosfs.Directory.Layout.{IsDirectory, slots_in}
use prodosfs.Directory.Next.{Ahead, open_key_block-Ahead}
use prodosfs.Volume.Paths.{Volume, split_path, open_directory}
use prodosfs.Volume.Resolve.{Lookup, entry, missing, Resolves}
use prodosfs.Volume.GetEntry.{get_entry-split_path}

-- The slots of a directory: fuel for each call of `NextEntry`.
abbrev pub slots : (d : Disk) (a : ℕ) {entries : List ℕ} → IsDirectory d a entries → ℕ
slots d a dir = slots_in (entries_per_block d (image (a + 4))) dir.blocks

-- The root, which "/" opens.
pub open_directory_root :
    (v : Volume) (a : ℕ) (err : Err) (entries : List ℕ) (fuel : ℕ)
    → v.root ≡ image a
    → (dir : IsDirectory v.disk a entries)
    → (h : Handle) × (open_directory fuel v err (b'/' ∷ []) ≡ ok (some h, err))
      × Ahead v.disk (slots v.disk a dir) h entries dir.spare
unfolding open_directory
open_directory_root v a err entries fuel root dir =
    let (h, opened, ahead) = open_key_block-Ahead v.disk a entries dir in
    (h, rw (root, opened), ahead)

read_block_ok : (d : Disk) (i : ℕ) → i < d.num_blocks → read_block d (pos i) ≡ ok (image (i * 512))
unfolding read_block
read_block_ok d i lt = ground arith

-- The error that a lookup which does not lead to a directory ends with.
abbrev pub no_directory : Lookup → Err
no_directory (entry e) = err_directory_not_found
no_directory (missing x) = x

module _ (v : Volume) (a : ℕ) (pathname : List ℕ) (err : Err) (entries : List ℕ)
    (root : v.root ≡ image a) (dir : IsDirectory v.disk a entries)
    (proper : bytes_eq pathname (b'/' ∷ []) ≡ false) where
  -- On a volume whose root is a directory, and with enough fuel, `OpenDirectory` opens any path but "/"
  -- that leads to a subdirectory with its key block in the image: it returns a handle with all entries
  -- of that directory ahead, and leaves the error alone.
  pub open_directory-Ahead :
      (e : ℕ) (inner : List ℕ)
      → Resolves v.disk entries (split_path pathname) (entry e)
      → is_directory v.disk (image e) ≡ true
      → key_pointer v.disk (image e) < v.disk.num_blocks
      → (sub : IsDirectory v.disk (key_pointer v.disk (image e) * 512) inner)
      → (n : ℕ) × ((fuel : ℕ)
          → n ≤ fuel
          → (h : Handle) × (open_directory fuel v err pathname ≡ ok (some h, err))
            × Ahead v.disk
                (slots v.disk (key_pointer v.disk (image e) * 512) sub)
                h
                inner
                sub.spare)
  unfolding open_directory
  open_directory-Ahead e inner spec is_dir lt sub =
      let (n, found) =
        get_entry-split_path v a pathname err entries (entry e) root dir proper spec in
      let (h, opened, ahead) =
        open_key_block-Ahead v.disk (key_pointer v.disk (image e) * 512) inner sub in
      (
        n,
        (λ fuel enough.
            (h, rw (proper, found fuel enough, is_dir, read_block_ok v.disk _ lt, opened), ahead)),
      )

  -- With enough fuel, `OpenDirectory` of a path but "/" that does not lead to a directory is a null
  -- pointer: with `err_directory_not_found` for an entry that is none, and for a path that leads to no
  -- entry with the error of the lookup.
  open_directory_refused :
      (r : Lookup)
      → Resolves v.disk entries (split_path pathname) r
      → ((e : ℕ) → r ≡ entry e → is_directory v.disk (image e) ≡ false)
      → (n : ℕ) × ((fuel : ℕ)
          → n ≤ fuel
          → open_directory fuel v err pathname ≡ ok (none, no_directory r))
  unfolding open_directory
  open_directory_refused (entry e) spec no_dir =
      let (n, found) =
        get_entry-split_path v a pathname err entries (entry e) root dir proper spec in
      (n, (λ fuel enough. rw (proper, found fuel enough, no_dir e refl)))
  open_directory_refused (missing x) spec no_dir =
      let (n, found) =
        get_entry-split_path v a pathname err entries (missing x) root dir proper spec in
      (n, (λ fuel enough. rw (proper, found fuel enough)))
