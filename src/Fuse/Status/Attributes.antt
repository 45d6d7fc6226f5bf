-- ===== src/Fuse/Status/Attributes.antt =====
-- `prodosfs_getattr` (main.cxx) on the paths of a directory tree.
use prodosfs.Base.{ℕ, ◌≤◌, ◌≡◌, true, false, List, [], ◌∷◌, ℤ, ok, Err, bytes_eq, arith}
use prodosfs.Disk.{Disk, Ptr, image}
use prodosfs.Entry
use prodosfs.Entry.{is_file, is_root, storage_type}
use prodosfs.Directory.Layout.{IsDirectory}
use prodosfs.Volume.Paths.{Volume, split_path}
use prodosfs.Volume.Resolve.{entry, Resolves}
use prodosfs.Volume.GetEntry.{get_entry-split_path}
use prodosfs.Fuse.Settings.{Settings, Tm}
use prodosfs.Fuse.Errors.{success}
use prodosfs.Fuse.Names.{prodos_filename}
use prodosfs.Fuse.Status.{
  Stat, s_irusr, s_irgrp, s_ifreg, is_virtual, to_unix_time, entry_stat, prodosfs_getattr,
}

is_file-is_root : (d : Disk) (e : Ptr) → is_file d e ≡ true → is_root d e ≡ false
unfolding is_file is_root
is_file-is_root d e file = ground arith

module _ (mktime : Tm → ℤ) (s : Settings) (v : Volume) (a : ℕ) (path : List ℕ) (err : Err)
    (st : Stat) (entries : List ℕ) (root : v.root ≡ image a) (dir : IsDirectory v.disk a entries)
    (proper : bytes_eq (prodos_filename s path) (b'/' ∷ []) ≡ false)
    (real : is_virtual s path ≡ false) where
  -- The status of a file: for a path, not that of a virtual file, that leads to a file once the extension
  -- is cut off, and with enough fuel, `getattr` answers 0 and gives a regular file that its user and group
  -- may read, with the size, the blocks and the dates of its entry; the error is left alone.
  pub prodosfs_getattr_file :
      (e : ℕ)
      → Resolves v.disk entries (split_path (prodos_filename s path)) (entry e)
      → is_file v.disk (image e) ≡ true
      → (n : ℕ) × ((fuel : ℕ)
          → n ≤ fuel
          → prodosfs_getattr mktime fuel s v err path st
            ≡ ok (
              success 0,
              record {
                st_mode = s_irusr ∷ s_irgrp ∷ s_ifreg ∷ [];
                st_nlink = 1;
                st_size = Entry.eof v.disk (image e);
                st_blksize = 512;
                st_blocks = Entry.blocks_used v.disk (image e);
                st_ctim = to_unix_time mktime (Entry.creation_timestamp v.disk (image e));
                st_mtim = to_unix_time mktime (Entry.last_mod_timestamp v.disk (image e));
              },
              err,
            ))
  unfolding prodosfs_getattr entry_stat
  prodosfs_getattr_file e spec file =
      let (n, found) =
        get_entry-split_path v a (prodos_filename s path) err entries (entry e) root dir proper
          spec in
      (
        n,
        (λ fuel enough. rw (real, found fuel enough, is_file-is_root v.disk (image e) file, file)),
      )
