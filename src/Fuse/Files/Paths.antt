-- ===== src/Fuse/Files/Paths.antt =====
-- `prodosfs_open` and `prodosfs_read` (main.cxx) together, from the path to the bytes.
use prodosfs.Base.{
  ℕ, ◌+◌, ◌/◌, ◌≤◌, ◌<◌, ◌≡◌, true, false, some, List, [], ◌∷◌, ok, pos, Err, bytes_eq, arith,
}
use prodosfs.Disk.{Ptr, image}
use prodosfs.Entry.{eof, file_type, is_file}
use prodosfs.Directory.Layout.{IsDirectory}
use prodosfs.File.{FileHandle}
use prodosfs.File.Content.{IsMapped, file_bytes}
use prodosfs.Volume.Paths.{Volume, split_path}
use prodosfs.Volume.Resolve.{entry, Resolves}
use prodosfs.Volume.Open.{open_file-IsAt}
use prodosfs.Fuse.Settings.{Settings}
use prodosfs.Fuse.Errors.{success}
use prodosfs.Fuse.Names.{prodos_filename}
use prodosfs.Fuse.Status.{is_virtual}
use prodosfs.Fuse.Files.{file, prodosfs_open, prodosfs_read, converted}
use prodosfs.Fuse.Files.Sessions.{Reads, Reads-file_bytes}

module _ (s : Settings) (v : Volume) (a : ℕ) (path : List ℕ) (err : Err) (entries : List ℕ)
    (root : v.root ≡ image a) (dir : IsDirectory v.disk a entries)
    (proper : bytes_eq (prodos_filename s path) (b'/' ∷ []) ≡ false)
    (real : is_virtual s path ≡ false)
    (real_name : is_virtual s (prodos_filename s path) ≡ false) where
  -- A file is opened by its path and read through the handle: for a path, not that of a virtual file, that
  -- leads to a file once the extension is cut off, and with enough fuel, `open` answers 0 with a handle;
  -- and after any reads through it that returned, a read of at least one byte within the file answers with
  -- the number of bytes asked for, and gives the file's bytes from the offset on, converted as the mode
  -- says. The error is left alone. The blocks up to that of the end of the read must be readable.
  pub prodosfs_open-prodosfs_read :
      (e : ℕ) (blocks : ℕ → Ptr) (off size : ℕ)
      → Resolves v.disk entries (split_path (prodos_filename s path)) (entry e)
      → is_file v.disk (image e) ≡ true
      → 0 < size
      → off + size ≤ eof v.disk (image e)
      → IsMapped v.disk (image e) blocks ((off + size) / 512)
      → (n : ℕ) × ((fuel : ℕ)
          → n ≤ fuel
          → (h : FileHandle) × (prodosfs_open fuel s v err path
              ≡ ok (success 0, some (file h), err))
            × ((h' : FileHandle) (err' : Err)
                → Reads s v.disk h h'
                → (h'' : FileHandle) × (prodosfs_read s v err' path (file h') size (pos off)
                    ≡ ok (
                      success size,
                      converted s (file_type v.disk (image e)) (file_bytes v.disk blocks off size),
                      file h'',
                      err',
                    ))))
  unfolding prodosfs_open prodosfs_read
  prodosfs_open-prodosfs_read e blocks off size spec is_a_file pos_size within mapped =
      let (n, opens) =
        open_file-IsAt v a (prodos_filename s path) err entries root dir proper e (blocks 0) spec
          is_a_file (mapped 0 (omega arith)) in
      (
        n,
        (λ fuel enough.
            let (h, opened, of_entry, content, at) = opens fuel enough in
            (
              h,
              rw (real_name, opened),
              (λ h' err' reads.
                  let (h'', got) =
                    Reads-file_bytes s v.disk (image e) blocks off size pos_size within mapped h h'
                      err' of_entry at reads in
                  (h'', rw (real, got))),
            )),
      )
