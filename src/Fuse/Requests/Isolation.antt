-- ===== src/Fuse/Requests/Isolation.antt =====
-- What a session of requests (main.cxx) keeps apart: reads of an open file, and the release of open files.
use prodosfs.Base.{
  Bool, ℕ, ◌+◌, ◌/◌, ◌≤◌, ◌<◌, ◌≡◌, ◌⊎◌, inl, inr, refl, sym, ◌∙◌, true, false, List, [], ◌∷◌, some,
  ok, thrown, wild_pointer, pos, ℤ, Err, bytes_eq, >>=-ok, Option, none, Result,
}
use prodosfs.Disk.{Ptr, image}
use prodosfs.Entry.{eof, file_type}
use prodosfs.Directory.{Handle}
use prodosfs.Directory.Layout.{IsDirectory}
use prodosfs.File.Content.{IsMapped, file_bytes}
use prodosfs.Volume.Paths.{Volume, split_path, get_entry}
use prodosfs.Volume.Resolve.{entry, Resolves}
use prodosfs.Volume.GetEntry.{get_entry-answer}
use prodosfs.Volume.Catalog.{catalog}
use prodosfs.Fuse.Settings.{Settings}
use prodosfs.Fuse.Errors.{Reply, success}
use prodosfs.Fuse.Names.{prodos_filename}
use prodosfs.Fuse.Status.{is_virtual}
use prodosfs.Fuse.Files.{
  OpenFile, file, listing, directory, nothing, prodosfs_open, prodosfs_read, prodosfs_close,
  converted,
}
use prodosfs.Fuse.Files.Sessions.{none_yet, Reads-file_bytes}
use prodosfs.Fuse.Directories.{prodosfs_closedir}
use prodosfs.Fuse.Requests.{by_open, by_opendir, OpenFiles, Reach}
use prodosfs.Fuse.Requests.Handles.{Fits}
use prodosfs.Fuse.Requests.Reached.{Reach-AllFit}

module _ (full : List (List ℕ) → List ℕ → Bool) (s : Settings) (v : Volume) where
  -- Requests through other open files do not disturb a reader: let a path be that of no virtual file, as it
  -- is and without its extension, and lead to an entry once the extension is cut off. With enough fuel, and in every state that a session of
  -- requests reaches, however many files are open and whatever was read through them, a read of at least
  -- one byte within the file, through an object that was opened by that path, answers with the number of
  -- bytes asked for and gives the file's bytes from the offset on, converted as the mode says, and leaves
  -- the error alone. The blocks up to that of the end of the read must be readable.
  pub Reach-prodosfs_read :
      (a : ℕ) (path : List ℕ) (entries : List ℕ) (e : ℕ) (blocks : ℕ → Ptr) (off size : ℕ)
      → v.root ≡ image a
      → IsDirectory v.disk a entries
      → bytes_eq (prodos_filename s path) (b'/' ∷ []) ≡ false
      → is_virtual s path ≡ false
      → is_virtual s (prodos_filename s path) ≡ false
      → Resolves v.disk entries (split_path (prodos_filename s path)) (entry e)
      → 0 < size
      → off + size ≤ eof v.disk (image e)
      → IsMapped v.disk (image e) blocks ((off + size) / 512)
      → (n : ℕ) × ((fuel : ℕ) (files : OpenFiles) (i : ℕ) (object : OpenFile) (err : Err)
          → n ≤ fuel
          → Reach full fuel s v files
          → files i ≡ some (by_open path object)
          → (object' : OpenFile) × (prodosfs_read s v err path object size (pos off)
              ≡ ok (
                success size,
                converted s (file_type v.disk (image e)) (file_bytes v.disk blocks off size),
                object',
                err,
              )))
  unfolding prodosfs_read
  Reach-prodosfs_read a path entries e blocks off size root dir proper real real_name spec pos_size
        within mapped =
      let (n, found) =
        get_entry-answer v a (prodos_filename s path) entries (entry e) root dir proper spec in
      (
        n,
        (λ fuel files i object err enough reached is_open.
            of_object fuel object err (λ err'. found fuel err' enough)
              (Reach-AllFit full fuel s v reached i (by_open path object) is_open
                (real_name ∙ sym real))),
      )
    where
      of_object :
          (fuel : ℕ) (object : OpenFile) (err : Err)
          → ((err' : Err)
              → get_entry fuel v err' (prodos_filename s path) ≡ ok (some (image e), err'))
          → Fits fuel s v (by_open path object)
          → (object' : OpenFile) × (prodosfs_read s v err path object size (pos off)
              ≡ ok (
                success size,
                converted s (file_type v.disk (image e)) (file_bytes v.disk blocks off size),
                object',
                err,
              ))
      of_object fuel (file h) err found (not_virtual, (err1, err2, got), (q, at)) =
          let same : h.entry ≡ image e = cc (found err1) in
          let (h', bytes) =
            Reads-file_bytes s v.disk (image e) blocks off size pos_size within mapped h h err same
              at none_yet in
          (file h', rw (real, bytes))
      of_object fuel (listing text) err found virt = cc
      of_object fuel nothing err found virt = cc
      of_object fuel (directory h) err found fits = absurd fits

  -- Open files can be released: in every state that a session of requests reaches, `release` of what
  -- `open` opened by a path answers 0, if that path is that of a virtual file both as it is and without
  -- its extension, or neither way; and `releasedir` answers 0 of what `opendir` opened by any path, which
  -- is a handle of a directory.
  pub Reach-prodosfs_close :
      (fuel : ℕ) (files : OpenFiles) (i : ℕ) (path : List ℕ) (object : OpenFile)
      → Reach full fuel s v files
      → (is_virtual s (prodos_filename s path) ≡ is_virtual s path
          → files i ≡ some (by_open path object)
          → prodosfs_close s path object ≡ ok (success 0))
        × (files i ≡ some (by_opendir path object)
            → (h : Handle) × (object ≡ directory h) × (prodosfs_closedir object ≡ ok (success 0)))
  unfolding prodosfs_close prodosfs_closedir
  Reach-prodosfs_close fuel files i path object reached =
      let all = Reach-AllFit full fuel s v reached i in
      (
        (λ agree is_open. of_file object (all (by_open path object) is_open agree)),
        (λ is_open. of_directory object (all (by_opendir path object) is_open tt)),
      )
    where
      of_file :
          (object : OpenFile)
          → Fits fuel s v (by_open path object)
          → prodosfs_close s path object ≡ ok (success 0)
      of_file (file h) (real, found, at) = rw real refl
      of_file (listing text) virt = rw virt refl
      of_file nothing virt = rw virt refl
      of_file (directory h) fits = absurd fits

      of_directory :
          (object : OpenFile)
          → Fits fuel s v (by_opendir path object)
          → (h : Handle) × (object ≡ directory h) × (prodosfs_closedir object ≡ ok (success 0))
      of_directory (directory h) fits = (h, refl, refl)
      of_directory (file h) fits = absurd fits
      of_directory (listing text) fits = absurd fits
      of_directory nothing fits = absurd fits

-- A path that is that of a virtual file only once its extension is cut off: whatever `open` gives for it is
-- taken for an object of another type, or followed as a null pointer, by every read and by the release.
pub prodosfs_open-prodosfs_close :
    (fuel : ℕ) (s : Settings) (v : Volume) (err err' : Err) (path : List ℕ) (object : OpenFile)
    → is_virtual s (prodos_filename s path) ≡ true
    → is_virtual s path ≡ false
    → prodosfs_open fuel s v err path ≡ ok (success 0, some object, err')
    → (prodosfs_close s path object ≡ thrown wild_pointer)
      × ((err1 : Err) (size : ℕ) (off : ℤ)
          → prodosfs_read s v err1 path object size off ≡ thrown wild_pointer)
unfolding prodosfs_open prodosfs_close prodosfs_read
prodosfs_open-prodosfs_close fuel s v err err' path object virt real e =
    let ((data', err1), got, rest) =
      >>=-ok (catalog fuel v err (prodos_filename s path)) _ (rw virt at e) in
    of_catalog data' err1 rest
  where
    of_object :
        (object : OpenFile)
        → ((text : List ℕ) × (object ≡ listing text)) ⊎ (object ≡ nothing)
        → (prodosfs_close s path object ≡ thrown wild_pointer)
          × ((err1 : Err) (size : ℕ) (off : ℤ)
              → prodosfs_read s v err1 path object size off ≡ thrown wild_pointer)
    of_object object (inl (text, same)) = rw (same, real) (refl, (λ err1 size off. refl))
    of_object object (inr same) = rw (same, real) (refl, (λ err1 size off. refl))

    of_catalog :
        (data' : Option (List ℕ)) (err1 : Err)
        → ◌≡◌ {A = Result (Reply × Option OpenFile × Err)}
            (ok (success 0, some (elim data' [ none ↦ nothing | some text ↦ listing text ]), err1))
            (ok (success 0, some object, err'))
        → (prodosfs_close s path object ≡ thrown wild_pointer)
          × ((err2 : Err) (size : ℕ) (off : ℤ)
              → prodosfs_read s v err2 path object size off ≡ thrown wild_pointer)
    of_catalog none err1 rest = of_object object (inr (cc))
    of_catalog (some text) err1 rest = of_object object (inl (text, cc))
