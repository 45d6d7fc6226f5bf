-- ===== src/Fuse/Requests/Handles.antt =====
-- The open files of a session of requests (main.cxx) are of the type that their path calls for.
use prodosfs.Base.{
  ℕ, ◌≡◌, inl, inr, sym, ◌∙◌, ap, Bool, true, false, not, List, Option, none, some, ◌==◌,
  if◌then◌else◌, ℤ, Result, ok, ◌>>=◌, >>=-ok, Err, arith, Bool-cases, Returned-ok, Returned-after,
  Returned->>=, Returned-if, err_end_of_file, err_unsupported_storage_type,
}
use mathlib.Core.Path.{subst}
use prodosfs.Base.Text.{codes}
use prodosfs.Disk.{Ptr}
use prodosfs.Directory.{Handle}
use prodosfs.Entry.{is_file}
use prodosfs.File.{FileHandle, open_handle}
use prodosfs.File.Seek.{IsAt, open_handle-returned}
use prodosfs.Volume.Paths.{Volume, get_entry, open_file, open_directory}
use prodosfs.Volume.Catalog.{catalog}
use prodosfs.Fuse.Settings.{Settings}
use prodosfs.Fuse.Errors.{Reply, success, minus_error, error_code}
use prodosfs.Fuse.Names.{prodos_filename}
use prodosfs.Fuse.Status.{is_virtual}
use prodosfs.Fuse.Files.{
  OpenFile, file, listing, directory, nothing, prodosfs_open, prodosfs_read, read_file, read_text,
}
use prodosfs.Fuse.Files.Sessions.{Kept, read_file-Kept}
use prodosfs.Fuse.Directories.{prodosfs_opendir, prodosfs_readdir, readdir_loop, filled}
use prodosfs.Fuse.Requests.{Opened, by_open, by_opendir}

module _ (fuel : ℕ) (s : Settings) (v : Volume) where
  -- The entry that is found for the path.
  abbrev pub IsFound : List ℕ → Ptr → Type 0
  IsFound path e =
      (err : Err) × (err' : Err) × (get_entry fuel v err (prodos_filename s path)
        ≡ ok (some e, err'))

  -- A handle of the file at the path, which holds the block of some position.
  abbrev pub IsOfFile : List ℕ → FileHandle → Type 0
  IsOfFile path h = (is_virtual s path ≡ false) × IsFound path h.entry × ((q : ℕ) × IsAt v.disk h q)

  -- The object is of the type for its path and the operation that opened it.
  abbrev pub Fits : Opened → Type 0
  Fits (by_open path (file h)) = IsOfFile path h
  Fits (by_open path (listing text)) = is_virtual s path ≡ true
  Fits (by_open path (directory h)) = ⊥
  Fits (by_open path nothing) = is_virtual s path ≡ true
  Fits (by_opendir path (file h)) = ⊥
  Fits (by_opendir path (listing text)) = ⊥
  Fits (by_opendir path (directory h)) = Unit
  Fits (by_opendir path nothing) = ⊥

  open_file-IsFound :
      (err err' : Err) (path : List ℕ) (h : FileHandle)
      → open_file fuel v err (prodos_filename s path) ≡ ok (some h, err')
      → IsFound path h.entry × IsAt v.disk h 0
  unfolding open_file
  open_file-IsFound err err' path h e =
      let ((entry, err1), found, rest) =
        >>=-ok (get_entry fuel v err (prodos_filename s path)) _ e in
      of_entry entry err1 found rest
    where
      of_entry :
          (entry : Option Ptr) (err1 : Err)
          → get_entry fuel v err (prodos_filename s path) ≡ ok (entry, err1)
          → ◌≡◌ {A = Result (Option FileHandle × Err)}
              (elim entry [
                | none ↦ ok (none, err1)
                | some e ↦
                    if not (is_file v.disk e)
                    then ok (none, err_unsupported_storage_type)
                    else (do h ← open_handle v.disk e; ok (some h, err1))
              ])
              (ok (some h, err'))
          → IsFound path h.entry × IsAt v.disk h 0
      of_entry none err1 found rest = cc
      of_entry (some e) err1 found rest = elim (Bool-cases (is_file v.disk e)) [
        | inl is_a_file ↦
            let (h', opened, same) = >>=-ok (open_handle v.disk e) _ (rw is_a_file at rest) in
            let is_h : h' ≡ h = cc in
            let (of_e, at) = open_handle-returned v.disk e h (opened ∙ ap ok is_h) in
            ((err, err1, found ∙ ap (λ x. ok (some x, err1)) (sym of_e)), at)
        | inr other ↦ absurd (ground arith)
      ]

  pub prodosfs_open-Fits :
      (err err' : Err) (path : List ℕ) (object : OpenFile)
      → is_virtual s (prodos_filename s path) ≡ is_virtual s path
      → prodosfs_open fuel s v err path ≡ ok (success 0, some object, err')
      → Fits (by_open path object)
  unfolding prodosfs_open
  prodosfs_open-Fits err err' path object agree e =
      elim (Bool-cases (is_virtual s (prodos_filename s path))) [
        | inl is_virt ↦
            let ((data', err1), got, rest) =
              >>=-ok (catalog fuel v err (prodos_filename s path)) _ (rw is_virt at e) in
            of_catalog data' err1 (sym agree ∙ is_virt) rest
        | inr is_real ↦
            let ((fh, err1), got, rest) =
              >>=-ok (open_file fuel v err (prodos_filename s path)) _ (rw is_real at e) in
            of_file fh err1 (sym agree ∙ is_real) got rest
      ]
    where
      of_catalog :
          (data' : Option (List ℕ)) (err1 : Err)
          → is_virtual s path ≡ true
          → ◌≡◌ {A = Result (Reply × Option OpenFile × Err)}
              (ok
                (success 0, some (elim data' [ none ↦ nothing | some text ↦ listing text ]), err1))
              (ok (success 0, some object, err'))
          → Fits (by_open path object)
      of_catalog none err1 virt rest =
          let same : nothing ≡ object = cc in subst (λ o. Fits (by_open path o)) same virt
      of_catalog (some text) err1 virt rest =
          let same : listing text ≡ object = cc in subst (λ o. Fits (by_open path o)) same virt

      of_file :
          (fh : Option FileHandle) (err1 : Err)
          → is_virtual s path ≡ false
          → open_file fuel v err (prodos_filename s path) ≡ ok (fh, err1)
          → ◌≡◌ {A = Result (Reply × Option OpenFile × Err)}
              (elim fh [
                | none ↦ ok (minus_error err1, none, err1)
                | some h ↦ ok (success 0, some (file h), err1)
              ])
              (ok (success 0, some object, err'))
          → Fits (by_open path object)
      of_file none err1 real got rest = cc
      of_file (some h) err1 real got rest =
          let same : file h ≡ object = cc in
          let (found, at) = open_file-IsFound err err1 path h got in
          subst (λ o. Fits (by_open path o)) same (real, found, (0, at))

  pub prodosfs_read-Fits :
      (err err' : Err) (path : List ℕ) (object object' : OpenFile) (size : ℕ) (off : ℤ)
      (reply : Reply) (bytes : List ℕ)
      → Fits (by_open path object)
      → prodosfs_read s v err path object size off ≡ ok (reply, bytes, object', err')
      → Fits (by_open path object')
  unfolding prodosfs_read
  prodosfs_read-Fits err err' path (file h) object' size off reply bytes (real, found, (q, at)) e =
      Returned-ok (λ (r, b, o, x). Fits (by_open path o))
        (prodosfs_read s v err path (file h) size off)
        (rw real (
          Returned->>= (Kept v.disk h.entry) (λ (r, b, o, x). Fits (by_open path o))
            (read_file s v.disk err h size off) _ (read_file-Kept s v.disk err h size off at)
            (λ (r, b, h', x) (same, there). (real, subst (IsFound path) (sym same) found, there))))
        e
  prodosfs_read-Fits err err' path (listing text) object' size off reply bytes virt e =
      Returned-ok (λ (r, b, o, x). Fits (by_open path o))
        (prodosfs_read s v err path (listing text) size off)
        (rw virt (
          Returned-after (λ (r, b, o, x). Fits (by_open path o)) (read_text text size off) _
            (λ (r, b). virt)))
        e
  prodosfs_read-Fits err err' path nothing object' size off reply bytes virt e = cc
  prodosfs_read-Fits err err' path (directory h) object' size off reply bytes fits e = absurd fits

  pub prodosfs_opendir-Fits :
      (err err' : Err) (path : List ℕ) (object : OpenFile)
      → prodosfs_opendir fuel v err path ≡ ok (success 0, some object, err')
      → Fits (by_opendir path object)
  unfolding prodosfs_opendir
  prodosfs_opendir-Fits err err' path object e =
      let ((dh, err1), got, rest) = >>=-ok (open_directory fuel v err path) _ e in
      of_directory dh err1 rest
    where
      of_directory :
          (dh : Option Handle) (err1 : Err)
          → ◌≡◌ {A = Result (Reply × Option OpenFile × Err)}
              (elim dh [
                | none ↦ ok (minus_error err1, none, err1)
                | some h ↦ ok (success 0, some (directory h), err1)
              ])
              (ok (success 0, some object, err'))
          → Fits (by_opendir path object)
      of_directory none err1 rest = cc
      of_directory (some h) err1 rest =
          let same : directory h ≡ object = cc in subst (λ o. Fits (by_opendir path o)) same tt

  module _ (full : List (List ℕ) → List ℕ → Bool) where
    pub prodosfs_readdir-Fits :
        (err err' : Err) (path : List ℕ) (object object' : OpenFile) (buf names : List (List ℕ))
        (reply : Reply)
        → Fits (by_opendir path object)
        → prodosfs_readdir full fuel s v err object buf ≡ ok (reply, names, object', err')
        → Fits (by_opendir path object')
    unfolding prodosfs_readdir
    prodosfs_readdir-Fits err err' path (directory h) object' buf names reply fits e =
        Returned-ok (λ (r, b, o, x). Fits (by_opendir path o))
          (prodosfs_readdir full fuel s v err (directory h) buf)
          (Returned-after (λ (r, b, o, x). Fits (by_opendir path o))
            (readdir_loop full fuel fuel s v.disk err h
              (filled full (filled full buf (codes ".")) (codes "..")))
            _
            (λ (buf', h', x).
              Returned-if (λ (r, b, o, x). Fits (by_opendir path o))
                (error_code x == error_code err_end_of_file) _ _ tt tt))
          e
    prodosfs_readdir-Fits err err' path (file h) object' buf names reply fits e = absurd fits
    prodosfs_readdir-Fits err err' path (listing text) object' buf names reply fits e = absurd fits
    prodosfs_readdir-Fits err err' path nothing object' buf names reply fits e = absurd fits
