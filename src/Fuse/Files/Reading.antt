-- ===== src/Fuse/Files/Reading.antt =====
-- `prodosfs_read` (main.cxx) on an open file.
use prodosfs.Base.{
  ℕ, zero, suc, ◌==◌, ◌+◌, ◌/◌, ◌≤◌, ◌<◌, ◌≡◌, refl, sym, ap, ◌∙◌, false, length, arith, pos, ok,
  Err,
}
use mathlib.Core.Path.{subst}
use prodosfs.Disk.{Disk, Ptr}
use prodosfs.Entry.{eof, file_type}
use prodosfs.File.{FileHandle, type}
use prodosfs.File.Content.{IsMapped, file_bytes}
use prodosfs.File.Seek.{IsAt, seek-IsAt}
use prodosfs.File.Read.{read-file_bytes}
use prodosfs.Fuse.Settings.{Settings}
use prodosfs.Fuse.Errors.{success}
use prodosfs.Fuse.Files.{read_file, read_here, converted}

length-file_bytes : (d : Disk) (blocks : ℕ → Ptr) (p n : ℕ) → length (file_bytes d blocks p n) ≡ n
length-file_bytes d blocks p zero = refl
length-file_bytes d blocks p (suc n) = ap suc (length-file_bytes d blocks (p + 1) n)

-- From a handle at its offset.
pub read_here-file_bytes :
    (s : Settings) (d : Disk) (err : Err) (h : FileHandle) (off size : ℕ) (blocks : ℕ → Ptr)
    → IsAt d h off
    → 0 < size
    → off + size ≤ eof d h.entry
    → IsMapped d h.entry blocks ((off + size) / 512)
    → (h' : FileHandle) × (read_here s d err h size
        ≡ ok (
          success size,
          converted s (file_type d h.entry) (file_bytes d blocks off size),
          h',
          err,
        ))
      × (h'.entry ≡ h.entry)
      × IsAt d h' (off + size)
unfolding read_here type
read_here-file_bytes s d err h off size blocks at pos_size within mapped =
    let nonempty : (size == 0) ≡ false = ground arith in
    let (h1, done, same, at1) = read-file_bytes d err h off size blocks at within mapped in
    (
      h1,
      rw (done, length-file_bytes d blocks off size, nonempty)
          (ap
            (λ e.
              ok
                (success size, converted s (file_type d e) (file_bytes d blocks off size), h1, err))
            same),
      same,
      at1,
    )

-- A read of at least one byte within the file answers with the number of bytes asked for, and leaves in
-- the buffer the file's bytes from the offset on, converted if the file is a text and the mode says so;
-- it does not matter where the handle was, and the thread's error is kept. The blocks up to that of the
-- end of the read must be readable.
pub read_file-file_bytes :
    (s : Settings) (d : Disk) (err : Err) (h : FileHandle) (p off size : ℕ) (blocks : ℕ → Ptr)
    → IsAt d h p
    → 0 < size
    → off + size ≤ eof d h.entry
    → IsMapped d h.entry blocks ((off + size) / 512)
    → (h' : FileHandle) × (read_file s d err h size (pos off)
        ≡ ok (
          success size,
          converted s (file_type d h.entry) (file_bytes d blocks off size),
          h',
          err,
        ))
      × (h'.entry ≡ h.entry)
      × IsAt d h' (off + size)
unfolding read_file
read_file-file_bytes s d err h p off size blocks at pos_size within mapped =
    let in_range : off / 512 ≤ (off + size) / 512 = omega arith in
    let (h1, sought, same, content, at1) =
      seek-IsAt d err h off (blocks (off / 512)) at.shape (omega arith)
        (mapped (off / 512) in_range) in
    let (h2, done, same2, at2) =
      read_here-file_bytes s d err h1 off size blocks at1 pos_size
        (subst (λ e. off + size ≤ eof d e) (sym same) within)
        (subst (λ e. IsMapped d e blocks ((off + size) / 512)) (sym same) mapped) in
    (
      h2,
      rw sought (
          done
          ∙ ap
              (λ e.
                ok (
                  success size,
                  converted s (file_type d e) (file_bytes d blocks off size),
                  h2,
                  err,
                ))
              same),
      same2 ∙ same,
      at2,
    )
