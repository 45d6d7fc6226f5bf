-- ===== src/Fuse/Files/Sessions.antt =====
-- A file kept open: any number of reads, at any offsets and of any sizes (main.cxx, source/file.cxx).
use prodosfs.Base.{
  ℕ, [], ◌==◌, ◌&&◌, not, length, ◌+◌, ◌/◌, ◌≤◌, ◌≡◌, refl, ◌∙◌, List, ℤ, pos, negsuc, ok, Returned,
  Returned->>=, Returned-ok, Returned-if, Err, ◌<◌, sym,
}
use mathlib.Core.Path.{subst}
use prodosfs.Disk.{Disk, Ptr}
use prodosfs.Entry.{eof, file_type}
use prodosfs.File.{FileHandle, seek, seek_set, read, read_loop, at_eof}
use prodosfs.File.Content.{IsMapped, file_bytes}
use prodosfs.File.Seek.{IsAt}
use prodosfs.Fuse.Settings.{Settings}
use prodosfs.Fuse.Errors.{Reply, success, minus_error}
use prodosfs.Fuse.Files.{read_file, read_here, converted}
use prodosfs.Fuse.Files.Reading.{read_file-file_bytes}
use prodosfs.File.Stays.{Stays, seek-Stays, read_loop-Stays}

-- The same, of the answer of a read.
abbrev pub Kept : Disk → Ptr → Reply × List ℕ × FileHandle × Err → Type 0
Kept d entry (reply, bytes, h, err) = (h.entry ≡ entry) × ((q : ℕ) × IsAt d h q)

read_here-Kept :
    (s : Settings) (d : Disk) (err : Err) (h : FileHandle) (size : ℕ) {p : ℕ}
    → IsAt d h p
    → Returned (Kept d h.entry) (read_here s d err h size)
unfolding read_here read
read_here-Kept s d err h size at =
    Returned->>= (Stays d h.entry) (Kept d h.entry) (read_loop size d err h size []) _
      (read_loop-Stays size d err h size [] at)
      (λ (bytes, h', err') stays.
        Returned-if (Kept d h.entry) (length bytes == 0 && not (at_eof d h')) _ _ stays stays)

pub read_file-Kept :
    (s : Settings) (d : Disk) (err : Err) (h : FileHandle) (size : ℕ) (off : ℤ) {p : ℕ}
    → IsAt d h p
    → Returned (Kept d h.entry) (read_file s d err h size off)
unfolding read_file
read_file-Kept s d err h size off at =
    Returned->>= (Stays d h.entry) (Kept d h.entry) (seek d err h off seek_set) _
      (seek-Stays d err h off at) (λ (r, h', err') stays. from_there r h' err' stays)
  where
    from_there :
        (r : ℤ) (h' : FileHandle) (err' : Err)
        → Stays d h.entry (r, h', err')
        → Returned (Kept d h.entry) (elim r [
          | pos n ↦ read_here s d err' h' size
          | negsuc n ↦ ok (minus_error err', [], h', err')
        ])
    from_there (negsuc n) h' err' stays = stays
    from_there (pos n) h' err' (same, (q, at')) =
        subst (λ e. Returned (Kept d e) (read_here s d err' h' size)) same
          (read_here-Kept s d err' h' size at')

-- What reads lead from one state of a file handle to another: of any size, at any offset, also outside
-- the file, as long as none throws.
pub data Reads (s : Settings) (d : Disk) : FileHandle → FileHandle → Type 0 where
  none_yet : {h : FileHandle} → Reads s d h h
  one_more :
      {h h' h'' : FileHandle} (err err' : Err) (size : ℕ) (off : ℤ) (reply : Reply) (bytes : List ℕ)
      → read_file s d err h size off ≡ ok (reply, bytes, h', err')
      → Reads s d h' h''
      → Reads s d h h''

Reads-Stays :
    {s : Settings} {d : Disk} {h h' : FileHandle} {p : ℕ}
    → Reads s d h h'
    → IsAt d h p
    → (h'.entry ≡ h.entry) × ((q : ℕ) × IsAt d h' q)
Reads-Stays {p = p} none_yet at = (refl, (p, at))
Reads-Stays {s} {d} (one_more {h = h} err err' size off reply bytes done more) at =
    let (same, (q, at')) =
      Returned-ok (Kept d h.entry) (read_file s d err h size off)
        (read_file-Kept s d err h size off at) done in
    let (same', there) = Reads-Stays more at' in (same' ∙ same, there)

-- Reads of a file do not disturb one another: for a handle of an entry that holds the block of its
-- position, and after any reads through it that returned, a read of at least one byte within the file
-- gives its bytes from the offset on, as many as asked for, converted as the mode says. The blocks up to
-- that of the end of the read must be readable.
pub Reads-file_bytes :
    (s : Settings) (d : Disk) (entry : Ptr) (blocks : ℕ → Ptr) (off size : ℕ)
    → 0 < size
    → off + size ≤ eof d entry
    → IsMapped d entry blocks ((off + size) / 512)
    → (h h' : FileHandle) (err : Err) → h.entry ≡ entry
    → {p : ℕ} → IsAt d h p
    → Reads s d h h'
    → (h'' : FileHandle) × (read_file s d err h' size (pos off)
        ≡ ok (
          success size,
          converted s (file_type d entry) (file_bytes d blocks off size),
          h'',
          err,
        ))
Reads-file_bytes s d entry blocks off size pos_size within mapped h h' err of_entry at reads =
    let (same, (q, at')) = Reads-Stays reads at in
    let is_entry = same ∙ of_entry in
    let (h'', got, same', at'') =
      read_file-file_bytes s d err h' q off size blocks at' pos_size
        (subst (λ e. off + size ≤ eof d e) (sym is_entry) within)
        (subst (λ e. IsMapped d e blocks ((off + size) / 512)) (sym is_entry) mapped) in
    (
      h'',
      subst
          (λ e.
            read_file s d err h' size (pos off)
            ≡ ok (
              success size,
              converted s (file_type d e) (file_bytes d blocks off size),
              h'',
              err,
            ))
          is_entry got,
    )
