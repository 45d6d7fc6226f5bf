-- ===== src/Fuse/Threads/Race.antt =====
-- Two reads of one open file at once (main.cxx): alone they are right, together they may not be.
use prodosfs.Base.{
  ℕ, ◌+◌, ◌/◌, ◌≤◌, ◌<◌, ◌≡◌, sym, ap, pos, ok, Err, arith, ◌==◌, if◌then◌else◌, ◌∙◌,
}
use mathlib.Core.Path.{subst}
use prodosfs.Disk.{Disk, Ptr}
use prodosfs.Entry.{eof, file_type}
use prodosfs.File.{FileHandle}
use prodosfs.File.Content.{block_of, IsMapped, file_bytes}
use prodosfs.File.Seek.{IsAt, seek-IsAt}
use prodosfs.Fuse.Settings.{Settings}
use prodosfs.Fuse.Errors.{success}
use prodosfs.Fuse.Files.{converted}
use prodosfs.Fuse.Files.Reading.{read_here-file_bytes}
use prodosfs.Fuse.Threads.{
  Reader, before_seek, answered, seeks, reads, Readers, pick, Steps, here, later,
}

-- Thread 0, and another.
abbrev pub two : Reader → Reader → ℕ → Reader
two first second i = if i == 0 then first else second

module _ (s : Settings) (d : Disk) (h : FileHandle) (p : ℕ) (blocks : ℕ → Ptr)
    (off off' size size' : ℕ) (err err' : Err) (at : IsAt d h p) (pos_size : 0 < size)
    (le : off ≤ off') (within : off' + size ≤ eof d h.entry)
    (mapped : IsMapped d h.entry blocks ((off' + size) / 512)) where
  abbrev pub at_start : Readers
  at_start = record {
    handle = h;
    reader = two (before_seek size (pos off) err) (before_seek size' (pos off') err');
  }

  -- Thread 0 answers with the bytes of the file from this offset on.
  abbrev pub Answers : ℕ → Readers → Type 0
  Answers from r =
      r.reader 0
      ≡ answered (success size) (converted s (file_type d h.entry) (file_bytes d blocks from size))

  undisturbed : (r : Readers) × Steps s d at_start r × Answers off r
  undisturbed =
      let (h1, sought, same, content, at1) =
        seek-IsAt d err h off (blocks (off / 512)) at.shape (omega arith)
          (mapped (off / 512) (omega arith)) in
      let (h2, got, same2, at2) =
        read_here-file_bytes s d err h1 off size blocks at1 pos_size
          (subst (λ e. off + size ≤ eof d e) (sym same) (omega arith))
          (λ k before.
            subst (λ e. block_of d e k ≡ ok (blocks k)) (sym same) (mapped k (omega arith))) in
      (
        _,
        later (later here (pick 0 (seeks size (pos off) off h1 err err sought)))
            (pick 0 (reads size h2 err err (success size) _ got)),
        ap
            (λ e.
              answered (success size) (converted s (file_type d e) (file_bytes d blocks off size)))
            same,
      )

  disturbed : (r : Readers) × Steps s d at_start r × Answers off' r
  disturbed =
      let (h1, sought, same, content, at1) =
        seek-IsAt d err h off (blocks (off / 512)) at.shape (omega arith)
          (mapped (off / 512) (omega arith)) in
      let (h2, sought2, same2, content2, at2) =
        seek-IsAt d err' h1 off' (blocks (off' / 512)) at1.shape
          (subst (λ e. off' ≤ eof d e) (sym same) (omega arith))
          (subst (λ e. block_of d e (off' / 512) ≡ ok (blocks (off' / 512))) (sym same)
            (mapped (off' / 512) (omega arith))) in
      let is_entry : h2.entry ≡ h.entry = same2 ∙ same in
      let (h3, got, same3, at3) =
        read_here-file_bytes s d err h2 off' size blocks at2 pos_size
          (subst (λ e. off' + size ≤ eof d e) (sym is_entry) within)
          (subst (λ e. IsMapped d e blocks ((off' + size) / 512)) (sym is_entry) mapped) in
      (
        _,
        later
            (later (later here (pick 0 (seeks size (pos off) off h1 err err sought)))
              (pick 1 (seeks size' (pos off') off' h2 err' err' sought2)))
            (pick 0 (reads size h3 err err (success size) _ got)),
        ap
            (λ e.
              answered (success size) (converted s (file_type d e) (file_bytes d blocks off' size)))
            is_entry,
      )

  -- Two threads read a file at once through one handle, which holds the block of some position, thread 0
  -- from `off` and the other from `off'`. There is an order of their steps in which thread 0 answers that it
  -- read all that it was asked for and gives the bytes from `off` on; and there is one in which it answers
  -- the same, but gives the bytes from `off'` on. The offset `off` must not be behind `off'`, as many bytes
  -- from `off'` on as thread 0 asks for, at least one, must be within the file, and the blocks up to that
  -- of their end readable.
  pub Steps_race :
      ((r : Readers) × Steps s d at_start r × Answers off r)
      × ((r : Readers) × Steps s d at_start r × Answers off' r)
  Steps_race = (undisturbed, disturbed)
