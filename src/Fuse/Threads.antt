-- ===== src/Fuse/Threads.antt =====
-- `prodosfs_read` (main.cxx) on several threads at once, on one file handle. `main` does not ask FUSE to
-- serve requests on one thread, and nothing keeps two reads of an open file apart: the seek of one may come
-- between the seek and the read of the other. A seek and a read are each taken as one step here.
pub mod Race
use prodosfs.Base.{ℕ, ◌==◌, if◌then◌else◌, ℤ, pos, negsuc, List, [], ok, Err, ◌≡◌}
use prodosfs.Disk.{Disk}
use prodosfs.File.{FileHandle, seek, seek_set}
use prodosfs.Fuse.Settings.{Settings}
use prodosfs.Fuse.Errors.{Reply, minus_error}
use prodosfs.Fuse.Files.{read_here}

-- Where a thread is in `prodosfs_read`, with the size and the offset that it was asked for, and its own
-- error; and at the end what it answers.
pub data Reader : Type 0 where
  before_seek : ℕ → ℤ → Err → Reader
  before_read : ℕ → Err → Reader
  answered : Reply → List ℕ → Reader

-- One step of a thread, on the handle that the threads share.
pub data Move (s : Settings) (d : Disk) (h : FileHandle)
    : Reader → FileHandle → Reader → Type 0 where
  seeks :
      (size : ℕ) (off : ℤ) (n : ℕ) (h' : FileHandle) (err err' : Err)
      → seek d err h off seek_set ≡ ok (pos n, h', err')
      → Move s d h (before_seek size off err) h' (before_read size err')
  seek_fails :
      (size : ℕ) (off : ℤ) (n : ℕ) (h' : FileHandle) (err err' : Err)
      → seek d err h off seek_set ≡ ok (negsuc n, h', err')
      → Move s d h (before_seek size off err) h' (answered (minus_error err') [])
  reads :
      (size : ℕ) (h' : FileHandle) (err err' : Err) (reply : Reply) (bytes : List ℕ)
      → read_here s d err h size ≡ ok (reply, bytes, h', err')
      → Move s d h (before_read size err) h' (answered reply bytes)

-- The handle, and the threads by their numbers.
pub record Readers : Type 0 where
  pub handle : FileHandle
  pub reader : ℕ → Reader

abbrev pub update : (ℕ → Reader) → ℕ → Reader → ℕ → Reader
update f i r j = if i == j then r else f j

-- Any thread may take the next step.
pub data Step (s : Settings) (d : Disk) (r : Readers) : Readers → Type 0 where
  pick :
      (i : ℕ) {h' : FileHandle} {reader' : Reader}
      → Move s d r.handle (r.reader i) h' reader'
      → Step s d r (record { handle = h'; reader = update r.reader i reader' })

pub data Steps (s : Settings) (d : Disk) (r : Readers) : Readers → Type 0 where
  here : Steps s d r r
  later : {r' r'' : Readers} → Steps s d r r' → Step s d r' r'' → Steps s d r r''
