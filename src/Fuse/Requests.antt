-- ===== src/Fuse/Requests.antt =====
-- The table `operations` (main.cxx): what a session of FUSE requests does to the open files.
pub mod Handles
pub mod Reached
pub mod Isolation
use prodosfs.Base.{ℕ, Bool, List, Option, none, some, ◌==◌, if◌then◌else◌, ℤ, Result, ok, Err, ◌≡◌}
use prodosfs.Volume.Paths.{Volume}
use prodosfs.Fuse.Settings.{Settings}
use prodosfs.Fuse.Errors.{Reply, success}
use prodosfs.Fuse.Files.{OpenFile, prodosfs_open, prodosfs_read, prodosfs_close}
use prodosfs.Fuse.Directories.{prodosfs_opendir, prodosfs_readdir, prodosfs_closedir}

-- What FUSE keeps of an open file: the operation that opened it, the path, and `fi->fh`.
pub data Opened : Type 0 where
  by_open by_opendir : List ℕ → OpenFile → Opened

-- The open files, by the number that the kernel has for each.
abbrev pub OpenFiles : Type 0
OpenFiles = ℕ → Option Opened

abbrev pub put : OpenFiles → ℕ → Option Opened → OpenFiles
put files i o j = if i == j then o else files j

-- A request that changes the open files, by the operation that serves it. FUSE reads and releases what
-- `open` opened, and lists and releases what `opendir` opened, with the path of the opening. The thread
-- that serves the request has an error of its own. The other operations change no open file, and neither
-- does an `open` or `opendir` that gives no object.
module _ (full : List (List ℕ) → List ℕ → Bool) (fuel : ℕ) (s : Settings) (v : Volume) where
  pub data Request (files : OpenFiles) : OpenFiles → Type 0 where
    open_request :
        (i : ℕ) (path : List ℕ) (object : OpenFile) (err err' : Err)
        → files i ≡ none
        → prodosfs_open fuel s v err path ≡ ok (success 0, some object, err')
        → Request files (put files i (some (by_open path object)))
    read_request :
        (i : ℕ) (path : List ℕ) (object object' : OpenFile) (err err' : Err) (size : ℕ) (off : ℤ)
        (reply : Reply) (bytes : List ℕ)
        → files i ≡ some (by_open path object)
        → prodosfs_read s v err path object size off ≡ ok (reply, bytes, object', err')
        → Request files (put files i (some (by_open path object')))
    release_request :
        (i : ℕ) (path : List ℕ) (object : OpenFile) (reply : Reply)
        → files i ≡ some (by_open path object)
        → prodosfs_close s path object ≡ ok reply
        → Request files (put files i none)
    opendir_request :
        (i : ℕ) (path : List ℕ) (object : OpenFile) (err err' : Err)
        → files i ≡ none
        → prodosfs_opendir fuel v err path ≡ ok (success 0, some object, err')
        → Request files (put files i (some (by_opendir path object)))
    readdir_request :
        (i : ℕ) (path : List ℕ) (object object' : OpenFile) (err err' : Err)
        (buf names : List (List ℕ)) (reply : Reply)
        → files i ≡ some (by_opendir path object)
        → prodosfs_readdir full fuel s v err object buf ≡ ok (reply, names, object', err')
        → Request files (put files i (some (by_opendir path object')))
    releasedir_request :
        (i : ℕ) (path : List ℕ) (object : OpenFile) (reply : Reply)
        → files i ≡ some (by_opendir path object)
        → prodosfs_closedir object ≡ ok reply
        → Request files (put files i none)

  -- The open files of a session, from its start with none.
  pub data Reach : OpenFiles → Type 0 where
    nothing_open : Reach (λ i. none)
    after : {files files' : OpenFiles} → Reach files → Request files files' → Reach files'
