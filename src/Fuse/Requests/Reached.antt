-- ===== src/Fuse/Requests/Reached.antt =====
-- The open files in the reachable states of a session of requests (main.cxx).
use prodosfs.Base.{ℕ, ◌≡◌, Bool, List, Option, none, some, ◌==◌, if-Holds}
use mathlib.Core.Path.{subst}
use prodosfs.Volume.Paths.{Volume}
use prodosfs.Fuse.Settings.{Settings}
use prodosfs.Fuse.Names.{prodos_filename}
use prodosfs.Fuse.Status.{is_virtual}
use prodosfs.Fuse.Requests.{
  Opened, by_open, by_opendir, OpenFiles, put, Request, open_request, read_request, release_request,
  opendir_request, readdir_request, releasedir_request, Reach, nothing_open, after,
}
use prodosfs.Fuse.Requests.Handles.{
  Fits, prodosfs_open-Fits, prodosfs_read-Fits, prodosfs_opendir-Fits, prodosfs_readdir-Fits,
}

module _ (full : List (List ℕ) → List ℕ → Bool) (fuel : ℕ) (s : Settings) (v : Volume) where
  -- What `open` takes for the path of a virtual file, `read` and `release` do too. (`open` looks at the path
  -- without its extension.)
  abbrev pub Agrees : Opened → Type 0
  Agrees (by_open path object) = is_virtual s (prodos_filename s path) ≡ is_virtual s path
  Agrees (by_opendir path object) = Unit

  -- All open files fit whose paths are taken the same way by all operations.
  abbrev pub AllFit : OpenFiles → Type 0
  AllFit files = (i : ℕ) (o : Opened) → files i ≡ some o → Agrees o → Fits fuel s v o

  put-AllFit :
      (files : OpenFiles) (i : ℕ) (o : Opened)
      → AllFit files
      → (Agrees o → Fits fuel s v o)
      → AllFit (put files i (some o))
  put-AllFit files i o all fits j o' e =
      if-Holds (λ (x : Option Opened). x ≡ some o' → Agrees o' → Fits fuel s v o') (i == j) (some o)
        (files j)
        (λ here e'. let same : o ≡ o' = cc in subst (λ p. Agrees p → Fits fuel s v p) same fits)
        (λ there e'. all j o' e') e

  take-AllFit : (files : OpenFiles) (i : ℕ) → AllFit files → AllFit (put files i none)
  take-AllFit files i all j o' e =
      if-Holds (λ (x : Option Opened). x ≡ some o' → Agrees o' → Fits fuel s v o') (i == j) none
        (files j) (λ here e'. cc) (λ there e'. all j o' e') e

  Request-AllFit :
      {files files' : OpenFiles} → Request full fuel s v files files' → AllFit files → AllFit files'
  Request-AllFit {files} (open_request i path object err err' free e) all =
      put-AllFit files i (by_open path object) all
        (λ agree. prodosfs_open-Fits fuel s v err err' path object agree e)
  Request-AllFit {files}
        (read_request i path object object' err err' size off reply bytes is_open e) all =
      put-AllFit files i (by_open path object') all (λ agree.
        prodosfs_read-Fits fuel s v err err' path object object' size off reply bytes
          (all i (by_open path object) is_open agree) e)
  Request-AllFit {files} (release_request i path object reply is_open e) all =
      take-AllFit files i all
  Request-AllFit {files} (opendir_request i path object err err' free e) all =
      put-AllFit files i (by_opendir path object) all
        (λ agree. prodosfs_opendir-Fits fuel s v err err' path object e)
  Request-AllFit {files} (readdir_request i path object object' err err' buf names reply is_open e)
        all =
      put-AllFit files i (by_opendir path object') all (λ agree.
        prodosfs_readdir-Fits fuel s v full err err' path object object' buf names reply
          (all i (by_opendir path object) is_open tt) e)
  Request-AllFit {files} (releasedir_request i path object reply is_open e) all =
      take-AllFit files i all

  pub Reach-AllFit : {files : OpenFiles} → Reach full fuel s v files → AllFit files
  Reach-AllFit nothing_open i o e = cc
  Reach-AllFit (after r q) i o e = Request-AllFit q (Reach-AllFit r) i o e
