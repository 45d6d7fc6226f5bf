-- ===== src/Disk/Save.antt =====
-- `disk_t::Save` (source/disk.cxx): the image is written to a temporary file, which then takes the
-- place of the file.
pub mod Atomic
use prodosfs.Base.{
  ℕ, zero, suc, ◌≡◌, refl, ◌∙◌, ◌⊎◌, inl, inr, true, false, Bool, List, [], ◌∷◌, ◌++◌, Option, none,
  some, length, ◌==◌, if◌then◌else◌, ℤ, pos, negsuc, Result, ok, thrown, system_error, arith,
  Bool-cases, ap,
}
use prodosfs.Base.Text.{codes}
use prodosfs.Disk.{Disk, Ptr, image, loads}

-- The calls of the operating system, on the states of a file system: `open` for writing, which makes
-- the file or empties it, gives a descriptor or fails; `write` gives the number of bytes written, or
-- -1; `rename` tells whether it gave 0.
pub record FileSystem (S : Type 0) : Type 0 where
  pub open_for_writing : S → List ℕ → S × Option ℕ
  pub write : S → ℕ → List ℕ → S × ℤ
  pub close : S → ℕ → S
  pub rename : S → List ℕ → List ℕ → S × Bool

abbrev pub tempname : List ℕ → List ℕ
tempname pathname = pathname ++ codes ".tmp"

-- The bytes at `_base`.
abbrev pub image_bytes : Disk → List ℕ
image_bytes d = loads d (image 0) 0 d.size

-- Whether `n` is `_size`: -1 is the largest `size_t`.
abbrev pub is_all : ℤ → ℕ → Bool
is_all (pos n) size = n == size
is_all (negsuc n) size = false

module _ {S : Type 0} (fs : FileSystem S) where
  -- From the test of `rename` on.
  abbrev pub after_rename : S × Bool → S × Result Bool
  after_rename (s, true) = (s, ok true)
  after_rename (s, false) = (s, thrown system_error)

  -- From the test of `write` on. Where not all is written, the descriptor stays open.
  abbrev pub after_write : Disk → List ℕ → ℕ → S × ℤ → S × Result Bool
  after_write d pathname fd (s, n) =
      if is_all n d.size
      then after_rename (fs.rename (fs.close s fd) (tempname pathname) pathname)
      else (s, thrown system_error)

  -- From the test of `open` on.
  abbrev pub after_open : Disk → List ℕ → S × Option ℕ → S × Result Bool
  after_open d pathname (s, none) = (s, ok false)
  after_open d pathname (s, some fd) = after_write d pathname fd (fs.write s fd (image_bytes d))

  unfoldable pub save : S → Disk → List ℕ → S × Result Bool
  save s d pathname = after_open d pathname (fs.open_for_writing s (tempname pathname))
