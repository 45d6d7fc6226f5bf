-- ===== src/Disk/Save/Atomic.antt =====
-- `disk_t::Save` (source/disk.cxx) replaces a file as a whole or not at all.
use prodosfs.Base.{
  ℕ, ◌≡◌, refl, sym, ◌∙◌, ◌⊎◌, inl, inr, true, false, Bool, List, Option, none, some, length, ℤ,
  pos, negsuc, Result, ok, thrown, system_error, arith, ap, if-Holds,
}
use prodosfs.Disk.{Disk, image}
use prodosfs.Disk.Blocks.{length-loads}
use prodosfs.Disk.Save.{
  FileSystem, tempname, image_bytes, is_all, after_rename, after_write, after_open, save,
}

-- What is documented of the calls: they change no other file than theirs, nor does a failing one
-- change where it should have put the file; bytes that are written as a whole to the empty file are
-- its contents; and `rename` puts one file in the place of the other.
pub record IsPosix {S : Type 0} (fs : FileSystem S) : Type 1 where
  pub contents : S → List ℕ → Option (List ℕ)
  -- The descriptor is of the file at the path, which is empty.
  pub writes_to : S → ℕ → List ℕ → Type 0
  -- The paths are those of two files.
  pub apart : List ℕ → List ℕ → Type 0
  pub open_some :
      (s s' : S) (p : List ℕ) (fd : ℕ) → fs.open_for_writing s p ≡ (s', some fd) → writes_to s' fd p
  pub open_others :
      (s s' : S) (p q : List ℕ) (fd : Option ℕ)
      → apart p q
      → fs.open_for_writing s p ≡ (s', fd)
      → contents s' q ≡ contents s q
  pub write_all :
      (s s' : S) (p : List ℕ) (fd : ℕ) (bytes : List ℕ)
      → writes_to s fd p
      → fs.write s fd bytes ≡ (s', pos (length bytes))
      → contents s' p ≡ some bytes
  pub write_others :
      (s s' : S) (p q : List ℕ) (fd : ℕ) (bytes : List ℕ) (n : ℤ)
      → writes_to s fd p
      → apart p q
      → fs.write s fd bytes ≡ (s', n)
      → contents s' q ≡ contents s q
  pub close_same : (s : S) (p : List ℕ) (fd : ℕ) → contents (fs.close s fd) p ≡ contents s p
  pub rename_done :
      (s s' : S) (p q : List ℕ)
      → apart p q
      → fs.rename s p q ≡ (s', true)
      → contents s' q ≡ contents s p
  pub rename_failed :
      (s s' : S) (p q : List ℕ) → fs.rename s p q ≡ (s', false) → contents s' q ≡ contents s q

is_all-true : (n : ℤ) (size : ℕ) → is_all n size ≡ true → n ≡ pos size
is_all-true (pos n) size e = ground (arith, e)
is_all-true (negsuc n) size e = cc

module _ {S : Type 0} (fs : FileSystem S) (laws : IsPosix fs) (d : Disk) (pathname : List ℕ)
    (two_files : laws.apart (tempname pathname) pathname) where
  -- Either all is saved, or the file is as it was.
  abbrev IsAtomic : S → S × Result Bool → Type 0
  IsAtomic s (s', r) =
      ((r ≡ ok true) × (laws.contents s' pathname ≡ some (image_bytes d)))
      ⊎ (((r ≡ ok false) ⊎ (r ≡ thrown system_error))
          × (laws.contents s' pathname ≡ laws.contents s pathname))

  after_rename-IsAtomic :
      (s closed : S)
      → laws.contents closed (tempname pathname) ≡ some (image_bytes d)
      → laws.contents closed pathname ≡ laws.contents s pathname
      → (result : S × Bool) → fs.rename closed (tempname pathname) pathname ≡ result
      → IsAtomic s (after_rename fs result)
  after_rename-IsAtomic s closed full same (s', true) e =
      inl (refl, laws.rename_done closed s' (tempname pathname) pathname two_files e ∙ full)
  after_rename-IsAtomic s closed full same (s', false) e =
      inr (inr refl, laws.rename_failed closed s' (tempname pathname) pathname e ∙ same)

  after_write-IsAtomic :
      (s opened : S) (fd : ℕ)
      → laws.writes_to opened fd (tempname pathname)
      → laws.contents opened pathname ≡ laws.contents s pathname
      → (result : S × ℤ) → fs.write opened fd (image_bytes d) ≡ result
      → IsAtomic s (after_write fs d pathname fd result)
  after_write-IsAtomic s opened fd to_temp same (s', n) e =
      if-Holds (IsAtomic s) (is_all n d.size) _ _
        (λ whole.
          let all : n ≡ pos (length (image_bytes d)) =
            is_all-true n d.size whole ∙ ap pos (sym (length-loads d (image 0) 0 d.size)) in
          after_rename-IsAtomic s (fs.close s' fd)
            (laws.close_same s' (tempname pathname) fd
              ∙ laws.write_all opened s' (tempname pathname) fd (image_bytes d) to_temp
                  (e ∙ ap (λ k. (s', k)) all))
            (laws.close_same s' pathname fd ∙ kept s' n e) _ refl)
        (λ part. inr (inr refl, kept s' n e))
    where
      kept :
          (s' : S) (n : ℤ)
          → fs.write opened fd (image_bytes d) ≡ (s', n)
          → laws.contents s' pathname ≡ laws.contents s pathname
      kept s' n e =
          laws.write_others opened s' (tempname pathname) pathname fd (image_bytes d) n to_temp
            two_files e
          ∙ same

  -- `Save` is atomic: whatever fails, the file at the path afterwards holds the whole image, and `Save`
  -- returns true, or it holds what it held before, and `Save` returns false or throws. The path must not be
  -- that of the temporary file by another name.
  pub save-IsAtomic :
      (s : S)
      → (((save fs s d pathname).1 ≡ ok true)
          × (laws.contents (save fs s d pathname).0 pathname ≡ some (image_bytes d)))
        ⊎ ((((save fs s d pathname).1 ≡ ok false)
              ⊎ ((save fs s d pathname).1 ≡ thrown system_error))
            × (laws.contents (save fs s d pathname).0 pathname ≡ laws.contents s pathname))
  unfolding save
  save-IsAtomic s = opened (fs.open_for_writing s (tempname pathname)) refl
    where
      opened :
          (result : S × Option ℕ)
          → fs.open_for_writing s (tempname pathname) ≡ result
          → IsAtomic s (after_open fs d pathname result)
      opened (s', none) e =
          inr (inl refl, laws.open_others s s' (tempname pathname) pathname none two_files e)
      opened (s', some fd) e =
          after_write-IsAtomic s s' fd (laws.open_some s s' (tempname pathname) fd e)
            (laws.open_others s s' (tempname pathname) pathname (some fd) two_files e) _ refl
