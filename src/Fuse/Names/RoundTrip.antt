-- ===== src/Fuse/Names/RoundTrip.antt =====
-- The names that are shown, read back (main.cxx).
use prodosfs.Base.{
  ◌<◌, ℕ, ◌≡◌, refl, ◌∙◌, ap, sym, true, false, Bool, List, [], ◌∷◌, ◌++◌, some, none, take-append,
  length, arith, ◌==◌, ==_refl, if◌then◌else◌, Bool-cases, inl, inr,
}
use mathlib.Core.List.{append_assoc}
use prodosfs.Base.Text.{hexadecimal}
use prodosfs.Base.Bits.{every, every-at}
use prodosfs.Base.FilePath.{rfind}
use prodosfs.Disk.{Disk, Ptr}
use prodosfs.Disk.Blocks.{load-IsByte}
use prodosfs.Entry.{file_name, is_file, file_type}
use prodosfs.FileType.{get_file_type_info}
use prodosfs.FileType.Info.{add_file_type}
use prodosfs.Fuse.Settings.{Settings, extensions_on}
use prodosfs.Fuse.Names.{exported_filename, prodos_filename}

-- The text has no such byte.
abbrev pub lacks : ℕ → List ℕ → Bool
lacks c [] = true
lacks c (x ∷ xs) = if x == c then false else lacks c xs

rfind-lacks : (c : ℕ) (xs : List ℕ) → lacks c xs ≡ true → rfind c xs ≡ none
rfind-lacks c [] e = refl
rfind-lacks c (x ∷ xs) e = ground (arith, rfind-lacks c xs)

rfind-append :
    (c : ℕ) (xs ys : List ℕ) → lacks c ys ≡ true → rfind c (xs ++ c ∷ ys) ≡ some (length xs)
rfind-append c [] ys e = rw (rfind-lacks c ys e, ==_refl c)
rfind-append c (x ∷ xs) ys e = rw (rfind-append c xs ys e)

file_type-IsByte : (d : Disk) (entry : Ptr) → file_type d entry < 256
unfolding file_type
file_type-IsByte d entry = load-IsByte d _

names_table : every (λ c. lacks b':' (get_file_type_info c).name) 256 ≡ true
unfolding every get_file_type_info add_file_type hexadecimal
names_table = refl

exported_filename_on :
    (s : Settings) (d : Disk) (entry : Ptr)
    → extensions_on s.extension_mode ≡ true
    → is_file d entry ≡ true
    → exported_filename s d entry
      ≡ file_name d entry ++ (b':' ∷ (get_file_type_info (file_type d entry)).name)
unfolding exported_filename
exported_filename_on s d entry on file = rw (on, file)

exported_filename_other :
    (s : Settings) (d : Disk) (entry : Ptr)
    → is_file d entry ≡ false
    → exported_filename s d entry ≡ file_name d entry
unfolding exported_filename
exported_filename_other s d entry other = ground arith

prodos_filename_whole :
    (s : Settings) (name : List ℕ) → lacks b':' name ≡ true → prodos_filename s name ≡ name
unfolding prodos_filename
prodos_filename_whole s name plain = ground (arith, rfind-lacks b':' name)

prodos_filename_cut :
    (s : Settings) (name ext : List ℕ)
    → extensions_on s.extension_mode ≡ true
    → lacks b':' ext ≡ true
    → prodos_filename s (name ++ (b':' ∷ ext)) ≡ name
unfolding prodos_filename
prodos_filename_cut s name ext on no_colon =
    rw (on, rfind-append b':' name ext no_colon) (take-append name (b':' ∷ ext))

-- A name that the file system shows means the entry's own name again: for a path in a directory `dir`,
-- that ends in the exported name of an entry, `S_ProdosFilename` gives the path with the name on the
-- disk, in either extension mode, as long as there is no colon in it.
pub prodos_filename-exported_filename :
    (s : Settings) (d : Disk) (entry : Ptr) (dir : List ℕ)
    → lacks b':' (dir ++ file_name d entry) ≡ true
    → prodos_filename s (dir ++ exported_filename s d entry) ≡ dir ++ file_name d entry
unfolding prodos_filename exported_filename
prodos_filename-exported_filename s d entry dir plain =
    elim (Bool-cases (extensions_on s.extension_mode)) [
      | inr off ↦ rw off
      | inl on ↦ elim (Bool-cases (is_file d entry)) [
        | inr other ↦
            ap (λ t. prodos_filename s (dir ++ t)) (exported_filename_other s d entry other)
            ∙ prodos_filename_whole s (dir ++ file_name d entry) plain
        | inl file ↦
            let ext = (get_file_type_info (file_type d entry)).name in
            let no_colon : lacks b':' ext ≡ true =
              every-at (λ c. lacks b':' (get_file_type_info c).name) 256 (file_type d entry)
                (file_type-IsByte d entry) names_table in
            ap (λ t. prodos_filename s (dir ++ t)) (exported_filename_on s d entry on file)
            ∙ ap (prodos_filename s) (sym (append_assoc dir (file_name d entry) (b':' ∷ ext)))
            ∙ prodos_filename_cut s (dir ++ file_name d entry) ext on no_colon
      ]
    ]
