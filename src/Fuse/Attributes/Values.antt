-- ===== src/Fuse/Attributes/Values.antt =====
-- Extended attributes by name, and the buffer of `getxattr` (main.cxx).
use prodosfs.Base.{
  ℕ, ◌+◌, ◌≤◌, ◌<◌, ◌≡◌, refl, sym, ap, ◌⊎◌, inl, inr, true, List, [], ◌∷◌, ◌++◌, none, some,
  length, length-append, All, arith, ltb, bytes_eq, bytes_eq_refl, bytes_eq→eq, Bool-cases,
}
use mathlib.Core.Path.{subst}
use mathlib.Core.List.{Memᴰ}
use mathlib.Core.List.Memᴰ.{head, tail, cases_cons}
use prodosfs.Base.Text.{c_str}
use prodosfs.Base.Text.Lengths.{length-c_str}
use prodosfs.Disk.{Disk, Ptr}
use prodosfs.Entry.{file_type}
use prodosfs.FileType.{is_appleworks_file}
use prodosfs.Fuse.Errors.{success, failure, erange}
use prodosfs.Fuse.Attributes.{
  Attributes, common_attributes, dirent_attributes, find_attribute, names_of, c_string, give_value,
}
use prodosfs.Fuse.Attributes.Protocol.{IsText}

-- Whether an attribute is looked up is whether its name is one of the names.
pub find_attribute-some :
    (a : Attributes) (name value : List ℕ)
    → find_attribute a name ≡ some value
    → Memᴰ name (names_of a)
find_attribute-some [] name value e = cc
find_attribute-some ((k, x) ∷ rest) name value e = elim (Bool-cases (bytes_eq k name)) [
  | inl same ↦ head (sym (bytes_eq→eq k name same))
  | inr other ↦ tail (find_attribute-some rest name value (rw other at e))
]

pub find_attribute-none :
    (a : Attributes) (name : List ℕ) → find_attribute a name ≡ none → Memᴰ name (names_of a) → ⊥
find_attribute-none [] name e m = elim m [ ]
find_attribute-none ((k, x) ∷ rest) name e m = elim (Bool-cases (bytes_eq k name)) [
  | inl same ↦ ground (arith, same, e)
  | inr other ↦ elim (cases_cons m) [
    | inl is ↦ ground (arith, other, bytes_eq_refl name, ap (λ k'. bytes_eq k' name) is)
    | inr later ↦ find_attribute-none rest name (rw other at e) later
  ]
]

-- What holds of all members holds of each, and the other way round.
pub All-Memᴰ : (P : List ℕ → Type 0) (l : List (List ℕ)) → ((k : List ℕ) → Memᴰ k l → P k) → All P l
All-Memᴰ P [] h = tt
All-Memᴰ P (k ∷ l) h = (h k (head refl), All-Memᴰ P l (λ k' m. h k' (tail m)))

pub Memᴰ-All : (P : List ℕ → Type 0) (l : List (List ℕ)) (k : List ℕ) → All P l → Memᴰ k l → P k
Memᴰ-All P (k' ∷ l) k p m = elim (cases_cons m) [
  | inl is ↦ subst P (sym is) p.0
  | inr later ↦ Memᴰ-All P l k p.1 later
]
Memᴰ-All P [] k p m = elim m [ ]

-- The attributes of a file or a directory.
abbrev pub attributes_of : Disk → Ptr → Attributes
attributes_of d e = common_attributes d e ++ dirent_attributes d e

pub attributes_of-IsText : (d : Disk) (e : Ptr) → All IsText (names_of (attributes_of d e))
attributes_of-IsText d e = elim (Bool-cases (is_appleworks_file (file_type d e))) [
  | inl is ↦ rw is (omega arith)
  | inr is_not ↦ rw is_not (omega arith)
]

-- What `getxattr` does with a value, for any size of the buffer.
pub give_value_fits :
    (value : List ℕ) (size : ℕ)
    → 0 < size
    → ((length value + 1 ≤ size)
        × (give_value (some value) size ≡ (success (length value + 1), c_string value))
        × (length (c_string value) ≤ size))
      ⊎ ((size < length value + 1) × (give_value (some value) size ≡ (failure erange, [])))
unfolding give_value
give_value_fits value size lt =
    let asked : ltb 0 size ≡ true = ground (arith, lt) in
    elim (Bool-cases (ltb size (length value + 1))) [
      | inl small ↦ inr (ground (arith, small), rw (asked, small) refl)
      | inr fits ↦ inl (
        ground (arith, fits),
        rw (asked, fits) refl,
        ground (arith, fits, length-append (c_str value) (0 ∷ []), length-c_str value),
      )
    ]

pub give_value_asked :
    (value : List ℕ) → give_value (some value) 0 ≡ (success (length value + 1), [])
unfolding give_value
give_value_asked value = refl
