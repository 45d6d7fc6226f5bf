-- ===== src/Fuse/Attributes/Answers.antt =====
-- `prodosfs_listxattr` and `prodosfs_getxattr` (main.cxx) together: the names that are listed, and their
-- values.
use prodosfs.Base.{
  ℕ, ◌+◌, ◌≤◌, ◌<◌, ◌≡◌, refl, ap, ◌∙◌, ◌⊎◌, inl, inr, true, false, ◌||◌, List, [], ◌∷◌, Option,
  none, some, length, bytes_eq, ok, Err,
}
use mathlib.Core.List.{Memᴰ}
use prodosfs.Disk.{image}
use prodosfs.Entry.{is_file, is_directory}
use prodosfs.Directory.Layout.{IsDirectory}
use prodosfs.Volume.Paths.{Volume, get_entry, split_path}
use prodosfs.Volume.Resolve.{entry, Resolves}
use prodosfs.Volume.GetEntry.{get_entry-split_path}
use prodosfs.Fuse.Settings.{Settings}
use prodosfs.Fuse.Errors.{Reply, success, failure, enodata, erange}
use prodosfs.Fuse.Names.{prodos_filename}
use prodosfs.Fuse.Attributes.{
  Attributes, get_attributes, find_attribute, names_of, c_string, give_value, prodosfs_getxattr,
  list_names, prodosfs_listxattr,
}
use prodosfs.Fuse.Attributes.Protocol.{room, joined, IsText, list_names_protocol}
use prodosfs.Fuse.Attributes.Values.{
  find_attribute-some, find_attribute-none, All-Memᴰ, Memᴰ-All, attributes_of, attributes_of-IsText,
  give_value_fits, give_value_asked,
}

-- The order of an `unordered_map`: the names are those of the attributes.
abbrev pub IsOrder : (Attributes → Attributes) → Type 0
IsOrder in_order =
    (a : Attributes) (k : List ℕ)
    → (Memᴰ k (names_of (in_order a)) → Memᴰ k (names_of a))
      × (Memᴰ k (names_of a) → Memᴰ k (names_of (in_order a)))

-- What `listxattr` answers of these names to a size of 0 and to another.
abbrev pub Lists : List (List ℕ) → ℕ → (ℕ → Reply → List ℕ → Type 0) → Type 0
Lists names size Answers =
    Answers 0 (success (room names)) []
    × (((room names ≤ size)
          × Answers size (success (room names)) (joined names)
          × (length (joined names) ≡ room names))
        ⊎ ((bytes : List ℕ) × (size < room names)
            × Answers size (failure erange) bytes
            × (length bytes ≤ size)))

-- What `getxattr` answers of a value to a size of 0 and to another.
abbrev pub Gives : List ℕ → ℕ → (ℕ → Reply → List ℕ → Type 0) → Type 0
Gives value size Answers =
    Answers 0 (success (length value + 1)) []
    × (((length value + 1 ≤ size)
          × Answers size (success (length value + 1)) (c_string value)
          × (length (c_string value) ≤ size))
        ⊎ ((size < length value + 1) × Answers size (failure erange) []))

module _ (in_order : Attributes → Attributes) (order : IsOrder in_order) (s : Settings) (v : Volume)
    (a : ℕ) (path : List ℕ) (err : Err) (entries : List ℕ) (root : v.root ≡ image a)
    (dir : IsDirectory v.disk a entries)
    (proper : bytes_eq (prodos_filename s path) (b'/' ∷ []) ≡ false) (e : ℕ) where
  abbrev attributes : Attributes
  attributes = attributes_of v.disk (image e)

  abbrev names : List (List ℕ)
  names = names_of (in_order attributes)

  abbrev OfList : ℕ → ℕ → Reply → List ℕ → Type 0
  OfList fuel size reply bytes =
      prodosfs_listxattr in_order fuel s v err path size ≡ ok (reply, bytes, err)

  abbrev OfGet : ℕ → List ℕ → ℕ → Reply → List ℕ → Type 0
  OfGet fuel name size reply bytes =
      prodosfs_getxattr fuel s v err (prodos_filename s path) name size ≡ ok (reply, bytes, err)

  module _ (fuel : ℕ)
      (found : get_entry fuel v err (prodos_filename s path) ≡ ok (some (image e), err))
      (kind : (is_file v.disk (image e) || is_directory v.disk (image e)) ≡ true) where
    listxattr_answer :
        (size : ℕ) {reply : Reply} {bytes : List ℕ}
        → list_names size names [] size 0 ≡ (reply, bytes)
        → OfList fuel size reply bytes
    unfolding prodosfs_listxattr get_attributes
    listxattr_answer size eq = rw (found, kind) (ap (λ r. ok (r.0, r.1, err)) eq)

    getxattr_answer :
        (name : List ℕ) (size : ℕ) (value : Option (List ℕ)) {reply : Reply} {bytes : List ℕ}
        → find_attribute attributes name ≡ value
        → give_value value size ≡ (reply, bytes)
        → OfGet fuel name size reply bytes
    unfolding prodosfs_getxattr get_attributes
    getxattr_answer name size value is eq =
        rw (found, kind)
          (ap (λ x. ok ((give_value x size).0, (give_value x size).1, err)) is
            ∙ ap (λ r. ok (r.0, r.1, err)) eq)

    listed : (size : ℕ) → 0 < size → Lists names size (OfList fuel)
    listed size lt =
        let texts = All-Memᴰ IsText names (λ k m.
          Memᴰ-All IsText (names_of attributes) k (attributes_of-IsText v.disk (image e))
            ((order attributes k).0 m)) in
        let (asked, whole, answer) = list_names_protocol size names texts lt in
        (
          listxattr_answer 0 asked,
          elim answer [
            | inl (fits, eq) ↦ inl (fits, listxattr_answer size eq, whole)
            | inr (bytes, small, eq, le) ↦ inr (bytes, small, listxattr_answer size eq, le)
          ],
        )

    given :
        (name value : List ℕ) (size : ℕ)
        → find_attribute attributes name ≡ some value
        → 0 < size
        → Gives value size (OfGet fuel name)
    given name value size is lt = (
      getxattr_answer name 0 (some value) is (give_value_asked value),
      elim (give_value_fits value size lt) [
        | inl (fits, eq, le) ↦ inl (fits, getxattr_answer name size (some value) is eq, le)
        | inr (small, eq) ↦ inr (small, getxattr_answer name size (some value) is eq)
      ],
    )

    answered :
        (name : List ℕ) (size : ℕ)
        → 0 < size
        → (o : Option (List ℕ)) → find_attribute attributes name ≡ o
        → ((value : List ℕ) × Memᴰ name names
            × (find_attribute attributes name ≡ some value)
            × Gives value size (OfGet fuel name))
          ⊎ ((Memᴰ name names → ⊥)
              × OfGet fuel name 0 (failure enodata) []
              × OfGet fuel name size (failure enodata) [])
    unfolding give_value
    answered name size lt (some value) is = inl (
      value,
      (order attributes name).1 (find_attribute-some attributes name value is),
      is,
      given name value size is lt,
    )
    answered name size lt none is = inr (
      (λ m. find_attribute-none attributes name is ((order attributes name).0 m)),
      getxattr_answer name 0 none is refl,
      getxattr_answer name size none is refl,
    )

  -- The names that `listxattr` lists are just those that `getxattr` answers. Let a path lead to a file or a
  -- directory once the extension is cut off. With enough fuel, `listxattr` of the path answers a size of 0
  -- with the room of the names, writes the names of the attributes, each with its zero byte, into a buffer
  -- that has the room, and answers `ERANGE` for a smaller one, within which it stays. And `getxattr` of the
  -- path without the extension does the same with the value of a name that is listed, and answers
  -- `ENODATA` for one that is not. The error is left alone.
  pub prodosfs_listxattr-prodosfs_getxattr :
      (name : List ℕ) (size : ℕ)
      → 0 < size
      → Resolves v.disk entries (split_path (prodos_filename s path)) (entry e)
      → (is_file v.disk (image e) || is_directory v.disk (image e)) ≡ true
      → (n : ℕ) × ((fuel : ℕ)
          → n ≤ fuel
          → Lists names size (OfList fuel)
            × (((value : List ℕ) × Memᴰ name names
                  × (find_attribute attributes name ≡ some value)
                  × Gives value size (OfGet fuel name))
                ⊎ ((Memᴰ name names → ⊥)
                    × OfGet fuel name 0 (failure enodata) []
                    × OfGet fuel name size (failure enodata) [])))
  prodosfs_listxattr-prodosfs_getxattr name size lt spec kind =
      let (n, found) =
        get_entry-split_path v a (prodos_filename s path) err entries (entry e) root dir proper
          spec in
      (
        n,
        (λ fuel enough. (
          listed fuel (found fuel enough) kind size lt,
          answered fuel (found fuel enough) kind name size lt (find_attribute attributes name) refl,
        )),
      )
