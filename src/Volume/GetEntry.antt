-- ===== src/Volume/GetEntry.antt =====
-- `GetEntry` (source/volume.cxx) as a whole, from the path to the entry.
use prodosfs.Base.{
  ℕ, zero, suc, ◌+◌, ◌*◌, ◌≤◌, ◌<◌, ◌≡◌, refl, ap, ◌∙◌, sym, true, false, none, some, List, [], ◌∷◌,
  ◌++◌, map, take, length, arith, Bool-cases, inl, inr, ok, Err, All, bytes_eq, bytes_eq→eq,
  err_file_not_found,
}
use prodosfs.Base.Text.{c_str, to_lower}
use prodosfs.Disk.{Disk, Ptr, image}
use prodosfs.Entry.{name_matches, is_directory, key_pointer, entries_per_block, file_name}
use prodosfs.Directory.Layout.{IsDirectory, slots_in}
use prodosfs.Directory.Next.{open_key_block-Ahead}
use prodosfs.Volume.Paths.{Volume, get_entry, split_path, find_char}
use prodosfs.Volume.SplitLaws.{IsPlain, split_path_three, Spells, split_path-Spells}
use prodosfs.Volume.Resolve.{
  Lookup, missing, Resolves, absent, below, answer, onward-Resolves, first_named,
}

-- With enough fuel, the same for every error that the thread has, `GetEntry` returns what the
-- specification says.
pub get_entry-answer :
    (v : Volume) (a : ℕ) (pathname : List ℕ) (entries : List ℕ) (r : Lookup)
    → v.root ≡ image a
    → IsDirectory v.disk a entries
    → bytes_eq pathname (b'/' ∷ []) ≡ false
    → Resolves v.disk entries (split_path pathname) r
    → (n : ℕ) × ((fuel : ℕ) (err : Err) → n ≤ fuel → get_entry fuel v err pathname ≡ answer err r)
unfolding get_entry
get_entry-answer v a pathname entries r root dir proper spec =
    let (n, later) = onward-Resolves v.disk spec in
    let (h, opened, ahead) = open_key_block-Ahead v.disk a entries dir in
    let bound : ℕ = slots_in (entries_per_block v.disk (image (a + 4))) dir.blocks in
    (
      n + suc bound,
      λ fuel err le.
          rw (proper, root, opened)
            (later fuel fuel bound err h dir.spare ahead (omega arith) (omega arith) (omega arith)),
    )

-- With enough fuel, `GetEntry` of any path but "/" returns what the specification says of the components
-- that `S_SplitPath` makes of the path.
pub get_entry-split_path :
    (v : Volume) (a : ℕ) (pathname : List ℕ) (err : Err) (entries : List ℕ) (r : Lookup)
    → v.root ≡ image a
    → IsDirectory v.disk a entries
    → bytes_eq pathname (b'/' ∷ []) ≡ false
    → Resolves v.disk entries (split_path pathname) r
    → (n : ℕ) × ((fuel : ℕ) → n ≤ fuel → get_entry fuel v err pathname ≡ answer err r)
get_entry-split_path v a pathname err entries r root dir proper spec =
    let (n, found) = get_entry-answer v a pathname entries r root dir proper spec in
    (n, (λ fuel le. found fuel err le))

-- On a volume whose root is a directory, and with enough fuel, `GetEntry` of an absolute path of one or
-- two components, but for "/", returns what the specification of path lookup says of them: in each
-- directory the first entry with the name, and then the entry found, with the thread's error left alone,
-- or a null pointer with the error for a missing name or for a file where a directory is needed.
pub get_entry-Resolves :
    (v : Volume) (a : ℕ) (pathname : List ℕ) (names : List (List ℕ)) (err : Err) (entries : List ℕ)
    (r : Lookup)
    → v.root ≡ image a
    → IsDirectory v.disk a entries
    → bytes_eq pathname (b'/' ∷ []) ≡ false
    → Spells pathname names
    → Resolves v.disk entries names r
    → (n : ℕ) × ((fuel : ℕ) → n ≤ fuel → get_entry fuel v err pathname ≡ answer err r)
get_entry-Resolves v a pathname names err entries r root dir proper spells spec =
    get_entry-split_path v a pathname err entries r root dir proper
      (rw (split_path-Spells spells) spec)

abbrev IsNonzero : ℕ → Type 0
IsNonzero c = 0 < c

find_char-to_lower : (xs : List ℕ) → find_char b'/' (map to_lower xs) ≡ find_char b'/' xs
unfolding to_lower
find_char-to_lower [] = refl
find_char-to_lower (x ∷ xs) = ground (arith, find_char-to_lower xs)

find_char_after :
    (b t : List ℕ)
    → IsPlain b
    → All IsNonzero b
    → find_char b'/' (c_str (b ++ b'/' ∷ t)) ≡ some (length b)
find_char_after [] t p z = refl
find_char_after (zero ∷ cs) t p z = absurd (omega (arith, z.0))
find_char_after (suc c ∷ cs) t p z = ground (arith, find_char_after cs t, z.1)

-- A name with a slash in it matches no entry that has none.
name_matches_slash :
    (d : Disk) (e : Ptr) (b t : List ℕ)
    → IsPlain b
    → All IsNonzero b
    → IsPlain (c_str (file_name d e))
    → name_matches d e (b ++ b'/' ∷ t) ≡ false
unfolding name_matches
name_matches_slash d e b t p z plain = elim (Bool-cases (name_matches d e (b ++ b'/' ∷ t))) [
  | inl same ↦ cc (
      sym (find_char_after b t p z)
      ∙ sym (find_char-to_lower (c_str (b ++ b'/' ∷ t)))
      ∙ ap (find_char b'/') (
          bytes_eq→eq (map to_lower (c_str (b ++ b'/' ∷ t))) (map to_lower (c_str (file_name d e)))
            same)
      ∙ find_char-to_lower (c_str (file_name d e))
      ∙ plain)
  | inr other ↦ other
]

-- No entry of the directory has a slash in its name.
abbrev pub HasPlainNames : Disk → List ℕ → Type 0
HasPlainNames d entries = All (λ e. IsPlain (c_str (file_name d (image e)))) entries

first_named_slash :
    (d : Disk) (b t : List ℕ) (entries : List ℕ)
    → IsPlain b
    → All IsNonzero b
    → HasPlainNames d entries
    → first_named d (b ++ b'/' ∷ t) entries ≡ none
first_named_slash d b t [] p z plain = refl
first_named_slash d b t (e ∷ es) p z plain =
    ground (
      arith,
      name_matches_slash d (image e) b t p z plain.0,
      first_named_slash d b t es p z plain.1,
    )

not_root_path : (x rest : List ℕ) → bytes_eq (b'/' ∷ (x ++ b'/' ∷ rest)) (b'/' ∷ []) ≡ false
not_root_path [] rest = refl
not_root_path (c ∷ cs) rest = refl

-- A path of three components is never found below a directory in which no name has a slash: for a
-- directory `x` of the root, `GetEntry` of "/x/y/z" is a null pointer with `err_file_not_found`,
-- whatever `x` holds, and so also if it holds a directory `y` with a file `z`.
pub get_entry_three_components :
    (v : Volume) (a : ℕ) (err : Err) (x y z : List ℕ) (entries inner : List ℕ) (e : ℕ)
    → v.root ≡ image a
    → IsDirectory v.disk a entries
    → IsPlain x
    → IsPlain y
    → IsPlain z
    → All IsNonzero y
    → first_named v.disk x entries ≡ some e
    → is_directory v.disk (image e) ≡ true
    → key_pointer v.disk (image e) < v.disk.num_blocks
    → IsDirectory v.disk (key_pointer v.disk (image e) * 512) inner
    → HasPlainNames v.disk inner
    → (n : ℕ) × ((fuel : ℕ)
        → n ≤ fuel
        → get_entry fuel v err (b'/' ∷ (x ++ b'/' ∷ (y ++ b'/' ∷ z)))
          ≡ ok (none, err_file_not_found))
get_entry_three_components v a err x y z entries inner e root dir px py pz nonzero named sub lt
      inner_dir plain =
    get_entry-split_path v a (b'/' ∷ (x ++ b'/' ∷ (y ++ b'/' ∷ z))) err entries
      (missing err_file_not_found) root dir (not_root_path x (y ++ b'/' ∷ z))
      (rw (split_path_three x y z px py pz) (
        below e inner named sub lt inner_dir
          (absent (first_named_slash v.disk y (take (length x) z) inner py nonzero plain))))
