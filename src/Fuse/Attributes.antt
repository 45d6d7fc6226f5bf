-- ===== src/Fuse/Attributes.antt =====
-- The extended attributes of an entry (main.cxx), and the operations that read them.
pub mod Protocol
pub mod Values
pub mod Answers
use prodosfs.Base.{
  ℕ, zero, suc, ◌+◌, ◌-◌, ◌/◌, ◌%◌, ◌||◌, Bool, true, false, List, [], ◌∷◌, ◌++◌, Option, none,
  some, length, bytes_eq, ltb, ◌==◌, if◌then◌else◌, bit_and, pos, Result, ok, thrown,
  unexpected_file_type, ◌>>=◌, Err,
}
use prodosfs.Base.Text.{codes, c_str, decimal, signed_decimal, hexadecimal, pad_left}
use prodosfs.Disk.{Disk, Ptr, plus}
use prodosfs.Entry
use prodosfs.Entry.Access
use prodosfs.FileType.{get_file_type_info, is_appleworks_file}
use prodosfs.Util.{appleworks_file_name}
use prodosfs.Volume.Paths.{Volume, get_entry}
use prodosfs.Volume.Header
use prodosfs.Volume.Usage.{count_blocks_used}
use prodosfs.Fuse.Settings.{Settings}
use prodosfs.Fuse.Errors.{Reply, success, failure, enodata, erange, minus_error}
use prodosfs.Fuse.Names.{prodos_filename}

-- The flags of an access byte, in their order.
abbrev pub allowed : ℕ → List (List ℕ)
allowed access =
    (if Access.read access then codes "READ" ∷ [] else [])
    ++ (if Access.write access then codes "WRITE" ∷ [] else [])
    ++ (if Access.backup access then codes "BACKUP" ∷ [] else [])
    ++ (if Access.rename access then codes "RENAME" ∷ [] else [])
    ++ (if Access.destroy access then codes "DESTROY" ∷ [] else [])

-- The loop that joins them, from the text so far on.
unfoldable pub join_flags : List ℕ → List (List ℕ) → List ℕ
join_flags str [] = str
join_flags str (flag ∷ flags) =
    join_flags ((if bytes_eq str [] then str else str ++ codes " | ") ++ flag) flags

unfoldable pub access_to_string : ℕ → List ℕ
unfolding join_flags
access_to_string access = join_flags [] (allowed access)

unfoldable pub aux_type_to_string : ℕ → List ℕ
aux_type_to_string aux_type = b'$' ∷ pad_left b'0' 4 (hexadecimal aux_type)

abbrev pub xattr : List ℕ → List ℕ
xattr name = codes "prodos." ++ name

-- `attributes_t`, in the order in which the attributes are set. No name is set twice.
abbrev pub Attributes : Type 0
Attributes = List (List ℕ × List ℕ)

abbrev pub common_attributes : Disk → Ptr → Attributes
common_attributes d entry =
    (xattr (codes "creation_timestamp"), Entry.as_string (Entry.creation_timestamp d entry))
    ∷ (xattr (codes "access"), access_to_string (Entry.access d entry))
    ∷ (xattr (codes "version"), decimal (Entry.version d entry))
    ∷ (xattr (codes "min_version"), decimal (Entry.min_version d entry))
    ∷ []

-- Of a file or directory.
abbrev pub dirent_attributes : Disk → Ptr → Attributes
dirent_attributes d dirent =
    let info = get_file_type_info (Entry.file_type d dirent) in
    (xattr (codes "file_type"), info.type)
    ∷ (xattr (codes "file_type_name"), info.name)
    ∷ (xattr (codes "file_type_description"), info.description)
    ∷ (xattr (codes "aux_type"), aux_type_to_string (Entry.aux_type d dirent))
    ∷ (if is_appleworks_file (Entry.file_type d dirent)
        then (
          xattr (codes "appleworks_filename"),
          appleworks_file_name (Entry.file_name d dirent) (Entry.aux_type d dirent),
        )
          ∷ []
        else [])

-- Of the root.
unfoldable pub volume_attributes : Settings → Volume → Result Attributes
volume_attributes s v = do
  name ← Header.name v
  files ← Header.file_count v
  total ← Header.total_blocks v
  used ← count_blocks_used v
  ok (
      (xattr (codes "volume_name"), name)
      ∷ (xattr (codes "file_count"), decimal files)
      ∷ (xattr (codes "total_blocks"), decimal total)
      ∷ (xattr (codes "used_blocks"), signed_decimal used)
      ∷ (xattr (codes "image_file"), s.disk_image)
      ∷ [])

unfoldable pub get_attributes : Settings → Volume → Ptr → Result Attributes
get_attributes s v entry =
    let root = (do more ← volume_attributes s v; ok (common_attributes v.disk entry ++ more)) in
    if Entry.is_file v.disk entry || Entry.is_directory v.disk entry
    then ok (common_attributes v.disk entry ++ dirent_attributes v.disk entry)
    else if Entry.is_root v.disk entry
    then root
    else thrown unexpected_file_type

abbrev pub find_attribute : Attributes → List ℕ → Option (List ℕ)
find_attribute [] name = none
find_attribute ((k, value) ∷ rest) name =
    if bytes_eq k name then some value else find_attribute rest name

abbrev pub names_of : Attributes → List (List ℕ)
names_of [] = []
names_of ((k, value) ∷ rest) = k ∷ names_of rest

-- What is copied to the buffer, with the zero byte at its end.
abbrev pub c_string : List ℕ → List ℕ
c_string text = c_str text ++ 0 ∷ []

-- What `getxattr` does with the attribute's value, if there is one: the answer, and the bytes written
-- to the buffer. The lengths are far below the range of `int`.
unfoldable pub give_value : Option (List ℕ) → ℕ → Reply × List ℕ
give_value none size = (failure enodata, [])
give_value (some value) size =
    let value_size = length value + 1 in
    if ltb 0 size
    then (if ltb size value_size
        then (failure erange, [])
        else (success value_size, c_string value))
    else (success value_size, [])

-- The answer, the bytes written, and the thread's error.
unfoldable pub prodosfs_getxattr :
    ℕ → Settings → Volume → Err → List ℕ → List ℕ → ℕ → Result (Reply × List ℕ × Err)
prodosfs_getxattr fuel s v err path name size = do
  (entry, err') ← get_entry fuel v err path
  elim entry [
    | none ↦ ok (minus_error err', [], err')
    | some e ↦ (do
      attributes ← get_attributes s v e
      let (reply, written) = give_value (find_attribute attributes name) size
      ok (reply, written, err'))
  ]

-- The loop of `listxattr` over the names: the bytes written so far, the room left in the buffer, and
-- the length so far.
unfoldable pub list_names : ℕ → List (List ℕ) → List ℕ → ℕ → ℕ → Reply × List ℕ
list_names size [] written remaining total = (success total, written)
list_names size (name ∷ names) written remaining total =
    let name_size = length name + 1 in
    let unwritten = list_names size names written remaining (total + name_size) in
    let next =
      list_names size names (written ++ c_string name) (remaining - name_size)
        (total + name_size) in
    if ltb 0 size
    then (if ltb (length name) remaining then next else (failure erange, written))
    else unwritten

-- `in_order` is the order in which the `unordered_map` gives its entries.
unfoldable pub prodosfs_listxattr :
    (Attributes → Attributes)
    → ℕ
    → Settings
    → Volume
    → Err
    → List ℕ
    → ℕ
    → Result (Reply × List ℕ × Err)
prodosfs_listxattr in_order fuel s v err path size = do
  (entry, err') ← get_entry fuel v err (prodos_filename s path)
  elim entry [
    | none ↦ ok (minus_error err', [], err')
    | some e ↦ (do
      attributes ← get_attributes s v e
      let (reply, written) = list_names size (names_of (in_order attributes)) [] size 0
      ok (reply, written, err'))
  ]
