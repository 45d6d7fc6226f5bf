-- ===== src/Fuse/Names.antt =====
-- The names that the file system shows, and what they mean (main.cxx).
pub mod RoundTrip
use prodosfs.Base.{
  ℕ, Bool, ◌&&◌, List, [], ◌∷◌, ◌++◌, Option, none, some, take, bytes_eq, if◌then◌else◌,
}
use prodosfs.Base.Text.{codes}
use prodosfs.Base.FilePath.{rfind, filename}
use prodosfs.Disk.{Disk, Ptr}
use prodosfs.Entry.{file_name, is_file, file_type}
use prodosfs.FileType.{get_file_type_info}
use prodosfs.Fuse.Settings.{Settings, extensions_on}

-- With extensions, the name of a file ends in a colon and the name of its type.
unfoldable pub exported_filename : Settings → Disk → Ptr → List ℕ
exported_filename s d entry =
    if extensions_on s.extension_mode && is_file d entry
    then file_name d entry ++ (b':' ∷ (get_file_type_info (file_type d entry)).name)
    else file_name d entry

-- With extensions, what follows the last colon is cut off, and the colon too.
unfoldable pub prodos_filename : Settings → List ℕ → List ℕ
prodos_filename s pathname =
    if extensions_on s.extension_mode
    then elim (rfind b':' pathname) [ none ↦ pathname | some at ↦ take at pathname ]
    else pathname

pub data VirtualFileId : Type 0 where
  virtual_file_id_none virtual_file_id_catalog : VirtualFileId

abbrev pub virtual_files : List (List ℕ × VirtualFileId)
virtual_files = (codes ".CATALOG", virtual_file_id_catalog) ∷ []

abbrev pub find_virtual_file : List (List ℕ × VirtualFileId) → List ℕ → VirtualFileId
find_virtual_file [] name = virtual_file_id_none
find_virtual_file ((k, id) ∷ rest) name =
    if bytes_eq k name then id else find_virtual_file rest name

unfoldable pub virtual_file_id : List ℕ → VirtualFileId
virtual_file_id pathname = find_virtual_file virtual_files (filename pathname)
