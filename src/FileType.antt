-- ===== src/FileType.antt =====
-- source/filetype.cxx and include/prodos/filetype.hxx: the table of file types.
pub mod Info
pub mod Low
pub mod High
pub mod Texts
use prodosfs.Base.{ℕ, Bool, ◌||◌, List, [], ◌∷◌, ◌++◌, ◌==◌, if◌then◌else◌}
use prodosfs.FileType.Info.{FileTypeInfo}
use prodosfs.FileType.Low.{low_file_types}
use prodosfs.FileType.High.{high_file_types}

unfoldable pub file_type_table : List (ℕ × FileTypeInfo)
unfolding low_file_types high_file_types
file_type_table = low_file_types ++ high_file_types

-- `operator[]` of a map: a missing key gets an entry of empty texts.
unfoldable pub at_key : List (ℕ × FileTypeInfo) → ℕ → FileTypeInfo
at_key [] key = record { type = []; name = []; description = [] }
at_key ((k, info) ∷ rest) key = if k == key then info else at_key rest key

unfoldable pub get_file_type_info : ℕ → FileTypeInfo
unfolding file_type_table at_key
get_file_type_info type = at_key file_type_table type

abbrev pub appleworks_db : ℕ
appleworks_db = 0x19

abbrev pub appleworks_wp : ℕ
appleworks_wp = 0x1a

abbrev pub appleworks_ss : ℕ
appleworks_ss = 0x1b

unfoldable pub is_appleworks_file : ℕ → Bool
is_appleworks_file type = type == appleworks_wp || type == appleworks_ss || type == appleworks_db
