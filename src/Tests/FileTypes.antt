-- ===== src/Tests/FileTypes.antt =====
-- The texts of file types.
use prodosfs.Base.{arith, ◌≡◌, some}
use prodosfs.FileType.{get_file_type_info}
use prodosfs.FileType.Texts.{hex_value, get_file_type_info-hex_value}

get_file_type_info-hex_value_example : hex_value (get_file_type_info 0x1a).type ≡ some 0x1a
get_file_type_info-hex_value_example = get_file_type_info-hex_value 0x1a (omega arith)
