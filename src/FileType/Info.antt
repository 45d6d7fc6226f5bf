-- ===== src/FileType/Info.antt =====
-- `file_type_info_t` and `S_CreateFileTypeInfo` (source/filetype.cxx, include/prodos/filetype.hxx).
use Prim.Native.String.{String}
use prodosfs.Base.{ℕ, List, ◌∷◌, ◌++◌, Option, some, none}
use prodosfs.Base.Text.{codes, hexadecimal, pad_left}

pub record FileTypeInfo : Type 0 where
  pub type : List ℕ
  pub name : List ℕ
  pub description : List ℕ

-- `%02X`.
abbrev pub hex_byte : ℕ → List ℕ
hex_byte n = pad_left b'0' 2 (hexadecimal n)

abbrev given : Option String → List ℕ → List ℕ
given (some text) default = codes text
given none default = default

-- No text is longer than its buffer: at most 3, 2 and 18 bytes for a code below 256.
unfoldable pub create_file_type_info : ℕ → Option String → Option String → FileTypeInfo
create_file_type_info code name description = record {
  type = b'$' ∷ hex_byte code;
  name = given name (hex_byte code);
  description = given description (codes "File type " ++ (b'$' ∷ hex_byte code) ++ codes " file");
}

-- The macro `ADD_FILE_TYPE`.
unfoldable pub add_file_type : ℕ → Option String → Option String → ℕ × FileTypeInfo
unfolding create_file_type_info
add_file_type code name description = (code, create_file_type_info code name description)
