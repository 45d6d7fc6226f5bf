-- ===== src/Entry.antt =====
-- source/entry.cxx, include/prodos/entry.hxx and include/prodos/block.hxx: the fields of directory
-- entries and headers, dates, and file names. An entry is a pointer to its 39 bytes.
pub mod Offset
pub mod StorageType
pub mod Access
pub mod Dates
pub mod Layout
use Offset
use StorageType
use prodosfs.Base.{
  ℕ, zero, suc, ◌+◌, ◌-◌, ◌*◌, ◌/◌, ◌%◌, ◌^◌, Bool, true, false, not, ◌&&◌, ◌||◌, List, [], ◌∷◌,
  ◌++◌, map, bit_and, ltb, leb, ◌==◌, if◌then◌else◌, get_or, length, drop, bytes_eq, Result, ok,
  thrown, not_a_volume_block, not_a_subdirectory,
}
use prodosfs.Base.Text.{is_alpha, is_alnum, to_lower, c_str, codes, decimal, pad_left}
use prodosfs.Disk.{Disk, Ptr, plus, load, loads, le_read16, le_read24}

module _ (d : Disk) (entry : Ptr) where
  unfoldable pub storage_type : ℕ
  storage_type = load d entry / 2 ^ 4

  unfoldable pub name_length : ℕ
  name_length = bit_and (load d entry) 0x0f

  unfoldable pub file_name : List ℕ
  unfolding name_length
  file_name = loads d (plus entry Offset.name) 0 name_length

  unfoldable pub version : ℕ
  version = load d (plus entry Offset.version)

  unfoldable pub min_version : ℕ
  min_version = load d (plus entry Offset.min_version)

  unfoldable pub access : ℕ
  access = load d (plus entry Offset.access)

  unfoldable pub is_header : Bool
  unfolding storage_type
  is_header = storage_type == StorageType.subdir_block || storage_type == StorageType.volume_block

  unfoldable pub is_file : Bool
  unfolding storage_type
  is_file =
      storage_type == StorageType.seedling_file
      || storage_type == StorageType.sapling_file
      || storage_type == StorageType.tree_file

  unfoldable pub is_directory : Bool
  unfolding storage_type
  is_directory = storage_type == StorageType.subdirectory

  unfoldable pub is_inactive : Bool
  unfolding storage_type
  is_inactive = storage_type == StorageType.none

  unfoldable pub is_root : Bool
  unfolding storage_type
  is_root = storage_type == StorageType.volume_block

  -- `strcasecmp` of the two C strings.
  unfoldable pub name_matches : List ℕ → Bool
  unfolding file_name
  name_matches name = bytes_eq (map to_lower (c_str name)) (map to_lower (c_str file_name))

  unfoldable pub file_type : ℕ
  file_type = load d (plus entry Offset.file_type)

  unfoldable pub key_pointer : ℕ
  key_pointer = le_read16 d (plus entry Offset.key_pointer)

  unfoldable pub blocks_used : ℕ
  blocks_used = le_read16 d (plus entry Offset.blocks_used)

  unfoldable pub eof : ℕ
  eof = le_read24 d (plus entry Offset.eof)

  unfoldable pub aux_type : ℕ
  aux_type = le_read16 d (plus entry Offset.aux_type)

  -- `directory_header_t::Create`.
  unfoldable pub create_directory_header : Result Ptr
  create_directory_header =
      if not (load d entry / 2 ^ 4 == StorageType.subdirectory)
      then thrown not_a_subdirectory
      else ok entry

  -- `volume_header_t::Create` and the header's fields.
  unfoldable pub create_volume_header : Result Ptr
  create_volume_header =
      if not (load d entry / 2 ^ 4 == StorageType.volume_block)
      then thrown not_a_volume_block
      else ok entry

  unfoldable pub entry_length : ℕ
  entry_length = load d (plus entry Offset.entry_length)

  unfoldable pub entries_per_block : ℕ
  entries_per_block = load d (plus entry Offset.entries_per_block)

  unfoldable pub file_count : ℕ
  file_count = le_read16 d (plus entry Offset.file_count)

  unfoldable pub total_blocks : ℕ
  total_blocks = le_read16 d (plus entry Offset.total_blocks)

  unfoldable pub bit_map_pointer : ℕ
  bit_map_pointer = le_read16 d (plus entry Offset.bit_map_pointer)

-- The loop of `IsValidName`, over the bytes from the second on.
unfoldable pub valid_tail : List ℕ → Bool
valid_tail [] = true
valid_tail (c ∷ cs) = if not (is_alnum c) && not (c == b'.') then false else valid_tail cs

unfoldable pub is_valid_name : List ℕ → Bool
is_valid_name name =
    if ltb (length name) 1 || ltb 15 (length name)
    then false
    else if not (is_alpha (get_or name 0 0))
    then false
    else valid_tail (drop 1 name)

-- `timestamp_t`, `S_DecodeTimestamp` and its callers.
pub record Timestamp : Type 0 where
  pub year : ℕ
  pub month : ℕ
  pub day : ℕ
  pub hour : ℕ
  pub minute : ℕ

unfoldable pub decode_timestamp : Disk → Ptr → Timestamp
decode_timestamp d p =
    let date = le_read16 d p in
    record {
      year = bit_and date 0b1111_1110_0000_0000 / 2 ^ 9;
      month = bit_and date 0b0000_0001_1110_0000 / 2 ^ 5;
      day = bit_and date 0b0000_0000_0001_1111;
      hour = bit_and (load d (plus p 3)) 0b0001_1111;
      minute = bit_and (load d (plus p 2)) 0b0011_1111;
    }

unfoldable pub creation_timestamp : Disk → Ptr → Timestamp
creation_timestamp d entry = decode_timestamp d (plus entry Offset.creation)

unfoldable pub last_mod_timestamp : Disk → Ptr → Timestamp
last_mod_timestamp d entry = decode_timestamp d (plus entry Offset.last_mod)

months : List (List ℕ)
months =
    codes "JAN"
    ∷ codes "FEB"
    ∷ codes "MAR"
    ∷ codes "APR"
    ∷ codes "MAY"
    ∷ codes "JUN"
    ∷ codes "JUL"
    ∷ codes "AUG"
    ∷ codes "SEP"
    ∷ codes "OCT"
    ∷ codes "NOV"
    ∷ codes "DEC"
    ∷ []

two_digits : ℕ → List ℕ
two_digits n = pad_left b'0' 2 (decimal n)

-- `AsString`.
unfoldable pub as_string : Timestamp → List ℕ
unfolding months two_digits
as_string t =
    if ltb t.month 1 || ltb 12 t.month
    then codes "<NO DATE>"
    else two_digits t.day
      ++ codes "-"
      ++ pad_left b' ' 3 (get_or months (t.month - 1) [])
      ++ codes "-"
      ++ two_digits t.year
      ++ codes " "
      ++ two_digits t.hour
      ++ codes ":"
      ++ two_digits t.minute
