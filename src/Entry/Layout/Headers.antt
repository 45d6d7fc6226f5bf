-- ===== src/Entry/Layout/Headers.antt =====
-- `directory_header` (include/prodos/block.hxx), of a volume, and the accessors that read it
-- (source/entry.cxx and source/volume.cxx).
use prodosfs.Base.{ℕ, ◌<◌, ◌≡◌, refl, List, [], ◌∷◌, take, length, get_or}
use prodosfs.Disk.{Disk, Ptr}
use prodosfs.Entry.{
  Timestamp, storage_type, file_name, creation_timestamp, version, min_version, access,
  entry_length, entries_per_block, file_count, bit_map_pointer, total_blocks,
}
use prodosfs.Entry.Dates as Dates
use prodosfs.Entry.Layout.{
  total, Stored, little_endian, type_and_length, name_byte, date_byte, load-At, le_read16-At,
  decode_timestamp-At, storage_type-At, file_name-At,
}

-- The members of `directory_header`, and their places in the struct.
pub data Member : Type 0 where
  in_type_and_length in_name in_reserved in_creation in_version in_min_version in_access : Member
  in_entry_length in_entries_per_block in_file_count in_bit_map_pointer in_total_blocks : Member

abbrev pub place : Member → ℕ
place in_type_and_length = 0
place in_name = 1
place in_reserved = 2
place in_creation = 3
place in_version = 4
place in_min_version = 5
place in_access = 6
place in_entry_length = 7
place in_entries_per_block = 8
place in_file_count = 9
place in_bit_map_pointer = 10
place in_total_blocks = 11

-- The sizes of the members in their order.
abbrev pub directory_header : List ℕ
directory_header = 1 ∷ 15 ∷ 8 ∷ 4 ∷ 1 ∷ 1 ∷ 1 ∷ 1 ∷ 1 ∷ 2 ∷ 2 ∷ 2 ∷ []

abbrev pub size : Member → ℕ
size m = get_or directory_header (place m) 0

abbrev pub offset : Member → ℕ
offset m = total (take (place m) directory_header)

-- What the header of a volume says, and the bytes that the disk format writes for it. The reserved bytes
-- may be any.
pub record HeaderFields : Type 0 where
  pub type : ℕ
  pub name : List ℕ
  pub reserved : ℕ → ℕ
  pub creation : Timestamp
  pub version : ℕ
  pub min_version : ℕ
  pub access : ℕ
  pub entry_length : ℕ
  pub entries_per_block : ℕ
  pub file_count : ℕ
  pub bit_map_pointer : ℕ
  pub total_blocks : ℕ

abbrev pub written : HeaderFields → Member → ℕ → ℕ
written f in_type_and_length j = type_and_length f.type f.name
written f in_name j = name_byte f.name j
written f in_reserved j = f.reserved j
written f in_creation j = date_byte f.creation j
written f in_version j = f.version
written f in_min_version j = f.min_version
written f in_access j = f.access
written f in_entry_length j = f.entry_length
written f in_entries_per_block j = f.entries_per_block
written f in_file_count j = little_endian f.file_count j
written f in_bit_map_pointer j = little_endian f.bit_map_pointer j
written f in_total_blocks j = little_endian f.total_blocks j

-- The values have room in their members.
pub record Fits (f : HeaderFields) : Type 0 where
  pub type_fits : f.type < 16
  pub name_fits : length f.name < 16
  pub file_count_fits : f.file_count < 65536
  pub bit_map_pointer_fits : f.bit_map_pointer < 65536
  pub total_blocks_fits : f.total_blocks < 65536
  pub creation_fits : Dates.Fits f.creation

-- The header of a volume that is written in the layout of `directory_header`, at any place, is read back
-- field by field: each accessor gives the value that was written, for all values that have room in their
-- members. The struct takes the 39 bytes of an entry.
pub header_accessors-Stored :
    (d : Disk) (p : Ptr) (f : HeaderFields)
    → Fits f
    → Stored size offset d p (written f)
    → (storage_type d p ≡ f.type)
      × (file_name d p ≡ f.name)
      × (creation_timestamp d p ≡ f.creation)
      × (version d p ≡ f.version)
      × (min_version d p ≡ f.min_version)
      × (access d p ≡ f.access)
      × (entry_length d p ≡ f.entry_length)
      × (entries_per_block d p ≡ f.entries_per_block)
      × (file_count d p ≡ f.file_count)
      × (bit_map_pointer d p ≡ f.bit_map_pointer)
      × (total_blocks d p ≡ f.total_blocks)
      × (total directory_header ≡ 39)
unfolding creation_timestamp version min_version access entry_length entries_per_block file_count
    bit_map_pointer total_blocks
header_accessors-Stored d p f fits at =
    let first = at in_type_and_length in
    (
      storage_type-At d p f.type f.name fits.name_fits fits.type_fits first,
      file_name-At d p f.type f.name fits.name_fits fits.type_fits first (at in_name),
      decode_timestamp-At d p 24 f.creation fits.creation_fits (at in_creation),
      load-At d p 28 _ (at in_version),
      load-At d p 29 _ (at in_min_version),
      load-At d p 30 _ (at in_access),
      load-At d p 31 _ (at in_entry_length),
      load-At d p 32 _ (at in_entries_per_block),
      le_read16-At d p 33 f.file_count fits.file_count_fits (at in_file_count),
      le_read16-At d p 35 f.bit_map_pointer fits.bit_map_pointer_fits (at in_bit_map_pointer),
      le_read16-At d p 37 f.total_blocks fits.total_blocks_fits (at in_total_blocks),
      refl,
    )
