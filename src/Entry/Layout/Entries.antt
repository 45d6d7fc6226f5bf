-- ===== src/Entry/Layout/Entries.antt =====
-- `directory_entry` (include/prodos/block.hxx) and the accessors that read it (source/entry.cxx).
use prodosfs.Base.{ℕ, ◌<◌, ◌≡◌, refl, List, [], ◌∷◌, take, length, get_or}
use prodosfs.Disk.{Disk, Ptr}
use prodosfs.Entry.{
  Timestamp, storage_type, file_name, file_type, key_pointer, blocks_used, eof, creation_timestamp,
  version, min_version, access, aux_type, last_mod_timestamp,
}
use prodosfs.Entry.Dates as Dates
use prodosfs.Entry.Layout.{
  total, Stored, little_endian, type_and_length, name_byte, date_byte, load-At, le_read16-At,
  le_read24-At, decode_timestamp-At, storage_type-At, file_name-At,
}

-- The members of `directory_entry`, and their places in the struct.
pub data Member : Type 0 where
  in_type_and_length in_name in_file_type in_key_pointer in_blocks_used in_eof : Member
  in_creation in_version in_min_version in_access in_aux_type in_last_mod in_header_pointer : Member

abbrev pub place : Member → ℕ
place in_type_and_length = 0
place in_name = 1
place in_file_type = 2
place in_key_pointer = 3
place in_blocks_used = 4
place in_eof = 5
place in_creation = 6
place in_version = 7
place in_min_version = 8
place in_access = 9
place in_aux_type = 10
place in_last_mod = 11
place in_header_pointer = 12

-- The sizes of the members in their order.
abbrev pub directory_entry : List ℕ
directory_entry = 1 ∷ 15 ∷ 1 ∷ 2 ∷ 2 ∷ 3 ∷ 4 ∷ 1 ∷ 1 ∷ 1 ∷ 2 ∷ 4 ∷ 2 ∷ []

abbrev pub size : Member → ℕ
size m = get_or directory_entry (place m) 0

abbrev pub offset : Member → ℕ
offset m = total (take (place m) directory_entry)

-- What an entry says, and the bytes that the disk format writes for it.
pub record EntryFields : Type 0 where
  pub type : ℕ
  pub name : List ℕ
  pub file_type : ℕ
  pub key_pointer : ℕ
  pub blocks_used : ℕ
  pub eof : ℕ
  pub creation : Timestamp
  pub version : ℕ
  pub min_version : ℕ
  pub access : ℕ
  pub aux_type : ℕ
  pub last_mod : Timestamp
  pub header_pointer : ℕ

abbrev pub written : EntryFields → Member → ℕ → ℕ
written f in_type_and_length j = type_and_length f.type f.name
written f in_name j = name_byte f.name j
written f in_file_type j = f.file_type
written f in_key_pointer j = little_endian f.key_pointer j
written f in_blocks_used j = little_endian f.blocks_used j
written f in_eof j = little_endian f.eof j
written f in_creation j = date_byte f.creation j
written f in_version j = f.version
written f in_min_version j = f.min_version
written f in_access j = f.access
written f in_aux_type j = little_endian f.aux_type j
written f in_last_mod j = date_byte f.last_mod j
written f in_header_pointer j = little_endian f.header_pointer j

-- The values have room in their members.
pub record Fits (f : EntryFields) : Type 0 where
  pub type_fits : f.type < 16
  pub name_fits : length f.name < 16
  pub key_pointer_fits : f.key_pointer < 65536
  pub blocks_used_fits : f.blocks_used < 65536
  pub eof_fits : f.eof < 16777216
  pub aux_type_fits : f.aux_type < 65536
  pub creation_fits : Dates.Fits f.creation
  pub last_mod_fits : Dates.Fits f.last_mod

-- An entry that is written in the layout of `directory_entry`, at any place, is read back field by field:
-- each accessor gives the value that was written, for all values that have room in their members. The
-- struct takes the 39 bytes of an entry.
pub accessors-Stored :
    (d : Disk) (p : Ptr) (f : EntryFields)
    → Fits f
    → Stored size offset d p (written f)
    → (storage_type d p ≡ f.type)
      × (file_name d p ≡ f.name)
      × (file_type d p ≡ f.file_type)
      × (key_pointer d p ≡ f.key_pointer)
      × (blocks_used d p ≡ f.blocks_used)
      × (eof d p ≡ f.eof)
      × (creation_timestamp d p ≡ f.creation)
      × (version d p ≡ f.version)
      × (min_version d p ≡ f.min_version)
      × (access d p ≡ f.access)
      × (aux_type d p ≡ f.aux_type)
      × (last_mod_timestamp d p ≡ f.last_mod)
      × (total directory_entry ≡ 39)
unfolding file_type key_pointer blocks_used eof creation_timestamp version min_version access
    aux_type last_mod_timestamp
accessors-Stored d p f fits at =
    let first = at in_type_and_length in
    (
      storage_type-At d p f.type f.name fits.name_fits fits.type_fits first,
      file_name-At d p f.type f.name fits.name_fits fits.type_fits first (at in_name),
      load-At d p 16 _ (at in_file_type),
      le_read16-At d p 17 f.key_pointer fits.key_pointer_fits (at in_key_pointer),
      le_read16-At d p 19 f.blocks_used fits.blocks_used_fits (at in_blocks_used),
      le_read24-At d p 21 f.eof fits.eof_fits (at in_eof),
      decode_timestamp-At d p 24 f.creation fits.creation_fits (at in_creation),
      load-At d p 28 _ (at in_version),
      load-At d p 29 _ (at in_min_version),
      load-At d p 30 _ (at in_access),
      le_read16-At d p 31 f.aux_type fits.aux_type_fits (at in_aux_type),
      decode_timestamp-At d p 33 f.last_mod fits.last_mod_fits (at in_last_mod),
      refl,
    )
