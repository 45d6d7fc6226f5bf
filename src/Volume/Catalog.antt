-- ===== src/Volume/Catalog.antt =====
-- `Catalog` (source/volume.cxx): the listing of a directory, as ProDOS prints it. `line` has 128
-- bytes, which a directory path of up to 100 bytes fits.
pub mod Listing
pub mod Bounds
use prodosfs.Base.{
  ℕ, zero, suc, ◌+◌, List, [], ◌∷◌, ◌++◌, Option, none, some, ◌==◌, if◌then◌else◌, bytes_eq, pos, ℤ,
  pos_part, neg_part, sub_ℕ, Result, ok, out_of_fuel, ◌>>=◌, Err,
}
use prodosfs.Base.Text.{codes, c_str, decimal, signed_decimal, hexadecimal, pad_left, pad_right}
use prodosfs.Base.FilePath.{parent_path}
use prodosfs.Disk.{Disk, Ptr}
use prodosfs.Entry
use prodosfs.Directory.{Handle, next_entry}
use prodosfs.FileType.{get_file_type_info}
use prodosfs.Volume.Paths.{Volume, open_directory}
use prodosfs.Volume.Header
use prodosfs.Volume.Usage.{count_blocks_used}

abbrev pub file_type_binary : ℕ
file_type_binary = 0x06

-- `%4d` and the like.
abbrev pub number : ℕ → ℕ → List ℕ
number width n = pad_left b' ' width (decimal n)

abbrev pub newline : List ℕ
newline = 10 ∷ []

unfoldable pub title : List ℕ → List ℕ → List ℕ
title volume_name pathdir =
    newline
    ++ codes "/"
    ++ c_str volume_name
    ++ (if bytes_eq pathdir (b'/' ∷ []) then [] else c_str pathdir)
    ++ newline
    ++ newline

unfoldable pub column_heads : List ℕ
column_heads =
    codes " "
    ++ pad_right b' ' 15 (codes "NAME")
    ++ codes " "
    ++ pad_left b' ' 4 (codes "TYPE")
    ++ codes "  "
    ++ pad_left b' ' 6 (codes "BLOCKS")
    ++ codes "  "
    ++ pad_right b' ' 15 (codes "MODIFIED")
    ++ codes "  "
    ++ pad_right b' ' 15 (codes "CREATED")
    ++ codes "  "
    ++ pad_left b' ' 7 (codes "ENDFILE")
    ++ codes "  "
    ++ pad_left b' ' 7 (codes "SUBTYPE")
    ++ newline
    ++ newline

-- The load address of a binary file.
unfoldable pub subtype : Disk → Ptr → List ℕ
subtype d entry =
    if Entry.file_type d entry == file_type_binary
    then (if Entry.aux_type d entry == 0
        then []
        else codes "A=$" ++ pad_left b'0' 4 (hexadecimal (Entry.aux_type d entry)))
    else []

unfoldable pub entry_line : Disk → Ptr → List ℕ
unfolding subtype
entry_line d entry =
    codes " "
    ++ pad_right b' ' 15 (c_str (Entry.file_name d entry))
    ++ codes "  "
    ++ pad_left b' ' 3 (get_file_type_info (Entry.file_type d entry)).name
    ++ codes "  "
    ++ number 6 (Entry.blocks_used d entry)
    ++ codes "  "
    ++ pad_right b' ' 15 (Entry.as_string (Entry.last_mod_timestamp d entry))
    ++ codes "  "
    ++ pad_right b' ' 15 (Entry.as_string (Entry.creation_timestamp d entry))
    ++ codes "  "
    ++ number 7 (Entry.eof d entry)
    ++ codes "  "
    ++ pad_left b' ' 7 (subtype d entry)
    ++ newline

-- The loop over the entries, from the output so far on. `limit` is the fuel of each `NextEntry`.
unfoldable pub catalog_loop : ℕ → ℕ → Disk → Err → Handle → List ℕ → Result (List ℕ × Err)
catalog_loop zero limit d err h output = out_of_fuel
catalog_loop (suc fuel) limit d err h output = do
  (entry, h', err') ← next_entry limit d err h
  elim entry [
    | none ↦ ok (output, err')
    | some e ↦ catalog_loop fuel limit d err' h' (output ++ entry_line d e)
  ]

-- `total_blocks - blocks_used`.
abbrev pub blocks_free : ℕ → ℤ → ℤ
blocks_free total used = sub_ℕ (total + neg_part used) (pos_part used)

unfoldable pub totals : ℕ → ℤ → List ℕ
totals total used =
    newline
    ++ codes "BLOCKS FREE: "
    ++ pad_left b' ' 4 (signed_decimal (blocks_free total used))
    ++ codes "          BLOCKS USED: "
    ++ pad_left b' ' 4 (signed_decimal used)
    ++ codes "          TOTAL BLOCKS: "
    ++ number 4 total
    ++ newline
    ++ newline

-- The text or a null pointer, and the thread's error.
unfoldable pub catalog : ℕ → Volume → Err → List ℕ → Result (Option (List ℕ) × Err)
catalog fuel v err pathname = do
  (dh, err') ← open_directory fuel v err (parent_path pathname)
  elim dh [
    | none ↦ ok (none, err')
    | some h ↦ (do
      volume_name ← Header.name v
      (output, err'') ←
          catalog_loop fuel fuel v.disk err' h
            (title volume_name (parent_path pathname) ++ column_heads)
      total ← Header.total_blocks v
      used ← count_blocks_used v
      ok (some (output ++ totals total used), err''))
  ]
