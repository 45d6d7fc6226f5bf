-- ===== src/Volume/Catalog/Bounds.antt =====
-- The lines of `Catalog` (source/volume.cxx) and the buffer of 128 bytes that each is printed into.
use prodosfs.Base.{
  ℕ, suc, ◌≤◌, ◌<◌, ◌≡◌, refl, true, List, [], ◌∷◌, length, arith, leb, leb→le, if◌then◌else◌,
  bytes_eq, ℤ, pos_part, neg_part,
}
use prodosfs.Base.Text.{codes, c_str, decimal, hexadecimal, signed_decimal, pad_left, pad_right}
use prodosfs.Base.Text.Lengths.{
  power_of_ten, length-hexadecimal, Within, ◌⊞◌, length-c_str, length-pad_left, length-pad_right,
  length-decimal, length-signed_decimal,
}
use prodosfs.Base.Bits.{every, every-at, bit_and-nibble}
use prodosfs.Disk.{Disk, Ptr, plus, load}
use prodosfs.Disk.Blocks.{load-IsByte, length-loads, le_read16_bounds, le_read24_bounds}
use prodosfs.Entry
use prodosfs.Entry.{Timestamp, decode_timestamp}
use prodosfs.Entry.Dates.{decode_timestamp_bounds, length-as_string}
use prodosfs.FileType.{get_file_type_info}
use prodosfs.FileType.Info.{add_file_type}
use prodosfs.Volume.Catalog.{
  title, column_heads, subtype, entry_line, totals, number, newline, blocks_free,
}

length-file_name : (d : Disk) (e : Ptr) → length (Entry.file_name d e) ≤ 15
unfolding Entry.file_name Entry.name_length
length-file_name d e = omega (
  arith,
  length-loads d (plus e 1) 0 (Entry.name_length d e),
  bit_and-nibble (load d e) (load-IsByte d e),
)

type_table : every (λ c. leb (length (get_file_type_info c).name) 3) 256 ≡ true
unfolding every get_file_type_info add_file_type hexadecimal
type_table = refl

length-type_name : (c : ℕ) → c < 256 → length (get_file_type_info c).name ≤ 3
length-type_name c lt =
    leb→le _ _ (every-at (λ t. leb (length (get_file_type_info t).name) 3) 256 c lt type_table)

length-date :
    (d : Disk) (p : Ptr) → length (pad_right b' ' 15 (Entry.as_string (decode_timestamp d p))) ≤ 19
length-date d p =
    let (year, day, hour, minute) = decode_timestamp_bounds d p in
    length-pad_right b' ' 15 19 (Entry.as_string (decode_timestamp d p)) (omega arith)
      (length-as_string (decode_timestamp d p) year day hour minute)

length-subtype : (d : Disk) (e : Ptr) → length (subtype d e) ≤ 7
unfolding subtype Entry.aux_type
length-subtype d e =
    let four : length (pad_left b'0' 4 (hexadecimal (Entry.aux_type d e))) ≤ 4 =
      length-pad_left b'0' 4 4 (hexadecimal (Entry.aux_type d e)) (omega arith)
        (length-hexadecimal 3 (Entry.aux_type d e) (le_read16_bounds d (plus e 31))) in
    ground (arith, four)

length-number :
    (width k n : ℕ) → width ≤ suc k → n < power_of_ten (suc k) → length (number width n) ≤ suc k
length-number width k n wide lt =
    length-pad_left b' ' width (suc k) (decimal n) wide (length-decimal k n lt)

length-entry_line : (d : Disk) (e : Ptr) → Within 91 (entry_line d e)
unfolding entry_line Entry.file_type Entry.blocks_used Entry.eof Entry.creation_timestamp
    Entry.last_mod_timestamp
length-entry_line d e =
    let name : Within 15 (pad_right b' ' 15 (c_str (Entry.file_name d e))) = record {
      bound =
          length-pad_right b' ' 15 15 (c_str (Entry.file_name d e)) (omega arith)
            (omega (arith, length-c_str (Entry.file_name d e), length-file_name d e));
    } in
    let type : Within 3 (pad_left b' ' 3 (get_file_type_info (load d (plus e 16))).name) = record {
      bound =
          length-pad_left b' ' 3 3 (get_file_type_info (load d (plus e 16))).name (omega arith)
            (length-type_name (load d (plus e 16)) (load-IsByte d (plus e 16)));
    } in
    let blocks : Within 6 (number 6 (Entry.blocks_used d e)) = record {
      bound =
          length-number 6 5 (Entry.blocks_used d e) (omega arith)
            (omega (arith, le_read16_bounds d (plus e 19)));
    } in
    let eof : Within 8 (number 7 (Entry.eof d e)) = record {
      bound =
          length-number 7 7 (Entry.eof d e) (omega arith)
            (omega (arith, le_read24_bounds d (plus e 21)));
    } in
    let kind : Within 7 (pad_left b' ' 7 (subtype d e)) = record {
      bound = length-pad_left b' ' 7 7 (subtype d e) (omega arith) (length-subtype d e);
    } in
    let space : Within 1 (codes " ") = record { bound = omega arith } in
    let gap : Within 2 (codes "  ") = record { bound = omega arith } in
    let end : Within 1 newline = record { bound = omega arith } in
    let modified : Within 19 _ = record { bound = length-date d (plus e 33) } in
    let created : Within 19 _ = record { bound = length-date d (plus e 24) } in
    space ⊞ name ⊞ gap ⊞ type ⊞ gap ⊞ blocks ⊞ gap ⊞ modified ⊞ gap ⊞ created ⊞ gap ⊞ eof ⊞ gap
    ⊞ kind ⊞ end

length-title :
    (name pathdir : List ℕ)
    → length name ≤ 15
    → length pathdir ≤ 108
    → Within 127 (title name pathdir)
unfolding title
length-title name pathdir short short_path =
    let end : Within 1 newline = record { bound = omega arith } in
    let slash : Within 1 (codes "/") = record { bound = omega arith } in
    let shown : Within 15 (c_str name) = record { bound = omega (arith, length-c_str name) } in
    let path : Within 108 (if bytes_eq pathdir (b'/' ∷ []) then [] else c_str pathdir) = record {
      bound = ground (arith, length-c_str pathdir);
    } in
    end ⊞ slash ⊞ shown ⊞ path ⊞ end ⊞ end

length-signed :
    (width : ℕ) (i : ℤ)
    → width ≤ 11
    → pos_part i < 10000000000
    → neg_part i < 10000000000
    → Within 11 (pad_left b' ' width (signed_decimal i))
length-signed width i wide big small = record {
  bound =
      length-pad_left b' ' width 11 (signed_decimal i) wide (length-signed_decimal 9 i big small);
}

length-totals :
    (total : ℕ) (used : ℤ)
    → total < 65536
    → pos_part used < 2147483648
    → neg_part used < 2147483648
    → Within 90 (totals total used)
unfolding totals
length-totals total used lt big small =
    let end : Within 1 newline = record { bound = omega arith } in
    let free : Within 13 (codes "BLOCKS FREE: ") = record { bound = omega arith } in
    let in_use : Within 23 (codes "          BLOCKS USED: ") = record { bound = omega arith } in
    let all : Within 24 (codes "          TOTAL BLOCKS: ") = record { bound = omega arith } in
    let number_free =
      length-signed 4 (blocks_free total used) (omega arith) (ground arith) (ground arith) in
    let number_used = length-signed 4 used (omega arith) (omega arith) (omega arith) in
    let number_all : Within 5 (number 4 total) = record {
      bound = length-number 4 4 total (omega arith) (omega arith);
    } in
    end ⊞ free ⊞ number_free ⊞ in_use ⊞ number_used ⊞ all ⊞ number_all ⊞ end ⊞ end

-- No line of the catalog is printed beyond the 128 bytes of its buffer, with the zero byte at its end. The
-- line of an entry is not, whatever the 39 bytes of the entry are; nor are the heads of the columns. Nor are
-- the title, whatever the bytes of the header with the volume's name are, for a path of the directory of at
-- most 108 bytes, and the totals, for numbers of blocks that are 16 bits and an `int`.
pub catalog_line_bounds :
    (d : Disk) (e root : Ptr) (pathdir : List ℕ) (total : ℕ) (used : ℤ)
    → length pathdir ≤ 108
    → total < 65536
    → pos_part used < 2147483648
    → neg_part used < 2147483648
    → (length (entry_line d e) < 128)
      × (length column_heads < 128)
      × (length (title (Entry.file_name d root) pathdir) < 128)
      × (length (totals total used) < 128)
unfolding column_heads
catalog_line_bounds d e root pathdir total used short lt big small =
    let line = length-entry_line d e in
    let head = length-title (Entry.file_name d root) pathdir (length-file_name d root) short in
    let sums = length-totals total used lt big small in
    (omega (arith, line.bound), omega arith, omega (arith, head.bound), omega (arith, sums.bound))
