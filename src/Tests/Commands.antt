-- ===== src/Tests/Commands.antt =====
-- util/diskutil.cxx, and what else the sample has a use for.
use prodosfs.Base.{Bool, ◌++◌, ◌%◌, ◌/◌, ◌≡◌, ◌≢◌, refl, true, false, [], ◌∷◌, map, arith, ok}
use prodosfs.Base.Text.{codes, to_upper, to_lower}
use prodosfs.Disk.{
  Disk, image, load, le_read16, read_block, read_track_sector, convert, convert_loop,
  read_rwts_block,
}
use prodosfs.Entry.{
  create_volume_header, is_valid_name, valid_tail, min_version, entries_per_block, entry_length,
  total_blocks, Timestamp, decode_timestamp,
}
use prodosfs.Util.{appleworks_file_name}
use prodosfs.Util.Names.{prodos_char, byte_bits, spelled, appleworks_file_name_lem}
use prodosfs.Volume.Paths.{Volume}
use prodosfs.Volume.Header
use prodosfs.Volume.Mount.{
  is_volume_directory_block, get_volume_directory_block, check_volume, deobfuscate, mount,
}
use prodosfs.Volume.Mount.Checks.{converted_disk, mount-IsMounted}
use prodosfs.Volume.Rename.{rename}
use prodosfs.Volume.Rename.Remount.{mount-rename}
use prodosfs.Diskutil.{Action, save_image, rename_file, normalize, rename_loop}
use prodosfs.Diskutil.Normalize.{normalize_sector_disk}
use prodosfs.Diskutil.Sessions.{rename_loop_endless}
use prodosfs.Tests.Sample.{sample, sample_volume, byte_in}
use prodosfs.Tests.Sample

-- An image of 16 blocks in the order of sectors, with its volume header in sector 11.
abbrev sectors : Disk
sectors = record sample {
  base = byte_in ((2820, 0xf4) ∷ (2851, 39) ∷ (2852, 13) ∷ (2857, 16) ∷ []);
}

abbrev mounted_sectors : Volume
mounted_sectors = record { disk = converted_disk Sample.here sectors; root = image 1024 }

normalize_sector_disk_example :
    normalize
      (λ path. mount Sample.here sectors)
      (λ a. true)
      (λ i. 0)
      (codes "diskutil" ∷ codes "normalize" ∷ codes "a.dsk" ∷ codes "a.po" ∷ [])
    ≡ ok (record { succeeded = false; actions = [] })
unfolding converted_disk is_volume_directory_block load deobfuscate check_volume
    create_volume_header le_read16 min_version entries_per_block entry_length total_blocks mount
    get_volume_directory_block read_block read_track_sector convert convert_loop read_rwts_block
normalize_sector_disk_example =
    normalize_sector_disk (λ path. mount Sample.here sectors) (λ a. true) (λ i. 0) Sample.here
      sectors mounted_sectors (codes "diskutil") (codes "normalize") (codes "a.dsk") (codes "a.po")
      refl refl (omega arith) refl refl refl refl

-- A file system that saves images and renames no file.
abbrev only_saves : Action → Bool
only_saves (save_image path d) = true
only_saves (rename_file from to) = false

rename_loop_endless_example :
    rename_loop only_saves
      (λ i. 0)
      100
      sample_volume
      (codes "a.po")
      (codes "1" ∷ codes "WORK" ∷ codes "4" ∷ [])
      []
    ≢ ok (record { succeeded = true; actions = [] })
rename_loop_endless_example =
    rename_loop_endless only_saves (λ i. 0) (λ path d. refl) 100 sample_volume (codes "a.po")
      (codes "1" ∷ codes "WORK" ∷ codes "4" ∷ []) [] (record { succeeded = true; actions = [] })
      ((refl, refl), ((refl, refl), ((refl, refl), tt)))

mount-rename_example :
    (d' : Disk) × (rename (λ i. 0xaa) sample_volume (codes "Work.1")
      ≡ ok (true, record { disk = d'; root = image 1024 }))
    × (mount Sample.here d' ≡ ok (record { disk = d'; root = image 1024 }))
    × (Header.name (record { disk = d'; root = image 1024 }) ≡ ok (map to_upper (codes "Work.1")))
unfolding is_valid_name valid_tail mount get_volume_directory_block check_volume
    is_volume_directory_block create_volume_header load le_read16 read_block deobfuscate min_version
    entries_per_block entry_length total_blocks
mount-rename_example =
    mount-rename Sample.here (λ i. 0xaa) sample_volume (codes "Work.1")
      (mount-IsMounted Sample.here sample sample_volume refl) refl refl

appleworks_file_name_lem_example :
    (appleworks_file_name (codes "MY.LETTER") 0x807f
      ≡ spelled (byte_bits (0x807f % 256) ++ byte_bits (0x807f / 256)) (codes "MY.LETTER"))
    × (map prodos_char (appleworks_file_name (codes "MY.LETTER") 0x807f) ≡ codes "MY.LETTER")
unfolding to_upper
appleworks_file_name_lem_example =
    appleworks_file_name_lem (codes "MY.LETTER") 0x807f (omega arith) (omega arith) (omega arith)

-- The name that this is.
my_letter :
    spelled (byte_bits (0x807f % 256) ++ byte_bits (0x807f / 256)) (codes "MY.LETTER")
    ≡ codes "My letter"
unfolding to_lower
my_letter = refl

-- 31 October 1986, 17:45.
abbrev halloween : Timestamp
halloween = record { year = 86; month = 10; day = 31; hour = 17; minute = 45 }

abbrev dated : Disk
dated = record sample { base = byte_in ((0, 0x5f) ∷ (1, 0xad) ∷ (2, 45) ∷ (3, 17) ∷ []) }

halloween_decoded : decode_timestamp dated (image 0) ≡ halloween
unfolding decode_timestamp le_read16 load
halloween_decoded = refl
