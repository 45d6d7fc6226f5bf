-- ===== src/Tests/Volumes.antt =====
-- Volume/* at the sample.
use prodosfs.Base.{
  false, ℕ, ◌≤◌, ◌≡◌, refl, [], ◌∷◌, arith, ok, some, none, err_none, err_file_not_found, pos,
}
use prodosfs.Base.Text.{codes, to_lower}
use prodosfs.Disk.{Disk, image, load, loads, le_read16, read_block}
use prodosfs.Entry.{
  storage_type, name_matches, name_length, file_name, is_directory, key_pointer, bit_map_pointer,
  min_version, entries_per_block, entry_length, total_blocks, create_volume_header,
}
use prodosfs.Volume.Paths.{get_entry}
use prodosfs.Volume.Resolve.{entry, here, below}
use prodosfs.Volume.SplitLaws.{two_names}
use prodosfs.Volume.GetEntry.{get_entry-Resolves, get_entry_three_components}
use prodosfs.Volume.Usage.{popcount, count_blocks_used}
use prodosfs.Volume.Usage.Bitmap.{count_blocks_used_lem}
use prodosfs.Volume.Mount.{
  mount, check_volume, is_volume_directory_block, get_volume_directory_block, deobfuscate, usable,
}
use prodosfs.Volume.Mount.Checks.{IsMounted, mount-IsMounted, converted_disk}
use prodosfs.Volume.Mount.Password.{opened, read_password, Ended, deobfuscate-Ended}
use prodosfs.Volume.Mount.Sealed.{seal, mount-with_block_two}
use prodosfs.Disk.Convert.{convert_loop_lem, position_of, half_block_of}
use prodosfs.Disk.{convert_loop, read_rwts_block}
use prodosfs.Volume.Mount.Cipher.{obscured}
use prodosfs.Volume.Mount.Locked.{mount-write_block}
use prodosfs.Volume.Mount.{Surroundings, block_bytes, decipher_loop}
use prodosfs.Disk.{memcpy, write_block}
use prodosfs.Base.{◌<◌, if◌then◌else◌, ◌==◌, true}
use prodosfs.Tests.Sample.{sample, sample_volume}
use prodosfs.Tests.Sample
use prodosfs.Tests.Directories.{root_directory, sub_directory}

get_entry-Resolves_example :
    (n : ℕ) × ((fuel : ℕ)
      → n ≤ fuel
      → get_entry fuel sample_volume err_none (codes "/SUB/y") ≡ ok (some (image 3115), err_none))
unfolding name_matches name_length file_name to_lower loads load le_read16 is_directory storage_type
    key_pointer
get_entry-Resolves_example =
    get_entry-Resolves sample_volume 1024 (codes "/SUB/y") (codes "SUB" ∷ codes "y" ∷ []) err_none
      (1067 ∷ 1106 ∷ 1540 ∷ []) (entry 3115) refl root_directory refl
      (two_names {a = codes "SUB"} {b = codes "y"} refl refl)
      (below 1106 (3115 ∷ []) refl refl (omega arith) sub_directory (here 3115 refl))

get_entry_three_components_example :
    (n : ℕ) × ((fuel : ℕ)
      → n ≤ fuel
      → get_entry fuel sample_volume err_none (codes "/SUB/Y/Z") ≡ ok (none, err_file_not_found))
unfolding name_matches name_length file_name to_lower loads load le_read16 is_directory storage_type
    key_pointer
get_entry_three_components_example =
    get_entry_three_components sample_volume 1024 err_none (codes "SUB") (codes "Y") (codes "Z")
      (1067 ∷ 1106 ∷ 1540 ∷ []) (3115 ∷ []) 1106 refl root_directory refl refl refl
      (omega arith, tt) refl refl (omega arith) sub_directory (refl, tt)

count_blocks_used_lem_example : count_blocks_used sample_volume ≡ ok (pos 12)
unfolding bit_map_pointer load le_read16 popcount
count_blocks_used_lem_example =
    count_blocks_used_lem sample_volume 2 4 (omega arith) (omega arith) refl (omega arith)

mount-IsMounted_example : IsMounted sample_volume
unfolding mount get_volume_directory_block check_volume is_volume_directory_block
    create_volume_header load le_read16 read_block deobfuscate min_version entries_per_block
    entry_length total_blocks
mount-IsMounted_example = mount-IsMounted Sample.here sample sample_volume refl

-- An image with no more than the type of a volume directory, enciphered with the password KEY.
abbrev plain_disk : Disk
plain_disk = record sample { base = λ a. if a == 1028 then 0xf4 else 0 }

abbrev locked_disk : Disk
locked_disk = record plain_disk {
  base =
      memcpy plain_disk.base 1024 (obscured (codes "KEY") (block_bytes plain_disk (image 1024)))
        512;
  dirty = true;
}

abbrev with_key : Surroundings
with_key = record Sample.here { password_file = some (codes "KEY") }

mount-write_block_example :
    (mount with_key locked_disk ≡ check_volume (record plain_disk { dirty = true }) (image 1024))
    × (mount with_key plain_disk ≡ check_volume plain_disk (image 1024))
unfolding is_volume_directory_block load deobfuscate usable decipher_loop write_block
mount-write_block_example =
    mount-write_block (codes "KEY") (codes "KEY") refl (omega arith) (omega arith) plain_disk
      with_key locked_disk refl (λ a. ground arith) (omega arith) refl refl refl

-- The same in the order of sectors: the byte is in sector 11.
abbrev plain_sectors : Disk
plain_sectors = record sample { base = λ a. if a == 2820 then 0xf4 else 0 }

plain_sectors_bytes : (a : ℕ) → (converted_disk with_key plain_sectors).base a < 256
unfolding converted_disk
plain_sectors_bytes a = ground (arith, convert_loop_lem plain_sectors 16 0 (λ a. 0) a)

mount-with_block_two_example :
    mount with_key (seal (codes "KEY") with_key plain_sectors)
    ≡ check_volume (record (converted_disk with_key plain_sectors) { dirty = true }) (image 1024)
unfolding is_volume_directory_block load deobfuscate usable decipher_loop converted_disk
    convert_loop read_rwts_block position_of half_block_of
mount-with_block_two_example =
    mount-with_block_two (codes "KEY") (codes "KEY") refl (omega arith) (omega arith) plain_sectors
      with_key refl plain_sectors_bytes (omega arith) refl refl refl refl

deobfuscate-Ended_example : Ended (opened true (some (codes "KEY"))) (λ a. 0) (λ a. 1)
deobfuscate-Ended_example = deobfuscate-Ended (opened true (some (codes "KEY"))) (λ a. 0) (λ a. 1)

-- A password of one character, by evaluation.
read_password_short : (read_password (opened false (some (codes "K")))).0 ≡ none
unfolding read_password
read_password_short = refl
