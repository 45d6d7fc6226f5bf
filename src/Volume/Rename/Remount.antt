-- ===== src/Volume/Rename/Remount.antt =====
-- A renamed volume, mounted again (source/volume.cxx).
use prodosfs.Base.{ℕ, ◌+◌, ◌<◌, ◌≤◌, ◌≡◌, sym, ap, ◌∙◌, true, List, map, arith, inl, inr, ok, ◌⊎◌}
use prodosfs.Base.Text.{to_upper}
use prodosfs.Disk.{Disk, image, load, le_read16}
use prodosfs.Entry.{
  is_valid_name, storage_type, file_name, min_version, entries_per_block, entry_length,
  total_blocks, create_volume_header,
}
use prodosfs.Volume.Paths.{Volume}
use prodosfs.Volume.Header
use prodosfs.Volume.Mount.{
  Surroundings, block_bytes, is_volume_directory_block, check_volume, mount,
}
use prodosfs.Volume.Mount.Checks.{IsMounted, mount_block_disk}
use prodosfs.Volume.Rename.{rename}
use prodosfs.Volume.Rename.Laws.{rename-file_name}

check_volume-ok :
    (d : Disk)
    → storage_type d (image 1028) ≡ 15
    → min_version d (image 1028) ≡ 0
    → entries_per_block d (image 1028) ≡ 13
    → entry_length d (image 1028) ≡ 39
    → total_blocks d (image 1028) ≡ d.num_blocks
    → check_volume d (image 1024) ≡ ok (record { disk = d; root = image 1024 })
unfolding check_volume create_volume_header storage_type
check_volume-ok d t m s l n = ground arith

name-ok :
    (d : Disk)
    → storage_type d (image 1028) ≡ 15
    → Header.name (record { disk = d; root = image 1024 }) ≡ ok (file_name d (image 1028))
unfolding Header.name create_volume_header storage_type
name-ok d t = ground arith

-- Two images with the same bytes around the name, and the same type of the header.
module _ (d d' : Disk) (typed : storage_type d' (image 1028) ≡ storage_type d (image 1028))
    (same : (b : ℕ) → (b < 1028) ⊎ (1044 ≤ b) → load d' (image b) ≡ load d (image b)) where
  le_read16_same : (b : ℕ) → 1044 ≤ b → le_read16 d' (image b) ≡ le_read16 d (image b)
  unfolding le_read16
  le_read16_same b le = rw (same b (inr le), same (b + 1) (inr (omega arith)))

  is_volume_directory_block_same :
      is_volume_directory_block (block_bytes d' (image 1024))
      ≡ is_volume_directory_block (block_bytes d (image 1024))
  unfolding is_volume_directory_block storage_type
  is_volume_directory_block_same =
      rw (same 1024 (inl (omega arith)), same 1025 (inl (omega arith)), typed)

  header_same :
      (min_version d' (image 1028) ≡ min_version d (image 1028))
      × (entries_per_block d' (image 1028) ≡ entries_per_block d (image 1028))
      × (entry_length d' (image 1028) ≡ entry_length d (image 1028))
      × (total_blocks d' (image 1028) ≡ total_blocks d (image 1028))
  unfolding min_version entries_per_block entry_length total_blocks
  header_same = (
    same _ (inr (omega arith)),
    same _ (inr (omega arith)),
    same _ (inr (omega arith)),
    le_read16_same _ (omega arith),
  )

-- A renamed volume can be mounted again, and then has the new name in upper case: for a mounted volume
-- with its volume directory in block 2, and a valid name, `Rename` leaves an image that the constructor
-- accepts as it is, whatever its surroundings.
pub mount-rename :
    (s : Surroundings) (behind : ℕ → ℕ) (v : Volume) (name : List ℕ)
    → IsMounted v
    → is_volume_directory_block (block_bytes v.disk (image 1024)) ≡ true
    → is_valid_name name ≡ true
    → (d' : Disk) × (rename behind v name ≡ ok (true, record { disk = d'; root = image 1024 }))
      × (mount s d' ≡ ok (record { disk = d'; root = image 1024 }))
      × (Header.name (record { disk = d'; root = image 1024 }) ≡ ok (map to_upper name))
mount-rename s behind v name m is_dir valid =
    let (d', renamed, named, typed, dirty, blocks, same) =
      rename-file_name behind v name m.rooted m.has_root valid in
    let (e_version, e_slots, e_length, e_total) = header_same v.disk d' typed same in
    let is_fifteen : storage_type d' (image 1028) ≡ 15 = typed ∙ m.typed in
    (
      d',
      renamed,
      mount_block_disk s d' (rw blocks m.has_root)
            (is_volume_directory_block_same v.disk d' typed same ∙ is_dir)
          ∙ check_volume-ok d' is_fifteen (e_version ∙ m.version_known) (e_slots ∙ m.slots)
              (e_length ∙ m.slot_size) (e_total ∙ m.blocks ∙ sym blocks),
      name-ok d' is_fifteen ∙ ap ok named,
    )
