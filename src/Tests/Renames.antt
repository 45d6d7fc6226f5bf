-- ===== src/Tests/Renames.antt =====
-- The sample volume renamed.
use prodosfs.Base.{ℕ, ◌≡◌, ◌<◌, ◌≤◌, ◌⊎◌, refl, true, map, ok, arith}
use prodosfs.Base.Text.{codes, to_upper}
use prodosfs.Disk.{Disk, image, load}
use prodosfs.Entry.{file_name, storage_type, is_valid_name, valid_tail}
use prodosfs.Volume.Rename.{rename}
use prodosfs.Volume.Rename.Laws.{rename-file_name}
use prodosfs.Tests.Sample.{sample, sample_volume}

rename-file_name_example :
    (d' : Disk) × (rename (λ i. 0xaa) sample_volume (codes "Work.1")
      ≡ ok (true, record { disk = d'; root = image 1024 }))
    × (file_name d' (image 1028) ≡ map to_upper (codes "Work.1"))
    × (storage_type d' (image 1028) ≡ storage_type sample (image 1028))
    × (d'.dirty ≡ true)
    × (d'.num_blocks ≡ sample.num_blocks)
    × ((b : ℕ) → (b < 1028) ⊎ (1044 ≤ b) → load d' (image b) ≡ load sample (image b))
unfolding is_valid_name valid_tail
rename-file_name_example =
    rename-file_name (λ i. 0xaa) sample_volume (codes "Work.1") refl (omega arith) refl
