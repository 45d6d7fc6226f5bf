-- ===== src/Volume/Header.antt =====
-- `Name`, `FileCount` and `TotalBlocks` (source/volume.cxx), from the header in the root's key block.
use prodosfs.Base.{ℕ, List, Result, ok, ◌>>=◌}
use prodosfs.Disk.{plus}
use prodosfs.Entry
use prodosfs.Volume.Paths.{Volume}

module _ (v : Volume) where
  unfoldable pub name : Result (List ℕ)
  name = do
    header ← Entry.create_volume_header v.disk (plus v.root 4)
    ok (Entry.file_name v.disk header)

  unfoldable pub file_count : Result ℕ
  file_count = do
    header ← Entry.create_volume_header v.disk (plus v.root 4)
    ok (Entry.file_count v.disk header)

  unfoldable pub total_blocks : Result ℕ
  total_blocks = do
    header ← Entry.create_volume_header v.disk (plus v.root 4)
    ok (Entry.total_blocks v.disk header)
