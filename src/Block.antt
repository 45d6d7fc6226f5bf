-- ===== src/Block.antt =====
-- `volume_t::GetBlock` (source/volume.cxx), through which directories and files read their blocks.
use prodosfs.Base.{zero, suc, ℤ, pos, negsuc, Result, ok}
use prodosfs.Disk.{Disk, Ptr, sparse, read_block}

unfoldable pub get_block : Disk → ℤ → Result Ptr
get_block d (pos zero) = ok (sparse 0)
get_block d (pos (suc i)) = read_block d (pos (suc i))
get_block d (negsuc n) = read_block d (negsuc n)
