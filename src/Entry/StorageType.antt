-- ===== src/Entry/StorageType.antt =====
-- `storage_type_t` (include/prodos/volume.hxx).
use Prim.Native.Nat.{ℕ}

abbrev pub none : ℕ
none = 0x0

abbrev pub seedling_file : ℕ
seedling_file = 0x1

abbrev pub sapling_file : ℕ
sapling_file = 0x2

abbrev pub tree_file : ℕ
tree_file = 0x3

abbrev pub subdirectory : ℕ
subdirectory = 0xd

abbrev pub subdir_block : ℕ
subdir_block = 0xe

abbrev pub volume_block : ℕ
volume_block = 0xf
