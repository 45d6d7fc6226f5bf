-- ===== src/Volume/Usage.antt =====
-- `CountBlocksUsed` and `CountRootDirectoryBlocks` (source/volume.cxx).
pub mod Bitmap
pub mod Root
use prodosfs.Base.{
  ℕ, zero, suc, ◌+◌, ◌*◌, ◌/◌, ◌%◌, ◌^◌, ◌==◌, if◌then◌else◌, ℤ, pos, ◌+ℤ◌, sub_ℕ, Result, ok,
  out_of_fuel, ◌>>=◌,
}
use prodosfs.Disk.{Disk, Ptr, plus, load, le_read16, read_block}
use prodosfs.Entry.{bit_map_pointer}
use prodosfs.Volume.Paths.{Volume}

-- `__builtin_popcount` of a byte.
unfoldable pub popcount : ℕ → ℕ
popcount b =
    b % 2 + b / 2 % 2 + b / 4 % 2 + b / 8 % 2 + b / 16 % 2 + b / 32 % 2 + b / 64 % 2 + b / 128 % 2

-- The inner loop, at byte `i` of a bitmap block with `n` bytes left in it: the blocks used so far,
-- an `int`, and the blocks left to count. `sizeof(uint8_t)` is 1.
unfoldable pub count_bitmap : Disk → Ptr → ℕ → ℕ → ℕ → ℤ → ℤ × ℕ
count_bitmap d bitmap i zero blocks used = (used, blocks)
count_bitmap d bitmap i (suc n) zero used = (used, 0)
count_bitmap d bitmap i (suc n) (suc blocks) used =
    count_bitmap d bitmap (i + 1) n blocks (used +ℤ sub_ℕ 1 (popcount (load d (plus bitmap i))))

-- The outer loop; each round counts at least one block, so their number is fuel enough. The pointer
-- is a `uint16_t`.
unfoldable pub count_loop : ℕ → Disk → ℕ → ℕ → ℤ → Result ℤ
count_loop fuel d pointer zero used = ok used
count_loop zero d pointer (suc blocks) used = out_of_fuel
count_loop (suc fuel) d pointer (suc blocks) used = do
  bitmap ← read_block d (pos pointer)
  let counted = count_bitmap d bitmap 0 512 (suc blocks) used
  count_loop fuel d ((pointer + 1) % 2 ^ 16) counted.1 counted.0

unfoldable pub count_blocks_used : Volume → Result ℤ
count_blocks_used v =
    count_loop v.disk.num_blocks v.disk (bit_map_pointer v.disk (plus v.root 4)) v.disk.num_blocks
      (pos 0)

-- The loop over the blocks behind one of the root directory; a cycle of blocks has no end.
unfoldable pub root_blocks_loop : ℕ → Disk → ℕ → ℕ → Result ℕ
root_blocks_loop zero d pointer count = out_of_fuel
root_blocks_loop (suc fuel) d pointer count =
    let rest = (do
      block ← read_block d (pos pointer)
      root_blocks_loop fuel d (le_read16 d (plus block 2)) (count + 1)) in
    if pointer == 0 then ok count else rest

unfoldable pub count_root_directory_blocks : ℕ → Volume → Result ℕ
count_root_directory_blocks fuel v =
    root_blocks_loop fuel v.disk (le_read16 v.disk (plus v.root 2)) 1
