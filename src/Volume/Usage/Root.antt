-- ===== src/Volume/Usage/Root.antt =====
-- `CountRootDirectoryBlocks` (source/volume.cxx) and the chain of blocks of the root directory.
use prodosfs.Base.{ℕ, zero, suc, ◌+◌, ◌≤◌, ◌≡◌, ap, ◌∙◌, arith, List, length, ok}
use prodosfs.Disk.{Disk, image, le_read16, read_block}
use prodosfs.Directory.Layout.{Chain, last, link}
use prodosfs.Volume.Paths.{Volume}
use prodosfs.Volume.Usage.{root_blocks_loop, count_root_directory_blocks}

root_blocks_loop-Chain :
    (d : Disk) (fuel count : ℕ) {a : ℕ} {bs : List ℕ}
    → Chain d a bs
    → length bs ≤ fuel
    → root_blocks_loop fuel d (le_read16 d (image (a + 2))) (count + 1) ≡ ok (count + length bs)
unfolding root_blocks_loop read_block
root_blocks_loop-Chain d zero count (last z) le = absurd (omega arith)
root_blocks_loop-Chain d (suc fuel) count (last z) le = rw z (ap ok (omega arith))
root_blocks_loop-Chain d zero count (link n next below rest) le = absurd (omega arith)
root_blocks_loop-Chain d (suc fuel) count (link {bs = bs} n next below rest) le =
    ground (arith, root_blocks_loop-Chain d fuel (count + 1) rest)

-- For a root directory whose blocks are a chain that ends, and fuel for them, the number of those
-- blocks is returned.
pub count_root_directory_blocks-Chain :
    (v : Volume) (a fuel : ℕ) (blocks : List ℕ)
    → v.root ≡ image a
    → Chain v.disk a blocks
    → length blocks ≤ fuel
    → count_root_directory_blocks fuel v ≡ ok (length blocks)
unfolding count_root_directory_blocks
count_root_directory_blocks-Chain v a fuel blocks root chain le =
    rw root (root_blocks_loop-Chain v.disk fuel 0 chain le ∙ ap ok (omega arith))
