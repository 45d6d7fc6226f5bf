-- ===== src/Tests/Disks.antt =====
-- Disk/Blocks and Disk/Convert at the sample.
use prodosfs.Base.{ℕ, ◌*◌, ◌<◌, ◌≡◌, arith, ok}
use prodosfs.Disk.{Disk, convert, rwts_to_block}
use prodosfs.Disk.Convert.{convert-permutes, position_of}
use prodosfs.Tests.Sample.{sample}

convert-permutes_example :
    (d' : Disk) × (convert (λ a. 0) sample rwts_to_block ≡ ok d')
    × ((a : ℕ)
        → a < 2 * 4096
        → (position_of a < 2 * 4096) × (d'.base (position_of a) ≡ sample.base a))
    × ((a : ℕ) → a < 2 * 4096 → (b : ℕ) × (b < 2 * 4096) × (position_of b ≡ a))
    × (d'.num_blocks ≡ sample.num_blocks)
    × (d'.size ≡ sample.size)
    × (d'.dirty ≡ sample.dirty)
convert-permutes_example = convert-permutes (λ a. 0) sample 2 (omega arith)
