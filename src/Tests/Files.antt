-- ===== src/Tests/Files.antt =====
-- File/Seek, File/Read and File/End at the files of the sample.
use prodosfs.Base.{
  ℕ, zero, suc, ◌/◌, ◌≡◌, refl, [], ◌∷◌, arith, ok, some, none, err_none, err_position_out_of_range,
  pos, ◌==◌, if◌then◌else◌,
}
use prodosfs.Disk.{Ptr, image, load, loads, le_read16, le_read24, read_block}
use prodosfs.Block.{get_block}
use prodosfs.Entry.{storage_type, key_pointer, eof}
use prodosfs.File.{FileHandle, seek, seek_set, read, indexed_block, index_at}
use prodosfs.File.Content.{block_of, IsMapped}
use prodosfs.File.Seek.{Shape, IsAt, seek-IsAt}
use prodosfs.File.Read.{read-file_bytes}
use prodosfs.File.End.{Ends, HasLength, read-HasLength, read_past_end}
use prodosfs.Tests.Sample.{sample}

-- The sapling file B, open at its start.
abbrev pub at_b : FileHandle
at_b = record {
  entry = image 1540;
  master = none;
  index = some (image 4096);
  content = image 4608;
  position = 0;
}

at_b-Shape : Shape sample at_b
unfolding key_pointer get_block read_block load le_read16 storage_type
at_b-Shape = Shape.sapling (image 4096) refl refl refl refl

pub at_b-IsAt : (p : ℕ) → p / 512 ≡ 0 → IsAt sample (record at_b { position = p }) p
unfolding block_of key_pointer get_block read_block indexed_block index_at load le_read16
    storage_type
at_b-IsAt p e = record {
  shape = Shape.sapling (image 4096) refl refl refl refl;
  placed = refl;
  loaded = rw e;
}

seek-IsAt_example :
    (h' : FileHandle) × (seek sample err_none at_b (pos 600) seek_set ≡ ok (pos 600, h', err_none))
    × (h'.entry ≡ image 1540)
    × (h'.content ≡ image 5120)
    × IsAt sample h' 600
unfolding block_of key_pointer get_block read_block indexed_block index_at load le_read16 le_read24
    storage_type eof
seek-IsAt_example = seek-IsAt sample err_none at_b 600 (image 5120) at_b-Shape (omega arith) refl

abbrev pub blocks_of_b : ℕ → Ptr
blocks_of_b k = if k == 0 then image 4608 else image 5120

pub blocks_of_b-IsMapped : IsMapped sample (image 1540) blocks_of_b 1
unfolding block_of key_pointer get_block read_block indexed_block index_at load le_read16
    storage_type
blocks_of_b-IsMapped zero le = refl
blocks_of_b-IsMapped (suc zero) le = refl
blocks_of_b-IsMapped (suc (suc k)) le = absurd (omega arith)

-- Two bytes on the two sides of a block boundary.
read-file_bytes_example :
    (h' : FileHandle) × (read sample err_none (record at_b { position = 511 }) 2
      ≡ ok (b'u' ∷ b'v' ∷ [], h', err_none))
    × (h'.entry ≡ image 1540)
    × IsAt sample h' 513
unfolding load le_read24 eof
read-file_bytes_example =
    read-file_bytes sample err_none (record at_b { position = 511 }) 511 2 blocks_of_b
      (at_b-IsAt 511 refl) (omega arith) blocks_of_b-IsMapped

read-HasLength_example : Ends (HasLength 2) (read sample err_none at_b 2)
read-HasLength_example = read-HasLength sample err_none at_b 2

-- At the end of the file A, of 300 bytes.
abbrev at_end_of_a : FileHandle
at_end_of_a = record {
  entry = image 1067;
  master = none;
  index = none;
  content = image 2560;
  position = 300;
}

read_past_end_example :
    read sample err_none at_end_of_a 1 ≡ ok (0 ∷ [], at_end_of_a, err_position_out_of_range)
unfolding load loads le_read24 eof
read_past_end_example =
    read_past_end sample err_none at_end_of_a 1 (omega arith) (omega arith) (omega arith)
