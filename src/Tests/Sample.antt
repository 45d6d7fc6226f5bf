-- ===== src/Tests/Sample.antt =====
-- A volume of 16 blocks: the root directory in blocks 2 and 3 holds the seedling file A, the
-- directory SUB and, in its second block, the sapling file B; SUB, in block 6, holds the file Y.
use prodosfs.Base.{ℕ, List, [], ◌∷◌, ◌==◌, if◌then◌else◌, false, none}
use prodosfs.Disk.{Disk, image}
use prodosfs.Volume.Paths.{Volume}
use prodosfs.Volume.Mount.{Surroundings}

abbrev pub byte_in : List (ℕ × ℕ) → ℕ → ℕ
byte_in [] a = 0
byte_in ((b, v) ∷ rest) a = if b == a then v else byte_in rest a

abbrev pub sample_bytes : List (ℕ × ℕ)
sample_bytes =
    -- Block 2, the key block of the root: its header, A and SUB.
    (1026, 3)
    ∷ (1028, 0xf4)
    ∷ (1029, b'D')
    ∷ (1030, b'I')
    ∷ (1031, b'S')
    ∷ (1032, b'K')
    ∷ (1059, 39)
    ∷ (1060, 13)
    ∷ (1061, 3)
    ∷ (1063, 4)
    ∷ (1065, 16)
    ∷ (1067, 0x11)
    ∷ (1068, b'A')
    ∷ (1083, 4)
    ∷ (1084, 5)
    ∷ (1088, 44)
    ∷ (1089, 1)
    ∷ (1106, 0xd3)
    ∷ (1107, b'S')
    ∷ (1108, b'U')
    ∷ (1109, b'B')
    ∷ (1123, 6)
    -- Block 3: B.
    ∷ (1540, 0x21)
    ∷ (1541, b'B')
    ∷ (1557, 8)
    ∷ (1561, 0xe8)
    ∷ (1562, 3)
    -- Block 4, the bit map: four blocks are free.
    ∷ (2048, 3)
    ∷ (2049, 0xc0)
    -- Block 5, the contents of A.
    ∷ (2560, b'h')
    ∷ (2561, b'i')
    -- Block 6, the key block of SUB: its header and Y.
    ∷ (3076, 0xe3)
    ∷ (3077, b'S')
    ∷ (3078, b'U')
    ∷ (3079, b'B')
    ∷ (3107, 39)
    ∷ (3108, 13)
    ∷ (3109, 1)
    ∷ (3115, 0x11)
    ∷ (3116, b'Y')
    ∷ (3132, 7)
    ∷ (3136, 10)
    -- Block 8, the index block of B, and the ends of its two blocks.
    ∷ (4096, 9)
    ∷ (4097, 10)
    ∷ (5119, b'u')
    ∷ (5120, b'v')
    ∷ []

abbrev pub sample : Disk
sample = record {
  base = byte_in sample_bytes;
  size = 8192;
  num_blocks = 16;
  converted = false;
  dirty = false;
}

abbrev pub sample_volume : Volume
sample_volume = record { disk = sample; root = image 1024 }

abbrev pub here : Surroundings
here = record { password_file = none; fresh = λ a. 0; stack = λ a. 0 }
