-- ===== src/Disk/Convert.antt =====
-- `disk_t::Convert` (source/disk.cxx): the sector interleave as a bijection.
use prodosfs.Base.{
  ℕ, zero, suc, ◌+◌, ◌-◌, ◌*◌, ◌/◌, ◌%◌, ◌<◌, ◌≡◌, refl, true, arith, ◌&&◌, ◌||◌, ltb, leb, ◌==◌,
  if◌then◌else◌, get_or, ok,
}
use prodosfs.Disk.{Disk, read_rwts_block, convert_loop, convert, map1, map2, rwts_to_block}

-- Where the byte at an offset of the converted image comes from: the sector tables by address.
unfoldable pub source_of : ℕ → ℕ
source_of a =
    (a / 512 / 8 * 16
        + (if ltb (a % 512) 256 then get_or map1 (a / 512 % 8) 0 else get_or map2 (a / 512 % 8) 0))
      * 256
    + a % 256

-- The half block of its track that sector `s` becomes: the first and the last stay where they are,
-- and the fourteen between them come in the opposite order.
unfoldable pub half_block_of : ℕ → ℕ
half_block_of s = if s == 0 || s == 15 then s else 15 - s

-- Where the byte at an offset of the track-and-sector image goes.
unfoldable pub position_of : ℕ → ℕ
unfolding half_block_of
position_of a = (a / 4096 * 16 + half_block_of (a / 256 % 16)) * 256 + a % 256

read_rwts_block_inside :
    (d : Disk) (i : ℕ) (target : ℕ → ℕ) (a : ℕ)
    → i ≡ a / 512
    → read_rwts_block d i target (i * 512) a ≡ d.base (source_of a)
unfolding read_rwts_block source_of
read_rwts_block_inside d i target a e = ground arith

read_rwts_block_outside :
    (d : Disk) (i : ℕ) (target : ℕ → ℕ) (a : ℕ)
    → (a / 512 ≡ i → ⊥)
    → read_rwts_block d i target (i * 512) a ≡ target a
unfolding read_rwts_block
read_rwts_block_outside d i target a ne = ground arith

-- The loop fills the blocks from `i` on and leaves the rest of the memory alone.
pub convert_loop_lem :
    (d : Disk) (n i : ℕ) (target : ℕ → ℕ) (a : ℕ)
    → convert_loop d n i target a
      ≡ (if leb i (a / 512) && ltb (a / 512) (i + n) then d.base (source_of a) else target a)
unfolding convert_loop
convert_loop_lem d zero i target a = ground arith
convert_loop_lem d (suc n) i target a = ground (
  arith,
  convert_loop_lem d n (i + 1) (read_rwts_block d i target (i * 512)) a,
  read_rwts_block_inside d i target a,
  read_rwts_block_outside d i target a,
)

source-position : (a : ℕ) → source_of (position_of a) ≡ a
unfolding source_of position_of
source-position a = ground arith

pub position-source : (a : ℕ) → position_of (source_of a) ≡ a
unfolding source_of position_of
position-source a = ground arith

position_of-lt : (a t : ℕ) → a < t * 4096 → position_of a < t * 4096
unfolding position_of
position_of-lt a t h = ground arith

source_of-lt : (a t : ℕ) → a < t * 4096 → source_of a < t * 4096
unfolding source_of
source_of-lt a t h = ground arith

-- Converting an image of `t` whole tracks succeeds and moves every byte of it to `position_of` its
-- offset, which lies in the image; and every offset of the image is the position of one of them, so
-- no byte is lost or doubled. The size and the dirty flag stay as they were.
pub convert-permutes :
    (fresh : ℕ → ℕ) (d : Disk) (t : ℕ)
    → d.num_blocks ≡ t * 8
    → (d' : Disk) × (convert fresh d rwts_to_block ≡ ok d')
      × ((a : ℕ) → a < t * 4096 → (position_of a < t * 4096) × (d'.base (position_of a) ≡ d.base a))
      × ((a : ℕ) → a < t * 4096 → (b : ℕ) × (b < t * 4096) × (position_of b ≡ a))
      × (d'.num_blocks ≡ d.num_blocks)
      × (d'.size ≡ d.size)
      × (d'.dirty ≡ d.dirty)
unfolding convert
convert-permutes fresh d t whole = (
  record d { base = convert_loop d d.num_blocks 0 fresh; converted = true },
  refl,
  (λ a h. (position_of-lt a t h, moved a h)),
  (λ a h. (source_of a, source_of-lt a t h, position-source a)),
  refl,
  refl,
  refl,
)
  where
    moved : (a : ℕ) → a < t * 4096 → convert_loop d d.num_blocks 0 fresh (position_of a) ≡ d.base a
    moved a h = ground (
      arith,
      convert_loop_lem d d.num_blocks 0 fresh (position_of a),
      position_of-lt a t h,
      source-position a,
    )
