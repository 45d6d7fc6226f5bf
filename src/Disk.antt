-- ===== src/Disk.antt =====
-- source/disk.cxx and include/prodos/disk.hxx: the disk image in memory, with its sectors and
-- blocks, and the little-endian reads of include/prodos/util.hxx.
-- The image is the memory behind `_base`, a function of the byte offset; an offset from `_size` on
-- is memory outside the image. A pointer into the image is its offset. The memory is read as
-- `uint8_t`. What mmap, stat and the file system do is no part of it.
pub mod Convert
pub mod Blocks
pub mod Save
use prodosfs.Base.{
  ℕ, zero, suc, ◌+◌, ◌-◌, ◌*◌, ◌/◌, ◌%◌, ◌^◌, Bool, true, false, not, ◌&&◌, ◌||◌, List, [], ◌∷◌,
  bit_or, ltb, leb, ◌==◌, if◌then◌else◌, get_or, ℤ, pos, negsuc, sub_ℕ, Result, ok, thrown, ◌>>=◌,
  Exception, invalid_block_number, invalid_track_number, invalid_sector_number,
  invalid_convert_direction, invalid_address, image_not_multiple_of_block_size, image_not_regular,
}

abbrev pub sector_size : ℕ
sector_size = 256

abbrev pub block_size : ℕ
block_size = 512

abbrev pub tracks_per_disk : ℕ
tracks_per_disk = 35

abbrev pub sectors_per_track : ℕ
sectors_per_track = 16

abbrev pub blocks_per_track : ℕ
blocks_per_track = 8

pub record Disk : Type 0 where
  pub base : ℕ → ℕ
  pub size : ℕ
  pub num_blocks : ℕ
  pub converted : Bool
  pub dirty : Bool

-- The constructor, from what `fstat` and `mmap` give: whether the file is regular, its size and
-- its bytes.
unfoldable pub open_disk : Bool → ℕ → (ℕ → ℕ) → Result Disk
open_disk is_regular st_size bytes =
    if not is_regular
    then thrown image_not_regular
    else if not (st_size % block_size == 0)
    then thrown image_not_multiple_of_block_size
    else ok (record {
      base = bytes;
      size = st_size;
      num_blocks = st_size / block_size;
      converted = false;
      dirty = false;
    })

-- A pointer to a byte: in the image, or in the static block of zeros of `volume_t::GetBlock`.
-- `null` is never followed.
pub data Ptr : Type 0 where
  null : Ptr
  image : ℕ → Ptr
  sparse : ℕ → Ptr

abbrev pub plus : Ptr → ℕ → Ptr
plus null k = null
plus (image a) k = image (a + k)
plus (sparse a) k = sparse (a + k)

-- A `uint8_t` at a pointer.
unfoldable pub load : Disk → Ptr → ℕ
load d null = 0
load d (image a) = d.base a % 256
load d (sparse a) = 0

unfoldable pub le_read16 : Disk → Ptr → ℕ
le_read16 d p = bit_or (load d (plus p 1) * 2 ^ 8) (load d p)

unfoldable pub le_read24 : Disk → Ptr → ℕ
le_read24 d p = bit_or (bit_or (load d (plus p 2) * 2 ^ 16) (load d (plus p 1) * 2 ^ 8)) (load d p)

-- The `n` bytes from a pointer on.
unfoldable pub loads : Disk → Ptr → ℕ → ℕ → List ℕ
loads d p i zero = []
loads d p i (suc n) = load d (plus p i) ∷ loads d p (i + 1) n

unfoldable pub read_block : Disk → ℤ → Result Ptr
read_block d (negsuc n) = thrown invalid_block_number
read_block d (pos i) =
    if leb d.num_blocks i then thrown invalid_block_number else ok (image (i * block_size))

-- `memcpy` of `n` bytes to `at`, from a source read as a function of the offset in it.
abbrev pub memcpy : (ℕ → ℕ) → ℕ → (ℕ → ℕ) → ℕ → ℕ → ℕ
memcpy target at source n a = if leb at a && ltb a (at + n) then source (a - at) else target a

unfoldable pub write_block : Disk → ℤ → (ℕ → ℕ) → Result Disk
write_block d (negsuc n) block = thrown invalid_block_number
write_block d (pos i) block =
    if leb d.num_blocks i
    then thrown invalid_block_number
    else ok (record d { base = memcpy d.base (i * block_size) block block_size; dirty = true })

abbrev pub outside : ℤ → ℕ → Bool
outside (negsuc n) limit = true
outside (pos i) limit = leb limit i

abbrev sector_index : ℤ → ℤ → ℕ
sector_index (pos track) (pos sector) = track * sectors_per_track + sector
sector_index _ _ = 0

unfoldable pub read_track_sector : Disk → ℤ → ℤ → Result Ptr
read_track_sector d track sector =
    if outside track tracks_per_disk
    then thrown invalid_track_number
    else if outside sector sectors_per_track
    then thrown invalid_sector_number
    else ok (image (sector_index track sector * sector_size))

abbrev pub map1 : List ℕ
map1 = 0 ∷ 13 ∷ 11 ∷ 9 ∷ 7 ∷ 5 ∷ 3 ∷ 1 ∷ []

abbrev pub map2 : List ℕ
map2 = 14 ∷ 12 ∷ 10 ∷ 8 ∷ 6 ∷ 4 ∷ 2 ∷ 15 ∷ []

-- `_ReadRwtsBlock` to offset `at` of the new memory `target`.
unfoldable pub read_rwts_block : Disk → ℕ → (ℕ → ℕ) → ℕ → ℕ → ℕ
read_rwts_block d index target at =
    let track = index / blocks_per_track in
    let sector1 = get_or map1 (index % blocks_per_track) 0 in
    let sector2 = get_or map2 (index % blocks_per_track) 0 in
    let src1 = (track * sectors_per_track + sector1) * sector_size in
    let src2 = (track * sectors_per_track + sector2) * sector_size in
    let half = memcpy target at (λ j. d.base (src1 + j)) sector_size in
    memcpy half (at + sector_size) (λ j. d.base (src2 + j)) sector_size

-- The loop of `Convert`, with `n` blocks left from block `i` on.
unfoldable pub convert_loop : Disk → ℕ → ℕ → (ℕ → ℕ) → ℕ → ℕ
convert_loop d zero i target = target
convert_loop d (suc n) i target =
    convert_loop d n (i + 1) (read_rwts_block d i target (i * block_size))

-- `convert_t` has one value; an `int` cast to it may have another.
pub data ConvertType : Type 0 where
  rwts_to_block other_direction : ConvertType

-- `fresh` is what the memory of `operator new` holds.
unfoldable pub convert : (ℕ → ℕ) → Disk → ConvertType → Result Disk
convert fresh d other_direction = thrown invalid_convert_direction
convert fresh d rwts_to_block =
    ok (record d { base = convert_loop d d.num_blocks 0 fresh; converted = true })

-- `addr` is given by its distance from `_base`.
unfoldable pub to_offset : Disk → ℤ → Result ℕ
to_offset d (negsuc n) = thrown invalid_address
to_offset d (pos a) = if ltb d.size a then thrown invalid_address else ok a

unfoldable pub is_dirty : Disk → Bool
is_dirty d = d.dirty
