-- ===== src/Disk/Blocks.antt =====
-- Block access (source/disk.cxx): bounds, and what a write changes.
use prodosfs.Base.{
  length, ap, zero, suc, ℕ, ◌+◌, ◌*◌, ◌/◌, ◌%◌, ◌≤◌, ◌<◌, ◌≡◌, refl, ◌⊎◌, inl, inr, true, arith,
  leb, ok, thrown, Bool-cases, Returned, ℤ, pos, negsuc, invalid_block_number, Bool,
}
use prodosfs.Base.Bits.{bit_or-bytes, bit_or-three_bytes}
use prodosfs.Disk.{
  plus, le_read16, le_read24, Disk, Ptr, image, load, loads, memcpy, open_disk, read_block,
  write_block,
}

pub load-IsByte : (d : Disk) (p : Ptr) → load d p < 256
unfolding load
load-IsByte d p = ground arith

pub le_read16_bounds : (d : Disk) (p : Ptr) → le_read16 d p < 65536
unfolding le_read16
le_read16_bounds d p =
    let high = load-IsByte d (plus p 1) in
    let low = load-IsByte d p in
    rw (bit_or-bytes (load d (plus p 1)) (load d p) high low) (omega arith)

pub le_read24_bounds : (d : Disk) (p : Ptr) → le_read24 d p < 16777216
unfolding le_read24
le_read24_bounds d p =
    let high = load-IsByte d (plus p 2) in
    let middle = load-IsByte d (plus p 1) in
    let low = load-IsByte d p in
    rw (bit_or-three_bytes (load d (plus p 2)) (load d (plus p 1)) (load d p) middle low)
      (omega arith)

pub length-loads : (d : Disk) (p : Ptr) (i n : ℕ) → length (loads d p i n) ≡ n
unfolding loads
length-loads d p i zero = refl
length-loads d p i (suc n) = ap suc (length-loads d p (i + 1) n)

-- The image is its blocks, and the blocks are numbered by an `int`.
pub record IsSound (d : Disk) : Type 0 where
  pub sized : d.size ≡ d.num_blocks * 512

-- A pointer to `n` bytes that all lie in the image.
abbrev pub Within : Disk → Ptr → ℕ → Type 0
Within d p n = (a : ℕ) × (p ≡ image a) × (a + n ≤ d.size)

open_disk-IsSound :
    (is_regular : Bool) (n : ℕ) (bytes : ℕ → ℕ) → Returned IsSound (open_disk is_regular n bytes)
unfolding open_disk
open_disk-IsSound is_regular n bytes = ground arith

write_block-IsSound :
    (d : Disk) (i : ℤ) (block : ℕ → ℕ) → IsSound d → Returned IsSound (write_block d i block)
unfolding write_block
write_block-IsSound d (negsuc i) block s = tt
write_block-IsSound d (pos i) block s = ground arith

-- On a sound disk `read_block` gives the block's 512 bytes, all in the image, for the indices from
-- 0 up to the number of blocks, and throws for any other.
read_block_bounds :
    (d : Disk) (i : ℤ)
    → IsSound d
    → ((k : ℕ) × (i ≡ pos k)
        × (k < d.num_blocks)
        × (read_block d i ≡ ok (image (k * 512)))
        × (k * 512 + 512 ≤ d.size))
      ⊎ (read_block d i ≡ thrown invalid_block_number)
unfolding read_block
read_block_bounds d (negsuc i) s = inr refl
read_block_bounds d (pos i) s = elim (Bool-cases (leb d.num_blocks i)) [
  | inl out ↦ inr (rw out)
  | inr in_range ↦ inl (i, refl, ground arith, rw in_range, ground (arith, s.sized))
]

-- A write to a block of the image sets the dirty flag, stores the 512 bytes, and changes no byte
-- of another block.
write_block_lem :
    (d : Disk) (i : ℕ) (block : ℕ → ℕ)
    → i < d.num_blocks
    → (d' : Disk) × (write_block d (pos i) block ≡ ok d')
      × (d'.dirty ≡ true)
      × ((j : ℕ) → j < 512 → load d' (image (i * 512 + j)) ≡ block j % 256)
      × ((a : ℕ) → (a / 512 ≡ i → ⊥) → load d' (image a) ≡ load d (image a))
      × (d'.num_blocks ≡ d.num_blocks)
unfolding write_block load
write_block_lem d i block h = (
  record d { base = memcpy d.base (i * 512) block 512; dirty = true },
  ground arith,
  refl,
  (λ j hj. ground arith),
  (λ a ne. ground arith),
  refl,
)
