-- ===== src/Volume/Usage/Bitmap.antt =====
-- What `CountBlocksUsed` (source/volume.cxx) counts, against the volume bit map of ProDOS: a set bit
-- for each free block, eight blocks to a byte.
use prodosfs.Base.{
  ℕ, zero, suc, ◌+◌, ◌-◌, ◌*◌, ◌%◌, ◌^◌, ◌≤◌, ◌<◌, ◌≡◌, refl, ap, ◌∙◌, arith, ℤ, pos, sub_ℕ,
  sub_ℕ-+ℤ, ok, min,
}
use mathlib.Core.Path.{ap₂}
use native.Mathlib.Nat.{le_refl}
use prodosfs.Disk.{Disk, Ptr, image, plus, load, read_block}
use prodosfs.Entry.{bit_map_pointer}
use prodosfs.Volume.Paths.{Volume}
use prodosfs.Volume.Usage.{popcount, count_bitmap, count_loop, count_blocks_used}

-- The set bits of the `n` bytes of the image from an offset on.
abbrev pub set_bits : Disk → ℕ → ℕ → ℕ
set_bits d a zero = 0
set_bits d a (suc n) = popcount (load d (image a)) + set_bits d (a + 1) n

set_bits-add : (d : Disk) (a n m : ℕ) → set_bits d a (n + m) ≡ set_bits d a n + set_bits d (a + n) m
set_bits-add d a zero m =
    let e : 0 + m ≡ m = omega arith in let e' : a + 0 ≡ a = omega arith in rw (e, e') (omega arith)
set_bits-add d a (suc n) m =
    let e : suc n + m ≡ suc (n + m) = omega arith in
    let e' : a + suc n ≡ a + 1 + n = omega arith in
    rw (e, e') (omega (arith, set_bits-add d (a + 1) n m))

counts_eq :
    {x x' y y' b b' : ℕ}
    → x ≡ x'
    → y ≡ y'
    → b ≡ b'
    → ◌≡◌ {A = ℤ × ℕ} (sub_ℕ x y, b) (sub_ℕ x' y', b')
counts_eq p q r = cc

-- The inner loop, in closed form: `k` bytes are counted.
count_bitmap_lem :
    (d : Disk) (a i n blocks x y k : ℕ)
    → k ≡ min n blocks
    → count_bitmap d (image a) i n blocks (sub_ℕ x y)
      ≡ (sub_ℕ (x + k) (y + set_bits d (a + i) k), blocks - k)
unfolding count_bitmap
count_bitmap_lem d a i zero blocks x y zero e = counts_eq (omega arith) (omega arith) (omega arith)
count_bitmap_lem d a i zero blocks x y (suc k) e = absurd (omega arith)
count_bitmap_lem d a i (suc n) zero x y zero e = counts_eq (omega arith) (omega arith) (omega arith)
count_bitmap_lem d a i (suc n) zero x y (suc k) e = absurd (omega arith)
count_bitmap_lem d a i (suc n) (suc blocks) x y zero e = absurd (omega arith)
count_bitmap_lem d a i (suc n) (suc blocks) x y (suc k) e =
    let here : ℕ = popcount (load d (image (a + i))) in
    let next : a + i + 1 ≡ a + (i + 1) = omega arith in
    ap (count_bitmap d (image a) (i + 1) n blocks) (sub_ℕ-+ℤ x y 1 here)
    ∙ count_bitmap_lem d a (i + 1) n blocks (x + 1) (y + here) k (omega arith)
    ∙ counts_eq (omega arith) (rw next (omega arith)) (omega arith)

read_block_here :
    (d : Disk) (i : ℕ) → i < d.num_blocks → read_block d (pos i) ≡ ok (image (i * 512))
unfolding read_block
read_block_here d i h = ground arith

-- What is left after a block of the bit map is in the next one.
set_bits_next :
    (d : Disk) (pointer n left : ℕ)
    → left ≡ n - min 512 n
    → pointer * 512 + n ≤ d.num_blocks * 512
    → d.num_blocks < 65536
    → set_bits d ((pointer + 1) % 2 ^ 16 * 512) left ≡ set_bits d (pointer * 512 + min 512 n) left
set_bits_next d pointer n zero e inside small = refl
set_bits_next d pointer n (suc left) e inside small =
    ap (λ a. set_bits d a (suc left)) (omega arith)

count_loop-suc :
    (fuel : ℕ) (d : Disk) (pointer blocks : ℕ) (used used' : ℤ) (left : ℕ) (b : Ptr)
    → read_block d (pos pointer) ≡ ok b
    → count_bitmap d b 0 512 (suc blocks) used ≡ (used', left)
    → count_loop (suc fuel) d pointer (suc blocks) used
      ≡ count_loop fuel d ((pointer + 1) % 2 ^ 16) left used'
unfolding count_loop
count_loop-suc fuel d pointer blocks used used' left b e e' =
    rw e (ap (λ (c : ℤ × ℕ). count_loop fuel d ((pointer + 1) % 2 ^ 16) c.1 c.0) e')

-- The outer loop: the bytes of the blocks from `pointer` on, which follow one another in the image.
count_loop_lem :
    (fuel : ℕ) (d : Disk) (pointer blocks x y : ℕ)
    → blocks ≤ fuel
    → pointer * 512 + blocks ≤ d.num_blocks * 512
    → d.num_blocks < 65536
    → count_loop fuel d pointer blocks (sub_ℕ x y)
      ≡ ok (sub_ℕ (x + blocks) (y + set_bits d (pointer * 512) blocks))
count_loop_lem fuel d pointer zero x y enough inside small =
    unfold count_loop in ap ok (ap₂ sub_ℕ (omega arith) (omega arith))
count_loop_lem zero d pointer (suc blocks) x y enough inside small = absurd (omega arith)
count_loop_lem (suc fuel) d pointer (suc blocks) x y enough inside small =
    let k : ℕ = min 512 (suc blocks) in
    let counted = count_bitmap_lem d (pointer * 512) 0 512 (suc blocks) x y k refl in
    let here : pointer * 512 + 0 ≡ pointer * 512 = omega arith in
    let split : suc blocks ≡ k + (suc blocks - k) = omega arith in
    let bits : set_bits d (pointer * 512) (suc blocks)
        ≡ set_bits d (pointer * 512) k + set_bits d (pointer * 512 + k) (suc blocks - k) =
      ap (set_bits d (pointer * 512)) split ∙ set_bits-add d (pointer * 512) k (suc blocks - k) in
    let next = set_bits_next d pointer (suc blocks) (suc blocks - k) refl inside small in
    count_loop-suc fuel d pointer blocks (sub_ℕ x y) _ (suc blocks - k) (image (pointer * 512))
      (read_block_here d pointer (omega arith)) counted
    ∙ count_loop_lem fuel d ((pointer + 1) % 2 ^ 16) (suc blocks - k) (x + k)
        (y + set_bits d (pointer * 512 + 0) k) (omega arith) (omega arith) small
    ∙ ap ok (ap₂ sub_ℕ (omega arith) (rw here (omega (arith, bits, next))))

-- On a volume whose blocks are a multiple of eight, with the bit map and as many bytes from its
-- start as the volume has blocks in the image, the count is the number of blocks less the number of
-- free blocks by the bit map, and less the set bits of the bytes behind the bit map: those from an
-- eighth of the blocks on up to as many as there are blocks, which the loop counts too.
pub count_blocks_used_lem :
    (v : Volume) (m pointer : ℕ)
    → v.disk.num_blocks ≡ 8 * m
    → v.disk.num_blocks < 65536
    → bit_map_pointer v.disk (plus v.root 4) ≡ pointer
    → pointer * 512 + v.disk.num_blocks ≤ v.disk.num_blocks * 512
    → count_blocks_used v
      ≡ ok (
          sub_ℕ v.disk.num_blocks
            (set_bits v.disk (pointer * 512) m + set_bits v.disk (pointer * 512 + m) (7 * m)))
unfolding count_blocks_used
count_blocks_used_lem v m pointer eight small at inside =
    let split : v.disk.num_blocks ≡ m + 7 * m = omega arith in
    let bits : set_bits v.disk (pointer * 512) v.disk.num_blocks
        ≡ set_bits v.disk (pointer * 512) m + set_bits v.disk (pointer * 512 + m) (7 * m) =
      ap (set_bits v.disk (pointer * 512)) split ∙ set_bits-add v.disk (pointer * 512) m (7 * m) in
    rw at (
      count_loop_lem v.disk.num_blocks v.disk pointer v.disk.num_blocks 0 0 (le_refl _) inside small
      ∙ ap ok (ap₂ sub_ℕ (omega arith) (omega (arith, bits))))
