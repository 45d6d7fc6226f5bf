-- ===== src/Volume/Rename/Laws.antt =====
-- What `Rename` (source/volume.cxx) leaves on the disk.
use prodosfs.Base.{
  ℕ, suc, ◌+◌, ◌/◌, ◌%◌, ◌^◌, ◌≤◌, ◌<◌, ◌≡◌, refl, ◌∙◌, ap, ◌⊎◌, inl, inr, true, List, [], ◌∷◌, map,
  length, get_or, bit_and, bit_or, arith, pos, ok,
}
use mathlib.Core.Path.{ap₂}
use prodosfs.Base.Text.{to_upper}
use prodosfs.Entry.{is_valid_name, file_name, name_length, storage_type}
use prodosfs.Disk.Blocks.{load-IsByte}
use prodosfs.Disk.{Disk, image, load, loads, memcpy, write_block}
use prodosfs.Volume.Paths.{Volume}
use prodosfs.Volume.Rename.Names.{half-replaced, valid_name_bytes, valid_name_length, length-map}
use prodosfs.Volume.Rename.{stores, text_memory, set_name, rename}

stores_inside :
    (d : Disk) (a n j : ℕ) (source : ℕ → ℕ)
    → j < n
    → load (stores d (image a) source n) (image (a + j)) ≡ source j % 256
unfolding stores load
stores_inside d a n j source inside = ground arith

stores_outside :
    (d : Disk) (a n b : ℕ) (source : ℕ → ℕ)
    → (b < a) ⊎ (a + n ≤ b)
    → load (stores d (image a) source n) (image b) ≡ load d (image b)
unfolding stores load
stores_outside d a n b source outside = ground arith

loads_text :
    (d : Disk) (a i : ℕ) (s : List ℕ)
    → ((j : ℕ) → j < length s → load d (image (a + (i + j))) ≡ get_or s j 0)
    → loads d (image a) i (length s) ≡ s
unfolding loads
loads_text d a i [] each = refl
loads_text d a i (c ∷ s) each =
    ap₂ ◌∷◌ (ap (λ k. load d (image (a + k))) (omega arith) ∙ each 0 (omega arith)) (
      loads_text d a (i + 1) s
        (λ j lt. ap (λ k. load d (image (a + k))) (omega arith) ∙ each (suc j) (omega arith)))

-- A write of block 2 to itself changes no byte.
write_itself :
    (d : Disk)
    → 2 < d.num_blocks
    → (d' : Disk) × (write_block d (pos 2) (λ i. load d (image (1024 + i))) ≡ ok d')
      × (d'.dirty ≡ true)
      × (d'.num_blocks ≡ d.num_blocks)
      × ((a : ℕ) → load d' (image a) ≡ load d (image a))
unfolding write_block load
write_itself d lt = (
  record d { base = memcpy d.base 1024 (λ i. load d (image (1024 + i))) 512; dirty = true },
  ground arith,
  refl,
  refl,
  (λ a. ground arith),
)

stores_first :
    (d : Disk) (a : ℕ) (source : ℕ → ℕ)
    → load (stores d (image a) source 1) (image a) ≡ source 0 % 256
unfolding stores load
stores_first d a source = ground arith

module _ (behind : ℕ → ℕ) (d : Disk) (a : ℕ) (s : List ℕ) where
  set_name_text :
      (j : ℕ)
      → j < 15
      → load (set_name behind d (image a) s) (image (a + 1 + j)) ≡ text_memory behind s j % 256
  unfolding set_name
  set_name_text j lt =
      stores_outside _ a 1 (a + 1 + j) _ (inr (omega arith))
      ∙ stores_outside _ a 1 (a + 1 + j) _ (inr (omega arith))
      ∙ stores_inside _ (a + 1) 15 j _ lt

  set_name_first :
      load (set_name behind d (image a) s) (image a)
      ≡ bit_or (bit_and (load d (image a)) 0b1111_0000 % 256) (length s) % 256
  unfolding set_name
  set_name_first =
      stores_first _ a _
      ∙ ap (λ x. bit_or x (length s) % 256)
          (stores_first _ a _
            ∙ ap (λ x. bit_and x 0b1111_0000 % 256)
                (stores_outside _ (a + 1) 15 a _ (inl (omega arith))
                  ∙ stores_outside _ (a + 1) 15 a _ (inl (omega arith))))

  set_name_outside :
      (b : ℕ)
      → (b < a) ⊎ (a + 16 ≤ b)
      → load (set_name behind d (image a) s) (image b) ≡ load d (image b)
  unfolding set_name
  set_name_outside b out =
      stores_outside _ a 1 b _ (ground (arith, out))
      ∙ stores_outside _ a 1 b _ (ground (arith, out))
      ∙ stores_outside _ (a + 1) 15 b _ (ground (arith, out))
      ∙ stores_outside _ (a + 1) 15 b _ (ground (arith, out))

set_name_num_blocks :
    (behind : ℕ → ℕ) (d : Disk) (s : List ℕ)
    → (set_name behind d (image 1028) s).num_blocks ≡ d.num_blocks
unfolding set_name stores
set_name_num_blocks behind d s = refl

text_memory-at :
    (behind : ℕ → ℕ) (s : List ℕ) (j : ℕ) → j < length s → text_memory behind s j ≡ get_or s j 0
unfolding text_memory
text_memory-at behind s j lt = ground arith

-- The disk once block 2 is renamed: what its header holds.
module _ (behind : ℕ → ℕ) (d d' : Disk) (name : List ℕ) (valid : is_valid_name name ≡ true)
    (same : (b : ℕ)
      → load d' (image b)
        ≡ load (set_name behind d (image 1028) (map to_upper name)) (image b)) where
  upper_length : length (map to_upper name) ≤ 15
  upper_length = rw (length-map to_upper name) (valid_name_length name valid)

  header_first :
      load d' (image 1028)
      ≡ bit_or (bit_and (load d (image 1028)) 0b1111_0000 % 256) (length (map to_upper name)) % 256
  header_first = same 1028 ∙ set_name_first behind d 1028 (map to_upper name)

  header_halves :
      (load d' (image 1028) / 2 ^ 4 ≡ load d (image 1028) / 2 ^ 4)
      × (bit_and (load d' (image 1028)) 0x0f ≡ length (map to_upper name))
  header_halves = rw header_first (
      half-replaced (load d (image 1028)) (length (map to_upper name)) (load-IsByte d (image 1028))
        (omega (arith, upper_length)))

  header_type : storage_type d' (image 1028) ≡ storage_type d (image 1028)
  unfolding storage_type
  header_type = header_halves.0

  header_byte :
      (j : ℕ)
      → j < length (map to_upper name)
      → load d' (image (1029 + (0 + j))) ≡ get_or (map to_upper name) j 0
  header_byte j lt =
      ap (λ k. load d' (image (1029 + k))) zero_plus
      ∙ same (1029 + j)
      ∙ set_name_text behind d 1028 (map to_upper name) j (omega (arith, upper_length))
      ∙ ap (λ x. x % 256) (text_memory-at behind (map to_upper name) j lt)
      ∙ omega (arith, valid_name_bytes name j valid)
    where
      zero_plus : 0 + j ≡ j
      zero_plus = omega arith

  header_name : file_name d' (image 1028) ≡ map to_upper name
  unfolding file_name name_length
  header_name =
      ap (loads d' (image 1029) 0) header_halves.1
      ∙ loads_text d' 1029 0 (map to_upper name) header_byte

-- Renaming a volume, whose root is in block 2, to a valid name succeeds: the name read back from the
-- volume directory is the name in upper case, the storage type of the header is kept, the image is
-- marked as modified and keeps its number of blocks, and no byte outside the 16 of the type, the length and the name changes.
pub rename-file_name :
    (behind : ℕ → ℕ) (v : Volume) (name : List ℕ)
    → v.root ≡ image 1024
    → 2 < v.disk.num_blocks
    → is_valid_name name ≡ true
    → (d' : Disk) × (rename behind v name ≡ ok (true, record { disk = d'; root = image 1024 }))
      × (file_name d' (image 1028) ≡ map to_upper name)
      × (storage_type d' (image 1028) ≡ storage_type v.disk (image 1028))
      × (d'.dirty ≡ true)
      × (d'.num_blocks ≡ v.disk.num_blocks)
      × ((b : ℕ) → (b < 1028) ⊎ (1044 ≤ b) → load d' (image b) ≡ load v.disk (image b))
unfolding rename
rename-file_name behind v name root lt valid =
    let s = map to_upper name in
    let (d', written, dirty, blocks, same) =
      write_itself (set_name behind v.disk (image 1028) s)
        (rw (set_name_num_blocks behind v.disk s) lt) in
    (
      d',
      rw (root, valid, written),
      header_name behind v.disk d' name valid same,
      header_type behind v.disk d' name valid same,
      dirty,
      blocks ∙ set_name_num_blocks behind v.disk s,
      (λ b out. same b ∙ set_name_outside behind v.disk 1028 s b out),
    )
