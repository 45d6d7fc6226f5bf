-- ===== src/Directory/Layout.antt =====
-- What a directory is on the disk, by the ProDOS format and not by the code: a chain of blocks,
-- each with a fixed number of slots, of which the active ones are the entries.
use prodosfs.Base.{
  ℕ, zero, suc, ◌+◌, ◌-◌, ◌*◌, ◌≤◌, ◌<◌, ◌≡◌, true, ◌||◌, List, [], ◌∷◌, ◌++◌, ◌==◌, if◌then◌else◌,
  length, All,
}
use prodosfs.Disk.{Disk, image, le_read16}
use prodosfs.Entry.{storage_type, is_inactive, entries_per_block, file_count}
use prodosfs.Entry.StorageType

-- The blocks from the one at an offset on, linked by their next block numbers.
pub data Chain (d : Disk) : ℕ → List ℕ → Type 0 where
  last : {a : ℕ} → le_read16 d (image (a + 2)) ≡ 0 → Chain d a (a ∷ [])
  link :
      {a : ℕ} {bs : List ℕ} (n : ℕ)
      → le_read16 d (image (a + 2)) ≡ suc n
      → suc n < d.num_blocks
      → Chain d (suc n * 512) bs
      → Chain d a (a ∷ bs)

abbrev pub slot : ℕ → ℕ → ℕ
slot a i = a + (4 + i * 39)

-- The active ones of `n` slots, from slot `i` of a block on.
abbrev pub active_slots : Disk → ℕ → ℕ → ℕ → List ℕ
active_slots d a i zero = []
active_slots d a i (suc n) =
    let rest = active_slots d a (i + 1) n in
    if is_inactive d (image (slot a i)) then rest else slot a i ∷ rest

-- The entries of blocks that are full of slots.
abbrev pub later_entries : Disk → ℕ → List ℕ → List ℕ
later_entries d epb [] = []
later_entries d epb (b ∷ bs) = active_slots d b 0 epb ++ later_entries d epb bs

-- Slot 0 of the key block holds the header.
abbrev pub all_entries : Disk → ℕ → List ℕ → List ℕ
all_entries d epb [] = []
all_entries d epb (b ∷ bs) = active_slots d b 1 (epb - 1) ++ later_entries d epb bs

-- The byte behind the last slot of a block is not used. A 0 in its upper half is what `NextEntry`
-- relies on, which looks there for one more entry.
abbrev pub IsPadded : Disk → ℕ → ℕ → Type 0
IsPadded d epb a = is_inactive d (image (slot a epb)) ≡ true

-- The directory with its key block at offset `a` and these entries, at the offsets given: the first
-- of the active slots, as many as the header counts.
pub record IsDirectory (d : Disk) (a : ℕ) (entries : List ℕ) : Type 0 where
  pub blocks : List ℕ
  pub spare : List ℕ
  pub key_type :
      ((storage_type d (image (a + 4)) == StorageType.volume_block)
        || (storage_type d (image (a + 4)) == StorageType.subdir_block))
      ≡ true
  pub chain : Chain d a blocks
  pub some_slots : 1 ≤ entries_per_block d (image (a + 4))
  pub padded : All (IsPadded d (entries_per_block d (image (a + 4)))) blocks
  pub listed : all_entries d (entries_per_block d (image (a + 4))) blocks ≡ entries ++ spare
  pub counted : length entries ≡ file_count d (image (a + 4))

-- Slots in a chain of blocks: the rounds that the walk takes at most.
abbrev pub slots_in : ℕ → List ℕ → ℕ
slots_in epb [] = 0
slots_in epb (b ∷ bs) = epb + 1 + slots_in epb bs
