-- ===== src/Directory/Next.antt =====
-- `NextEntry` and `_Open` (source/directory.cxx) against the layout.
use prodosfs.Base.{
  ℕ, ◌+◌, ◌-◌, ◌≤◌, ◌<◌, ◌≡◌, refl, List, [], ◌∷◌, ◌++◌, arith, length, Result, ok, thrown,
  no_more_directory_blocks, ◌∙◌, ap, Err, err_end_of_file, some, none,
}
use mathlib.Core.List.{tail}
use prodosfs.Disk.{Disk, image, Ptr}
use prodosfs.Entry.{entries_per_block, file_count}
use prodosfs.Directory.{Handle, skip_inactive, next_entry, open_key_block}
use prodosfs.Directory.Layout.{
  Chain, active_slots, later_entries, all_entries, slots_in, IsDirectory,
}
use prodosfs.Directory.Cursor.{
  Pending, Pending-chain, standing, Skipped, none_left, found, skip_inactive-Skipped,
  next_slot_here,
}

all_entries-Chain_lem :
    (d : Disk) (epb : ℕ) {a : ℕ} {bs : List ℕ}
    → Chain d a bs
    → all_entries d epb bs ≡ active_slots d a 1 (epb - 1) ++ later_entries d epb (tail bs)
all_entries-Chain_lem d epb (Chain.last z) = refl
all_entries-Chain_lem d epb (Chain.link k next below rest) = refl

-- The handle has `entries` still to deliver, and after them `spare` slots that the header's count
-- leaves out; fuel above `bound` is enough for each call.
pub record Ahead (d : Disk) (bound : ℕ) (h : Handle) (entries spare : List ℕ) : Type 0 where
  pub block : ℕ
  pub steps : ℕ
  pub in_block : h.block ≡ image block
  pub pending :
      Pending d (entries_per_block d h.header) block h.block_index steps (entries ++ spare)
  pub within : steps ≤ bound
  pub counted : h.entry_index + length entries ≡ file_count d h.header

-- When all entries are delivered, `NextEntry` returns a null pointer, sets `err_end_of_file` and
-- leaves the handle as it is.
pub next_entry_end :
    (d : Disk) (bound fuel : ℕ) (err : Err) (h : Handle) (spare : List ℕ)
    → Ahead d bound h [] spare
    → next_entry fuel d err h ≡ ok (none, h, err_end_of_file)
unfolding next_entry
next_entry_end d bound fuel err h spare v = ground (arith, v.counted)

next_entry_found :
    (d : Disk) (epb : ℕ) (header : Ptr) (full : entries_per_block d header ≡ epb)
    (count block i bound fuel s : ℕ) (err : Err) (l : List ℕ)
    → (file_count d header ≡ count → ⊥)
    → Skipped d epb header count bound
        (s ∷ l)
        (skip_inactive fuel d (standing header count block i))
    → (a : ℕ) × (k : ℕ) × (m : ℕ) × (next_entry fuel d err (standing header count block i)
        ≡ ok (some (image s), standing header (count + 1) a k, err))
      × (m < bound)
      × Pending d epb a k m l
unfolding next_entry
next_entry_found d epb header full count block i bound fuel s err l more skipped = go skipped refl
  where
    go :
        {r : Result Handle}
        → Skipped d epb header count bound (s ∷ l) r
        → skip_inactive fuel d (standing header count block i) ≡ r
        → (a : ℕ) × (k : ℕ) × (m : ℕ) × (next_entry fuel d err (standing header count block i)
            ≡ ok (some (image s), standing header (count + 1) a k, err))
          × (m < bound)
          × Pending d epb a k m l
    go (found a k m lt e below p) eq =
        (a, k + 1, m, ground (arith, next_slot_here d epb header full (count + 1) a k lt), below, p)

-- `NextEntry` delivers the entries of a directory in order, one to a call, and keeps the error: with
-- entries still ahead it returns the first of them, and the handle has the others ahead.
pub next_entry-Ahead :
    (d : Disk) (bound fuel : ℕ) (err : Err) (h : Handle) (e : ℕ) (entries spare : List ℕ)
    → Ahead d bound h (e ∷ entries) spare
    → bound < fuel
    → (h' : Handle) × (next_entry fuel d err h ≡ ok (some (image e), h', err))
      × Ahead d bound h' entries spare
next_entry-Ahead d bound fuel err h e entries spare v enough =
    let s =
      skip_inactive-Skipped d (entries_per_block d h.header) h.header refl h.entry_index fuel
        v.block h.block_index v.steps v.pending (omega arith) in
    let (a, k, m, eq, below, p) =
      next_entry_found d (entries_per_block d h.header) h.header refl h.entry_index v.block
        h.block_index v.steps fuel e err (entries ++ spare) (ground (arith, v.counted)) s in
    (
      standing h.header (h.entry_index + 1) a k,
      ap (λ (b : Ptr). next_entry fuel d err (record h { block = b })) v.in_block ∙ eq,
      record {
        block = a;
        steps = m;
        in_block = refl;
        pending = p;
        within = ground (arith, v.within);
        counted = ground (arith, v.counted);
      },
    )

-- If the header counts more entries than the chain has active slots, then past the last of them
-- `NextEntry` throws.
next_entry_short :
    (d : Disk) (fuel : ℕ) (err : Err) (h : Handle) (block steps : ℕ)
    → h.block ≡ image block
    → Pending d (entries_per_block d h.header) block h.block_index steps []
    → (h.entry_index ≡ file_count d h.header → ⊥)
    → steps < fuel
    → next_entry fuel d err h ≡ thrown no_more_directory_blocks
unfolding next_entry
next_entry_short d fuel err h block steps at p more enough =
    ap (λ (b : Ptr). next_entry fuel d err (record h { block = b })) at ∙ go s refl
  where
    s :
        Skipped d
          (entries_per_block d h.header)
          h.header
          h.entry_index
          steps
          []
          (skip_inactive fuel d (standing h.header h.entry_index block h.block_index))
    s =
        skip_inactive-Skipped d (entries_per_block d h.header) h.header refl h.entry_index fuel
          block h.block_index steps p enough

    go :
        {r : Result Handle}
        → Skipped d (entries_per_block d h.header) h.header h.entry_index steps [] r
        → skip_inactive fuel d (standing h.header h.entry_index block h.block_index) ≡ r
        → next_entry fuel d err (standing h.header h.entry_index block h.block_index)
          ≡ thrown no_more_directory_blocks
    go none_left eq = ground arith

-- Opening a directory succeeds, with all its entries ahead; fuel for the slots of its blocks is
-- enough for every call of `NextEntry` on it.
pub open_key_block-Ahead :
    (d : Disk) (a : ℕ) (entries : List ℕ) (v : IsDirectory d a entries)
    → (h : Handle) × (open_key_block d (image a) ≡ ok h)
      × Ahead d (slots_in (entries_per_block d (image (a + 4))) v.blocks) h entries v.spare
unfolding open_key_block
open_key_block-Ahead d a entries v = (
  standing (image (a + 4)) 0 a 1,
  ground (arith, v.key_type),
  record {
    block = a;
    steps = ahead.0;
    in_block = refl;
    pending = rw (← v.listed, all_entries-Chain) ahead.2;
    within = ahead.1;
    counted = omega (arith, v.counted);
  },
)
  where
    epb : ℕ
    epb = entries_per_block d (image (a + 4))

    ahead :
        (m : ℕ) × (m ≤ slots_in epb v.blocks)
        × Pending d epb a 1 m (active_slots d a 1 (epb - 1) ++ later_entries d epb (tail v.blocks))
    ahead = Pending-chain d epb (epb - 1) 1 v.chain (omega (arith, v.some_slots)) v.padded

    all_entries-Chain :
        all_entries d epb v.blocks
        ≡ active_slots d a 1 (epb - 1) ++ later_entries d epb (tail v.blocks)
    all_entries-Chain = all_entries-Chain_lem d epb v.chain
