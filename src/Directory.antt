-- ===== src/Directory.antt =====
-- source/directory.cxx: the handle that walks through the entries of a directory.
-- The block chain on a disk may be a cycle of inactive entries, on which the loop of `NextEntry`
-- never ends; it takes fuel.
pub mod Layout
pub mod Cursor
pub mod Next
pub mod Cycles
use prodosfs.Base.{
  ℕ, zero, suc, ◌+◌, ◌*◌, Bool, true, false, not, ◌&&◌, ◌||◌, Option, none, some, ltb, ◌==◌,
  if◌then◌else◌, pos, Result, ok, thrown, out_of_fuel, ◌>>=◌, Err, err_end_of_file,
  no_more_directory_blocks, not_a_directory_key_block,
}
use prodosfs.Disk.{Disk, Ptr, null, plus, le_read16}
use prodosfs.Block.{get_block}
use prodosfs.Entry.{storage_type, is_inactive, entries_per_block, file_count}
use prodosfs.Entry.StorageType

pub record Handle : Type 0 where
  pub header : Ptr
  pub block : Ptr
  pub block_index : ℕ
  pub entry_index : ℕ

-- `&block->any.entry[i]`: the entries follow the two block numbers.
abbrev pub entry_at : Ptr → ℕ → Ptr
entry_at block i = plus block (4 + i * 39)

-- `_Open` sets every field, so it is the constructor too.
unfoldable pub open_key_block : Disk → Ptr → Result Handle
open_key_block d key_block =
    let type = storage_type d (plus key_block 4) in
    if not (type == StorageType.volume_block) && not (type == StorageType.subdir_block)
    then thrown not_a_directory_key_block
    else ok
        (record { header = plus key_block 4; block = key_block; block_index = 1; entry_index = 0 })

-- `_Next`.
unfoldable pub next_slot : Disk → Handle → Result Handle
next_slot d h =
    if ltb h.block_index (entries_per_block d h.header)
    then ok (record h { block_index = h.block_index + 1 })
    else let next_block = le_read16 d (plus h.block 2) in
      if next_block == 0
      then thrown no_more_directory_blocks
      else (do b ← get_block d (pos next_block); ok (record h { block = b; block_index = 0 }))

-- The loop of `NextEntry` over the inactive entries.
unfoldable pub skip_inactive : ℕ → Disk → Handle → Result Handle
skip_inactive zero d h = out_of_fuel
skip_inactive (suc fuel) d h =
    let rest = next_slot d h >>= skip_inactive fuel d in
    if is_inactive d (entry_at h.block h.block_index) then rest else ok h

-- The entry or a null pointer, the handle, and the thread's error.
unfoldable pub next_entry : ℕ → Disk → Err → Handle → Result (Option Ptr × Handle × Err)
next_entry fuel d err h =
    if h.entry_index == file_count d h.header then ok (none, h, err_end_of_file) else (do
      found ← skip_inactive fuel d h
      after ← next_slot d (record found { entry_index = found.entry_index + 1 })
      ok (some (entry_at found.block found.block_index), after, err))

pub close : Handle → Handle
close h = record { header = null; block = null; block_index = 0; entry_index = 0 }
