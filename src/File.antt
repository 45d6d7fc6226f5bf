-- ===== src/File.antt =====
-- source/file.cxx and include/prodos/file.hxx: index blocks and file handles.
-- `_master` and `_index` are null pointers (`none`) where the storage type has no such block. A
-- handle's `_context` is the disk that each operation takes.
pub mod Content
pub mod Seek
pub mod Read
pub mod End
pub mod Stays
use prodosfs.Base.{
  ℕ, zero, suc, ◌+◌, ◌-◌, ◌*◌, ◌/◌, ◌%◌, ◌^◌, Bool, true, false, Option, none, some, List, [], ◌∷◌,
  ◌++◌, ltb, leb, ◌==◌, if◌then◌else◌, min, bit_or, ℤ, pos, negsuc, Result, ok, thrown, out_of_fuel,
  ◌>>=◌, Err, err_position_out_of_range, invalid_index, unexpected_storage_type, only_seek_set,
}
use prodosfs.Disk.{Disk, Ptr, null, plus, load, loads}
use prodosfs.Block.{get_block}
use prodosfs.Entry.{storage_type, key_pointer, eof, file_type}
use prodosfs.Entry.StorageType

pub record FileHandle : Type 0 where
  pub entry : Ptr
  pub master : Option Ptr
  pub index : Option Ptr
  pub content : Ptr
  pub position : ℕ

-- `index_block_t::At`: the two halves of a block hold the low and the high bytes.
unfoldable pub index_at : Disk → Ptr → ℤ → Result ℕ
index_at d block (negsuc i) = thrown invalid_index
index_at d block (pos i) =
    if ltb 255 i
    then thrown invalid_index
    else ok (bit_or (load d (plus block (256 + i)) * 2 ^ 8) (load d (plus block i)))

-- `GetBlock` of the block that an index block names.
unfoldable pub indexed_block : Disk → Ptr → ℕ → Result Ptr
indexed_block d block i = do n ← index_at d block (pos i); get_block d (pos n)

-- The constructor.
unfoldable pub open_handle : Disk → Ptr → Result FileHandle
open_handle d entry =
    let seedling = (do
      b ← get_block d (pos (key_pointer d entry))
      ok (record { entry = entry; master = none; index = none; content = b; position = 0 })) in
    let sapling = (do
      i ← get_block d (pos (key_pointer d entry))
      b ← indexed_block d i 0
      ok (record { entry = entry; master = none; index = some i; content = b; position = 0 })) in
    let tree = (do
      m ← get_block d (pos (key_pointer d entry))
      i ← indexed_block d m 0
      b ← indexed_block d i 0
      ok (record { entry = entry; master = some m; index = some i; content = b; position = 0 })) in
    if storage_type d entry == StorageType.seedling_file
    then seedling
    else if storage_type d entry == StorageType.sapling_file
    then sapling
    else if storage_type d entry == StorageType.tree_file
    then tree
    else thrown unexpected_storage_type

pub close : FileHandle → FileHandle
close h = record { entry = null; master = none; index = none; content = null; position = 0 }

unfoldable pub type : Disk → FileHandle → ℕ
type d h = file_type d h.entry

unfoldable pub at_eof : Disk → FileHandle → Bool
at_eof d h = h.position == eof d h.entry

pub data Whence : Type 0 where
  seek_set seek_cur seek_end : Whence

abbrev pub bytes_per_index_block : ℕ
bytes_per_index_block = 131072

-- The two block look-ups of `Seek`, after the position is set; the offset is what the first leaves.
unfoldable pub find_index : Disk → FileHandle → ℕ → Result (FileHandle × ℕ)
find_index d h offset = elim h.master [
  | none ↦ ok (h, offset)
  | some m ↦ (do
    i ← indexed_block d m (offset / bytes_per_index_block)
    ok (
      record h { index = some i },
      offset - offset / bytes_per_index_block * bytes_per_index_block,
    ))
]

unfoldable pub find_content : Disk → FileHandle → ℕ → Result FileHandle
find_content d h offset = elim h.index [
  | none ↦ ok h
  | some i ↦ (do b ← indexed_block d i (offset / 512); ok (record h { content = b }))
]

-- The new position or -1, the handle, and the thread's error.
unfoldable pub seek : Disk → Err → FileHandle → ℤ → Whence → Result (ℤ × FileHandle × Err)
seek d err h offset seek_cur = thrown only_seek_set
seek d err h offset seek_end = thrown only_seek_set
seek d err h (negsuc n) seek_set = ok (negsuc 0, h, err_position_out_of_range)
seek d err h (pos offset) seek_set =
    let go = (do
      (h', offset') ← find_index d (record h { position = offset }) offset
      h'' ← find_content d h' offset'
      ok (pos h''.position, h'', err)) in
    if ltb (eof d h.entry) offset then ok (negsuc 0, h, err_position_out_of_range) else go

-- The loop of `Read`, with the bytes copied so far. Each round copies at least one, so the size is
-- fuel enough.
unfoldable pub read_loop :
    ℕ → Disk → Err → FileHandle → ℕ → List ℕ → Result (List ℕ × FileHandle × Err)
read_loop fuel d err h zero copied = ok (copied, h, err)
read_loop zero d err h (suc size) copied = out_of_fuel
read_loop (suc fuel) d err h (suc size) copied = do
  let index = h.position % 512
  let to_copy = min (suc size) (512 - index)
  let copied' = copied ++ loads d (plus h.content index) 0 to_copy
  (r, h', err') ← seek d err h (pos (h.position + to_copy)) seek_set
  read_loop fuel d err' h' (suc size - to_copy) copied'

-- The bytes copied to the buffer, as many as `Read` says that it read.
unfoldable pub read : Disk → Err → FileHandle → ℕ → Result (List ℕ × FileHandle × Err)
read d err h size = read_loop size d err h size []
