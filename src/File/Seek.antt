-- ===== src/File/Seek.antt =====
-- `Seek` and the constructor of a file handle (source/file.cxx).
use prodosfs.Base.{
  ℕ, ◌-◌, ◌*◌, ◌/◌, ◌%◌, ◌≤◌, ◌<◌, ◌≡◌, refl, none, some, arith, pos, negsuc, ℤ, ok, ◌>>=◌, >>=-ok,
  Bool-cases, inl, inr, ==_iff, ◌==◌, Err, err_position_out_of_range,
}
use mathlib.Core.Path.{subst}
use prodosfs.Disk.{Disk, Ptr}
use prodosfs.Block.{get_block}
use prodosfs.Entry.{storage_type, key_pointer, eof}
use prodosfs.Entry.StorageType
use prodosfs.File.{FileHandle, indexed_block, seek, seek_set, find_index, find_content, open_handle}
use prodosfs.File.Content.{block_of}

-- The index blocks that a handle holds fit its file's storage type.
pub data Shape (d : Disk) (h : FileHandle) : Type 0 where
  seedling :
      storage_type d h.entry ≡ StorageType.seedling_file
      → h.master ≡ none
      → h.index ≡ none
      → get_block d (pos (key_pointer d h.entry)) ≡ ok h.content
      → Shape d h
  sapling :
      (i : Ptr)
      → storage_type d h.entry ≡ StorageType.sapling_file
      → h.master ≡ none
      → h.index ≡ some i
      → get_block d (pos (key_pointer d h.entry)) ≡ ok i
      → Shape d h
  tree :
      (m i : Ptr)
      → storage_type d h.entry ≡ StorageType.tree_file
      → h.master ≡ some m
      → h.index ≡ some i
      → get_block d (pos (key_pointer d h.entry)) ≡ ok m
      → Shape d h

-- The handle is at a position, and holds the block of that position.
pub record IsAt (d : Disk) (h : FileHandle) (p : ℕ) : Type 0 where
  pub shape : Shape d h
  pub placed : h.position ≡ p
  pub loaded : block_of d h.entry (p / 512) ≡ ok h.content

-- An offset outside the file gives -1 and `err_position_out_of_range`, and the handle stays as it is.
seek_outside :
    (d : Disk) (err : Err) (h : FileHandle) (offset : ℤ)
    → ((n : ℕ) → offset ≡ pos n → eof d h.entry < n)
    → seek d err h offset seek_set ≡ ok (negsuc 0, h, err_position_out_of_range)
unfolding seek
seek_outside d err h (negsuc n) out = refl
seek_outside d err h (pos n) out = ground (arith, out n refl)

-- A tree file's block, by its master index block.
block_of_tree :
    (d : Disk) (entry m b : Ptr) (offset : ℕ)
    → storage_type d entry ≡ StorageType.tree_file
    → get_block d (pos (key_pointer d entry)) ≡ ok m
    → block_of d entry (offset / 512) ≡ ok b
    → (i : Ptr) × (indexed_block d m (offset / 131072) ≡ ok i)
      × (indexed_block d i ((offset - offset / 131072 * 131072) / 512) ≡ ok b)
unfolding block_of
block_of_tree d entry m b offset s key e =
    let first : offset / 512 / 256 ≡ offset / 131072 = omega arith in
    let second : offset / 512 % 256 ≡ (offset - offset / 131072 * 131072) / 512 = omega arith in
    let chain : (indexed_block d m (offset / 131072) >>= λ i.
    indexed_block d i ((offset - offset / 131072 * 131072) / 512))
        ≡ ok b =
      rw (s, key, first, second) at e in
    >>=-ok (indexed_block d m (offset / 131072)) _ chain

-- With an offset up to the end of the file whose block can be read, `Seek` returns the offset, keeps
-- the entry and the error, and leaves the handle there with the block of that position.
pub seek-IsAt :
    (d : Disk) (err : Err) (h : FileHandle) (offset : ℕ) (b : Ptr)
    → Shape d h
    → offset ≤ eof d h.entry
    → block_of d h.entry (offset / 512) ≡ ok b
    → (h' : FileHandle) × (seek d err h (pos offset) seek_set ≡ ok (pos offset, h', err))
      × (h'.entry ≡ h.entry)
      × (h'.content ≡ b)
      × IsAt d h' offset
unfolding seek find_index find_content block_of
seek-IsAt d err h offset b (seedling s m i key) le e = (
  record h { position = offset },
  ground arith,
  refl,
  ground arith,
  record { shape = seedling s m i key; placed = refl; loaded = ground arith },
)
seek-IsAt d err h offset b (sapling i s m eq key) le e = (
  record h { position = offset; content = b },
  ground arith,
  refl,
  refl,
  record { shape = sapling i s m eq key; placed = refl; loaded = ground arith },
)
seek-IsAt d err h offset b (tree m i s eq eq' key) le e =
    let (i', e', e'') = block_of_tree d h.entry m b offset s key e in
    (
      record h { position = offset; index = some i'; content = b },
      ground arith,
      refl,
      refl,
      record { shape = tree m i' s eq refl key; placed = refl; loaded = e },
    )

-- The constructor returns for each file whose first block can be read, and leaves the handle at
-- position 0 with that block.
pub open_handle-IsAt :
    (d : Disk) (entry b : Ptr)
    → block_of d entry 0 ≡ ok b
    → (h : FileHandle) × (open_handle d entry ≡ ok h)
      × (h.entry ≡ entry)
      × (h.content ≡ b)
      × IsAt d h 0
unfolding open_handle block_of
open_handle-IsAt d entry b e = elim (Bool-cases (storage_type d entry == 1)) [
  | inl is_seedling ↦
      let key : get_block d (pos (key_pointer d entry)) ≡ ok b = rw is_seedling at e in
      (
        record { entry = entry; master = none; index = none; content = b; position = 0 },
        rw (is_seedling, key),
        refl,
        refl,
        record {
          shape = seedling ((==_iff _ 1).0 is_seedling) refl refl key;
          placed = refl;
          loaded = e;
        },
      )
  | inr not_seedling ↦ elim (Bool-cases (storage_type d entry == 2)) [
    | inl is_sapling ↦
        let (i, key, e') =
          >>=-ok (get_block d (pos (key_pointer d entry))) (λ i. indexed_block d i 0)
            (rw (not_seedling, is_sapling) at e) in
        (
          record { entry = entry; master = none; index = some i; content = b; position = 0 },
          rw (not_seedling, is_sapling, key, e'),
          refl,
          refl,
          record {
            shape = sapling i ((==_iff _ 2).0 is_sapling) refl refl key;
            placed = refl;
            loaded = e;
          },
        )
    | inr not_sapling ↦ elim (Bool-cases (storage_type d entry == 3)) [
      | inl is_tree ↦
          let (m, key, e') =
            >>=-ok (get_block d (pos (key_pointer d entry)))
              (λ m. indexed_block d m 0 >>= λ i. indexed_block d i 0)
              (rw (not_seedling, not_sapling, is_tree) at e) in
          let (i, e'', e3) = >>=-ok (indexed_block d m 0) (λ i. indexed_block d i 0) e' in
          (
            record { entry = entry; master = some m; index = some i; content = b; position = 0 },
            rw (not_seedling, not_sapling, is_tree, key, e'', e3),
            refl,
            refl,
            record {
              shape = tree m i ((==_iff _ 3).0 is_tree) refl refl key;
              placed = refl;
              loaded = e;
            },
          )
      | inr other ↦ ground arith
    ]
  ]
]

open_handle-block_of :
    (d : Disk) (entry : Ptr) (h : FileHandle)
    → open_handle d entry ≡ ok h
    → block_of d entry 0 ≡ ok h.content
unfolding open_handle block_of
open_handle-block_of d entry h e = ground arith

-- What the constructor returns is a handle of the entry at position 0, with the block of that position.
pub open_handle-returned :
    (d : Disk) (entry : Ptr) (h : FileHandle)
    → open_handle d entry ≡ ok h
    → (h.entry ≡ entry) × IsAt d h 0
open_handle-returned d entry h e =
    let (h', opened, of_entry, content, at) =
      open_handle-IsAt d entry h.content (open_handle-block_of d entry h e) in
    let same : h' ≡ h = cc in (cc, subst (λ k. IsAt d k 0) same at)
