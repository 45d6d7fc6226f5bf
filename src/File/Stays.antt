-- ===== src/File/Stays.antt =====
-- The handle of a file (source/file.cxx) after `Seek` and `Read` from any state: it is of the same file, and
-- holds the block of some position.
use prodosfs.Base.{
  ℕ, zero, suc, ◌++◌, ◌+◌, ◌-◌, ◌*◌, ◌/◌, ◌%◌, ◌≡◌, refl, false, some, none, List, arith, ltb, min,
  Bool-cases, inl, inr, ℤ, pos, negsuc, Result, ok, thrown, out_of_fuel, ◌>>=◌, Returned,
  Returned->>=, Err,
}
use mathlib.Core.Path.{subst}
use prodosfs.Disk.{Disk, Ptr, plus, loads}
use prodosfs.Block.{get_block}
use prodosfs.Entry.{eof, storage_type, key_pointer}
use prodosfs.Entry.StorageType
use prodosfs.File.{FileHandle, seek, seek_set, find_index, find_content, indexed_block, read_loop}
use prodosfs.File.Content.{block_of}
use prodosfs.File.Seek.{Shape, seedling, sapling, tree, IsAt}

seek_seedling :
    (d : Disk) (err : Err) (h : FileHandle) (offset : ℕ)
    → h.master ≡ none
    → h.index ≡ none
    → ltb (eof d h.entry) offset ≡ false
    → seek d err h (pos offset) seek_set ≡ ok (pos offset, record h { position = offset }, err)
unfolding seek find_index find_content
seek_seedling d err h offset m i e = ground arith

seek_sapling :
    (d : Disk) (err : Err) (h : FileHandle) (offset : ℕ) (i : Ptr)
    → h.master ≡ none
    → h.index ≡ some i
    → ltb (eof d h.entry) offset ≡ false
    → seek d err h (pos offset) seek_set ≡ (
        indexed_block d i (offset / 512) >>= λ b.
        ok (pos offset, record h { position = offset; content = b }, err))
unfolding seek find_index find_content
seek_sapling d err h offset i m eq e = ground arith

seek_tree :
    (d : Disk) (err : Err) (h : FileHandle) (offset : ℕ) (m : Ptr)
    → h.master ≡ some m
    → ltb (eof d h.entry) offset ≡ false
    → seek d err h (pos offset) seek_set ≡ (
        indexed_block d m (offset / 131072) >>= λ i.
        indexed_block d i ((offset - offset / 131072 * 131072) / 512) >>= λ b.
        ok (pos offset, record h { position = offset; index = some i; content = b }, err))
unfolding seek find_index find_content
seek_tree d err h offset m eq e = ground arith

-- The handle is of the same file still, and holds the block of some position.
abbrev pub Stays {ℓ} : {A : Type ℓ} → Disk → Ptr → A × FileHandle × Err → Type 0
Stays d entry (a, h, err) = (h.entry ≡ entry) × ((q : ℕ) × IsAt d h q)

Returned-self {ℓ} : {A : Type ℓ} (m : Result A) → Returned (λ a. m ≡ ok a) m
Returned-self (ok a) = refl
Returned-self (thrown e) = tt
Returned-self out_of_fuel = tt

block_of_seedling :
    (d : Disk) (entry b : Ptr) (k : ℕ)
    → storage_type d entry ≡ StorageType.seedling_file
    → get_block d (pos (key_pointer d entry)) ≡ ok b
    → block_of d entry k ≡ ok b
unfolding block_of
block_of_seedling d entry b k s key = ground arith

block_of_sapling :
    (d : Disk) (entry i b : Ptr) (k : ℕ)
    → storage_type d entry ≡ StorageType.sapling_file
    → get_block d (pos (key_pointer d entry)) ≡ ok i
    → indexed_block d i k ≡ ok b
    → block_of d entry k ≡ ok b
unfolding block_of
block_of_sapling d entry i b k s key e = ground arith

block_of_tree :
    (d : Disk) (entry m i b : Ptr) (offset : ℕ)
    → storage_type d entry ≡ StorageType.tree_file
    → get_block d (pos (key_pointer d entry)) ≡ ok m
    → indexed_block d m (offset / 131072) ≡ ok i
    → indexed_block d i ((offset - offset / 131072 * 131072) / 512) ≡ ok b
    → block_of d entry (offset / 512) ≡ ok b
unfolding block_of
block_of_tree d entry m i b offset s key e e' =
    let first : offset / 512 / 256 ≡ offset / 131072 = omega arith in
    let second : offset / 512 % 256 ≡ (offset - offset / 131072 * 131072) / 512 = omega arith in
    rw (s, key, first, second, e) e'

pub seek-Stays :
    (d : Disk) (err : Err) (h : FileHandle) (offset : ℤ) {p : ℕ}
    → IsAt d h p
    → Returned (Stays d h.entry) (seek d err h offset seek_set)
seek-Stays d err h (negsuc n) {p} at = unfold seek in (refl, (p, at))
seek-Stays d err h (pos offset) {p} at = elim (Bool-cases (ltb (eof d h.entry) offset)) [
  | inl out ↦ unfold seek in rw out (refl, (p, at))
  | inr inside ↦ inside_Stays at.shape inside
]
  where
    inside_Stays :
        Shape d h
        → ltb (eof d h.entry) offset ≡ false
        → Returned (Stays d h.entry) (seek d err h (pos offset) seek_set)
    inside_Stays (seedling s m i key) e = rw (seek_seedling d err h offset m i e) (
      refl,
      (
        offset,
        record {
          shape = seedling s m i key;
          placed = refl;
          loaded = block_of_seedling d h.entry _ _ s key;
        },
      ),
    )
    inside_Stays (sapling i s m eq key) e = rw (seek_sapling d err h offset i m eq e) (
        Returned->>= (λ b. indexed_block d i (offset / 512) ≡ ok b) (Stays d h.entry)
          (indexed_block d i (offset / 512)) _ (Returned-self _)
          (λ b got. (
            refl,
            (
              offset,
              record {
                shape = sapling i s m eq key;
                placed = refl;
                loaded = block_of_sapling d h.entry i b _ s key got;
              },
            ),
          )))
    inside_Stays (tree m i s eq eq' key) e = rw (seek_tree d err h offset m eq e) (
        Returned->>= (λ i. indexed_block d m (offset / 131072) ≡ ok i) (Stays d h.entry)
          (indexed_block d m (offset / 131072)) _ (Returned-self _)
          (λ i' got.
            Returned->>=
              (λ b. indexed_block d i' ((offset - offset / 131072 * 131072) / 512) ≡ ok b)
              (Stays d h.entry) (indexed_block d i' ((offset - offset / 131072 * 131072) / 512)) _
              (Returned-self _)
              (λ b got'. (
                refl,
                (
                  offset,
                  record {
                    shape = tree m i' s eq refl key;
                    placed = refl;
                    loaded = block_of_tree d h.entry m i' b offset s key got got';
                  },
                ),
              ))))

pub read_loop-Stays :
    (fuel : ℕ) (d : Disk) (err : Err) (h : FileHandle) (size : ℕ) (copied : List ℕ) {p : ℕ}
    → IsAt d h p
    → Returned (Stays d h.entry) (read_loop fuel d err h size copied)
unfolding read_loop
read_loop-Stays zero d err h zero copied {p} at = (refl, (p, at))
read_loop-Stays (suc fuel) d err h zero copied {p} at = (refl, (p, at))
read_loop-Stays zero d err h (suc size) copied at = tt
read_loop-Stays (suc fuel) d err h (suc size) copied at =
    let n : ℕ = min (suc size) (512 - h.position % 512) in
    let bytes : List ℕ = copied ++ loads d (plus h.content (h.position % 512)) 0 n in
    Returned->>= (Stays d h.entry) (Stays d h.entry) (seek d err h (pos (h.position + n)) seek_set)
      _ (seek-Stays d err h (pos (h.position + n)) at)
      (λ (r, h', err') (same, (q, at')).
        subst (λ e. Returned (Stays d e) (read_loop fuel d err' h' (suc size - n) bytes)) same
          (read_loop-Stays fuel d err' h' (suc size - n) bytes at'))
