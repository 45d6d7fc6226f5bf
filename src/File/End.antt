-- ===== src/File/End.antt =====
-- `Read` and `Seek` (source/file.cxx) at and past the end of a file.
use prodosfs.Base.{
  ℕ, zero, suc, ◌+◌, ◌-◌, ◌/◌, ◌%◌, ◌≤◌, ◌<◌, ◌≡◌, Option, none, some, List, [], ◌++◌, arith, pos,
  negsuc, Result, ok, ◌>>=◌, thrown, out_of_fuel, Err, err_position_out_of_range, length,
  length-append, min, Bool-cases, inl, inr, ltb, invalid_index, leb,
}
use mathlib.Core.Path.{subst}
use prodosfs.Disk.Blocks.{length-loads}
use prodosfs.Disk.{Disk, Ptr, plus, loads, read_block}
use prodosfs.Block.{get_block}
use prodosfs.Entry.{eof, storage_type}
use prodosfs.Entry.StorageType
use prodosfs.File.{
  FileHandle, seek, seek_set, read, read_loop, index_at, indexed_block, find_index, find_content,
}
use prodosfs.File.Seek.{Shape, IsAt}
use prodosfs.File.Read.{read_loop-zero}

-- The call ends, with a value that has the property or with an exception.
abbrev pub Ends : {A : Type 0} → (A → Type 0) → Result A → Type 0
Ends P (ok a) = P a
Ends P (thrown e) = Unit
Ends P out_of_fuel = ⊥

Ends->>= :
    {A B : Type 0} (P : A → Type 0) (Q : B → Type 0) (m : Result A) (f : A → Result B)
    → Ends P m
    → ((a : A) → P a → Ends Q (f a))
    → Ends Q (m >>= f)
Ends->>= P Q (ok a) f h k = k a h
Ends->>= P Q (thrown e) f h k = tt
Ends->>= P Q out_of_fuel f h k = absurd h

abbrev Any : {A : Type 0} → A → Type 0
Any a = Unit

get_block-Ends : (d : Disk) (n : ℕ) → Ends Any (get_block d (pos n))
unfolding get_block read_block
get_block-Ends d zero = tt
get_block-Ends d (suc n) = elim (Bool-cases (leb d.num_blocks (suc n))) [
  | inl e ↦ rw e tt
  | inr e ↦ rw e tt
]

indexed_block-Ends : (d : Disk) (b : Ptr) (i : ℕ) → Ends Any (indexed_block d b i)
unfolding indexed_block index_at
indexed_block-Ends d b i = elim (Bool-cases (ltb 255 i)) [
  | inl e ↦ rw e tt
  | inr e ↦ rw e (get_block-Ends d _)
]

find_content-Ends : (d : Disk) (h : FileHandle) (offset : ℕ) → Ends Any (find_content d h offset)
find_content-Ends d h offset = go h.index
  where
    go : (i : Option Ptr) → Ends Any (find_content d (record h { index = i }) offset)
    go none = unfold find_content in tt
    go (some i) =
        unfold find_content in
        Ends->>= Any Any (indexed_block d i (offset / 512)) _
          (indexed_block-Ends d i (offset / 512)) (λ b _. tt)

find_index-Ends : (d : Disk) (h : FileHandle) (offset : ℕ) → Ends Any (find_index d h offset)
find_index-Ends d h offset = go h.master
  where
    go : (m : Option Ptr) → Ends Any (find_index d (record h { master = m }) offset)
    go none = unfold find_index in tt
    go (some m) =
        unfold find_index in
        Ends->>= Any Any (indexed_block d m (offset / 131072)) _
          (indexed_block-Ends d m (offset / 131072)) (λ b _. tt)

seek-Ends :
    (d : Disk) (err : Err) (h : FileHandle) (offset : ℕ)
    → Ends Any (seek d err h (pos offset) seek_set)
unfolding seek
seek-Ends d err h offset = elim (Bool-cases (ltb (eof d h.entry) offset)) [
  | inl e ↦ rw e tt
  | inr e ↦ rw e (
      Ends->>= Any Any (find_index d (record h { position = offset }) offset) _
        (find_index-Ends d (record h { position = offset }) offset)
        (λ (h', offset') _.
          Ends->>= Any Any (find_content d h' offset') _ (find_content-Ends d h' offset')
            (λ h'' _. tt)))
]

abbrev pub HasLength : ℕ → List ℕ × FileHandle × Err → Type 0
HasLength n r = length r.0 ≡ n

read_loop-Ends :
    (fuel : ℕ) (d : Disk) (err : Err) (h : FileHandle) (size : ℕ) (copied : List ℕ)
    → size ≤ fuel
    → Ends (HasLength (length copied + size)) (read_loop fuel d err h size copied)
unfolding read_loop
read_loop-Ends zero d err h zero copied le = omega arith
read_loop-Ends (suc fuel) d err h zero copied le = omega arith
read_loop-Ends zero d err h (suc size) copied le = absurd (omega arith)
read_loop-Ends (suc fuel) d err h (suc size) copied le =
    let n : ℕ = min (suc size) (512 - h.position % 512) in
    let bytes : List ℕ = loads d (plus h.content (h.position % 512)) 0 n in
    let len : length (copied ++ bytes) + (suc size - n) ≡ length copied + suc size =
      omega (
        arith,
        length-append copied bytes,
        length-loads d (plus h.content (h.position % 512)) 0 n,
      ) in
    Ends->>= Any (HasLength (length copied + suc size))
      (seek d err h (pos (h.position + n)) seek_set) _ (seek-Ends d err h (h.position + n))
      (λ (r, h', err') _.
        rw (← len) (read_loop-Ends fuel d err' h' (suc size - n) (copied ++ bytes) (omega arith)))

-- `Read` always ends, and unless it throws it returns exactly as many bytes as were asked for: at
-- the end of the file too it never returns fewer, or none.
pub read-HasLength :
    (d : Disk) (err : Err) (h : FileHandle) (size : ℕ) → Ends (HasLength size) (read d err h size)
unfolding read
read-HasLength d err h size =
    let e : 0 + size ≡ size = omega arith in
    subst (λ n. Ends (HasLength n) (read_loop size d err h size [])) e
      (read_loop-Ends size d err h size [] (omega arith))

-- A read of at least one byte that would pass the end of the file, and that lies within one block by
-- the handle's position, copies bytes from behind the end of the file as well, as many as were asked
-- for; the handle stays where it was, and the error is `err_position_out_of_range`.
pub read_past_end :
    (d : Disk) (err : Err) (h : FileHandle) (size : ℕ)
    → 0 < size
    → h.position % 512 + size ≤ 512
    → eof d h.entry < h.position + size
    → read d err h size
      ≡ ok (loads d (plus h.content (h.position % 512)) 0 size, h, err_position_out_of_range)
unfolding read
read_past_end d err h zero pos_size fits past = absurd (omega arith)
read_past_end d err h (suc size) _ fits past =
    let whole : min (suc size) (512 - h.position % 512) ≡ suc size = omega arith in
    let none_left : suc size - suc size ≡ 0 = omega arith in
    let stays : seek d err h (pos (h.position + suc size)) seek_set
        ≡ ok (negsuc 0, h, err_position_out_of_range) =
      unfold seek in ground arith in
    unfold read_loop in rw (whole, stays, none_left) (read_loop-zero size d _ h _)

-- A seek in a file with one index block to the end of its 256 blocks throws, though the offset is
-- no larger than the file: for the largest such file, to its end.
seek_sapling_end :
    (d : Disk) (err : Err) (h : FileHandle) (i : Ptr) (offset : ℕ)
    → h.master ≡ none
    → h.index ≡ some i
    → 131072 ≤ offset
    → offset ≤ eof d h.entry
    → seek d err h (pos offset) seek_set ≡ thrown invalid_index
unfolding seek find_index find_content indexed_block index_at
seek_sapling_end d err h i offset no_master index le le' = ground arith

-- Reading the last bytes of a sapling file of the largest size, 131072 bytes, throws "invalid
-- index": when the last round comes to the end, the seek behind it asks for a 257th block.
read_largest_sapling :
    (d : Disk) (err : Err) (h : FileHandle) (p size : ℕ)
    → IsAt d h p
    → storage_type d h.entry ≡ StorageType.sapling_file
    → eof d h.entry ≡ 131072
    → 0 < size
    → p + size ≡ 131072
    → p % 512 + size ≤ 512
    → read d err h size ≡ thrown invalid_index
unfolding read
read_largest_sapling d err h p zero at s e pos_size end fits = absurd (omega arith)
read_largest_sapling d err h p (suc size) at s e _ end fits = go at.shape
  where
    go : Shape d h → read_loop (suc size) d err h (suc size) [] ≡ thrown invalid_index
    go (Shape.seedling s' m i key) = absurd (omega arith)
    go (Shape.tree m i s' eq eq' key) = absurd (omega arith)
    go (Shape.sapling i s' m index key) =
        let placed : h.position ≡ p = at.placed in
        let whole : min (suc size) (512 - h.position % 512) ≡ suc size = rw placed (omega arith) in
        let stops : seek d err h (pos (h.position + suc size)) seek_set ≡ thrown invalid_index =
          seek_sapling_end d err h i (h.position + suc size) m index (omega arith) (omega arith) in
        unfold read_loop in rw (whole, stops)
