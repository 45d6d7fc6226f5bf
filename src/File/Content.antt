-- ===== src/File/Content.antt =====
-- The contents of a file by the ProDOS format: which block holds a byte, by storage type.
use prodosfs.Base.{
  ℕ, zero, suc, ◌+◌, ◌/◌, ◌%◌, ◌≤◌, ◌≡◌, refl, ap, ◌∙◌, sym, List, [], ◌∷◌, ◌++◌, arith, pos,
  Result, ok, ◌>>=◌, ◌==◌, if◌then◌else◌, thrown, unexpected_storage_type,
}
use native.Mathlib.Nat.{add_assoc, add-zero}
use mathlib.Core.Path.{ap₂}
use prodosfs.Disk.{Disk, Ptr, null, image, sparse, plus, load, loads}
use prodosfs.Block.{get_block}
use prodosfs.Entry.{storage_type, key_pointer}
use prodosfs.Entry.StorageType
use prodosfs.File.{indexed_block}

-- Block `k` of the file at an entry: the key block itself, the one that the key block names, or
-- the one that the index block names which the master index block names for each 256 blocks.
unfoldable pub block_of : Disk → Ptr → ℕ → Result Ptr
block_of d entry k =
    let key = get_block d (pos (key_pointer d entry)) in
    if storage_type d entry == StorageType.seedling_file
    then key
    else if storage_type d entry == StorageType.sapling_file
    then (do i ← key; indexed_block d i k)
    else if storage_type d entry == StorageType.tree_file
    then (do m ← key; i ← indexed_block d m (k / 256); indexed_block d i (k % 256))
    else thrown unexpected_storage_type

-- The blocks of a file up to number `n` are these.
abbrev pub IsMapped : Disk → Ptr → (ℕ → Ptr) → ℕ → Type 0
IsMapped d entry blocks n = (k : ℕ) → k ≤ n → block_of d entry k ≡ ok (blocks k)

-- `n` bytes of a file with these blocks, from position `p` on.
abbrev pub file_bytes : Disk → (ℕ → Ptr) → ℕ → ℕ → List ℕ
file_bytes d blocks p zero = []
file_bytes d blocks p (suc n) =
    load d (plus (blocks (p / 512)) (p % 512)) ∷ file_bytes d blocks (p + 1) n

plus-plus : (p : Ptr) (x y : ℕ) → plus (plus p x) y ≡ plus p (x + y)
plus-plus null x y = refl
plus-plus (image a) x y = ap image (add_assoc a x y)
plus-plus (sparse a) x y = ap sparse (add_assoc a x y)

pub file_bytes-append :
    (d : Disk) (blocks : ℕ → Ptr) (p n m : ℕ)
    → file_bytes d blocks p (n + m) ≡ file_bytes d blocks p n ++ file_bytes d blocks (p + n) m
file_bytes-append d blocks p zero m =
    let e : 0 + m ≡ m = omega arith in let e' : p + 0 ≡ p = omega arith in rw (e, e')
file_bytes-append d blocks p (suc n) m =
    let e : suc n + m ≡ suc (n + m) = omega arith in
    let e' : p + suc n ≡ p + 1 + n = omega arith in
    rw (e, e')
      (ap (λ t. load d (plus (blocks (p / 512)) (p % 512)) ∷ t)
        (file_bytes-append d blocks (p + 1) n m))

loads_within :
    (d : Disk) (blocks : ℕ → Ptr) (p : ℕ) (n j : ℕ)
    → p % 512 + j + n ≤ 512
    → loads d (plus (blocks (p / 512)) (p % 512)) j n ≡ file_bytes d blocks (p + j) n
unfolding loads
loads_within d blocks p zero j le = refl
loads_within d blocks p (suc n) j le =
    let same : (p + j) / 512 ≡ p / 512 = omega arith in
    let at : (p + j) % 512 ≡ p % 512 + j = omega arith in
    let next : p + j + 1 ≡ p + (j + 1) = omega arith in
    ap₂ ◌∷◌ (rw (same, at, plus-plus (blocks (p / 512)) (p % 512) j)) (
      loads_within d blocks p n (j + 1) (omega arith)
      ∙ ap (λ t. file_bytes d blocks t n) (sym next))

-- A copy that stays in one block copies bytes of the file.
pub loads-file_bytes :
    (d : Disk) (blocks : ℕ → Ptr) (p n : ℕ)
    → p % 512 + n ≤ 512
    → loads d (plus (blocks (p / 512)) (p % 512)) 0 n ≡ file_bytes d blocks p n
loads-file_bytes d blocks p n le =
    loads_within d blocks p n 0 (omega arith) ∙ ap (λ t. file_bytes d blocks t n) (add-zero p)
