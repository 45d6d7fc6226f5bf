-- ===== src/File/Read.antt =====
-- `Read` (source/file.cxx) against the bytes of the file.
use prodosfs.Base.{
  ℕ, zero, suc, ◌+◌, ◌-◌, ◌/◌, ◌%◌, ◌≤◌, ◌≡◌, refl, ap, ◌∙◌, sym, List, [], ◌++◌, arith, pos, ℤ, ok,
  Err, min,
}
use mathlib.Core.Path.{subst, ap₂}
use mathlib.Core.List.{append_assoc, append-nil}
use native.Mathlib.Nat.{le_refl}
use prodosfs.Disk.{Disk, Ptr, plus, loads}
use prodosfs.Entry.{eof}
use prodosfs.File.{FileHandle, seek, seek_set, read, read_loop}
use prodosfs.File.Content.{block_of, IsMapped, file_bytes, file_bytes-append, loads-file_bytes}
use prodosfs.File.Seek.{IsAt, seek-IsAt}

-- How many bytes a round copies.
abbrev chunk : ℕ → ℕ → ℕ
chunk p size = min size (512 - p % 512)

read_loop-suc :
    (fuel : ℕ) (d : Disk) (err : Err) (h h' : FileHandle) (size : ℕ) (copied : List ℕ) (r : ℤ)
    (err' : Err)
    → seek d err h (pos (h.position + chunk h.position (suc size))) seek_set ≡ ok (r, h', err')
    → read_loop (suc fuel) d err h (suc size) copied
      ≡ read_loop fuel d err' h'
          (suc size - chunk h.position (suc size))
          (copied ++ loads d (plus h.content (h.position % 512)) 0 (chunk h.position (suc size)))
unfolding read_loop
read_loop-suc fuel d err h h' size copied r err' e = rw e

pub read_loop-zero :
    (fuel : ℕ) (d : Disk) (err : Err) (h : FileHandle) (copied : List ℕ)
    → read_loop fuel d err h 0 copied ≡ ok (copied, h, err)
unfolding read_loop
read_loop-zero zero d err h copied = refl
read_loop-zero (suc fuel) d err h copied = refl

content-eq :
    {d : Disk} {h : FileHandle} {p : ℕ} {b : Ptr}
    → IsAt d h p
    → block_of d h.entry (p / 512) ≡ ok b
    → h.content ≡ b
content-eq {d} {h} {p} at e = ok-injective (sym at.loaded ∙ e)
  where
    ok-injective : {x y : Ptr} → ok x ≡ ok y → x ≡ y
    ok-injective q = cc

module _ (d : Disk) (err : Err) (entry : Ptr) (blocks : ℕ → Ptr) (last : ℕ)
    (mapped : IsMapped d entry blocks last) where
  -- A round that copies `n` bytes, within the block and the file.
  round_of :
      (fuel : ℕ) (h : FileHandle) (p size n : ℕ) (copied : List ℕ)
      → n ≡ chunk p (suc size)
      → h.entry ≡ entry
      → IsAt d h p
      → p + n ≤ eof d entry
      → (p + n) / 512 ≤ last
      → (h' : FileHandle) × (read_loop (suc fuel) d err h (suc size) copied
          ≡ read_loop fuel d err h' (suc size - n) (copied ++ file_bytes d blocks p n))
        × (h'.entry ≡ entry)
        × IsAt d h' (p + n)
  round_of fuel h p size n copied is_chunk same at le le' =
      let placed : h.position ≡ p = at.placed in
      let to : h.position + chunk h.position (suc size) ≡ p + n = rw (placed, is_chunk) in
      let (h', moved, same', content, at') =
        seek-IsAt d err h (p + n) (blocks ((p + n) / 512)) at.shape (rw same le)
          (rw same (mapped ((p + n) / 512) le')) in
      let held : h.content ≡ blocks (p / 512) =
        content-eq at (rw same (mapped (p / 512) (omega arith))) in
      let bytes : loads d (plus h.content (h.position % 512)) 0 (chunk h.position (suc size))
          ≡ file_bytes d blocks p n =
        rw (placed, held, ← is_chunk) (loads-file_bytes d blocks p n (omega arith)) in
      (
        h',
        read_loop-suc fuel d err h h' size copied (pos (p + n)) err (rw to moved)
            ∙ ap₂ (λ k bs. read_loop fuel d err h' (suc size - k) (copied ++ bs))
                (rw (placed, is_chunk)) bytes,
        same' ∙ same,
        at',
      )

  read_loop-file_bytes :
      (fuel : ℕ) (h : FileHandle) (p size : ℕ) (copied : List ℕ)
      → size ≤ fuel
      → h.entry ≡ entry
      → IsAt d h p
      → p + size ≤ eof d entry
      → (p + size) / 512 ≤ last
      → (h' : FileHandle) × (read_loop fuel d err h size copied
          ≡ ok (copied ++ file_bytes d blocks p size, h', err))
        × (h'.entry ≡ entry)
        × IsAt d h' (p + size)
  read_loop-file_bytes fuel h p zero copied enough same at le le' =
      let e : p ≡ p + 0 = omega arith in
      (
        h,
        read_loop-zero fuel d err h copied ∙ ap (λ t. ok (t, h, err)) (sym (append-nil copied)),
        same,
        subst (IsAt d h) e at,
      )
  read_loop-file_bytes zero h p (suc size) copied enough same at le le' = absurd (omega arith)
  read_loop-file_bytes (suc fuel) h p (suc size) copied enough same at le le' =
      let n : ℕ = chunk p (suc size) in
      let (h', round, same', at') =
        round_of fuel h p size n copied refl same at (omega arith) (omega arith) in
      let (h'', rest, same'', at'') =
        read_loop-file_bytes fuel h' (p + n) (suc size - n) (copied ++ file_bytes d blocks p n)
          (omega arith) same' at' (omega arith) (omega arith) in
      let whole : suc size ≡ n + (suc size - n) = omega arith in
      let end : p + n + (suc size - n) ≡ p + suc size = omega arith in
      (
        h'',
        round
            ∙ rest
            ∙ ap (λ t. ok (t, h'', err))
                (append_assoc copied _ _
                  ∙ ap (λ t. copied ++ t)
                      (sym (file_bytes-append d blocks p n (suc size - n))
                        ∙ ap (file_bytes d blocks p) (sym whole))),
        same'',
        subst (IsAt d h'') end at'',
      )

-- Within the file, `Read` returns as many bytes as were asked for, the bytes of the file from the
-- handle's position on, and leaves the handle behind them and the error alone: for a position whose
-- sum with the size is up to the end of the file, with all blocks up to that of the new position
-- readable.
pub read-file_bytes :
    (d : Disk) (err : Err) (h : FileHandle) (p size : ℕ) (blocks : ℕ → Ptr)
    → IsAt d h p
    → p + size ≤ eof d h.entry
    → IsMapped d h.entry blocks ((p + size) / 512)
    → (h' : FileHandle) × (read d err h size ≡ ok (file_bytes d blocks p size, h', err))
      × (h'.entry ≡ h.entry)
      × IsAt d h' (p + size)
unfolding read
read-file_bytes d err h p size blocks at le mapped =
    read_loop-file_bytes d err h.entry blocks ((p + size) / 512) mapped size h p size []
      (le_refl size) refl at le (le_refl ((p + size) / 512))
