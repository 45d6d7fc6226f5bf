-- ===== src/Volume/Rename.antt =====
-- `Rename` (source/volume.cxx).
pub mod Names
pub mod Laws
pub mod Remount
use prodosfs.Base.{
  ℕ, ◌+◌, Bool, true, false, not, List, map, length, get_or, ltb, ◌==◌, if◌then◌else◌, bit_and,
  bit_or, ◌≡◌, ◌<◌, ◌%◌, ◌⊎◌, ◌≤◌, arith, pos, Result, ok, ◌>>=◌,
}
use prodosfs.Base.Text.{to_upper}
use prodosfs.Disk.{Disk, Ptr, null, image, sparse, plus, load, memcpy, write_block}
use prodosfs.Entry.{is_valid_name}
use prodosfs.Entry.Offset
use prodosfs.Volume.Paths.{Volume}

-- Bytes stored at a pointer. Only the image is ever written.
unfoldable pub stores : Disk → Ptr → (ℕ → ℕ) → ℕ → Disk
stores d null source n = d
stores d (image a) source n = record d { base = memcpy d.base a source n }
stores d (sparse a) source n = d

-- The memory at `c_str`: the text, its zero byte, and `behind`, what lies after it.
unfoldable pub text_memory : (ℕ → ℕ) → List ℕ → ℕ → ℕ
text_memory behind s i =
    if ltb i (length s) then get_or s i 0 else if i == length s then 0 else behind i

-- `_root->key.header` with its name and length set.
unfoldable pub set_name : (ℕ → ℕ) → Disk → Ptr → List ℕ → Disk
set_name behind d header s =
    let cleared = stores d (plus header Offset.name) (λ i. 0) 15 in
    let named = stores cleared (plus header Offset.name) (text_memory behind s) 15 in
    let masked = stores named header (λ i. bit_and (load named header) 0b1111_0000) 1 in
    stores masked header (λ i. bit_or (load masked header) (length s)) 1

-- Whether the volume was renamed, and the volume.
unfoldable pub rename : (ℕ → ℕ) → Volume → List ℕ → Result (Bool × Volume)
rename behind v name =
    let d = set_name behind v.disk (plus v.root 4) (map to_upper name) in
    let go = (do
      d' ← write_block d (pos 2) (λ i. load d (plus v.root i))
      ok (true, record v { disk = d' })) in
    if not (is_valid_name name) then ok (false, v) else go
