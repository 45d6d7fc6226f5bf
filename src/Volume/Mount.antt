-- ===== src/Volume/Mount.antt =====
-- `S_IsVolumeDirectoryBlock`, `S_Deobfuscate`, `_GetVolumeDirectoryBlock` and the constructor of
-- `volume_t` (source/volume.cxx).
pub mod Cipher
pub mod Checks
pub mod Locked
pub mod Sealed
pub mod Password
use prodosfs.Base.{
  ℕ, zero, suc, ◌+◌, ◌-◌, ◌*◌, ◌/◌, ◌%◌, ◌^◌, Bool, true, false, not, ◌&&◌, Option, none, some,
  List, [], ◌∷◌, take, length, get_or, bit_or, bit_xor, ltb, ◌==◌, if◌then◌else◌, pos, Result, ok,
  thrown, ◌>>=◌, no_volume_directory_block, unexpected_minimum_version,
  unexpected_entries_per_block, unexpected_entry_length, unexpected_total_blocks,
}
use prodosfs.Disk.{
  Disk, Ptr, plus, load, read_block, write_block, read_track_sector, convert, rwts_to_block,
}
use prodosfs.Entry.{
  create_volume_header, min_version, entries_per_block, entry_length, total_blocks,
}
use prodosfs.Volume.Paths.{Volume}

-- What the constructor finds outside the image: the first bytes of the password file, or `none`
-- where it is not set, cannot be opened, examined or read, or is not regular; and what the new
-- memory of `Convert` and the local array of the search hold.
pub record Surroundings : Type 0 where
  pub password_file : Option (List ℕ)
  pub fresh : ℕ → ℕ
  pub stack : ℕ → ℕ

abbrev pub block_bytes : Disk → Ptr → ℕ → ℕ
block_bytes d p j = load d (plus p j)

unfoldable pub is_volume_directory_block : (ℕ → ℕ) → Bool
is_volume_directory_block block = bit_or (block 1 * 2 ^ 8) (block 0) == 0 && block 4 / 2 ^ 4 == 0xf

-- The password that is left of the bytes read, at most 31: without a newline at the end, and
-- refused below two bytes.
unfoldable pub usable : List ℕ → Option (List ℕ)
usable bytes =
    let passwd = take 31 bytes in
    let n = length passwd in
    let n' = if get_or passwd (n - 1) 0 == b'\n' then n - 1 else n in
    if n == 0 then none else if ltb n' 2 then none else some (take n' passwd)

-- A byte of the zero-filled buffer.
abbrev pub passwd_at : List ℕ → ℕ → ℕ
passwd_at passwd i = get_or passwd i 0

-- `*ptr++`, and back to the start if the byte behind the next one is zero.
abbrev pub advance : List ℕ → ℕ → ℕ
advance passwd ptr = if passwd_at passwd (ptr + 1 + 1) == 0 then 0 else ptr + 1

abbrev pub store : (ℕ → ℕ) → ℕ → ℕ → ℕ → ℕ
store memory i byte a = if a == i then byte else memory a

unfoldable pub decipher_loop : List ℕ → (ℕ → ℕ) → ℕ → ℕ → ℕ → (ℕ → ℕ) → ℕ → ℕ
decipher_loop passwd cipher zero i ptr plain = plain
decipher_loop passwd cipher (suc n) i ptr plain =
    decipher_loop passwd cipher n (i + 1) (advance passwd ptr)
      (store plain i (bit_xor (cipher i) (bit_xor (passwd_at passwd ptr) 0x7f)))

-- The bytes of `dst_blk` after the call.
unfoldable pub deobfuscate : Option (List ℕ) → (ℕ → ℕ) → (ℕ → ℕ) → ℕ → ℕ
deobfuscate none src dst = dst
deobfuscate (some bytes) src dst = elim (usable bytes) [
  | none ↦ dst
  | some passwd ↦ decipher_loop passwd src 512 0 0 dst
]

unfoldable pub get_volume_directory_block : Surroundings → Disk → Result (Option Ptr × Disk)
get_volume_directory_block s d = do
  block ← read_block d (pos 2)
  let first = deobfuscate s.password_file (block_bytes d block) s.stack
  let unlocked = (do d' ← write_block d (pos 2) first; b ← read_block d' (pos 2); ok (some b, d'))
  let sectors = (do
    sector ← read_track_sector d (pos 0) (pos 11)
    let second = deobfuscate s.password_file (block_bytes d sector) first
    let converted = (do
      d' ← convert s.fresh d rwts_to_block
      b ← read_block d' (pos 2)
      ok (some b, d'))
    let both = (do
      d' ← convert s.fresh d rwts_to_block
      b ← read_block d' (pos 2)
      d'' ← write_block d' (pos 2) (deobfuscate s.password_file (block_bytes d' b) second)
      b' ← read_block d'' (pos 2)
      ok (some b', d''))
    (if is_volume_directory_block (block_bytes d sector)
        then converted
        else if is_volume_directory_block second
        then both
        else ok (none, d)))
  (if is_volume_directory_block (block_bytes d block)
      then ok (some block, d)
      else if is_volume_directory_block first
      then unlocked
      else sectors)

-- The checks of the constructor.
unfoldable pub check_volume : Disk → Ptr → Result Volume
check_volume d root = do
  header ← create_volume_header d (plus root 4)
  (if not (min_version d header == 0)
      then thrown unexpected_minimum_version
      else if not (entries_per_block d header == 13)
      then thrown unexpected_entries_per_block
      else if not (entry_length d header == 39)
      then thrown unexpected_entry_length
      else if not (total_blocks d header == d.num_blocks)
      then thrown unexpected_total_blocks
      else ok (record { disk = d; root = root }))

unfoldable pub mount : Surroundings → Disk → Result Volume
mount s d = do
  (found, d') ← get_volume_directory_block s d
  elim found [ none ↦ thrown no_volume_directory_block | some root ↦ check_volume d' root ]
