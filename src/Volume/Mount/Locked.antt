-- ===== src/Volume/Mount/Locked.antt =====
-- Mounting an image whose volume directory block is enciphered (source/volume.cxx).
use prodosfs.Base.{
  ℕ, ◌+◌, ◌-◌, ◌%◌, ◌<◌, ◌≡◌, refl, sym, ap, ◌∙◌, true, false, some, List, arith, leb, ltb, ◌&&◌,
  bit_xor, ok, pos, All, Bool-cases, inl, inr,
}
use mathlib.Core.Path.{fun_ext}
use prodosfs.Base.Bits.{bit_xor-bit_xor, bit_xor-byte}
use prodosfs.Disk.{Disk, image, load, memcpy, write_block}
use prodosfs.Volume.Mount.{
  Surroundings, block_bytes, is_volume_directory_block, deobfuscate, usable,
  get_volume_directory_block, check_volume, mount,
}
use prodosfs.Volume.Mount.Checks.{read_block_two_ok, mount_block_disk}
use prodosfs.Volume.Mount.Cipher.{
  IsByte, IsNonzero, key_byte, obscured, key_byte-IsByte, deobfuscate-obscured,
}

module _ (bytes passwd : List ℕ) (usable_password : usable bytes ≡ some passwd)
    (are_bytes : All IsByte passwd) (nonzero : All IsNonzero passwd) where
  -- Of the enciphered block only the byte itself and the password count.
  pub deobfuscate_same :
      (src dst src' dst' : ℕ → ℕ) (j : ℕ)
      → j < 512
      → src j ≡ src' j
      → deobfuscate (some bytes) src dst j ≡ deobfuscate (some bytes) src' dst' j
  deobfuscate_same src dst src' dst' j inside e =
      deobfuscate-obscured bytes passwd src dst j usable_password nonzero inside
      ∙ ap (λ b. bit_xor b (bit_xor (key_byte passwd j) 0x7f)) e
      ∙ sym (deobfuscate-obscured bytes passwd src' dst' j usable_password nonzero inside)

  module _ (d : Disk) where
    -- The bytes of block 2, enciphered, and the image with them.
    abbrev pub secret : ℕ → ℕ
    secret = obscured passwd (block_bytes d (image 1024))

    abbrev pub enciphered : Disk
    enciphered = record d { base = memcpy d.base 1024 secret 512; dirty = true }

    enciphered_byte : (j : ℕ) → j < 512 → block_bytes enciphered (image 1024) j ≡ secret j
    unfolding load
    enciphered_byte j inside =
        let z : 1024 + j - 1024 ≡ j = omega arith in
        let small : secret j < 256 =
          bit_xor-byte (d.base (1024 + j) % 256) _ (omega arith)
            (key_byte-IsByte passwd j are_bytes) in
        ground (arith, ap secret z, small)

    pub deciphered_byte :
        (dst' : ℕ → ℕ) (j : ℕ)
        → j < 512
        → deobfuscate (some bytes) (block_bytes enciphered (image 1024)) dst' j
          ≡ block_bytes d (image 1024) j
    unfolding load
    deciphered_byte dst' j inside =
        deobfuscate-obscured bytes passwd (block_bytes enciphered (image 1024)) dst' j
          usable_password nonzero inside
        ∙ ap (λ b. bit_xor b (bit_xor (key_byte passwd j) 0x7f)) (enciphered_byte j inside)
        ∙ bit_xor-bit_xor (d.base (1024 + j) % 256) _ (omega arith)
            (key_byte-IsByte passwd j are_bytes)

    pub written_back :
        (dst' : ℕ → ℕ)
        → ((a : ℕ) → d.base a < 256)
        → (a : ℕ)
        → memcpy enciphered.base 1024
            (deobfuscate (some bytes) (block_bytes enciphered (image 1024)) dst')
            512
            a
          ≡ d.base a
    unfolding load
    written_back dst' are_memory a = elim (Bool-cases (leb 1024 a && ltb a 1536)) [
      | inl inside ↦
          let z : 1024 + (a - 1024) ≡ a = ground (arith, inside) in
          ground (arith, deciphered_byte dst' (a - 1024), are_memory a, ap d.base z)
      | inr outside ↦ ground (arith, outside)
    ]

    is_volume_directory_block_deciphered :
        (dst' : ℕ → ℕ)
        → is_volume_directory_block (block_bytes d (image 1024)) ≡ true
        → is_volume_directory_block
            (deobfuscate (some bytes) (block_bytes enciphered (image 1024)) dst')
          ≡ true
    unfolding is_volume_directory_block
    is_volume_directory_block_deciphered dst' is_dir =
        rw
          (
            deciphered_byte dst' 0 (omega arith),
            deciphered_byte dst' 1 (omega arith),
            deciphered_byte dst' 4 (omega arith),
          )
          is_dir

    unlocked :
        (s : Surroundings)
        → s.password_file ≡ some bytes
        → ((a : ℕ) → d.base a < 256)
        → 2 < d.num_blocks
        → is_volume_directory_block (block_bytes d (image 1024)) ≡ true
        → is_volume_directory_block (block_bytes enciphered (image 1024)) ≡ false
        → mount s enciphered ≡ check_volume (record d { dirty = true }) (image 1024)
    unfolding mount get_volume_directory_block write_block
    unlocked s password are_memory lt is_dir no_dir =
        let in_range : leb d.num_blocks 2 ≡ false = ground (arith, lt) in
        rw
          (
            read_block_two_ok enciphered lt,
            no_dir,
            password,
            is_volume_directory_block_deciphered s.stack is_dir,
            in_range,
            fun_ext (written_back s.stack are_memory),
            read_block_two_ok (record d { dirty = true }) lt,
          )
          refl

    -- Mounting undoes the enciphering of block 2: let an image of at least three blocks have a volume
    -- directory there, and let `locked` be the image with each byte of that block combined, by exclusive
    -- or, with 0x7f and a byte of the usable password of the password file, which has no zero bytes and of
    -- which all bytes but the last are used in turn; and let the block no longer look like a volume
    -- directory. Then mounting `locked` ends with the checks
    -- on the unchanged image, marked as modified, where mounting the image itself ends with the checks on it.
    pub mount-write_block :
        (s : Surroundings) (locked : Disk)
        → s.password_file ≡ some bytes
        → ((a : ℕ) → d.base a < 256)
        → 2 < d.num_blocks
        → is_volume_directory_block (block_bytes d (image 1024)) ≡ true
        → write_block d (pos 2) (obscured passwd (block_bytes d (image 1024))) ≡ ok locked
        → is_volume_directory_block (block_bytes locked (image 1024)) ≡ false
        → (mount s locked ≡ check_volume (record d { dirty = true }) (image 1024))
          × (mount s d ≡ check_volume d (image 1024))
    mount-write_block s locked password are_memory lt is_dir written not_dir =
        let same : locked ≡ enciphered = unfold write_block in ground (arith, written, lt) in
        (
          rw same (unlocked s password are_memory lt is_dir (rw same at not_dir)),
          mount_block_disk s d lt is_dir,
        )
