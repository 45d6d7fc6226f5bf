-- ===== src/Volume/Mount/Sealed.antt =====
-- Mounting an image in the order of sectors whose volume directory block is enciphered
-- (source/volume.cxx): the image is converted and then deciphered.
use prodosfs.Base.{
  ℕ, ◌+◌, ◌-◌, ◌%◌, ◌<◌, ◌≡◌, sym, ap, ◌∙◌, true, false, some, List, arith, leb, ltb, ◌&&◌,
  if◌then◌else◌, ok, pos, All,
}
use mathlib.Core.Path.{fun_ext, subst}
use prodosfs.Disk.{Disk, image, load, memcpy, write_block, convert_loop}
use prodosfs.Disk.Convert.{position_of, position-source, convert_loop_lem}
use prodosfs.Volume.Mount.{
  Surroundings, block_bytes, is_volume_directory_block, deobfuscate, usable, check_volume, mount,
}
use prodosfs.Volume.Mount.Checks.{converted_disk, second_block, mount_locked_sector_disk}
use prodosfs.Volume.Mount.Cipher.{IsByte, IsNonzero, obscured}
use prodosfs.Volume.Mount.Locked.{enciphered, deobfuscate_same, deciphered_byte, written_back}

-- The image with other bytes in the sectors that become block 2.
abbrev pub with_block_two : Disk → (ℕ → ℕ) → Disk
with_block_two d block = record d {
  base = λ a.
      if leb 1024 (position_of a) && ltb (position_of a) 1536
      then block (position_of a - 1024)
      else d.base a;
}

-- Its conversion is that of the image, with these bytes in block 2.
convert_loop-with_block_two :
    (d : Disk) (block fresh : ℕ → ℕ) (a : ℕ)
    → 2 < d.num_blocks
    → convert_loop (with_block_two d block) d.num_blocks 0 fresh a
      ≡ memcpy (convert_loop d d.num_blocks 0 fresh) 1024 block 512 a
convert_loop-with_block_two d block fresh a lt = ground (
  arith,
  convert_loop_lem (with_block_two d block) d.num_blocks 0 fresh a,
  convert_loop_lem d d.num_blocks 0 fresh a,
  position-source a,
)

-- Its sector 11 is the first half of them.
sector_eleven_byte :
    (d : Disk) (block : ℕ → ℕ) (j : ℕ)
    → j < 256
    → block_bytes (with_block_two d block) (image 2816) j ≡ block j % 256
unfolding load position_of
sector_eleven_byte d block j lt = ground arith

-- The block of the volume directory, enciphered with a password, and the image with it, still in the
-- order of sectors.
abbrev pub seal_block : List ℕ → Surroundings → Disk → ℕ → ℕ
seal_block passwd s d = obscured passwd (block_bytes (converted_disk s d) (image 1024))

abbrev pub seal : List ℕ → Surroundings → Disk → Disk
seal passwd s d = with_block_two d (seal_block passwd s d)

module _ (bytes passwd : List ℕ) (usable_password : usable bytes ≡ some passwd)
    (are_bytes : All IsByte passwd) (nonzero : All IsNonzero passwd) (d : Disk)
    (s : Surroundings) where
  abbrev plain : Disk
  plain = converted_disk s d

  abbrev sealed_block : ℕ → ℕ
  sealed_block = seal_block passwd s d

  abbrev pub sealed : Disk
  sealed = seal passwd s d

  abbrev locked : Disk
  locked = enciphered bytes passwd usable_password are_bytes nonzero plain

  converted_sealed : 2 < d.num_blocks → converted_disk s sealed ≡ record locked { dirty = d.dirty }
  unfolding converted_disk
  converted_sealed lt =
      ap (λ m. record locked { base = m; dirty = d.dirty })
        (fun_ext (λ a. convert_loop-with_block_two d sealed_block s.fresh a lt))

  -- Deciphering sector 11 gives the first half of the block back.
  sector_deciphered :
      (dst' : ℕ → ℕ) (j : ℕ)
      → j < 256
      → deobfuscate (some bytes) (block_bytes sealed (image 2816)) dst' j
        ≡ block_bytes plain (image 1024) j
  unfolding load
  sector_deciphered dst' j lt =
      let z : 1024 + j - 1024 ≡ j = omega arith in
      deobfuscate_same bytes passwd usable_password are_bytes nonzero
        (block_bytes sealed (image 2816)) dst' (block_bytes locked (image 1024)) dst' j
        (omega arith) (sector_eleven_byte d sealed_block j lt ∙ ground (arith, ap sealed_block z))
      ∙ deciphered_byte bytes passwd usable_password are_bytes nonzero plain dst' j (omega arith)

  sector_is_volume_directory_block :
      (dst' : ℕ → ℕ)
      → is_volume_directory_block (block_bytes plain (image 1024)) ≡ true
      → is_volume_directory_block (deobfuscate (some bytes) (block_bytes sealed (image 2816)) dst')
        ≡ true
  unfolding is_volume_directory_block
  sector_is_volume_directory_block dst' is_dir =
      rw
        (
          sector_deciphered dst' 0 (omega arith),
          sector_deciphered dst' 1 (omega arith),
          sector_deciphered dst' 4 (omega arith),
        )
        is_dir

  -- Deciphering block 2 of the converted image gives the converted image back.
  write_block_deciphered :
      (dst' : ℕ → ℕ)
      → ((a : ℕ) → (converted_disk s d).base a < 256)
      → 2 < d.num_blocks
      → write_block
          (converted_disk s sealed)
          (pos 2)
          (deobfuscate (some bytes) (block_bytes (converted_disk s sealed) (image 1024)) dst')
        ≡ ok (record (converted_disk s d) { dirty = true })
  unfolding write_block load converted_disk
  write_block_deciphered dst' are_memory lt =
      let in_range : leb d.num_blocks 2 ≡ false = ground (arith, lt) in
      subst
        (λ c.
          write_block c (pos 2) (deobfuscate (some bytes) (block_bytes c (image 1024)) dst')
          ≡ ok (record (converted_disk s d) { dirty = true }))
        (sym (converted_sealed lt))
        (rw in_range (
          ap (λ m. ok (record plain { base = m; dirty = true }))
            (fun_ext
              (written_back bytes passwd usable_password are_bytes nonzero plain dst' are_memory))))

  -- Mounting undoes both the order of sectors and the enciphering: let an image, once it is converted, have
  -- at least three blocks and a volume directory in block 2, and let the sealed image be the one with each
  -- byte of that block combined, by exclusive or, with 0x7f and a byte of the usable password of the
  -- password file, which has no zero bytes and of which all bytes but the last are used in turn, still in
  -- the order of sectors; and let it look like a volume directory neither in block 2, deciphered or not,
  -- nor in sector 11. Then mounting it ends with the checks on the converted image, with block 2 as it was
  -- before it was enciphered, marked as modified.
  pub mount-with_block_two :
      s.password_file ≡ some bytes
      → ((a : ℕ) → (converted_disk s d).base a < 256)
      → 2 < d.num_blocks
      → is_volume_directory_block (block_bytes (converted_disk s d) (image 1024)) ≡ true
      → is_volume_directory_block (block_bytes sealed (image 1024)) ≡ false
      → is_volume_directory_block
          (deobfuscate (some bytes) (block_bytes sealed (image 1024)) s.stack)
        ≡ false
      → is_volume_directory_block (block_bytes sealed (image 2816)) ≡ false
      → mount s sealed ≡ check_volume (record (converted_disk s d) { dirty = true }) (image 1024)
  unfolding converted_disk
  mount-with_block_two password are_memory lt is_dir not_dir not_locked not_sector =
      let first = deobfuscate s.password_file (block_bytes sealed (image 1024)) s.stack in
      mount_locked_sector_disk s sealed _ lt not_dir
        (ap
            (λ p.
              is_volume_directory_block (deobfuscate p (block_bytes sealed (image 1024)) s.stack))
            password
          ∙ not_locked)
        not_sector
        (ap (λ p. is_volume_directory_block (deobfuscate p (block_bytes sealed (image 2816)) first))
            password
          ∙ sector_is_volume_directory_block first is_dir)
        (ap
            (λ p. write_block (converted_disk s sealed) (pos 2) (
              deobfuscate p (block_bytes (converted_disk s sealed) (image 1024))
                (second_block s sealed)))
            password
          ∙ write_block_deciphered (second_block s sealed) are_memory lt)
        lt
