-- ===== src/Volume/Mount/Checks.antt =====
-- The constructor of `volume_t` (source/volume.cxx): what it accepts, and what it does to the image.
use prodosfs.Base.{
  ℕ, ◌<◌, ◌≡◌, refl, ap, ◌∙◌, sym, true, false, Option, none, some, arith, ok, thrown, ◌>>=◌,
  >>=-ok, Returned, Returned->>=, Returned-after, Returned-if, Returned-ok, pos, Bool-cases, inl,
  inr, leb, no_volume_directory_block,
}
use prodosfs.Disk.{
  Disk, Ptr, image, read_block, write_block, read_track_sector, convert, rwts_to_block,
  convert_loop,
}
use prodosfs.Entry.{
  create_volume_header, min_version, entries_per_block, entry_length, total_blocks, storage_type,
}
use prodosfs.Volume.Paths.{Volume}
use prodosfs.Volume.Mount.{
  Surroundings, block_bytes, is_volume_directory_block, deobfuscate, get_volume_directory_block,
  check_volume, mount,
}

-- What holds of every volume that is mounted.
pub record IsMounted (v : Volume) : Type 0 where
  pub rooted : v.root ≡ image 1024
  pub has_root : 2 < v.disk.num_blocks
  pub typed : storage_type v.disk (image 1028) ≡ 15
  pub version_known : min_version v.disk (image 1028) ≡ 0
  pub slots : entries_per_block v.disk (image 1028) ≡ 13
  pub slot_size : entry_length v.disk (image 1028) ≡ 39
  pub blocks : total_blocks v.disk (image 1028) ≡ v.disk.num_blocks

pub check_volume-IsMounted :
    (d : Disk) (v : Volume)
    → 2 < d.num_blocks
    → check_volume d (image 1024) ≡ ok v
    → IsMounted v × (v.disk ≡ d)
unfolding check_volume create_volume_header storage_type
check_volume-IsMounted d v lt e = ground arith

read_block_two :
    (d : Disk) {p : Ptr} → read_block d (pos 2) ≡ ok p → (p ≡ image 1024) × (2 < d.num_blocks)
unfolding read_block
read_block_two d e = ground arith

pub read_block_two_ok : (d : Disk) → 2 < d.num_blocks → read_block d (pos 2) ≡ ok (image 1024)
unfolding read_block
read_block_two_ok d lt = ground arith

-- An image of at least three blocks with a volume directory in block 2 is left as it is: the outcome
-- is that of the checks on the unchanged image.
pub mount_block_disk :
    (s : Surroundings) (d : Disk)
    → 2 < d.num_blocks
    → is_volume_directory_block (block_bytes d (image 1024)) ≡ true
    → mount s d ≡ check_volume d (image 1024)
unfolding mount get_volume_directory_block
mount_block_disk s d lt is_dir = rw (read_block_two_ok d lt, is_dir)

-- The image after `Convert`.
unfoldable pub converted_disk : Surroundings → Disk → Disk
converted_disk s d = record d { base = convert_loop d d.num_blocks 0 s.fresh; converted = true }

convert-converted :
    (s : Surroundings) (d : Disk) → convert s.fresh d rwts_to_block ≡ ok (converted_disk s d)
unfolding convert converted_disk
convert-converted s d = refl

read_sector_eleven : (d : Disk) → read_track_sector d (pos 0) (pos 11) ≡ ok (image 2816)
unfolding read_track_sector
read_sector_eleven d = refl

-- An image of at least three blocks with no volume directory in block 2, deciphered or not, but with
-- one in sector 11 of track 0, is converted.
pub mount_sector_disk :
    (s : Surroundings) (d : Disk)
    → 2 < d.num_blocks
    → is_volume_directory_block (block_bytes d (image 1024)) ≡ false
    → is_volume_directory_block (deobfuscate s.password_file (block_bytes d (image 1024)) s.stack)
      ≡ false
    → is_volume_directory_block (block_bytes d (image 2816)) ≡ true
    → mount s d ≡ check_volume (converted_disk s d) (image 1024)
unfolding mount get_volume_directory_block
mount_sector_disk s d lt not_dir not_locked is_dir = rw (
  read_block_two_ok d lt,
  not_dir,
  not_locked,
  read_sector_eleven d,
  is_dir,
  convert-converted s d,
  read_block_two_ok (converted_disk s d) (unfold converted_disk in lt),
)

-- What is in the local array after block 2 and sector 11 have been deciphered into it.
abbrev pub second_block : Surroundings → Disk → ℕ → ℕ
second_block s d =
    deobfuscate s.password_file (block_bytes d (image 2816))
      (deobfuscate s.password_file (block_bytes d (image 1024)) s.stack)

-- Where only sector 11 of track 0, deciphered, is a volume directory, the image is converted, and its
-- block 2 is written back deciphered.
pub mount_locked_sector_disk :
    (s : Surroundings) (d d' : Disk)
    → 2 < d.num_blocks
    → is_volume_directory_block (block_bytes d (image 1024)) ≡ false
    → is_volume_directory_block (deobfuscate s.password_file (block_bytes d (image 1024)) s.stack)
      ≡ false
    → is_volume_directory_block (block_bytes d (image 2816)) ≡ false
    → is_volume_directory_block (second_block s d) ≡ true
    → write_block (converted_disk s d) (pos 2) (
        deobfuscate s.password_file
          (block_bytes (converted_disk s d) (image 1024))
          (second_block s d))
      ≡ ok d'
    → 2 < d'.num_blocks
    → mount s d ≡ check_volume d' (image 1024)
unfolding mount get_volume_directory_block
mount_locked_sector_disk s d d' lt not_dir not_locked not_sector is_dir written lt' =
    rw
      (
        read_block_two_ok d lt,
        not_dir,
        not_locked,
        read_sector_eleven d,
        not_sector,
        is_dir,
        convert-converted s d,
        read_block_two_ok (converted_disk s d) (unfold converted_disk in lt),
        written,
        read_block_two_ok d' lt',
      )
      refl

-- The block that is found is block 2 of the disk that goes with it.
abbrev IsBlockTwo : Option Ptr × Disk → Type 0
IsBlockTwo (found, d) = (r : Ptr) → found ≡ some r → (r ≡ image 1024) × (2 < d.num_blocks)

read_again : (d : Disk) → Returned IsBlockTwo (read_block d (pos 2) >>= λ b. ok (some b, d))
unfolding read_block
read_again d = elim (Bool-cases (leb d.num_blocks 2)) [
  | inl e ↦ rw e tt
  | inr e ↦ rw e (λ r same. (ground arith, ground arith))
]

get_volume_directory_block-IsBlockTwo :
    (s : Surroundings) (d : Disk) → Returned IsBlockTwo (get_volume_directory_block s d)
unfolding get_volume_directory_block
get_volume_directory_block-IsBlockTwo s d =
    Returned->>= (λ block. (block ≡ image 1024) × (2 < d.num_blocks)) IsBlockTwo
      (read_block d (pos 2)) _ at_two
      (λ block here.
        let first = deobfuscate s.password_file (block_bytes d block) s.stack in
        Returned-if IsBlockTwo (is_volume_directory_block (block_bytes d block)) _ _
          (λ r same. (ground arith, here.1))
          (Returned-if IsBlockTwo (is_volume_directory_block first) _ _
            (Returned-after IsBlockTwo (write_block d (pos 2) first) _ (λ d'. read_again d'))
            (Returned-after IsBlockTwo (read_track_sector d (pos 0) (pos 11)) _ (λ sector.
              Returned-if IsBlockTwo (is_volume_directory_block (block_bytes d sector)) _ _
                (Returned-after IsBlockTwo (convert s.fresh d rwts_to_block) _
                  (λ d'. read_again d'))
                (Returned-if IsBlockTwo
                  (is_volume_directory_block
                    (deobfuscate s.password_file (block_bytes d sector) first))
                  _ (ok (none, d))
                  (Returned-after IsBlockTwo (convert s.fresh d rwts_to_block) _ (λ d'.
                    Returned-after IsBlockTwo (read_block d' (pos 2)) _ (λ b.
                      Returned-after IsBlockTwo
                        (write_block d' (pos 2) (
                          deobfuscate s.password_file (block_bytes d' b)
                            (deobfuscate s.password_file (block_bytes d sector) first)))
                        _ (λ d''. read_again d''))))
                  (λ r same. cc))))))
  where
    at_two : Returned (λ block. (block ≡ image 1024) × (2 < d.num_blocks)) (read_block d (pos 2))
    at_two =
        unfold read_block in
        elim (Bool-cases (leb d.num_blocks 2)) [
          | inl e ↦ rw e tt
          | inr e ↦ rw e (refl, ground arith)
        ]

found-IsMounted :
    (found : Option Ptr) (d : Disk) (v : Volume)
    → IsBlockTwo (found, d)
    → (elim found [ none ↦ thrown no_volume_directory_block | some root ↦ check_volume d root ])
      ≡ ok v
    → IsMounted v
found-IsMounted none d v h e = cc
found-IsMounted (some root) d v h e =
    (check_volume-IsMounted d v (h root refl).1 (ap (check_volume d) (sym (h root refl).0) ∙ e)).0

-- Every volume that the constructor returns, however its image was found, has its root in block 2 of
-- its disk, with the type of a volume directory, 13 slots of 39 bytes to a block, the known version,
-- and as many blocks as the disk.
pub mount-IsMounted : (s : Surroundings) (d : Disk) (v : Volume) → mount s d ≡ ok v → IsMounted v
unfolding mount
mount-IsMounted s d v e =
    let ((found, d'), got, checked) = >>=-ok (get_volume_directory_block s d) _ e in
    found-IsMounted found d' v
      (Returned-ok IsBlockTwo (get_volume_directory_block s d)
        (get_volume_directory_block-IsBlockTwo s d) got)
      checked
