-- ===== src/Diskutil/Normalize.antt =====
-- `diskutil normalize` (util/diskutil.cxx) on an image in the order of sectors.
use prodosfs.Base.{ℕ, ◌<◌, ◌≡◌, refl, sym, ap, ◌∙◌, true, false, List, [], ◌∷◌, ok, Result, Bool}
use prodosfs.Disk.{Disk, image, is_dirty}
use prodosfs.Volume.Paths.{Volume}
use prodosfs.Volume.Mount.{Surroundings, block_bytes, is_volume_directory_block, deobfuscate, mount}
use prodosfs.Volume.Mount.Checks.{converted_disk, mount_sector_disk, check_volume-IsMounted}
use prodosfs.Diskutil.{Action, normalize}

converted_disk_clean : (s : Surroundings) (d : Disk) → (converted_disk s d).dirty ≡ d.dirty
unfolding converted_disk
converted_disk_clean s d = refl

-- `diskutil normalize` refuses an image in the order of sectors: an image with its volume directory in
-- sector 11 of track 0, and none in block 2, is converted when it is mounted, but the command takes it
-- for unmodified, writes nothing and fails.
pub normalize_sector_disk :
    (open_volume : List ℕ → Result Volume) (works : Action → Bool) (behind : ℕ → ℕ)
    (s : Surroundings) (d : Disk) (v : Volume) (program command image_in image_out : List ℕ)
    → open_volume image_in ≡ mount s d
    → d.dirty ≡ false
    → 2 < d.num_blocks
    → is_volume_directory_block (block_bytes d (image 1024)) ≡ false
    → is_volume_directory_block (deobfuscate s.password_file (block_bytes d (image 1024)) s.stack)
      ≡ false
    → is_volume_directory_block (block_bytes d (image 2816)) ≡ true
    → mount s d ≡ ok v
    → normalize open_volume works behind (program ∷ command ∷ image_in ∷ image_out ∷ [])
      ≡ ok (record { succeeded = false; actions = [] })
unfolding normalize is_dirty
normalize_sector_disk open_volume works behind s d v program command image_in image_out opens clean
      lt no_dir not_locked sector mounted =
    let blocks : 2 < (converted_disk s d).num_blocks = unfold converted_disk in lt in
    let checked = sym (mount_sector_disk s d lt no_dir not_locked sector) ∙ mounted in
    let disk_of = (check_volume-IsMounted (converted_disk s d) v blocks checked).1 in
    rw (opens, mounted, ap (λ (x : Disk). x.dirty) disk_of, converted_disk_clean s d, clean)
