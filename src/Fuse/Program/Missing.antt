-- ===== src/Fuse/Program/Missing.antt =====
-- `main` (main.cxx) with a mount directory that is not there.
use prodosfs.Base.{
  arith, ℕ, ◌≡◌, ◌⊎◌, inl, inr, true, List, ◌∷◌, none, some, ok, thrown, wild_pointer,
}
use prodosfs.Volume.Paths.{Volume}
use prodosfs.Fuse.Settings.{Settings}
use prodosfs.Fuse.Program.{
  initial_settings, handled, Platform, handle_options, start, enter, with_volume, with_image, main,
}

-- Where the mount directory of the arguments does not exist, `main` does not say so: with options that are
-- fine and `-n` or `-f` among them, and an image that can be opened, it follows the null pointer that
-- `realpath` gives.
pub main_null_directory :
    (p : Platform) (options : List (ℕ × List ℕ)) (mount_dir image_file path : List ℕ)
    (more : List (List ℕ)) (s : Settings) (v : Volume)
    → handle_options p options initial_settings ≡ handled s
    → (s.use_name ≡ true) ⊎ (s.foreground ≡ true)
    → p.realpath image_file ≡ some path
    → p.open_volume path ≡ ok v
    → p.realpath mount_dir ≡ none
    → main p options (mount_dir ∷ image_file ∷ more) ≡ thrown wild_pointer
unfolding main with_image with_volume start enter
main_null_directory p options mount_dir image_file path more s v fine (inl named) real opened
      missing =
    ground arith
main_null_directory p options mount_dir image_file path more s v fine (inr front) real opened
      missing =
    ground arith
