-- ===== src/Tests/Programs.antt =====
-- The program at the sample, and the paths that lead nowhere.
use prodosfs.Base.{
  ℕ, ◌≤◌, ◌≡◌, refl, none, true, false, [], ◌∷◌, ok, pos, negsuc, err_none, err_directory_not_found,
}
use prodosfs.Base.Text.{codes, to_lower}
use prodosfs.Fuse.Settings.{Settings}
use prodosfs.Fuse.MountPoint.{absent, clear}
use prodosfs.Fuse.Program.{
  initial_settings, Platform, main, handle_options, mount_directory, start, enter, fuse_arguments,
  with_volume, with_image,
}
use prodosfs.Fuse.Program.Ready.{IsReady, main-IsReady}
use prodosfs.Fuse.MountPoint.{update_mount_directory, choose_directory, suffix_loop}
use prodosfs.Base.{List, Bool, ◌⊎◌}
use prodosfs.Fuse.Lifetime.{Fork, child, stays, prodosfs_mount, log_fd}
use prodosfs.Fuse.Lifetime.Cleanup.{main-prodosfs_mount}
use prodosfs.Volume.Header
use prodosfs.Entry.{
  storage_type, name_matches, name_length, file_name, is_directory, is_valid_name, valid_tail,
  create_volume_header,
}
use prodosfs.Base.FilePath.{filename}
use prodosfs.Disk.{load, loads}
use prodosfs.Volume.Paths.{split_path, split_loop}
use prodosfs.Volume.Resolve.{not_directory}
use prodosfs.Fuse.Errors.{Reply}
use prodosfs.Fuse.Names.{prodos_filename, virtual_file_id}
use prodosfs.Fuse.Status.{is_virtual, prodosfs_getattr}
use prodosfs.Fuse.Files.{prodosfs_open}
use prodosfs.Fuse.Attributes.{prodosfs_listxattr}
use prodosfs.Base.{Err, some, err_end_of_file, arith}
use prodosfs.Directory.{Handle}
use prodosfs.Disk.{le_read16}
use prodosfs.Entry.{key_pointer}
use prodosfs.Volume.Resolve.{here}
use prodosfs.Fuse.Errors.{success}
use prodosfs.Fuse.Files.{directory}
use prodosfs.Fuse.Directories.{prodosfs_opendir, prodosfs_readdir}
use prodosfs.Fuse.Directories.Entries.{exported}
use prodosfs.Fuse.Directories.Paths.{prodosfs_opendir-prodosfs_readdir}
use prodosfs.Tests.Operations.{with_extensions}
use prodosfs.Tests.Directories.{sub_directory}
use prodosfs.Volume.SplitLaws.{two_names}
use prodosfs.Fuse.Attributes.{prodosfs_getxattr}
use prodosfs.Tests.Operations.{with_extensions}
use prodosfs.Fuse.Refusals.{IsNotFound, not_found}
use prodosfs.Tests.Sample.{sample, sample_volume}
use prodosfs.Tests.Directories.{root_directory}
use prodosfs.Tests.Operations.{empty_stat}

abbrev computer : Platform
computer = record {
  atoi = λ text. pos 5;
  realpath = λ path. some path;
  open_volume = λ path. ok sample_volume;
  stat = λ path. absent;
  errno = clear;
  mkdir_fails = λ path. false;
  open_log = λ path. negsuc 0;
  uid = 1000;
  gid = 100;
}

abbrev chosen_settings : Settings
chosen_settings = record initial_settings {
  foreground = true;
  log_level = pos 5;
  use_name = true;
  disk_image = codes "/disk.po";
}

main-IsReady_example :
    IsReady computer
      (codes "/mnt")
      (codes "/disk.po")
      chosen_settings
      sample_volume
      (fuse_arguments computer chosen_settings (codes "/mnt/DISK"))
unfolding main with_image with_volume mount_directory start enter fuse_arguments handle_options
    update_mount_directory choose_directory suffix_loop Header.name file_name name_length loads load
    is_valid_name valid_tail create_volume_header
main-IsReady_example =
    main-IsReady computer ((b'f', []) ∷ (b'l', codes "5") ∷ (b'n', []) ∷ []) (codes "/mnt")
      (codes "/disk.po") [] chosen_settings sample_volume
      (fuse_arguments computer chosen_settings (codes "/mnt/DISK")) refl

abbrev named_options : List (ℕ × List ℕ)
named_options = (b'f', []) ∷ (b'l', codes "5") ∷ (b'n', []) ∷ []

main-prodosfs_mount_example :
    (dir : List ℕ) × (fuse_arguments computer chosen_settings (codes "/mnt/DISK")
      ≡ fuse_arguments computer chosen_settings dir)
    × ((fork : Fork) (detached : Bool) (at_exit : List (List ℕ)) (out : List ℕ)
        → prodosfs_mount chosen_settings dir (log_fd computer chosen_settings) fork
          ≡ stays detached at_exit out
        → (((chosen_settings.use_name ≡ true)
              × (at_exit ≡ dir ∷ [])
              × (computer.mkdir_fails dir ≡ false)
              × ((base : List ℕ) × (computer.realpath (codes "/mnt") ≡ some base)
                  × (update_mount_directory computer.stat computer.errno sample_volume base
                      ≡ ok (true, dir))))
            ⊎ ((chosen_settings.use_name ≡ false)
                × (at_exit ≡ [])
                × (computer.realpath (codes "/mnt") ≡ some dir)))
          × (detached ≡ true
              → (chosen_settings.foreground ≡ false)
                × (chosen_settings.debug ≡ false)
                × (fork ≡ child)))
unfolding main with_image with_volume mount_directory start enter fuse_arguments handle_options
    update_mount_directory choose_directory suffix_loop Header.name file_name name_length loads load
    is_valid_name valid_tail create_volume_header
main-prodosfs_mount_example =
    main-prodosfs_mount computer named_options (codes "/mnt") (codes "/disk.po") [] chosen_settings
      sample_volume (fuse_arguments computer chosen_settings (codes "/mnt/DISK")) refl

-- The file B used as a directory.
not_found_example :
    (reply : Reply) × IsNotFound err_directory_not_found reply
    × ((n : ℕ) × ((fuel : ℕ)
          → n ≤ fuel
          → (prodosfs_getattr
                (λ t. t.tm_mon)
                fuel
                with_extensions
                sample_volume
                err_none
                (codes "/B/C:TXT")
                empty_stat
              ≡ ok (reply, empty_stat, err_directory_not_found))
            × (prodosfs_open fuel with_extensions sample_volume err_none (codes "/B/C:TXT")
                ≡ ok (reply, none, err_directory_not_found))
            × (prodosfs_opendir fuel sample_volume err_none (codes "/B/C")
                ≡ ok (reply, none, err_directory_not_found))
            × (prodosfs_getxattr fuel with_extensions sample_volume err_none
                  (codes "/B/C")
                  (codes "prodos.access")
                  20
                ≡ ok (reply, [], err_directory_not_found))
            × (prodosfs_listxattr
                  (λ attributes. attributes)
                  fuel
                  with_extensions
                  sample_volume
                  err_none
                  (codes "/B/C:TXT")
                  20
                ≡ ok (reply, [], err_directory_not_found))))
unfolding name_matches name_length file_name to_lower loads load is_directory storage_type
    prodos_filename is_virtual virtual_file_id filename
not_found_example =
    not_found (λ t. t.tm_mon) (λ attributes. attributes) with_extensions sample_volume 1024
      (codes "/B/C:TXT") err_none (1067 ∷ 1106 ∷ 1540 ∷ []) refl root_directory refl refl refl
      (codes "B" ∷ codes "C" ∷ []) err_directory_not_found empty_stat (codes "prodos.access") 20
      (two_names {a = codes "B"} {b = codes "C"} refl refl) (not_directory 1540 refl refl)

prodosfs_opendir-prodosfs_readdir_example :
    (n : ℕ) × ((fuel : ℕ)
      → n ≤ fuel
      → (h : Handle) × (prodosfs_opendir fuel sample_volume err_none (codes "/SUB")
          ≡ ok (success 0, some (directory h), err_none))
        × ((err' : Err)
            → (h' : Handle) × (prodosfs_readdir
                  (λ buf name. false)
                  fuel
                  with_extensions
                  sample_volume
                  err'
                  (directory h)
                  []
                ≡ ok (
                  success 0,
                  codes "." ∷ codes ".." ∷ exported with_extensions sample (3115 ∷ []),
                  directory h',
                  err_end_of_file,
                ))))
unfolding name_matches name_length file_name to_lower loads load le_read16 is_directory storage_type
    key_pointer split_path split_loop
prodosfs_opendir-prodosfs_readdir_example =
    prodosfs_opendir-prodosfs_readdir (λ buf name. false) with_extensions sample_volume 1024
      (codes "/SUB") err_none (1067 ∷ 1106 ∷ 1540 ∷ []) (λ buf name. refl) refl root_directory refl
      1106 (3115 ∷ []) (here 1106 refl) refl (omega arith) sub_directory
