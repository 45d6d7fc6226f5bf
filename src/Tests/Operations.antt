-- ===== src/Tests/Operations.antt =====
-- The operations of FUSE at the sample.
use prodosfs.Base.{
  some, ℕ, ◌≤◌, ◌≡◌, ◌⊎◌, refl, true, List, [], ◌∷◌, ◌++◌, arith, ok, pos, Err, err_none,
  if◌then◌else◌, bytes_eq,
}
use prodosfs.Base.Text.{codes, to_lower}
use prodosfs.Disk.{image, load, loads, le_read16, le_read24}
use prodosfs.Entry
use prodosfs.Entry.{
  storage_type, name_matches, name_length, file_name, is_directory, is_file, key_pointer, eof,
  file_type,
}
use prodosfs.File.{FileHandle}
use prodosfs.File.Content.{file_bytes}
use prodosfs.Volume.Paths.{split_path, split_loop}
use prodosfs.Volume.Resolve.{here, below}
use prodosfs.Fuse.Settings.{Settings, extension_mode_on}
use prodosfs.Fuse.Errors.{success, failure, enodata}
use prodosfs.Fuse.Names.{exported_filename, prodos_filename, virtual_file_id}
use prodosfs.Base.FilePath.{filename}
use prodosfs.Fuse.Names.RoundTrip.{prodos_filename-exported_filename}
use mathlib.Core.List.{Memᴰ}
use prodosfs.Fuse.Attributes.{names_of, find_attribute, prodosfs_listxattr, prodosfs_getxattr}
use prodosfs.Fuse.Attributes.Values.{attributes_of}
use prodosfs.Fuse.Attributes.Answers.{Lists, Gives, prodosfs_listxattr-prodosfs_getxattr}
use prodosfs.Fuse.Files.{converted, file, prodosfs_open, prodosfs_read}
use prodosfs.Fuse.Files.Sessions.{Reads}
use prodosfs.Fuse.Files.Paths.{prodosfs_open-prodosfs_read}
use prodosfs.Fuse.MountPoint.{Probe, present, absent, clear, choose_directory}
use prodosfs.Fuse.MountPoint.Choice.{first_free, choose_directory-first_free}
use prodosfs.Fuse.Program.{initial_settings}
use prodosfs.Fuse.Status.{
  Stat, s_irusr, s_irgrp, s_ifreg, is_virtual, to_unix_time, prodosfs_getattr,
}
use prodosfs.Fuse.Status.Attributes.{prodosfs_getattr_file}
use prodosfs.Tests.Sample.{sample, sample_volume}
use prodosfs.Tests.Directories.{root_directory, sub_directory}
use prodosfs.Tests.Files.{blocks_of_b, blocks_of_b-IsMapped}

abbrev pub with_extensions : Settings
with_extensions = record initial_settings { extension_mode = extension_mode_on }

-- Two bytes of B on the two sides of a block boundary, after any reads.
prodosfs_open-prodosfs_read_example :
    (n : ℕ) × ((fuel : ℕ)
      → n ≤ fuel
      → (h : FileHandle) × (prodosfs_open fuel initial_settings sample_volume err_none (codes "/B")
          ≡ ok (success 0, some (file h), err_none))
        × ((h' : FileHandle) (err' : Err)
            → Reads initial_settings sample h h'
            → (h'' : FileHandle) × (prodosfs_read initial_settings sample_volume err'
                  (codes "/B")
                  (file h')
                  2
                  (pos 511)
                ≡ ok (
                  success 2,
                  converted initial_settings
                      (file_type sample (image 1540))
                      (file_bytes sample blocks_of_b 511 2),
                  file h'',
                  err',
                ))))
unfolding load le_read24 eof loads le_read16 name_matches name_length file_name to_lower
    is_directory storage_type split_path split_loop is_file prodos_filename is_virtual
    virtual_file_id filename
prodosfs_open-prodosfs_read_example =
    prodosfs_open-prodosfs_read initial_settings sample_volume 1024 (codes "/B") err_none
      (1067 ∷ 1106 ∷ 1540 ∷ []) refl root_directory refl refl refl 1540 blocks_of_b 511 2
      (here 1540 refl) refl (omega arith) (omega arith) blocks_of_b-IsMapped

prodos_filename-exported_filename_example :
    prodos_filename with_extensions
      (codes "/" ++ exported_filename with_extensions sample (image 1540))
    ≡ codes "/" ++ file_name sample (image 1540)
unfolding file_name name_length load loads
prodos_filename-exported_filename_example =
    prodos_filename-exported_filename with_extensions sample (image 1540) (codes "/") refl

prodosfs_listxattr-prodosfs_getxattr_example :
    (n : ℕ) × ((fuel : ℕ)
      → n ≤ fuel
      → Lists (names_of (attributes_of sample (image 3115))) 20 (λ size reply bytes.
        prodosfs_listxattr
          (λ a. a)
          fuel
          initial_settings
          sample_volume
          err_none
          (codes "/SUB/y")
          size
        ≡ ok (reply, bytes, err_none))
        × (((value : List ℕ) × Memᴰ
                (codes "prodos.file_type")
                (names_of (attributes_of sample (image 3115)))
              × (find_attribute (attributes_of sample (image 3115)) (codes "prodos.file_type")
                  ≡ some value)
              × Gives value 20 (λ size reply bytes.
                prodosfs_getxattr fuel initial_settings sample_volume err_none
                  (codes "/SUB/y")
                  (codes "prodos.file_type")
                  size
                ≡ ok (reply, bytes, err_none)))
            ⊎ ((Memᴰ (codes "prodos.file_type") (names_of (attributes_of sample (image 3115))) → ⊥)
                × (prodosfs_getxattr fuel initial_settings sample_volume err_none
                      (codes "/SUB/y")
                      (codes "prodos.file_type")
                      0
                    ≡ ok (failure enodata, [], err_none))
                × (prodosfs_getxattr fuel initial_settings sample_volume err_none
                      (codes "/SUB/y")
                      (codes "prodos.file_type")
                      20
                    ≡ ok (failure enodata, [], err_none)))))
unfolding name_matches name_length file_name to_lower loads load le_read16 is_directory storage_type
    key_pointer split_path split_loop is_file prodos_filename
prodosfs_listxattr-prodosfs_getxattr_example =
    prodosfs_listxattr-prodosfs_getxattr (λ a. a) (λ a k. ((λ m. m), (λ m. m))) initial_settings
      sample_volume 1024 (codes "/SUB/y") err_none (1067 ∷ 1106 ∷ 1540 ∷ []) refl root_directory
      refl 3115 (codes "prodos.file_type") 20 (omega arith)
      (below 1106 (3115 ∷ []) refl refl (omega arith) sub_directory (here 3115 refl)) refl

-- A file system in which "/mnt/DISK" and "/mnt/DISK-1" are taken.
abbrev two_taken : List ℕ → Probe
two_taken path =
    if bytes_eq path (codes "/mnt/DISK")
    then present
    else if bytes_eq path (codes "/mnt/DISK-1")
    then present
    else absent

choose_directory-first_free_example :
    choose_directory two_taken clear (codes "/mnt/DISK") ≡ (true, codes "/mnt/DISK-2")
unfolding first_free
choose_directory-first_free_example =
    choose_directory-first_free two_taken clear (codes "/mnt/DISK") refl

abbrev pub empty_stat : Stat
empty_stat = record {
  st_mode = [];
  st_nlink = 0;
  st_size = 0;
  st_blksize = 0;
  st_blocks = 0;
  st_ctim = pos 0;
  st_mtim = pos 0;
}

prodosfs_getattr_file_example :
    (n : ℕ) × ((fuel : ℕ)
      → n ≤ fuel
      → prodosfs_getattr
          (λ t. t.tm_mon)
          fuel
          initial_settings
          sample_volume
          err_none
          (codes "/SUB/y")
          empty_stat
        ≡ ok (
          success 0,
          record {
            st_mode = s_irusr ∷ s_irgrp ∷ s_ifreg ∷ [];
            st_nlink = 1;
            st_size = eof sample (image 3115);
            st_blksize = 512;
            st_blocks = Entry.blocks_used sample (image 3115);
            st_ctim = to_unix_time (λ t. t.tm_mon) (Entry.creation_timestamp sample (image 3115));
            st_mtim = to_unix_time (λ t. t.tm_mon) (Entry.last_mod_timestamp sample (image 3115));
          },
          err_none,
        ))
unfolding name_matches name_length file_name to_lower loads load le_read16 is_directory storage_type
    key_pointer split_path split_loop is_file prodos_filename is_virtual virtual_file_id filename
prodosfs_getattr_file_example =
    prodosfs_getattr_file (λ t. t.tm_mon) initial_settings sample_volume 1024 (codes "/SUB/y")
      err_none empty_stat (1067 ∷ 1106 ∷ 1540 ∷ []) refl root_directory refl refl 3115
      (below 1106 (3115 ∷ []) refl refl (omega arith) sub_directory (here 3115 refl)) refl
