-- ===== src/Tests/Requests.antt =====
-- A session of requests at the sample.
use prodosfs.Base.{
  ℕ, ◌≤◌, ◌≡◌, refl, Bool, false, none, some, [], ◌∷◌, List, ok, thrown, wild_pointer, pos, ℤ, Err,
  err_none, err_file_not_found, arith,
}
use prodosfs.Base.Text.{codes, to_lower}
use prodosfs.Base.FilePath.{filename, parent_path}
use prodosfs.Disk.{image, load, loads, le_read16, le_read24, read_block}
use prodosfs.Block.{get_block}
use prodosfs.Entry.{
  storage_type, key_pointer, eof, is_file, is_directory, is_inactive, name_matches, name_length,
  file_name, entries_per_block, file_count, file_type,
}
use prodosfs.Directory.{Handle, open_key_block, next_entry, next_slot, skip_inactive}
use prodosfs.File.{open_handle, indexed_block, index_at}
use prodosfs.File.Content.{file_bytes}
use prodosfs.Volume.Paths.{get_entry, open_file, open_directory, walk, split_path, split_loop}
use prodosfs.Volume.Resolve.{here}
use prodosfs.Volume.Catalog.{catalog}
use prodosfs.Fuse.Errors.{success}
use prodosfs.Fuse.Names.{prodos_filename, virtual_file_id}
use prodosfs.Fuse.Status.{is_virtual}
use prodosfs.Fuse.Files.{
  OpenFile, file, directory, nothing, prodosfs_open, prodosfs_read, prodosfs_close, converted,
}
use prodosfs.Fuse.Directories.{prodosfs_opendir, prodosfs_closedir}
use prodosfs.Fuse.Program.{initial_settings}
use prodosfs.Fuse.Requests.{
  OpenFiles, put, by_open, by_opendir, Reach, nothing_open, after, open_request, opendir_request,
}
use prodosfs.Fuse.Requests.Isolation.{
  Reach-prodosfs_read, Reach-prodosfs_close, prodosfs_open-prodosfs_close,
}
use prodosfs.Fuse.Threads.{Readers, Steps, before_seek, answered}
use prodosfs.Fuse.Threads.Race.{two, Steps_race}
use prodosfs.Tests.Sample.{sample, sample_volume}
use prodosfs.Tests.Directories.{root_directory}
use prodosfs.Tests.Files.{at_b, at_b-IsAt, blocks_of_b, blocks_of_b-IsMapped}
use prodosfs.Tests.Operations.{with_extensions}

abbrev never_full : List (List ℕ) → List ℕ → Bool
never_full buf name = false

Reach-prodosfs_read_example :
    (n : ℕ) × ((fuel : ℕ) (files : OpenFiles) (i : ℕ) (object : OpenFile) (err : Err)
      → n ≤ fuel
      → Reach never_full fuel with_extensions sample_volume files
      → files i ≡ some (by_open (codes "/B:BIN") object)
      → (object' : OpenFile) × (prodosfs_read with_extensions sample_volume err
            (codes "/B:BIN")
            object
            2
            (pos 511)
          ≡ ok (
            success 2,
            converted with_extensions
                (file_type sample (image 1540))
                (file_bytes sample blocks_of_b 511 2),
            object',
            err,
          )))
unfolding load le_read24 eof loads le_read16 name_matches name_length file_name to_lower
    is_directory storage_type split_path split_loop is_file prodos_filename is_virtual
    virtual_file_id filename
Reach-prodosfs_read_example =
    Reach-prodosfs_read never_full with_extensions sample_volume 1024 (codes "/B:BIN")
      (1067 ∷ 1106 ∷ 1540 ∷ []) 1540 blocks_of_b 511 2 refl root_directory refl refl refl
      (here 1540 refl) (omega arith) (omega arith) blocks_of_b-IsMapped

abbrev in_sub : Handle
in_sub = record { header = image 3076; block = image 3072; block_index = 1; entry_index = 0 }

-- The file B and the directory SUB, open at once.
abbrev two_open : OpenFiles
two_open =
    put (put (λ i. none) 0 (some (by_open (codes "/B") (file at_b)))) 1
      (some (by_opendir (codes "/SUB") (directory in_sub)))

two_open-Reach : Reach never_full 30 initial_settings sample_volume two_open
unfolding prodosfs_open prodosfs_opendir open_file open_directory get_entry walk next_entry
    next_slot skip_inactive open_key_block open_handle indexed_block index_at get_block read_block
    key_pointer load le_read16 is_inactive name_matches name_length file_name to_lower loads
    is_directory storage_type split_path split_loop is_file entries_per_block file_count
    prodos_filename is_virtual virtual_file_id filename
two_open-Reach =
    after (after nothing_open (open_request 0 (codes "/B") (file at_b) err_none err_none refl refl))
      (opendir_request 1 (codes "/SUB") (directory in_sub) err_none err_none refl refl)

Reach-prodosfs_close_example :
    (is_virtual initial_settings (prodos_filename initial_settings (codes "/B"))
        ≡ is_virtual initial_settings (codes "/B")
      → two_open 0 ≡ some (by_open (codes "/B") (file at_b))
      → prodosfs_close initial_settings (codes "/B") (file at_b) ≡ ok (success 0))
    × (two_open 0 ≡ some (by_opendir (codes "/B") (file at_b))
        → (h : Handle) × (file at_b ≡ directory h)
          × (prodosfs_closedir (file at_b) ≡ ok (success 0)))
Reach-prodosfs_close_example =
    Reach-prodosfs_close never_full initial_settings sample_volume 30 two_open 0 (codes "/B")
      (file at_b) two_open-Reach

prodosfs_open-prodosfs_close_example :
    (prodosfs_close with_extensions (codes "/C/.CATALOG:TXT") nothing ≡ thrown wild_pointer)
    × ((err1 : Err) (size : ℕ) (off : ℤ)
        → prodosfs_read with_extensions sample_volume err1
            (codes "/C/.CATALOG:TXT")
            nothing
            size
            off
          ≡ thrown wild_pointer)
unfolding prodosfs_open catalog open_directory get_entry walk next_entry next_slot skip_inactive
    open_key_block read_block key_pointer load le_read16 is_inactive name_matches name_length
    file_name to_lower loads is_directory storage_type split_path split_loop entries_per_block
    file_count prodos_filename is_virtual virtual_file_id filename parent_path get_block
prodosfs_open-prodosfs_close_example =
    prodosfs_open-prodosfs_close 30 with_extensions sample_volume err_none err_file_not_found
      (codes "/C/.CATALOG:TXT") nothing refl refl refl

-- Thread 0 reads two bytes of B from its start, and may get those at 511.
abbrev readers_of_b : Readers
readers_of_b = record {
  handle = at_b;
  reader = two (before_seek 2 (pos 0) err_none) (before_seek 1 (pos 511) err_none);
}

Steps_race_example :
    ((r : Readers) × Steps initial_settings sample readers_of_b r
      × (r.reader 0
          ≡ answered (success 2) (
              converted initial_settings
                (file_type sample (image 1540))
                (file_bytes sample blocks_of_b 0 2))))
    × ((r : Readers) × Steps initial_settings sample readers_of_b r
        × (r.reader 0
            ≡ answered (success 2) (
                converted initial_settings
                  (file_type sample (image 1540))
                  (file_bytes sample blocks_of_b 511 2))))
unfolding load le_read24 eof
Steps_race_example =
    Steps_race initial_settings sample at_b 0 blocks_of_b 0 511 2 1 err_none err_none
      (at_b-IsAt 0 refl) (omega arith) (omega arith) (omega arith) blocks_of_b-IsMapped
