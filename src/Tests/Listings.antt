-- ===== src/Tests/Listings.antt =====
-- Directories of the sample opened by path, and their listing.
use prodosfs.Base.{
  ℕ, suc, List, thrown, out_of_range, length, ◌<◌, ◌≡◌, refl, [], ◌∷◌, ◌++◌, arith, ok, some, pos,
  ◌+ℤ◌, err_none, err_end_of_file,
}
use prodosfs.Base.Text.{codes}
use prodosfs.Base.FilePath.{parent_path, filename}
use prodosfs.Disk.{image, load, loads, le_read16, read_block}
use prodosfs.Entry.{
  storage_type, name_length, file_name, create_volume_header, total_blocks, bit_map_pointer,
  entries_per_block,
}
use prodosfs.Directory.{open_key_block}
use prodosfs.Volume.Paths.{open_directory}
use prodosfs.Volume.Folders.{slots, open_directory_root}
use prodosfs.Volume.Header
use prodosfs.Volume.Usage.{count_blocks_used, count_loop, count_bitmap, popcount}
use prodosfs.Volume.Catalog.{catalog, title, column_heads, totals, entry_line}
use prodosfs.Volume.Catalog.Bounds.{catalog_line_bounds}
use prodosfs.Volume.Catalog.Listing.{entry_lines, catalog-Ahead}
use prodosfs.Fuse.Errors.{success}
use prodosfs.Fuse.Names.{prodos_filename, virtual_file_id}
use prodosfs.Fuse.Program.{initial_settings}
use prodosfs.Fuse.Status.{is_virtual}
use prodosfs.Fuse.Files.{listing, prodosfs_open, prodosfs_read, prodosfs_close}
use prodosfs.Fuse.Files.Listings.{catalog_text, read_pieces, prodosfs_open-catalog}
use prodosfs.Tests.Sample.{sample, sample_volume}
use prodosfs.Tests.Directories.{root_directory}

catalog-Ahead_example :
    catalog 40 sample_volume err_none (codes "/.CATALOG")
    ≡ ok (
      some (
          ((title (codes "DISK") (codes "/") ++ column_heads)
            ++ entry_lines sample (1067 ∷ 1106 ∷ 1540 ∷ []))
          ++ totals 16 (pos 12)),
      err_end_of_file,
    )
unfolding parent_path open_directory open_key_block Header.name Header.total_blocks
    create_volume_header storage_type load file_name name_length loads le_read16 total_blocks
    root_directory entries_per_block count_blocks_used count_loop count_bitmap popcount
    bit_map_pointer read_block ◌+ℤ◌
catalog-Ahead_example =
    let (h, opened, ahead) =
      open_directory_root sample_volume 1024 err_none (1067 ∷ 1106 ∷ 1540 ∷ []) 40 refl
        root_directory in
    catalog-Ahead sample_volume err_none err_none (codes "/.CATALOG") (codes "DISK") h
      (slots sample 1024 root_directory) 40 16 (pos 12) (1067 ∷ 1106 ∷ 1540 ∷ []) [] opened ahead
      (omega arith) (omega arith) refl refl refl

catalog_line_bounds_example :
    (length (entry_line sample (image 1067)) < 128)
    × (length column_heads < 128)
    × (length (title (file_name sample (image 1028)) (codes "/SUB")) < 128)
    × (length (totals 16 (pos 12)) < 128)
catalog_line_bounds_example =
    catalog_line_bounds sample (image 1067) (image 1028) (codes "/SUB") 16 (pos 12) (omega arith)
      (omega arith) (omega arith) (omega arith)

-- The text of the virtual file at the root of the sample.
abbrev root_text : List ℕ
root_text =
    catalog_text sample_volume (codes "/") (codes "DISK") (1067 ∷ 1106 ∷ 1540 ∷ []) 16 (pos 12)

prodosfs_open-catalog_example :
    (prodosfs_open 40 initial_settings sample_volume err_none (codes "/.CATALOG")
      ≡ ok (success 0, some (listing root_text), err_end_of_file))
    × (read_pieces initial_settings sample_volume
          (codes "/.CATALOG")
          512
          (suc (length root_text))
          err_end_of_file
          (listing root_text)
          0
          []
        ≡ ok root_text)
    × (prodosfs_read initial_settings sample_volume err_end_of_file
          (codes "/.CATALOG")
          (listing root_text)
          512
          (pos (suc (length root_text)))
        ≡ thrown out_of_range)
    × (prodosfs_close initial_settings (codes "/.CATALOG") (listing root_text) ≡ ok (success 0))
unfolding parent_path open_directory open_key_block Header.name Header.total_blocks
    create_volume_header storage_type load file_name name_length loads le_read16 total_blocks
    root_directory entries_per_block count_blocks_used count_loop count_bitmap popcount
    bit_map_pointer read_block ◌+ℤ◌ prodos_filename is_virtual virtual_file_id filename
prodosfs_open-catalog_example =
    let (h, opened, ahead) =
      open_directory_root sample_volume 1024 err_none (1067 ∷ 1106 ∷ 1540 ∷ []) 40 refl
        root_directory in
    prodosfs_open-catalog initial_settings sample_volume err_none err_none (codes "/.CATALOG")
      (codes "DISK") h (slots sample 1024 root_directory) 40 16 (pos 12) (1067 ∷ 1106 ∷ 1540 ∷ [])
      [] 511 (suc (length root_text)) (suc (length root_text)) refl refl opened ahead (omega arith)
      (omega arith) refl refl refl (omega arith) (omega arith)
