-- ===== src/Volume/Catalog/Listing.antt =====
-- `Catalog` (source/volume.cxx) against the directory that it lists.
use prodosfs.Base.{
  ℕ, zero, suc, ◌<◌, ◌≡◌, ap, some, List, [], ◌∷◌, ◌++◌, length, arith, ok, Err, err_end_of_file, ℤ,
}
use mathlib.Core.List.{append_assoc, append-nil}
use prodosfs.Base.FilePath.{parent_path}
use prodosfs.Disk.{Disk, image}
use prodosfs.Directory.{Handle}
use prodosfs.Directory.Next.{Ahead, next_entry-Ahead, next_entry_end}
use prodosfs.Volume.Paths.{Volume, open_directory}
use prodosfs.Volume.Header
use prodosfs.Volume.Usage.{count_blocks_used}
use prodosfs.Volume.Catalog.{title, column_heads, entry_line, catalog_loop, totals, catalog}

-- The lines of entries at these offsets.
abbrev pub entry_lines : Disk → List ℕ → List ℕ
entry_lines d [] = []
entry_lines d (e ∷ entries) = entry_line d (image e) ++ entry_lines d entries

catalog_loop-Ahead :
    (limit bound : ℕ) (d : Disk) (fuel : ℕ) (err : Err) (h : Handle) (entries spare output : List ℕ)
    → bound < limit
    → length entries < fuel
    → Ahead d bound h entries spare
    → catalog_loop fuel limit d err h output ≡ ok (output ++ entry_lines d entries, err_end_of_file)
unfolding catalog_loop
catalog_loop-Ahead limit bound d zero err h entries spare output enough lt ahead =
    absurd (omega arith)
catalog_loop-Ahead limit bound d (suc fuel) err h [] spare output enough lt ahead =
    rw (next_entry_end d bound limit err h spare ahead, append-nil output)
catalog_loop-Ahead limit bound d (suc fuel) err h (e ∷ entries) spare output enough lt ahead =
    let (h1, delivered, ahead1) =
      next_entry-Ahead d bound limit err h e entries spare ahead enough in
    let rest =
      catalog_loop-Ahead limit bound d fuel err h1 entries spare (output ++ entry_line d (image e))
        enough (omega arith) ahead1 in
    rw (delivered, rest)
      (ap (λ o. ok (o, err_end_of_file))
        (append_assoc output (entry_line d (image e)) (entry_lines d entries)))

-- The catalog of a path, whose directory opens with these entries ahead, is a text of the title, the
-- heads of the columns, one line for each entry in order, and the block counts; the error is then
-- `err_end_of_file`. It takes a volume with a name and block counts, and fuel for the slots of the
-- directory and more than the number of its entries.
pub catalog-Ahead :
    (v : Volume) (err err' : Err) (pathname volume_name : List ℕ) (h : Handle)
    (bound fuel total : ℕ) (used : ℤ) (entries spare : List ℕ)
    → open_directory fuel v err (parent_path pathname) ≡ ok (some h, err')
    → Ahead v.disk bound h entries spare
    → bound < fuel
    → length entries < fuel
    → Header.name v ≡ ok volume_name
    → Header.total_blocks v ≡ ok total
    → count_blocks_used v ≡ ok used
    → catalog fuel v err pathname
      ≡ ok (
        some (
            ((title volume_name (parent_path pathname) ++ column_heads)
              ++ entry_lines v.disk entries)
            ++ totals total used),
        err_end_of_file,
      )
unfolding catalog
catalog-Ahead v err err' pathname volume_name h bound fuel total used entries spare opened ahead
      enough lt named counted taken =
    rw (
      opened,
      named,
      catalog_loop-Ahead fuel bound v.disk fuel err' h entries spare
          (title volume_name (parent_path pathname) ++ column_heads) enough lt ahead,
      counted,
      taken,
    )
