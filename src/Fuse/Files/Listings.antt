-- ===== src/Fuse/Files/Listings.antt =====
-- The virtual file of a directory (main.cxx): its catalog, opened by path, read in pieces, and closed.
use prodosfs.Base.{
  ℕ, zero, suc, ◌+◌, ◌-◌, ◌≤◌, ◌<◌, ◌≡◌, refl, sym, ap, ◌∙◌, true, false, some, List, [], ◌∷◌, ◌++◌,
  length, length-append, take, drop, drop-drop, length-drop, take-append-drop, min, ltb, arith, ℤ,
  pos, Result, ok, thrown, out_of_fuel, out_of_range, ◌>>=◌, Err, err_end_of_file,
}
use mathlib.Core.List.{append_assoc, append-nil}
use prodosfs.Base.FilePath.{parent_path}
use prodosfs.Directory.{Handle}
use prodosfs.Directory.Next.{Ahead}
use prodosfs.Volume.Paths.{Volume, open_directory}
use prodosfs.Volume.Header
use prodosfs.Volume.Usage.{count_blocks_used}
use prodosfs.Volume.Catalog.{title, column_heads, totals}
use prodosfs.Volume.Catalog.Listing.{entry_lines, catalog-Ahead}
use prodosfs.Fuse.Settings.{Settings}
use prodosfs.Fuse.Errors.{success}
use prodosfs.Fuse.Names.{prodos_filename}
use prodosfs.Fuse.Files.{OpenFile, listing, read_text, prodosfs_open, prodosfs_read, prodosfs_close}
use prodosfs.Fuse.Status.{is_virtual}

-- A program that reads a file in pieces, from an offset on, until it is given none; with what it has so far.
abbrev pub read_pieces :
    Settings → Volume → List ℕ → ℕ → ℕ → Err → OpenFile → ℕ → List ℕ → Result (List ℕ)
read_pieces s v path piece zero err o off so_far = out_of_fuel
read_pieces s v path piece (suc fuel) err o off so_far =
    prodosfs_read s v err path o piece (pos off) >>= λ (reply, bytes, o', err'). elim bytes [
      | [] ↦ ok so_far
      | c ∷ cs ↦ read_pieces s v path piece fuel err' o' (off + length (c ∷ cs)) (so_far ++ c ∷ cs)
    ]

-- A read of the text up to its end.
prodosfs_read_within :
    (s : Settings) (v : Volume) (err : Err) (path text : List ℕ) (piece off : ℕ)
    → is_virtual s path ≡ true
    → off ≤ length text
    → prodosfs_read s v err path (listing text) piece (pos off)
      ≡ ok (success (min piece (length text - off)), take piece (drop off text), listing text, err)
unfolding prodosfs_read read_text
prodosfs_read_within s v err path text piece off virtual le =
    let inside : ltb (length text) off ≡ false = ground (arith, le) in rw (virtual, inside) refl

-- A read from behind it throws.
prodosfs_read_behind :
    (s : Settings) (v : Volume) (err : Err) (path text : List ℕ) (piece off : ℕ)
    → is_virtual s path ≡ true
    → length text < off
    → prodosfs_read s v err path (listing text) piece (pos off) ≡ thrown out_of_range
unfolding prodosfs_read read_text
prodosfs_read_behind s v err path text piece off virtual lt =
    let behind : ltb (length text) off ≡ true = ground (arith, lt) in rw (virtual, behind) refl

module _ (s : Settings) (v : Volume) (path text : List ℕ) (k : ℕ)
    (virtual : is_virtual s path ≡ true) where
  read_pieces-listing :
      (fuel : ℕ) (err : Err) (off : ℕ) (so_far rest : List ℕ)
      → drop off text ≡ rest
      → off ≤ length text
      → length rest < fuel
      → read_pieces s v path (suc k) fuel err (listing text) off so_far ≡ ok (so_far ++ rest)
  read_pieces-listing zero err off so_far rest e le enough = absurd (omega arith)
  read_pieces-listing (suc fuel) err off so_far [] e le enough =
      rw (prodosfs_read_within s v err path text (suc k) off virtual le, e)
        (ap ok (sym (append-nil so_far)))
  read_pieces-listing (suc fuel) err off so_far (c ∷ cs) e le enough =
      let n : ℕ = length (c ∷ take k cs) in
      let left : length (c ∷ cs) ≡ length text - off = ap length (sym e) ∙ length-drop off text in
      let whole : n + length (drop n (c ∷ cs)) ≡ length (c ∷ cs) =
        sym (length-append (c ∷ take k cs) (drop n (c ∷ cs)))
        ∙ ap length (take-append-drop (suc k) (c ∷ cs)) in
      let onward : drop (off + n) text ≡ drop n (c ∷ cs) =
        sym (drop-drop off n (off + n) text refl) ∙ ap (drop n) e in
      rw (prodosfs_read_within s v err path text (suc k) off virtual le, e)
        (read_pieces-listing fuel err (off + n) (so_far ++ c ∷ take k cs) (drop n (c ∷ cs)) onward
            (omega arith) (omega arith)
          ∙ ap ok (
              append_assoc so_far (c ∷ take k cs) (drop n (c ∷ cs))
              ∙ ap (λ t. so_far ++ t) (take-append-drop (suc k) (c ∷ cs))))

-- The text of a catalog.
abbrev pub catalog_text : Volume → List ℕ → List ℕ → List ℕ → ℕ → ℤ → List ℕ
catalog_text v folder volume_name entries total used =
    ((title volume_name folder ++ column_heads) ++ entry_lines v.disk entries) ++ totals total used

-- Opening the path of a virtual file makes the text of the catalog: the title, the heads of the columns,
-- one line for each entry ahead, and the block counts. Reading it from the start in pieces of any size
-- but zero gives all of that text and ends; a read from behind it throws; and it is closed without an
-- error. It takes a directory that opens, a volume with a name and block counts, fuel for the slots and
-- the entries of the directory, and more pieces than the text has bytes.
pub prodosfs_open-catalog :
    (s : Settings) (v : Volume) (err err' : Err) (path volume_name : List ℕ) (h : Handle)
    (bound fuel total : ℕ) (used : ℤ) (entries spare : List ℕ) (k pieces behind : ℕ)
    → is_virtual s path ≡ true
    → is_virtual s (prodos_filename s path) ≡ true
    → open_directory fuel v err (parent_path (prodos_filename s path)) ≡ ok (some h, err')
    → Ahead v.disk bound h entries spare
    → bound < fuel
    → length entries < fuel
    → Header.name v ≡ ok volume_name
    → Header.total_blocks v ≡ ok total
    → count_blocks_used v ≡ ok used
    → let text : List ℕ =
        catalog_text v (parent_path (prodos_filename s path)) volume_name entries total used in
      length text < pieces
      → length text < behind
      → (prodosfs_open fuel s v err path ≡ ok (success 0, some (listing text), err_end_of_file))
        × (read_pieces s v path (suc k) pieces err_end_of_file (listing text) 0 [] ≡ ok text)
        × (prodosfs_read s v err_end_of_file path (listing text) (suc k) (pos behind)
            ≡ thrown out_of_range)
        × (prodosfs_close s path (listing text) ≡ ok (success 0))
unfolding prodosfs_open prodosfs_close
prodosfs_open-catalog s v err err' path volume_name h bound fuel total used entries spare k pieces
      behind virtual named opened ahead enough lt header counted taken short far =
    let text : List ℕ =
      catalog_text v (parent_path (prodos_filename s path)) volume_name entries total used in
    let made =
      catalog-Ahead v err err' (prodos_filename s path) volume_name h bound fuel total used entries
        spare opened ahead enough lt header counted taken in
    (
      rw (named, made) refl,
      read_pieces-listing s v path text k virtual pieces err_end_of_file 0 [] text refl
          (omega arith) short,
      prodosfs_read_behind s v err_end_of_file path text (suc k) behind virtual far,
      rw virtual refl,
    )
