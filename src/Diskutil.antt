-- ===== src/Diskutil.antt =====
-- util/diskutil.cxx: the commands normalize, catalog and rename. What they print is left out, but for
-- the listing of a directory.
pub mod Normalize
pub mod Sessions
use prodosfs.Base.{
  ℕ, zero, suc, Bool, true, false, not, List, [], ◌∷◌, ◌++◌, Option, none, some, bytes_eq,
  if◌then◌else◌, take, Result, ok, thrown, out_of_fuel, wild_pointer, ◌>>=◌, Err, err_none,
}
use mathlib.Core.List.{tail}
use prodosfs.Base.Text.{codes}
use prodosfs.Base.FilePath.{rfind}
use prodosfs.Disk.{Disk, is_dirty}
use prodosfs.Entry.{is_valid_name}
use prodosfs.Volume.Paths.{Volume}
use prodosfs.Volume.Header
use prodosfs.Volume.Catalog.{catalog}
use prodosfs.Volume.Rename.{rename}

-- What a command asks of the file system: to write an image to a path, or to rename a file.
pub data Action : Type 0 where
  save_image : List ℕ → Disk → Action
  rename_file : List ℕ → List ℕ → Action

-- How a command ends: its exit status is `EXIT_SUCCESS` or not; and what it did before that.
pub record Outcome : Type 0 where
  pub succeeded : Bool
  pub actions : List Action

-- `std::filesystem::path::remove_filename`, which leaves the slash.
abbrev pub remove_filename : List ℕ → List ℕ
remove_filename path = elim (rfind b'/' path) [ none ↦ [] | some i ↦ take (suc i) path ]

abbrev pub printed_something : Option (List ℕ) → Bool
printed_something none = false
printed_something (some text) = true

-- The answer to the question for a new volume name; at the end of the input it stays the one before.
abbrev pub new_volume_name : List (List ℕ) → List ℕ
new_volume_name [] = codes "1"
new_volume_name (word ∷ words) = word

-- `works` is whether the file system does what it is asked, and `behind` the memory behind a text that
-- `Rename` copies.
module _ (works : Action → Bool) (behind : ℕ → ℕ) where
  -- One answer to the question for a new volume name: the volume, what is done, and whether the program
  -- goes on.
  unfoldable pub rename_volume : Volume → List ℕ → List ℕ → Result (Volume × List Action × Bool)
  rename_volume v path name =
      let go = (do
        (renamed, v') ← rename behind v name
        ok (v', save_image path v'.disk ∷ [], works (save_image path v'.disk))) in
      if bytes_eq name []
      then ok (v, [], true)
      else if not (is_valid_name name)
      then ok (v, [], true)
      else go

  -- The image renamed to the volume's name: `remove_filename` changes `pathname` itself, before it is
  -- given to `rename`.
  unfoldable pub rename_image : Volume → List ℕ → Result (List ℕ × List Action × Bool)
  rename_image v path = do
    name ← Header.name v
    let new_name = remove_filename path ++ name ++ codes ".po"
    ok (
      remove_filename path,
      rename_file (remove_filename path) new_name ∷ [],
      works (rename_file (remove_filename path) new_name),
    )

  -- The loop over the words of the input, with the actions so far. At the end of the input every answer
  -- is empty.
  unfoldable pub rename_loop : ℕ → Volume → List ℕ → List (List ℕ) → List Action → Result Outcome
  rename_loop zero v path words done = out_of_fuel
  rename_loop (suc fuel) v path [] done = rename_loop fuel v path [] done
  rename_loop (suc fuel) v path (answer ∷ words) done =
      let volume = (do
        (v', acts, going) ← rename_volume v path (new_volume_name words)
        (if going
            then rename_loop fuel v' path (tail words) (done ++ acts)
            else ok (record { succeeded = false; actions = done ++ acts }))) in
      let image_name = (do
        (path', acts, going) ← rename_image v path
        (if going
            then rename_loop fuel v path' words (done ++ acts)
            else ok (record { succeeded = false; actions = done ++ acts }))) in
      let other = rename_loop fuel v path words done in
      if bytes_eq answer (codes "1")
      then volume
      else if bytes_eq answer (codes "2")
      then image_name
      else if bytes_eq answer (codes "3")
      then ok (record { succeeded = true; actions = done })
      else other

-- `open_volume` is the constructor of `volume_t` at a path.
module _ (open_volume : List ℕ → Result Volume) (works : Action → Bool) (behind : ℕ → ℕ) where
  unfoldable pub normalize : List (List ℕ) → Result Outcome
  normalize (program ∷ command ∷ image_in ∷ image_out ∷ []) = do
    v ← open_volume image_in
    (if not (is_dirty v.disk)
        then ok (record { succeeded = false; actions = [] })
        else ok (record {
          succeeded = works (save_image image_out v.disk);
          actions = save_image image_out v.disk ∷ [];
        }))
  normalize _ = ok (record { succeeded = false; actions = [] })

  -- The listing of the root, for `%s`.
  unfoldable pub root_listing : ℕ → Volume → Result (List ℕ)
  root_listing fuel v = do
    (text, err) ← catalog fuel v err_none (codes "/")
    elim text [ none ↦ thrown wild_pointer | some listing ↦ ok listing ]

  -- `S_OpenVolume`, with `none` where it ends the program.
  unfoldable pub volume_or_exit : List ℕ → Result (Option Volume)
  volume_or_exit path = elim (open_volume path) [
    | ok v ↦ ok (some v)
    | thrown e ↦ ok none
    | out_of_fuel ↦ out_of_fuel
  ]

  -- What is printed, or `none` where the program ends before.
  unfoldable pub catalog_command : ℕ → List (List ℕ) → Result (Option (List ℕ))
  unfolding root_listing volume_or_exit
  catalog_command fuel (program ∷ command ∷ image_in ∷ []) = do
    opened ← volume_or_exit image_in
    elim opened [ none ↦ ok none | some v ↦ (do listing ← root_listing fuel v; ok (some listing)) ]
  catalog_command fuel _ = ok none

  unfoldable pub rename_command : ℕ → List (List ℕ) → List (List ℕ) → Result Outcome
  unfolding root_listing rename_loop volume_or_exit
  rename_command fuel (program ∷ command ∷ image_in ∷ []) words = do
    opened ← volume_or_exit image_in
    elim opened [
      | none ↦ ok (record { succeeded = false; actions = [] })
      | some v ↦ (do
        listing ← root_listing fuel v
        rename_loop works behind fuel v image_in words [])
    ]
  rename_command fuel _ words = ok (record { succeeded = false; actions = [] })

  -- `main`: whether the exit status is `EXIT_SUCCESS`.
  unfoldable pub diskutil : ℕ → List (List ℕ) → List (List ℕ) → Result Bool
  unfolding normalize catalog_command rename_command
  diskutil fuel arguments words =
      let chosen = λ (cmd : List ℕ).
        if bytes_eq cmd (codes "catalog")
        then (do printed ← catalog_command fuel arguments; ok (printed_something printed))
        else if bytes_eq cmd (codes "normalize")
        then (do o ← normalize arguments; ok o.succeeded)
        else if bytes_eq cmd (codes "rename")
        then (do o ← rename_command fuel arguments words; ok o.succeeded)
        else ok false in
      elim arguments [
        | [] ↦ ok false
        | program ∷ more ↦ elim more [ [] ↦ ok false | cmd ∷ rest ↦ chosen cmd ]
      ]
