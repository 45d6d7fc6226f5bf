-- ===== src/Volume/Paths.antt =====
-- `S_SplitPath`, `GetEntry`, `OpenFile` and `OpenDirectory` (source/volume.cxx). A path is the list
-- of its bytes.
use prodosfs.Base.{
  ℕ, zero, suc, ◌+◌, ◌-◌, Option, none, some, List, [], ◌∷◌, take, drop, length, bytes_eq, get_or,
  ◌==◌, if◌then◌else◌, not, err_unsupported_storage_type, pos, Result, ok, out_of_fuel, ◌>>=◌, Err,
  err_file_not_found, err_directory_not_found,
}
use mathlib.Core.Option
use prodosfs.Disk.{Disk, Ptr, plus, read_block}
use prodosfs.Entry.{name_matches, is_directory, is_file, key_pointer}
use prodosfs.File.{FileHandle, open_handle}
use prodosfs.Directory.{Handle, open_key_block, next_entry}

-- `volume_t`: its disk, and the key block of the volume directory.
pub record Volume : Type 0 where
  pub disk : Disk
  pub root : Ptr

-- `std::string::find`: the place of a byte, from a position on.
abbrev pub find_char : ℕ → List ℕ → Option ℕ
find_char c [] = none
find_char c (x ∷ xs) = if x == c then some 0 else Option.map suc (find_char c xs)

-- `substr`: a count below 0 is the largest `size_t`, and takes all that is left.
abbrev pub substr_before : List ℕ → ℕ → ℕ → List ℕ
substr_before s start position =
    if position == 0 then drop start s else take (position - 1) (drop start s)

-- The loop of `S_SplitPath`; the fuel is the length of the path plus one.
unfoldable pub split_loop : ℕ → List ℕ → ℕ → List (List ℕ)
split_loop zero path start = drop start path ∷ []
split_loop (suc fuel) path start = elim (find_char b'/' (drop start path)) [
  | none ↦ drop start path ∷ []
  | some i ↦ substr_before path start (start + i) ∷ split_loop fuel path (start + i + 1)
]

-- `pathname[0]` of an empty string is a zero byte.
unfoldable pub split_path : List ℕ → List (List ℕ)
split_path path =
    let start = if get_or path 0 0 == b'/' then 1 else 0 in split_loop (length path) path start

-- The loop of `GetEntry`: the entry at hand, the handle, and the components still to be matched.
-- `limit` is the fuel of each `NextEntry`.
unfoldable pub walk :
    ℕ → ℕ → Disk → Err → Option Ptr → Handle → List (List ℕ) → Result (Option Ptr × Err)
walk zero limit d err entry h names = out_of_fuel
walk (suc fuel) limit d err none h names = ok (none, err_file_not_found)
walk (suc fuel) limit d err (some e) h [] = ok (none, err_file_not_found)
walk (suc fuel) limit d err (some e) h (name ∷ rest) =
    let onward = λ (from : Handle) (names : List (List ℕ)).
      next_entry limit d err from >>= λ (e', h', err'). walk fuel limit d err' e' h' names in
    let descend =
      read_block d (pos (key_pointer d e)) >>= open_key_block d >>= λ h'. onward h' rest in
    let pass = onward h (name ∷ rest) in
    if name_matches d e name
    then elim rest [
      | [] ↦ ok (some e, err)
      | _ ↦ if is_directory d e then descend else ok (none, err_directory_not_found)
    ]
    else pass

unfoldable pub get_entry : ℕ → Volume → Err → List ℕ → Result (Option Ptr × Err)
get_entry fuel v err pathname =
    if bytes_eq pathname (b'/' ∷ []) then ok (some (plus v.root 4), err) else (do
      h ← open_key_block v.disk v.root
      (e, h', err') ← next_entry fuel v.disk err h
      walk fuel fuel v.disk err' e h' (split_path pathname))

unfoldable pub open_file : ℕ → Volume → Err → List ℕ → Result (Option FileHandle × Err)
open_file fuel v err pathname = (do
  (entry, err') ← get_entry fuel v err pathname
  elim entry [
    | none ↦ ok (none, err')
    | some e ↦
        if not (is_file v.disk e)
        then ok (none, err_unsupported_storage_type)
        else (do h ← open_handle v.disk e; ok (some h, err'))
  ])

unfoldable pub open_directory : ℕ → Volume → Err → List ℕ → Result (Option Handle × Err)
open_directory fuel v err pathname =
    if bytes_eq pathname (b'/' ∷ [])
    then (do h ← open_key_block v.disk v.root; ok (some h, err))
    else (do
      (entry, err') ← get_entry fuel v err pathname
      elim entry [
        | none ↦ ok (none, err')
        | some e ↦
            if is_directory v.disk e
            then (do
              b ← read_block v.disk (pos (key_pointer v.disk e))
              h ← open_key_block v.disk b
              ok (some h, err'))
            else ok (none, err_directory_not_found)
      ])
