-- ===== src/Fuse/Program.antt =====
-- `S_HandleOptions`, `S_RedirectToLogfile` and `main` (main.cxx).
pub mod Ready
pub mod Missing
use prodosfs.Base.{
  ℕ, Bool, true, false, not, ◌&&◌, List, [], ◌∷◌, ◌++◌, Option, none, some, ltb, ◌==◌,
  if◌then◌else◌, ℤ, pos, negsuc, Result, ok, thrown, out_of_fuel, wild_pointer, ◌>>=◌,
}
use prodosfs.Base.Text.{codes, decimal}
use prodosfs.Base.FilePath.{stem}
use prodosfs.Volume.Paths.{Volume}
use prodosfs.Fuse.Settings.{
  Settings, text_mode_unix, extension_mode_off, extension_mode_on, virtual_file_mode_hidden,
}
use prodosfs.Fuse.MountPoint.{Probe, ErrnoState, update_mount_directory}

-- The variables before the options are read. `log_info` is 3.
abbrev pub initial_settings : Settings
initial_settings = record {
  disk_image = [];
  foreground = false;
  use_name = false;
  log_level = pos 3;
  debug = false;
  text_mode = text_mode_unix;
  extension_mode = extension_mode_off;
  virtual_file_mode = virtual_file_mode_hidden;
}

abbrev pub log_max : ℕ
log_max = 9

abbrev pub is_log_level : ℤ → Bool
is_log_level (pos n) = not (ltb log_max n)
is_log_level (negsuc n) = false

-- What reading the options leads to: going on, or `exit`, in success or not.
pub data Handled : Type 0 where
  handled : Settings → Handled
  exits : Bool → Handled

-- What `main` comes to: it ends in success or not, or it enters the loop of FUSE with its arguments.
pub data Ending : Type 0 where
  ends : Bool → Ending
  serves : Settings → Volume → List (List ℕ) → Ending

-- What is outside the program: the C library, the file system and the ids of the user.
pub record Platform : Type 0 where
  pub atoi : List ℕ → ℤ
  -- `none` is the null pointer, for a path that is not there.
  pub realpath : List ℕ → Option (List ℕ)
  pub open_volume : List ℕ → Result Volume
  pub stat : List ℕ → Probe
  pub errno : ErrnoState
  pub mkdir_fails : List ℕ → Bool
  pub open_log : List ℕ → ℤ
  pub uid : ℕ
  pub gid : ℕ

module _ (p : Platform) where
  -- The loop over the options that `getopt` finds: the letter, `?` for one that it does not know, and
  -- its argument.
  unfoldable pub handle_options : List (ℕ × List ℕ) → Settings → Handled
  handle_options [] s = handled s
  handle_options ((c, optarg) ∷ rest) s =
      let next = λ (s' : Settings). handle_options rest s' in
      if c == b'd'
      then next (record s { debug = true })
      else if c == b'e'
      then next (record s { extension_mode = extension_mode_on })
      else if c == b'f'
      then next (record s { foreground = true })
      else if c == b'h'
      then exits true
      else if c == b'l'
      then (if is_log_level (p.atoi optarg)
          then next (record s { log_level = p.atoi optarg })
          else exits false)
      else if c == b'n'
      then next (record s { use_name = true })
      else exits false

  -- `none` where the name is no good or the directory cannot be made.
  unfoldable pub mount_directory : Settings → Volume → List ℕ → Result (Option (List ℕ))
  mount_directory s v dir = elim (update_mount_directory p.stat p.errno v dir) [
    | ok (done, dir') ↦
        if not done then ok none else if p.mkdir_fails dir' then ok none else ok (some dir')
    | thrown e ↦ thrown e
    | out_of_fuel ↦ out_of_fuel
  ]

  unfoldable pub log_file : List ℕ → List ℕ
  log_file disk_image = codes "/tmp/" ++ stem disk_image ++ codes ".log"

  -- Whether the log file could be opened.
  unfoldable pub redirect_to_logfile : List ℕ → Bool
  unfolding log_file
  redirect_to_logfile disk_image = elim (p.open_log (log_file disk_image)) [
    | pos n ↦ true
    | negsuc n ↦ false
  ]

  unfoldable pub fuse_arguments : Settings → List ℕ → List (List ℕ)
  fuse_arguments s dir =
      codes "prodosfs"
      ∷ codes "-oauto_unmount"
      ∷ (codes "-ouid=" ++ decimal p.uid)
      ∷ (codes "-ogid=" ++ decimal p.gid)
      ∷ codes "-f"
      ∷ (if s.debug then codes "-d" ∷ dir ∷ [] else dir ∷ [])

  -- A null pointer is followed by `fuse_opt_add_arg`.
  unfoldable pub enter : Settings → Volume → Option (List ℕ) → Result Ending
  unfolding fuse_arguments
  enter s v none = thrown wild_pointer
  enter s v (some dir) = ok (
      serves (record s { log_level = if s.debug then pos log_max else s.log_level }) v
        (fuse_arguments s dir))

  -- From the mount directory on.
  unfoldable pub start : Settings → Volume → Option (List ℕ) → Result Ending
  unfolding enter redirect_to_logfile
  start s v dir =
      if not s.foreground && not s.debug
      then (if redirect_to_logfile s.disk_image then enter s v dir else ok (ends false))
      else enter s v dir

  -- With the volume, from the test for `-n` on. A null pointer is followed by `strlen`. What is thrown
  -- outside the `try` ends the program too, by `std::terminate`.
  unfoldable pub with_volume : Settings → Volume → Option (List ℕ) → Result Ending
  unfolding mount_directory start
  with_volume s v mount_dir =
      let named = λ (dir : List ℕ). (do
        chosen ← mount_directory s v dir
        elim chosen [ none ↦ ok (ends false) | some dir' ↦ start s v (some dir') ]) in
      if s.use_name
      then elim mount_dir [ none ↦ thrown wild_pointer | some dir ↦ named dir ]
      else start s v mount_dir

  -- With the two arguments, from the image on.
  unfoldable pub with_image : Settings → Option (List ℕ) → Result Ending
  unfolding with_volume
  with_image s mount_dir = elim (p.open_volume s.disk_image) [
    | thrown e ↦ ok (ends false)
    | out_of_fuel ↦ out_of_fuel
    | ok v ↦ with_volume s v mount_dir
  ]

  -- `main`, from the options and the arguments after them. A `std::string` of a null pointer is an
  -- exception, in the `try`.
  unfoldable pub main : List (ℕ × List ℕ) → List (List ℕ) → Result Ending
  unfolding handle_options with_image
  main options arguments = elim (handle_options options initial_settings) [
    | exits success ↦ ok (ends success)
    | handled s ↦ elim arguments [
      | [] ↦ ok (ends false)
      | dir ∷ rest ↦ elim rest [
        | [] ↦ ok (ends false)
        | image_file ∷ more ↦ elim (p.realpath image_file) [
          | none ↦ ok (ends false)
          | some path ↦ with_image (record s { disk_image = path }) (p.realpath dir)
        ]
      ]
    ]
  ]
