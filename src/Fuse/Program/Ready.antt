-- ===== src/Fuse/Program/Ready.antt =====
-- `main` (main.cxx): what has been done when it enters the loop of FUSE.
use prodosfs.Base.{
  ℕ, ◌≡◌, ◌⊎◌, inl, inr, refl, true, false, not, ◌&&◌, List, [], ◌∷◌, Option, none, some, ok,
  thrown, out_of_fuel, Result, pos, arith, Bool-cases, Bool, if◌then◌else◌, Returned, Returned-ok,
  Returned-if, ◌>>=◌, ◌∙◌, ap, if-Holds,
}
use prodosfs.Volume.Paths.{Volume}
use prodosfs.Fuse.Settings.{Settings, extension_mode_on}
use prodosfs.Fuse.MountPoint.{update_mount_directory}
use prodosfs.Fuse.Program.{
  initial_settings, is_log_level, Handled, handled, exits, Ending, ends, serves, Platform,
  handle_options, mount_directory, redirect_to_logfile, fuse_arguments, enter, start, with_volume,
  with_image, main,
}

module _ (p : Platform) where
  handle_options-IsLogLevel :
      (options : List (ℕ × List ℕ)) (s s' : Settings)
      → is_log_level s.log_level ≡ true
      → handle_options p options s ≡ handled s'
      → is_log_level s'.log_level ≡ true
  unfolding handle_options
  handle_options-IsLogLevel [] s s' level e = cc
  handle_options-IsLogLevel ((c, optarg) ∷ rest) s s' level e =
      let set = λ (t : Settings). handle_options-IsLogLevel rest t s' in
      ground (
        arith,
        set (record s { debug = true }) level,
        set (record s { extension_mode = extension_mode_on }) level,
        set (record s { foreground = true }) level,
        set (record s { log_level = p.atoi optarg }),
        set (record s { use_name = true }) level,
      )

  -- The directory that FUSE is given: the one named in the arguments, or with the option `-n` the one that
  -- is chosen below it for the volume, which could be made.
  abbrev pub IsPlaced : List ℕ → Settings → Volume → List ℕ → Type 0
  IsPlaced mount_dir s v dir =
      (base : List ℕ) × (p.realpath mount_dir ≡ some base)
      × (((s.use_name ≡ false) × (dir ≡ base))
          ⊎ ((s.use_name ≡ true)
              × (update_mount_directory p.stat p.errno v base ≡ ok (true, dir))
              × (p.mkdir_fails dir ≡ false)))

  -- What holds of the arguments `mount_dir` and `image_file` when the loop is entered.
  pub record IsReady (mount_dir image_file : List ℕ) (s : Settings) (v : Volume)
      (args : List (List ℕ)) : Type 0 where
    pub level : is_log_level s.log_level ≡ true
    pub chatty : s.debug ≡ true → s.log_level ≡ pos 9
    pub of_image : p.realpath image_file ≡ some s.disk_image
    pub mounted : p.open_volume s.disk_image ≡ ok v
    pub logged :
        (s.foreground ≡ true) ⊎ (s.debug ≡ true) ⊎ (redirect_to_logfile p s.disk_image ≡ true)
    pub placed : (dir : List ℕ) × (args ≡ fuse_arguments p s dir) × IsPlaced mount_dir s v dir

  -- The same of an ending, where it is one in the loop.
  abbrev Entered : List ℕ → List ℕ → Ending → Type 0
  Entered mount_dir image_file (ends b) = Unit
  Entered mount_dir image_file (serves s v args) = IsReady mount_dir image_file s v args

  module _ (mount_dir image_file : List ℕ) (s : Settings) (valid : is_log_level s.log_level ≡ true)
      (of_image : p.realpath image_file ≡ some s.disk_image) where
    module _ (v : Volume) (mounted : p.open_volume s.disk_image ≡ ok v) where
      enter-Entered :
          (dir : Option (List ℕ))
          → ((d : List ℕ) → dir ≡ some d → IsPlaced mount_dir s v d)
          → (s.foreground ≡ true) ⊎ (s.debug ≡ true) ⊎ (redirect_to_logfile p s.disk_image ≡ true)
          → Returned (Entered mount_dir image_file) (enter p s v dir)
      unfolding enter
      enter-Entered none place log = tt
      enter-Entered (some dir) place log = record {
        level = ground (arith, valid);
        chatty = ground arith;
        of_image = of_image;
        mounted = mounted;
        logged = log;
        placed = (dir, refl, place dir refl);
      }

      start-Entered :
          (dir : Option (List ℕ))
          → ((d : List ℕ) → dir ≡ some d → IsPlaced mount_dir s v d)
          → Returned (Entered mount_dir image_file) (start p s v dir)
      unfolding start
      start-Entered dir place =
          if-Holds (Returned (Entered mount_dir image_file)) (not s.foreground && not s.debug) _ _
            (λ quiet.
              if-Holds (Returned (Entered mount_dir image_file))
                (redirect_to_logfile p s.disk_image) _ _
                (λ opened. enter-Entered dir place (inr (inr opened))) (λ unopened. tt))
            (λ shown. enter-Entered dir place (elim (Bool-cases s.foreground) [
              | inl front ↦ inl front
              | inr back ↦ inr (inl (ground (arith, shown, back)))
            ]))

      mount_directory-IsPlaced :
          (base dir : List ℕ)
          → s.use_name ≡ true
          → p.realpath mount_dir ≡ some base
          → mount_directory p s v base ≡ ok (some dir)
          → IsPlaced mount_dir s v dir
      unfolding mount_directory
      mount_directory-IsPlaced base dir named real e =
          updated (update_mount_directory p.stat p.errno v base) refl e
        where
          updated :
              (r : Result (Bool × List ℕ))
              → update_mount_directory p.stat p.errno v base ≡ r
              → (elim r [
                | ok (done, dir') ↦
                    if not done
                    then ok none
                    else if p.mkdir_fails dir'
                    then ok none
                    else ok (some dir')
                | thrown x ↦ thrown x
                | out_of_fuel ↦ out_of_fuel
              ])
                ≡ ok (some dir)
              → IsPlaced mount_dir s v dir
          updated (ok (done, dir')) got e' =
              (base, real, inr (named, ground (arith, got, e'), ground (arith, e')))
          updated (thrown x) got e' = cc
          updated out_of_fuel got e' = cc

      named-Entered :
          (base : List ℕ)
          → s.use_name ≡ true
          → p.realpath mount_dir ≡ some base
          → (chosen : Result (Option (List ℕ))) → mount_directory p s v base ≡ chosen
          → Returned (Entered mount_dir image_file) (
              chosen >>= λ picked. elim picked [
                | none ↦ ok (ends false)
                | some dir ↦ start p s v (some dir)
              ])
      named-Entered base named real (ok none) got = tt
      named-Entered base named real (ok (some dir)) got =
          start-Entered (some dir)
            (λ d same. mount_directory-IsPlaced base d named real (got ∙ ap (λ x. ok x) same))
      named-Entered base named real (thrown x) got = tt
      named-Entered base named real out_of_fuel got = tt

      with_volume-Entered :
          (dir : Option (List ℕ))
          → p.realpath mount_dir ≡ dir
          → Returned (Entered mount_dir image_file) (with_volume p s v dir)
      unfolding with_volume
      with_volume-Entered none real =
          Returned-if (Entered mount_dir image_file) s.use_name _ _ tt
            (start-Entered none (λ d same. cc))
      with_volume-Entered (some base) real =
          if-Holds (Returned (Entered mount_dir image_file)) s.use_name _ _
            (λ named. named-Entered base named real (mount_directory p s v base) refl)
            (λ given. start-Entered (some base) (λ d same. (d, real ∙ same, inl (given, refl))))

    with_image-Entered :
        Returned (Entered mount_dir image_file) (with_image p s (p.realpath mount_dir))
    unfolding with_image
    with_image-Entered = from_volume (p.open_volume s.disk_image) refl
      where
        from_volume :
            (opened : Result Volume)
            → p.open_volume s.disk_image ≡ opened
            → Returned (Entered mount_dir image_file) (elim opened [
              | thrown x ↦ ok (ends false)
              | out_of_fuel ↦ out_of_fuel
              | ok v ↦ with_volume p s v (p.realpath mount_dir)
            ])
        from_volume (thrown x) got = tt
        from_volume out_of_fuel got = tt
        from_volume (ok v) got = with_volume-Entered v got (p.realpath mount_dir) refl

  main-Entered :
      (options : List (ℕ × List ℕ)) (mount_dir image_file : List ℕ) (more : List (List ℕ))
      → Returned (Entered mount_dir image_file) (main p options (mount_dir ∷ image_file ∷ more))
  unfolding main
  main-Entered options mount_dir image_file more =
      from_options (handle_options p options initial_settings) refl
    where
      from_path :
          (s : Settings) (found : Option (List ℕ))
          → is_log_level s.log_level ≡ true
          → p.realpath image_file ≡ found
          → Returned (Entered mount_dir image_file) (elim found [
            | none ↦ ok (ends false)
            | some path ↦ with_image p (record s { disk_image = path }) (p.realpath mount_dir)
          ])
      from_path s none valid real = tt
      from_path s (some path) valid real =
          with_image-Entered mount_dir image_file (record s { disk_image = path }) valid real

      from_options :
          (h : Handled)
          → handle_options p options initial_settings ≡ h
          → Returned (Entered mount_dir image_file) (elim h [
            | exits success ↦ ok (ends success)
            | handled s ↦ elim (p.realpath image_file) [
              | none ↦ ok (ends false)
              | some path ↦ with_image p (record s { disk_image = path }) (p.realpath mount_dir)
            ]
          ])
      from_options (exits success) got = tt
      from_options (handled s) got =
          from_path s (p.realpath image_file)
            (handle_options-IsLogLevel options initial_settings s refl got) refl

  -- When the program enters the loop of FUSE, its log level is one from 0 to 9, and 9 when debugging; the
  -- volume is that of the image named in the arguments; unless it runs in the foreground or debugs, the log
  -- file was opened; and FUSE is given the arguments for the directory that is named, or with `-n` for one
  -- that was chosen for the volume and made.
  pub main-IsReady :
      (options : List (ℕ × List ℕ)) (mount_dir image_file : List ℕ) (more : List (List ℕ))
      (s : Settings) (v : Volume) (args : List (List ℕ))
      → main p options (mount_dir ∷ image_file ∷ more) ≡ ok (serves s v args)
      → IsReady mount_dir image_file s v args
  main-IsReady options mount_dir image_file more s v args e =
      Returned-ok (Entered mount_dir image_file) (main p options (mount_dir ∷ image_file ∷ more))
        (main-Entered options mount_dir image_file more) e
