-- ===== src/Diskutil/Sessions.antt =====
-- The loop of `diskutil rename` (util/diskutil.cxx).
use prodosfs.Base.{
  ℕ, not, zero, suc, ◌≡◌, ◌≢◌, refl, sym, ap, Bool, true, false, List, [], ◌∷◌, ◌++◌, take, drop,
  All, bytes_eq, Option-cases, Bool-cases, inl, inr, ok, >>=-ok, Returned, Returned-after,
  Returned-if, Returned-ok,
}
use mathlib.Core.List.{tail}
use prodosfs.Base.Text.{codes}
use prodosfs.Base.FilePath.{rfind, filename}
use prodosfs.Disk.{Disk}
use prodosfs.Entry.{is_valid_name}
use prodosfs.Volume.Paths.{Volume}
use prodosfs.Volume.Header
use prodosfs.Volume.Rename.{rename}
use prodosfs.Diskutil.{
  Action, save_image, rename_file, Outcome, remove_filename, rename_volume, rename_image,
  rename_loop, new_volume_name,
}

-- A word of the input that is neither "2" nor "3".
abbrev pub IsNoOption : List ℕ → Type 0
IsNoOption word = (bytes_eq word (codes "2") ≡ false) × (bytes_eq word (codes "3") ≡ false)

abbrev IsGoing : {A B : Type 0} → A × B × Bool → Type 0
IsGoing (a, b, going) = going ≡ true

All-tail : (words : List (List ℕ)) → All IsNoOption words → All IsNoOption (tail words)
All-tail [] p = tt
All-tail (word ∷ words) p = p.1

module _ (works : Action → Bool) (behind : ℕ → ℕ)
    (saves : (path : List ℕ) (d : Disk) → works (save_image path d) ≡ true) where
  rename_volume-IsGoing :
      (v : Volume) (path name : List ℕ) → Returned IsGoing (rename_volume works behind v path name)
  unfolding rename_volume
  rename_volume-IsGoing v path name = Returned-if IsGoing (bytes_eq name []) _ _ refl (
      Returned-if IsGoing (not (is_valid_name name)) _ _ refl
        (Returned-after IsGoing (rename behind v name) _ (λ (renamed, v'). saves path v'.disk)))

  -- The loop of `rename` does not end with the input: if every image can be saved, an input without the
  -- words "2" and "3", at the end of which the program asks on and on, takes all fuel or throws. ("2"
  -- may end the program, since the file system may refuse to rename; "3" does.)
  pub rename_loop_endless :
      (fuel : ℕ) (v : Volume) (path : List ℕ) (words : List (List ℕ)) (done : List Action)
      (o : Outcome)
      → All IsNoOption words
      → rename_loop works behind fuel v path words done ≢ ok o
  unfolding rename_loop
  rename_loop_endless zero v path words done o p e = cc
  rename_loop_endless (suc fuel) v path [] done o p e =
      rename_loop_endless fuel v path [] done o tt e
  rename_loop_endless (suc fuel) v path (answer ∷ words) done o p e =
      elim (Bool-cases (bytes_eq answer (codes "1"))) [
        | inl one ↦
            let ((v', acts, going), got, rest) =
              >>=-ok (rename_volume works behind v path (new_volume_name words)) _ (rw one at e) in
            let on =
              Returned-ok IsGoing (rename_volume works behind v path (new_volume_name words))
                (rename_volume-IsGoing v path (new_volume_name words)) got in
            rename_loop_endless fuel v' path (tail words) (done ++ acts) o (All-tail words p.1)
              (rw on at rest)
        | inr not_one ↦
            rename_loop_endless fuel v path words done o p.1 (rw (not_one, p.0.0, p.0.1) at e)
      ]

drop_rest : (n : ℕ) (xs : List ℕ) → take n xs ≡ xs → drop n xs ≡ []
drop_rest zero xs e = sym e
drop_rest (suc n) [] e = refl
drop_rest (suc n) (x ∷ xs) e = drop_rest n xs (ap tail e)

remove_filename-ne : (path : List ℕ) → filename path ≢ [] → remove_filename path ≢ path
unfolding filename
remove_filename-ne path named same = elim (Option-cases (rfind b'/' path)) [
  | inl none_found ↦
      named (rw (none_found, filename) (sym (rw (none_found, remove_filename) at same)))
  | inr (i, found) ↦
      named (rw (found, filename) (drop_rest (suc i) path (rw (found, remove_filename) at same)))
]

-- "Image name to volume name" never renames the image: for a path with a file name, what is to be renamed
-- is the path without it, which is not the path of the image.
rename_image_source :
    (works : Action → Bool) (behind : ℕ → ℕ) (v : Volume) (path path' : List ℕ) (acts : List Action)
    (going : Bool)
    → filename path ≢ []
    → rename_image works behind v path ≡ ok (path', acts, going)
    → (from : List ℕ) × (to : List ℕ) × (acts ≡ rename_file from to ∷ []) × (from ≢ path)
unfolding rename_image
rename_image_source works behind v path path' acts going named e =
    let (name, got, rest) = >>=-ok (Header.name v) _ e in
    (
      remove_filename path,
      remove_filename path ++ name ++ codes ".po",
      cc,
      remove_filename-ne path named,
    )
