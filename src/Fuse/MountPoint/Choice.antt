-- ===== src/Fuse/MountPoint/Choice.antt =====
-- The directory that `S_UpdateMountDirectory` (main.cxx) chooses.
use prodosfs.Base.{
  ℕ, zero, suc, ◌+◌, ◌≡◌, refl, ◌∙◌, sym, ap, not, ◌||◌, Bool, true, false, List, Option, some,
  none, arith, if◌then◌else◌, ◌⊎◌, Option-cases, inl, inr,
}
use prodosfs.Fuse.MountPoint.{
  Probe, present, absent, failing, ErrnoState, clear, no_entry, after_stat, is_present, is_no_entry,
  is_clear, with_suffix, suffix_loop, choose_directory,
}

abbrev pub is_absent : Probe → Bool
is_absent present = false
is_absent absent = true
is_absent (failing n) = false

-- The first directory that does not exist, of those with the suffixes from `i` on, `n` of them.
unfoldable pub first_free : (List ℕ → Probe) → List ℕ → ℕ → ℕ → Option (List ℕ)
first_free stat dir i zero = none
first_free stat dir i (suc n) =
    if is_absent (stat (with_suffix dir i))
    then some (with_suffix dir i)
    else first_free stat dir (i + 1) n

some-injective {ℓ} : {A : Type ℓ} {x y : A} → some x ≡ some y → x ≡ y
some-injective e = cc

-- There is nothing, or the search goes on.
Probe-cases :
    (p : Probe)
    → ((p ≡ absent) × (is_absent p ≡ true))
      ⊎ ((is_absent p ≡ false) × (is_no_entry (after_stat p clear) ≡ false))
Probe-cases present = inr (refl, refl)
Probe-cases absent = inl (refl, refl)
Probe-cases (failing n) = inr (refl, refl)

after_stat_there :
    (p : Probe) (errno : ErrnoState)
    → is_absent p ≡ false
    → is_no_entry errno ≡ false
    → is_no_entry (after_stat p errno) ≡ false
after_stat_there present errno there fresh = fresh
after_stat_there absent errno there fresh = cc
after_stat_there (failing n) errno there fresh = refl

is_clear-after_stat : (p : Probe) → is_clear (after_stat p clear) ≡ is_present p
is_clear-after_stat present = refl
is_clear-after_stat absent = refl
is_clear-after_stat (failing n) = refl

either_way : (p b : Bool) → b ≡ false → (p || not b) ≡ true
either_way true b e = refl
either_way false true e = sym e
either_way false false e = refl

module _ (stat : List ℕ → Probe) (base : List ℕ) where
  suffix_loop_stops :
      (i n : ℕ) (errno : ErrnoState) (dir : List ℕ)
      → is_no_entry errno ≡ true
      → suffix_loop stat base i n errno dir ≡ (errno, dir)
  unfolding suffix_loop
  suffix_loop_stops i zero errno dir e = refl
  suffix_loop_stops i (suc n) errno dir e = rw e

  suffix_loop_found :
      (i n : ℕ) (errno : ErrnoState) (dir free : List ℕ)
      → is_no_entry errno ≡ false
      → first_free stat base i n ≡ some free
      → suffix_loop stat base i n errno dir ≡ (no_entry, free)
  unfolding suffix_loop first_free
  suffix_loop_found i zero errno dir free e found = cc
  suffix_loop_found i (suc n) errno dir free e found =
      elim (Probe-cases (stat (with_suffix base i))) [
        | inl (gone, free_there) ↦
            rw (e, gone)
              (suffix_loop_stops (i + 1) n no_entry (with_suffix base i) refl
                ∙ ap (λ m. (no_entry, m)) (some-injective (rw free_there at found)))
        | inr (there, going) ↦ rw e (
            suffix_loop_found (i + 1) n (after_stat (stat (with_suffix base i)) clear)
              (with_suffix base i) free going (rw there at found))
      ]

  -- With at least one round left.
  suffix_loop-none :
      (i n : ℕ) (errno : ErrnoState) (dir : List ℕ)
      → is_no_entry errno ≡ false
      → first_free stat base i (suc n) ≡ none
      → suffix_loop stat base i (suc n) errno dir
        ≡ (after_stat (stat (with_suffix base (i + n))) clear, with_suffix base (i + n))
  unfolding suffix_loop first_free
  suffix_loop-none i zero errno dir e none_free = let same : i + 0 ≡ i = omega arith in rw (e, same)
  suffix_loop-none i (suc n) errno dir e none_free =
      elim (Probe-cases (stat (with_suffix base i))) [
        | inl (gone, free_there) ↦ cc (rw free_there at none_free)
        | inr (there, going) ↦ rw e (
            suffix_loop-none (i + 1) n (after_stat (stat (with_suffix base i)) clear)
              (with_suffix base i) going (rw there at none_free)
            ∙ ap (λ j. (after_stat (stat (with_suffix base j)) clear, with_suffix base j))
                (omega arith))
      ]

-- `S_UpdateMountDirectory` chooses well, unless `errno` is `ENOENT` before: it takes the directory itself
-- if there is none of that name yet, and otherwise the first of the nine names with a suffix from "-1" to
-- "-9" that there is not; if there are all of these it fails, and keeps the directory, where the last
-- one is found, and takes the last one where it cannot be looked at.
pub choose_directory-first_free :
    (stat : List ℕ → Probe) (errno : ErrnoState) (dir : List ℕ)
    → is_no_entry errno ≡ false
    → choose_directory stat errno dir ≡ (
        if is_absent (stat dir) then (true, dir) else elim (first_free stat dir 1 9) [
          | some free ↦ (true, free)
          | none ↦
              if is_present (stat (with_suffix dir 9))
              then (false, dir)
              else (true, with_suffix dir 9)
        ])
unfolding choose_directory
choose_directory-first_free stat errno dir fresh = elim (Probe-cases (stat dir)) [
  | inl (gone, free_there) ↦ rw gone
  | inr (there, going) ↦
      let fresh' = after_stat_there (stat dir) errno there fresh in
      let open_to = either_way (is_present (stat dir)) _ fresh' in
      elim (Option-cases (first_free stat dir 1 9)) [
        | inl none_free ↦ rw (
          open_to,
          there,
          none_free,
          suffix_loop-none stat dir 1 8 (after_stat (stat dir) errno) dir fresh' none_free,
          is_clear-after_stat (stat (with_suffix dir 9)),
        )
        | inr (free, found) ↦ rw (
          open_to,
          there,
          found,
          suffix_loop_found stat dir 1 9 (after_stat (stat dir) errno) dir free fresh' found,
        )
      ]
]
