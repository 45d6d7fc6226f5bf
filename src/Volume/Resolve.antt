-- ===== src/Volume/Resolve.antt =====
-- `GetEntry` (source/volume.cxx) against a specification of path lookup that knows nothing of
-- handles: in each directory the first entry whose name matches the component.
use prodosfs.Base.{
  ℕ, zero, suc, ◌+◌, ◌*◌, ◌≤◌, ◌<◌, ◌≡◌, refl, ap, ◌∙◌, true, false, Option, none, some, List, [],
  ◌∷◌, length, find?, leb, arith, Bool-cases, inl, inr, Result, ok, ◌>>=◌, Err, err_file_not_found,
  err_directory_not_found,
}
use prodosfs.Disk.{Disk, Ptr, image, read_block}
use prodosfs.Entry.{name_matches, is_directory, key_pointer, entries_per_block}
use prodosfs.Directory.{Handle, open_key_block, next_entry}
use prodosfs.Directory.Layout.{IsDirectory, slots_in}
use prodosfs.Directory.Next.{Ahead, next_entry_end, next_entry-Ahead, open_key_block-Ahead}
use prodosfs.Volume.Paths.{walk}

leb-false : {a b : ℕ} → a < b → leb b a ≡ false
leb-false h = ground arith

pub data Lookup : Type 0 where
  entry : ℕ → Lookup
  missing : Err → Lookup

abbrev pub first_named : Disk → List ℕ → List ℕ → Option ℕ
first_named d name entries = find? (λ e. name_matches d (image e) name) entries

-- What the components of a path lead to from a directory with these entries.
pub data Resolves (d : Disk) : List ℕ → List (List ℕ) → Lookup → Type 0 where
  absent :
      {entries name : List ℕ} {rest : List (List ℕ)}
      → first_named d name entries ≡ none
      → Resolves d entries (name ∷ rest) (missing err_file_not_found)
  here :
      {entries name : List ℕ} (e : ℕ)
      → first_named d name entries ≡ some e
      → Resolves d entries (name ∷ []) (entry e)
  not_directory :
      {entries name next : List ℕ} {rest : List (List ℕ)} (e : ℕ)
      → first_named d name entries ≡ some e
      → is_directory d (image e) ≡ false
      → Resolves d entries (name ∷ next ∷ rest) (missing err_directory_not_found)
  below :
      {entries name next : List ℕ} {rest : List (List ℕ)} {r : Lookup} (e : ℕ) (inner : List ℕ)
      → first_named d name entries ≡ some e
      → is_directory d (image e) ≡ true
      → key_pointer d (image e) < d.num_blocks
      → IsDirectory d (key_pointer d (image e) * 512) inner
      → Resolves d inner (next ∷ rest) r
      → Resolves d entries (name ∷ next ∷ rest) r

-- What `GetEntry` returns for it, with the error that it leaves.
abbrev pub answer : Err → Lookup → Result (Option Ptr × Err)
answer err (entry e) = ok (some (image e), err)
answer err (missing x) = ok (none, x)

-- The walk from a handle on.
abbrev onward : ℕ → ℕ → Disk → Err → Handle → List (List ℕ) → Result (Option Ptr × Err)
onward fuel limit d err h names =
    next_entry limit d err h >>= λ (e, h', err'). walk fuel limit d err' e h' names

-- One round of the walk, by what is found at the entry.
module _ (fuel limit : ℕ) (d : Disk) (err : Err) (e : Ptr) (h : Handle) (name : List ℕ) where
  walk_miss :
      (rest : List (List ℕ))
      → name_matches d e name ≡ false
      → walk (suc fuel) limit d err (some e) h (name ∷ rest)
        ≡ onward fuel limit d err h (name ∷ rest)
  unfolding walk
  walk_miss rest miss = rw miss

  walk_last :
      name_matches d e name ≡ true
      → walk (suc fuel) limit d err (some e) h (name ∷ []) ≡ ok (some e, err)
  unfolding walk
  walk_last hit = rw hit

  walk_file :
      (next : List ℕ) (rest : List (List ℕ))
      → name_matches d e name ≡ true
      → is_directory d e ≡ false
      → walk (suc fuel) limit d err (some e) h (name ∷ next ∷ rest)
        ≡ ok (none, err_directory_not_found)
  unfolding walk
  walk_file next rest hit file = rw (hit, file)

  walk_down :
      (next : List ℕ) (rest : List (List ℕ)) (h' : Handle)
      → name_matches d e name ≡ true
      → is_directory d e ≡ true
      → (key_pointer d e < d.num_blocks)
      → open_key_block d (image (key_pointer d e * 512)) ≡ ok h'
      → walk (suc fuel) limit d err (some e) h (name ∷ next ∷ rest)
        ≡ onward fuel limit d err h' (next ∷ rest)
  unfolding walk read_block
  walk_down next rest h' hit sub lt opened = rw (hit, sub, leb-false lt, opened)

module _ (d : Disk) (limit bound : ℕ) (err : Err) (enough : bound < limit) (name : List ℕ)
    (rest : List (List ℕ)) where
  -- No entry matches: the walk reaches the end.
  walk_absent :
      (entries spare : List ℕ) (fuel : ℕ) (h : Handle)
      → Ahead d bound h entries spare
      → first_named d name entries ≡ none
      → length entries < fuel
      → onward fuel limit d err h (name ∷ rest) ≡ ok (none, err_file_not_found)
  walk_absent entries spare zero h v e lt = absurd (omega arith)
  walk_absent [] spare (suc fuel) h v e lt =
      rw (next_entry_end d bound limit err h spare v) (unfold walk in refl)
  walk_absent (x ∷ xs) spare (suc fuel) h v e lt =
      let (h', eq, v') = next_entry-Ahead d bound limit err h x xs spare v enough in
      elim (Bool-cases (name_matches d (image x) name)) [
        | inl hit ↦ ground arith
        | inr miss ↦ rw eq (
            walk_miss fuel limit d err (image x) h' name rest miss
            ∙ walk_absent xs spare fuel h' v' (ground arith) (omega arith))
      ]

  -- An entry matches: the walk comes to it.
  walk_present :
      (entries spare : List ℕ) (fuel e : ℕ) (h : Handle)
      → Ahead d bound h entries spare
      → first_named d name entries ≡ some e
      → length entries < fuel
      → (k : ℕ) × (h' : Handle) × (onward fuel limit d err h (name ∷ rest)
          ≡ walk (suc k) limit d err (some (image e)) h' (name ∷ rest))
        × (fuel ≤ k + length entries)
        × (name_matches d (image e) name ≡ true)
  walk_present entries spare zero e h v eq lt = absurd (omega arith)
  walk_present [] spare (suc fuel) e h v eq lt = ground arith
  walk_present (x ∷ xs) spare (suc fuel) e h v found lt =
      let (h', eq, v') = next_entry-Ahead d bound limit err h x xs spare v enough in
      elim (Bool-cases (name_matches d (image x) name)) [
        | inl hit ↦
            let same : x ≡ e = ground arith in
            (
              fuel,
              h',
              rw eq (
                  ap (λ (y : ℕ). walk (suc fuel) limit d err (some (image y)) h' (name ∷ rest))
                    same),
              omega arith,
              rw same at hit,
            )
        | inr miss ↦
            let (k, h'', eq', le, hit) =
              walk_present xs spare fuel e h' v' (ground arith) (omega arith) in
            (
              k,
              h'',
              rw eq (walk_miss fuel limit d err (image x) h' name rest miss ∙ eq'),
              omega arith,
              hit,
            )
      ]

-- With enough fuel, the walk from the start of a directory gives what the specification says.
pub onward-Resolves :
    (d : Disk) {entries : List ℕ} {names : List (List ℕ)} {r : Lookup}
    → Resolves d entries names r
    → (n : ℕ) × ((fuel limit bound : ℕ) (err : Err) (h : Handle) (spare : List ℕ)
        → Ahead d bound h entries spare
        → bound < limit
        → n ≤ fuel
        → n ≤ limit
        → onward fuel limit d err h names ≡ answer err r)
onward-Resolves d {entries} (absent {name = name} {rest = rest} none_named) = (
  suc (length entries),
  λ fuel limit bound err h spare v enough le _.
      walk_absent d limit bound err enough name rest entries spare fuel h v none_named le,
)
onward-Resolves d {entries} (here {name = name} e named) = (
  suc (length entries),
  λ fuel limit bound err h spare v enough le _.
      let (k, h', eq, _, hit) =
        walk_present d limit bound err enough name [] entries spare fuel e h v named le in
      eq ∙ walk_last k limit d err (image e) h' name hit,
)
onward-Resolves d {entries} (not_directory {name = name} {next = next} {rest = rest} e named file) =
    (
      suc (length entries),
      λ fuel limit bound err h spare v enough le _.
          let (k, h', eq, _, hit) =
            walk_present d limit bound err enough name (next ∷ rest) entries spare fuel e h v named
              le in
          eq ∙ walk_file k limit d err (image e) h' name next rest hit file,
    )
onward-Resolves d {entries}
      (below {name = name} {next = next} {rest = rest} e inner named sub lt dir r) =
    let (n, later) = onward-Resolves d r in
    let (down, opened, ahead) = open_key_block-Ahead d (key_pointer d (image e) * 512) inner dir in
    let inner_bound : ℕ =
      slots_in (entries_per_block d (image (key_pointer d (image e) * 512 + 4))) dir.blocks in
    (
      length entries + suc (n + suc inner_bound),
      λ fuel limit bound err h spare v enough le le'.
          let (k, h', eq, room, hit) =
            walk_present d limit bound err enough name (next ∷ rest) entries spare fuel e h v named
              (omega arith) in
          eq
          ∙ walk_down k limit d err (image e) h' name next rest down hit sub lt opened
          ∙ later k limit inner_bound err down dir.spare ahead (omega arith) (omega arith)
              (omega arith),
    )
