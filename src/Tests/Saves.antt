-- ===== src/Tests/Saves.antt =====
-- `disk_t::Save` on a file system in memory, of one descriptor.
use prodosfs.Base.{
  ℕ, ◌≡◌, refl, sym, ap, ◌∙◌, ◌⊎◌, true, false, List, [], ◌∷◌, Option, none, some, length, pos, ok,
  thrown, system_error, bytes_eq, bytes_eq_refl, if◌then◌else◌,
}
use prodosfs.Base.Text.{codes}
use prodosfs.Disk.{Disk}
use prodosfs.Disk.Save.{FileSystem, image_bytes, save}
use prodosfs.Disk.Save.Atomic.{IsPosix, save-IsAtomic}
use prodosfs.Tests.Sample.{sample}

-- The files by their paths, and the path of the descriptor.
record Files : Type 0 where
  contents : List ℕ → Option (List ℕ)
  target : List ℕ

abbrev put : (List ℕ → Option (List ℕ)) → List ℕ → Option (List ℕ) → List ℕ → Option (List ℕ)
put contents p x q = if bytes_eq p q then x else contents q

put-here :
    (contents : List ℕ → Option (List ℕ)) (p : List ℕ) (x : Option (List ℕ))
    → put contents p x p ≡ x
put-here contents p x = rw (bytes_eq_refl p) refl

put-there :
    (contents : List ℕ → Option (List ℕ)) (p q : List ℕ) (x : Option (List ℕ))
    → bytes_eq p q ≡ false
    → put contents p x q ≡ contents q
put-there contents p q x e = rw e refl

abbrev in_memory : FileSystem Files
in_memory = record {
  open_for_writing = λ s p. (record { contents = put s.contents p (some []); target = p }, some 3);
  write = λ s fd bytes.
      (record s { contents = put s.contents s.target (some bytes) }, pos (length bytes));
  close = λ s fd. s;
  rename = λ s p q. (record s { contents = put (put s.contents q (s.contents p)) p none }, true);
}

-- No call of `rename` fails.
in_memory-rename :
    (s s' : Files) (p q : List ℕ)
    → in_memory.rename s p q ≡ (s', false)
    → s'.contents q ≡ s.contents q
in_memory-rename s s' p q e = cc

abbrev in_memory-IsPosix : IsPosix in_memory
in_memory-IsPosix = record {
  contents = λ s. s.contents;
  writes_to = λ s fd p. s.target ≡ p;
  apart = λ p q. bytes_eq p q ≡ false;
  open_some = λ s s' p fd e. ap (λ r. r.0.target) (sym e);
  open_others = λ s s' p q fd apart e.
      ap (λ r. r.0.contents q) (sym e) ∙ put-there s.contents p q (some []) apart;
  write_all = λ s s' p fd bytes to_p e.
      ap (λ r. r.0.contents p) (sym e)
      ∙ ap (λ t. put s.contents t (some bytes) p) to_p
      ∙ put-here s.contents p (some bytes);
  write_others = λ s s' p q fd bytes n to_p apart e.
      ap (λ r. r.0.contents q) (sym e)
      ∙ ap (λ t. put s.contents t (some bytes) q) to_p
      ∙ put-there s.contents p q (some bytes) apart;
  close_same = λ s p fd. refl;
  rename_done = λ s s' p q apart e.
      ap (λ r. r.0.contents q) (sym e)
      ∙ put-there (put s.contents q (s.contents p)) p q none apart
      ∙ put-here s.contents q (s.contents p);
  rename_failed = in_memory-rename;
}

abbrev tiny : Disk
tiny = record sample { size = 3 }

abbrev before : Files
before = record { contents = put (λ p. none) (codes "a.po") (some (1 ∷ [])); target = [] }

save-IsAtomic_example :
    (((save in_memory before tiny (codes "a.po")).1 ≡ ok true)
      × ((save in_memory before tiny (codes "a.po")).0.contents (codes "a.po")
          ≡ some (image_bytes tiny)))
    ⊎ ((((save in_memory before tiny (codes "a.po")).1 ≡ ok false)
          ⊎ ((save in_memory before tiny (codes "a.po")).1 ≡ thrown system_error))
        × ((save in_memory before tiny (codes "a.po")).0.contents (codes "a.po") ≡ some (1 ∷ [])))
save-IsAtomic_example = save-IsAtomic in_memory in_memory-IsPosix tiny (codes "a.po") refl before
