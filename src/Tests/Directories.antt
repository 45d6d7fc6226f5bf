-- ===== src/Tests/Directories.antt =====
-- Directory/Next at the root directory of the sample.
use prodosfs.Base.{
  out_of_fuel, if◌then◌else◌, ◌==◌, ℕ, ◌≡◌, refl, [], ◌∷◌, arith, ok, thrown, some, err_none, ◌>>=◌,
  no_more_directory_blocks,
}
use prodosfs.Disk.{Disk, image, load, le_read16}
use prodosfs.Entry.{storage_type, is_inactive, entries_per_block, file_count}
use prodosfs.Directory.{Handle, open_key_block, next_entry, next_slot, skip_inactive}
use prodosfs.Directory.Layout.{Chain, last, link, IsDirectory}
use prodosfs.Directory.Cursor.{Pending-block, stop}
use prodosfs.Directory.Cycles.{Circle, next_entry-Circle}
use prodosfs.Directory.Next.{Ahead, next_entry-Ahead}
use prodosfs.Tests.Sample.{sample}

sample_chain : Chain sample 1024 (1024 ∷ 1536 ∷ [])
unfolding le_read16 load
sample_chain = link 2 refl (omega arith) (last refl)

unfoldable pub root_directory : IsDirectory sample 1024 (1067 ∷ 1106 ∷ 1540 ∷ [])
unfolding sample_chain le_read16 load storage_type is_inactive entries_per_block file_count
root_directory = record {
  blocks = 1024 ∷ 1536 ∷ [];
  spare = [];
  key_type = refl;
  chain = sample_chain;
  some_slots = omega arith;
  padded = (refl, (refl, tt));
  listed = refl;
  counted = refl;
}

unfoldable pub sub_directory : IsDirectory sample 3072 (3115 ∷ [])
unfolding le_read16 load storage_type is_inactive entries_per_block file_count
sub_directory = record {
  blocks = 3072 ∷ [];
  spare = [];
  key_type = refl;
  chain = last refl;
  some_slots = omega arith;
  padded = (refl, tt);
  listed = refl;
  counted = refl;
}

-- Before the only entry of the second block, with two entries delivered.
abbrev pub second_block : Handle
second_block = record { header = image 1028; block = image 1536; block_index = 0; entry_index = 2 }

pub second_block-Ahead : Ahead sample 13 second_block (1540 ∷ []) []
unfolding load le_read16 is_inactive entries_per_block file_count
second_block-Ahead = record {
  block = 1536;
  steps = 13;
  in_block = refl;
  pending = Pending-block sample 13 1536 13 0 0 [] refl (stop (omega arith) refl refl);
  within = omega arith;
  counted = refl;
}

next_entry-Ahead_example :
    (h' : Handle) × (next_entry 20 sample err_none second_block
      ≡ ok (some (image 1540), h', err_none))
    × Ahead sample 13 h' [] []
next_entry-Ahead_example =
    next_entry-Ahead sample 13 20 err_none second_block 1540 [] [] second_block-Ahead (omega arith)

-- Behind the last slot, with as many entries delivered as given.
abbrev behind : ℕ → Handle
behind count = record {
  header = image 1028;
  block = image 1536;
  block_index = 13;
  entry_index = count;
}

-- The header counts one entry more than there is, by evaluation.
next_entry_counts_more : next_entry 20 sample err_none (behind 2) ≡ thrown no_more_directory_blocks
unfolding next_entry skip_inactive next_slot load le_read16 is_inactive entries_per_block file_count
next_entry_counts_more = refl

-- The first entry of the root, by evaluation.
next_entry_first :
    (open_key_block sample (image 1024) >>= next_entry 40 sample err_none)
    ≡ ok (
      some (image 1067),
      record { header = image 1028; block = image 1024; block_index = 2; entry_index = 1 },
      err_none,
    )
unfolding open_key_block next_entry next_slot skip_inactive load le_read16 storage_type is_inactive
    entries_per_block file_count
next_entry_first = refl

-- A volume whose second directory block is its own successor, and that counts an entry which is not there.
abbrev circular : Disk
circular = record sample {
  base = λ a. if a == 1060 then 1 else if a == 1061 then 1 else if a == 1538 then 3 else 0;
}

circular-Circle : Circle circular 1 (λ a. a ≡ 1536)
unfolding is_inactive storage_type load le_read16
circular-Circle = record {
  empty = λ a i at le. rw at (ground arith);
  onward = λ a at. (2, rw at refl, omega arith, refl);
}

next_entry-Circle_example :
    next_entry 100 circular err_none
      (record { header = image 1028; block = image 1536; block_index = 0; entry_index = 0 })
    ≡ out_of_fuel
unfolding entries_per_block file_count load le_read16
next_entry-Circle_example =
    next_entry-Circle circular (λ a. a ≡ 1536) 100 err_none
      (record { header = image 1028; block = image 1536; block_index = 0; entry_index = 0 }) 1536
      refl refl (omega arith) circular-Circle (λ e. absurd (omega arith))
