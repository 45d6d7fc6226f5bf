-- ===== src/Tests/Layouts.antt =====
-- The root header of the sample and its first entry, in the layouts of the structs.
use prodosfs.Base.{ℕ, zero, suc, ◌+◌, ◌<◌, ◌≡◌, arith, ◌⊎◌, inl, inr}
use mathlib.Core.Path.{subst}
use prodosfs.Base.Text.{codes}
use prodosfs.Disk.{image, load}
use prodosfs.Entry.{
  Timestamp, storage_type, file_name, file_type, key_pointer, blocks_used, eof, creation_timestamp,
  version, min_version, access, aux_type, last_mod_timestamp, entry_length, entries_per_block,
  file_count, bit_map_pointer, total_blocks,
}
use prodosfs.Entry.Layout.Entries
use prodosfs.Entry.Layout.Headers
use prodosfs.Entry.Layout.Entries.{accessors-Stored}
use prodosfs.Entry.Layout.Headers.{header_accessors-Stored}
use prodosfs.Entry.Layout.{Stored, total}
use prodosfs.Tests.Sample.{sample}

-- What holds of all numbers below one.
abbrev Each : ℕ → (ℕ → Type 0) → Type 0
Each zero P = Unit
Each (suc n) P = Each n P × P n

Each-at : (n : ℕ) (P : ℕ → Type 0) (j : ℕ) → Each n P → j < n → P j
Each-at zero P j e lt = absurd (omega arith)
Each-at (suc n) P j e lt = elim (last) [
  | inl below ↦ Each-at n P j e.0 below
  | inr is ↦ subst P is e.1
]
  where
    last : (j < n) ⊎ (n ≡ j)
    last = ground arith

abbrev no_date : Timestamp
no_date = record { year = 0; month = 0; day = 0; hour = 0; minute = 0 }

abbrev entry_a : Entries.EntryFields
entry_a = record {
  type = 1;
  name = codes "A";
  file_type = 4;
  key_pointer = 5;
  blocks_used = 0;
  eof = 300;
  creation = no_date;
  version = 0;
  min_version = 0;
  access = 0;
  aux_type = 0;
  last_mod = no_date;
  header_pointer = 0;
}

entry_a-Stored : Stored Entries.size Entries.offset sample (image 1067) (Entries.written entry_a)
unfolding load
entry_a-Stored m j =
    Each-at (Entries.size m)
      (λ k. load sample (image (1067 + (Entries.offset m + k))) ≡ Entries.written entry_a m k) j
      (bytes m)
  where
    bytes :
        (n : Entries.Member)
        → Each
            (Entries.size n)
            (λ k. load sample (image (1067 + (Entries.offset n + k))) ≡ Entries.written entry_a n k)
    bytes Entries.in_type_and_length = omega arith
    bytes Entries.in_name = omega arith
    bytes Entries.in_file_type = omega arith
    bytes Entries.in_key_pointer = omega arith
    bytes Entries.in_blocks_used = omega arith
    bytes Entries.in_eof = omega arith
    bytes Entries.in_creation = omega arith
    bytes Entries.in_version = omega arith
    bytes Entries.in_min_version = omega arith
    bytes Entries.in_access = omega arith
    bytes Entries.in_aux_type = omega arith
    bytes Entries.in_last_mod = omega arith
    bytes Entries.in_header_pointer = omega arith

abbrev root_header : Headers.HeaderFields
root_header = record {
  type = 15;
  name = codes "DISK";
  reserved = λ j. 0;
  creation = no_date;
  version = 0;
  min_version = 0;
  access = 0;
  entry_length = 39;
  entries_per_block = 13;
  file_count = 3;
  bit_map_pointer = 4;
  total_blocks = 16;
}

root_header-Stored :
    Stored Headers.size Headers.offset sample (image 1028) (Headers.written root_header)
unfolding load
root_header-Stored m j =
    Each-at (Headers.size m)
      (λ k. load sample (image (1028 + (Headers.offset m + k))) ≡ Headers.written root_header m k) j
      (bytes m)
  where
    bytes :
        (n : Headers.Member)
        → Each (Headers.size n) (λ k.
          load sample (image (1028 + (Headers.offset n + k))) ≡ Headers.written root_header n k)
    bytes Headers.in_type_and_length = omega arith
    bytes Headers.in_name = omega arith
    bytes Headers.in_reserved = omega arith
    bytes Headers.in_creation = omega arith
    bytes Headers.in_version = omega arith
    bytes Headers.in_min_version = omega arith
    bytes Headers.in_access = omega arith
    bytes Headers.in_entry_length = omega arith
    bytes Headers.in_entries_per_block = omega arith
    bytes Headers.in_file_count = omega arith
    bytes Headers.in_bit_map_pointer = omega arith
    bytes Headers.in_total_blocks = omega arith

accessors-Stored_example :
    (storage_type sample (image 1067) ≡ 1)
    × (file_name sample (image 1067) ≡ codes "A")
    × (file_type sample (image 1067) ≡ 4)
    × (key_pointer sample (image 1067) ≡ 5)
    × (blocks_used sample (image 1067) ≡ 0)
    × (eof sample (image 1067) ≡ 300)
    × (creation_timestamp sample (image 1067) ≡ no_date)
    × (version sample (image 1067) ≡ 0)
    × (min_version sample (image 1067) ≡ 0)
    × (access sample (image 1067) ≡ 0)
    × (aux_type sample (image 1067) ≡ 0)
    × (last_mod_timestamp sample (image 1067) ≡ no_date)
    × (total Entries.directory_entry ≡ 39)
accessors-Stored_example = accessors-Stored sample (image 1067) entry_a (omega arith) entry_a-Stored

header_accessors-Stored_example :
    (storage_type sample (image 1028) ≡ 15)
    × (file_name sample (image 1028) ≡ codes "DISK")
    × (creation_timestamp sample (image 1028) ≡ no_date)
    × (version sample (image 1028) ≡ 0)
    × (min_version sample (image 1028) ≡ 0)
    × (access sample (image 1028) ≡ 0)
    × (entry_length sample (image 1028) ≡ 39)
    × (entries_per_block sample (image 1028) ≡ 13)
    × (file_count sample (image 1028) ≡ 3)
    × (bit_map_pointer sample (image 1028) ≡ 4)
    × (total_blocks sample (image 1028) ≡ 16)
    × (total Headers.directory_header ≡ 39)
header_accessors-Stored_example =
    header_accessors-Stored sample (image 1028) root_header (omega arith) root_header-Stored
