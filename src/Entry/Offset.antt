-- ===== src/Entry/Offset.antt =====
-- The offsets that the structs of block.hxx give their fields, all of them bytes.
-- (include/prodos/block.hxx)
use Prim.Native.Nat.{ℕ}

abbrev pub name : ℕ
name = 1

abbrev pub file_type : ℕ
file_type = 16

abbrev pub key_pointer : ℕ
key_pointer = 17

abbrev pub blocks_used : ℕ
blocks_used = 19

abbrev pub eof : ℕ
eof = 21

abbrev pub creation : ℕ
creation = 24

abbrev pub version : ℕ
version = 28

abbrev pub min_version : ℕ
min_version = 29

abbrev pub access : ℕ
access = 30

-- In an entry.
abbrev pub aux_type : ℕ
aux_type = 31

abbrev pub last_mod : ℕ
last_mod = 33

-- In a header.
abbrev pub entry_length : ℕ
entry_length = 31

abbrev pub entries_per_block : ℕ
entries_per_block = 32

abbrev pub file_count : ℕ
file_count = 33

abbrev pub bit_map_pointer : ℕ
bit_map_pointer = 35

abbrev pub total_blocks : ℕ
total_blocks = 37
