-- ===== src/Entry/Layout.antt =====
-- The packed structs of include/prodos/block.hxx, whose members are bytes or arrays of bytes: where their
-- members lie, and how the disk format writes numbers, names and dates into them.
pub mod Entries
pub mod Headers
use prodosfs.Base.{
  ℕ, zero, suc, ◌+◌, ◌*◌, ◌/◌, ◌%◌, ◌^◌, ◌<◌, ◌≡◌, refl, sym, ap, ◌∙◌, List, [], ◌∷◌, All, arith,
  bit_or, bit_and, length, get_or,
}
use mathlib.Core.Path.{ap₂}
use prodosfs.Base.Bits.{bit_and-nibble, bit_or-bytes, bit_or-three_bytes}
use prodosfs.Disk.{Disk, Ptr, null, image, sparse, plus, load, loads, le_read16, le_read24}
use prodosfs.Disk.Blocks.{load-IsByte}
use prodosfs.Entry.{Timestamp, storage_type, name_length, file_name, decode_timestamp}
use prodosfs.Entry.Dates.{Fits, decode_timestamp-Holds}

abbrev pub total : List ℕ → ℕ
total [] = 0
total (n ∷ ns) = n + total ns

-- The bytes of all members of a struct stand at a pointer, each member behind those before it.
abbrev pub Stored : {M : Type 0} (size offset : M → ℕ) → Disk → Ptr → (M → ℕ → ℕ) → Type 0
Stored {M} size offset d p bytes =
    (m : M) (j : ℕ) → j < size m → load d (plus p (offset m + j)) ≡ bytes m j

-- A byte of a number, the lowest first.
abbrev pub little_endian : ℕ → ℕ → ℕ
little_endian n zero = n % 256
little_endian n (suc j) = little_endian (n / 256) j

-- The first byte of an entry, a byte of a name of at most 15, and one of a date.
abbrev pub type_and_length : ℕ → List ℕ → ℕ
type_and_length type name = type * 16 + length name

abbrev pub name_byte : List ℕ → ℕ → ℕ
name_byte name j = get_or name j 0

abbrev pub date_byte : Timestamp → ℕ → ℕ
date_byte t zero = (t.month * 32 + t.day) % 256
date_byte t (suc zero) = t.year * 2 + t.month / 8
date_byte t (suc (suc zero)) = t.minute
date_byte t (suc (suc (suc j))) = t.hour

pub plus-plus : (p : Ptr) (a b : ℕ) → plus (plus p a) b ≡ plus p (a + b)
plus-plus null a b = refl
plus-plus (image x) a b = ap image (omega arith)
plus-plus (sparse x) a b = ap sparse (omega arith)

-- The bytes of one member.
abbrev pub At : Disk → Ptr → ℕ → ℕ → (ℕ → ℕ) → Type 0
At d p size offset bytes = (j : ℕ) → j < size → load d (plus p (offset + j)) ≡ bytes j

module _ (d : Disk) (p : Ptr) (a : ℕ) where
  pub load-At : (bytes : ℕ → ℕ) → At d p 1 a bytes → load d (plus p a) ≡ bytes 0
  load-At bytes here = ap (λ x. load d (plus p x)) (omega arith) ∙ here 0 (omega arith)

  byte_of :
      (n : ℕ) (bytes : ℕ → ℕ) (j : ℕ)
      → At d p n a bytes
      → j < n
      → load d (plus (plus p a) j) ≡ bytes j
  byte_of n bytes j here lt = ap (load d) (plus-plus p a j) ∙ here j lt

  first_byte : (n : ℕ) (bytes : ℕ → ℕ) → At d p n a bytes → 0 < n → load d (plus p a) ≡ bytes 0
  first_byte n bytes here lt = ap (λ x. load d (plus p x)) (omega arith) ∙ here 0 lt

  pub le_read16-At : (n : ℕ) → n < 65536 → At d p 2 a (little_endian n) → le_read16 d (plus p a) ≡ n
  unfolding le_read16
  le_read16-At n lt here =
      rw
        (
          byte_of 2 (little_endian n) 1 here (omega arith),
          first_byte 2 (little_endian n) here (omega arith),
        )
        (bit_or-bytes (n / 256 % 256) (n % 256) (omega arith) (omega arith) ∙ omega arith)

  pub le_read24-At :
      (n : ℕ) → n < 16777216 → At d p 3 a (little_endian n) → le_read24 d (plus p a) ≡ n
  unfolding le_read24
  le_read24-At n lt here =
      rw
        (
          byte_of 3 (little_endian n) 2 here (omega arith),
          byte_of 3 (little_endian n) 1 here (omega arith),
          first_byte 3 (little_endian n) here (omega arith),
        )
        (bit_or-three_bytes (n / 256 / 256 % 256) (n / 256 % 256) (n % 256) (omega arith)
            (omega arith)
          ∙ omega arith)

  pub decode_timestamp-At :
      (t : Timestamp) → Fits t → At d p 4 a (date_byte t) → decode_timestamp d (plus p a) ≡ t
  decode_timestamp-At t fits here = decode_timestamp-Holds d (plus p a) t fits (record {
    date_low = first_byte 4 (date_byte t) here (omega arith);
    date_high = byte_of 4 (date_byte t) 1 here (omega arith);
    time_minute = byte_of 4 (date_byte t) 2 here (omega arith);
    time_hour = byte_of 4 (date_byte t) 3 here (omega arith);
  })

loads_lem :
    (d : Disk) (q : Ptr) (l : List ℕ) (i : ℕ)
    → ((j : ℕ) → j < length l → load d (plus q (i + j)) ≡ get_or l j 0)
    → loads d q i (length l) ≡ l
unfolding loads
loads_lem d q [] i each = refl
loads_lem d q (c ∷ cs) i each =
    ap₂ (λ x xs. x ∷ xs) (ap (λ k. load d (plus q k)) (omega arith) ∙ each 0 (omega arith))
      (loads_lem d q cs (i + 1)
        (λ j lt. ap (λ k. load d (plus q k)) (omega arith) ∙ each (suc j) (omega arith)))

-- What the first two members of an entry and of a header hold.
module _ (d : Disk) (p : Ptr) (type : ℕ) (name : List ℕ) (short : length name < 16)
    (small : type < 16) (first : At d p 1 0 (λ j. type_and_length type name)) where
  first_load : load d p ≡ type * 16 + length name
  first_load = ap (load d) (sym (plus-zero p)) ∙ load-At d p 0 _ first
    where
      plus-zero : (q : Ptr) → plus q 0 ≡ q
      plus-zero null = refl
      plus-zero (image x) = ap image (omega arith)
      plus-zero (sparse x) = ap sparse (omega arith)

  pub storage_type-At : storage_type d p ≡ type
  unfolding storage_type
  storage_type-At = rw first_load (omega arith)

  name_length-At : name_length d p ≡ length name
  unfolding name_length
  name_length-At =
      rw first_load (bit_and-nibble (type * 16 + length name) (omega arith) ∙ omega arith)

  pub file_name-At : At d p 15 1 (name_byte name) → file_name d p ≡ name
  unfolding file_name
  file_name-At rest = rw name_length-At (
      loads_lem d (plus p 1) name 0 (λ j lt.
        ap (λ k. load d (plus (plus p 1) k)) (omega arith)
        ∙ ap (load d) (plus-plus p 1 j)
        ∙ rest j (omega arith)))
