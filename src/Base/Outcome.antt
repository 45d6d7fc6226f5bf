-- ===== src/Base/Outcome.antt =====
-- How a call ends: with a value, with a C++ exception, or (loops that need not end) out of fuel.
-- Also the exceptions that the sources throw, and `err_t`, the error that the library keeps for
-- the calling thread (include/prodos/volume.hxx).
use mathlib.Core.Path.{◌≡◌, refl, subst}
use mathlib.Core.Bool.{Bool, true, false}
use prodosfs.Base.Tests.{if◌then◌else◌}

-- One constructor for each message of a `throw`.
pub data Exception : Type 0 where
  invalid_block_number invalid_track_number invalid_sector_number invalid_convert_direction :
      Exception
  invalid_address no_volume_directory_block unexpected_minimum_version : Exception
  unexpected_entries_per_block unexpected_entry_length unexpected_total_blocks : Exception
  not_a_volume_block not_a_subdirectory not_a_directory_key_block no_more_directory_blocks :
      Exception
  invalid_index unexpected_storage_type only_seek_set unexpected_file_type : Exception
  unexpected_virtual_file_id image_not_multiple_of_block_size image_not_regular : Exception
  -- `std::out_of_range`, and a use of a pointer that is null or to an object of another type, which
  -- C++ leaves undefined.
  out_of_range wild_pointer : Exception
  -- `std::runtime_error` with the text of `errno`.
  system_error : Exception

pub data Err : Type 0 where
  err_none err_input_output err_no_device_connected err_disk_switched : Err
  err_invalid_pathname err_invalid_reference_number err_directory_not_found : Err
  err_volume_not_found err_file_not_found err_unsupported_storage_type err_end_of_file : Err
  err_position_out_of_range err_file_access_error err_directory_structure_damaged : Err
  err_file_structure_damaged : Err

pub data Result {ℓ} (A : Type ℓ) : Type ℓ where
  ok : A → Result A
  thrown : Exception → Result A
  out_of_fuel : Result A

-- A throw, and running out of fuel, skip what follows.
infixl 5 ◌>>=◌
abbrev pub ◌>>=◌ {ℓ ℓ'} : {A : Type ℓ} {B : Type ℓ'} → Result A → (A → Result B) → Result B
thrown exception >>= next = thrown exception
out_of_fuel >>= next = out_of_fuel
ok value >>= next = next value

-- The value on the way in a chain that returns.
pub >>=-ok {ℓ ℓ'} :
    {A : Type ℓ} {B : Type ℓ'} (first : Result A) (next : A → Result B) {result : B}
    → (first >>= next) ≡ ok result
    → (value : A) × (first ≡ ok value) × (next value ≡ ok result)
>>=-ok (thrown exception) next e = cc
>>=-ok out_of_fuel next e = cc
>>=-ok (ok value) next e = (value, refl, e)

-- What a call gives if it returns.
abbrev pub Returned {ℓ κ} : {A : Type ℓ} → (A → Type κ) → Result A → Type κ
Returned P (ok a) = P a
Returned P _ = Unit

pub Returned->>= {ℓ ℓ' κ κ'} :
    {A : Type ℓ} {B : Type ℓ'} (P : A → Type κ) (Q : B → Type κ') (m : Result A) (f : A → Result B)
    → Returned P m
    → ((a : A) → P a → Returned Q (f a))
    → Returned Q (m >>= f)
Returned->>= P Q (ok a) f h k = k a h
Returned->>= P Q (thrown e) f h k = tt
Returned->>= P Q out_of_fuel f h k = tt

-- A chain whose first step is of no matter.
pub Returned-after {ℓ ℓ' κ} :
    {A : Type ℓ} {B : Type ℓ'} (P : B → Type κ) (m : Result A) (f : A → Result B)
    → ((a : A) → Returned P (f a))
    → Returned P (m >>= f)
Returned-after P (ok a) f k = k a
Returned-after P (thrown e) f k = tt
Returned-after P out_of_fuel f k = tt

pub Returned-if {ℓ κ} :
    {A : Type ℓ} (P : A → Type κ) (b : Bool) (x y : Result A)
    → Returned P x
    → Returned P y
    → Returned P (if b then x else y)
Returned-if P true x y h k = h
Returned-if P false x y h k = k

pub Returned-ok {ℓ κ} :
    {A : Type ℓ} (P : A → Type κ) (m : Result A) {a : A} → Returned P m → m ≡ ok a → P a
Returned-ok P m h e = subst (Returned P) e h

pub if-Holds {ℓ κ} :
    {A : Type ℓ} (P : A → Type κ) (b : Bool) (x y : A)
    → (b ≡ true → P x)
    → (b ≡ false → P y)
    → P (if b then x else y)
if-Holds P true x y holds fails = holds refl
if-Holds P false x y holds fails = fails refl
