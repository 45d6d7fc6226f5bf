-- ===== src/Fuse/Errors.antt =====
-- `S_ToError` (main.cxx), and what an operation answers.
use prodosfs.Base.{
  ℕ, Option, none, some, List, [], ◌∷◌, ◌==◌, if◌then◌else◌, Err, err_none, err_input_output,
  err_no_device_connected, err_disk_switched, err_invalid_pathname, err_invalid_reference_number,
  err_directory_not_found, err_volume_not_found, err_file_not_found, err_unsupported_storage_type,
  err_end_of_file, err_position_out_of_range, err_file_access_error,
  err_directory_structure_damaged, err_file_structure_damaged,
}

pub data Errno : Type 0 where
  eio ebadf enotdir enoent enxio enodata erange : Errno

-- What an operation returns: a number that is not negative, or an error number negated.
pub data Reply : Type 0 where
  success : ℕ → Reply
  failure : Errno → Reply

-- The values of `err_t`.
abbrev pub error_code : Err → ℕ
error_code err_none = 0x00
error_code err_input_output = 0x27
error_code err_no_device_connected = 0x28
error_code err_disk_switched = 0x2e
error_code err_invalid_pathname = 0x40
error_code err_invalid_reference_number = 0x43
error_code err_directory_not_found = 0x44
error_code err_volume_not_found = 0x45
error_code err_file_not_found = 0x46
error_code err_unsupported_storage_type = 0x4b
error_code err_end_of_file = 0x4c
error_code err_position_out_of_range = 0x4d
error_code err_file_access_error = 0x4e
error_code err_directory_structure_damaged = 0x51
error_code err_file_structure_damaged = 0x54

-- The map of `S_ToError`, in the order of its initializer; `none` is 0.
abbrev pub errors : List (ℕ × Option Errno)
errors =
    (error_code err_none, none)
    ∷ (error_code err_position_out_of_range, some ebadf)
    ∷ (error_code err_directory_not_found, some enotdir)
    ∷ (error_code err_volume_not_found, some enoent)
    ∷ (error_code err_file_not_found, some enoent)
    ∷ (error_code err_end_of_file, none)
    ∷ (error_code err_position_out_of_range, some enxio)
    ∷ []

-- A map built from a list keeps the first entry of a key.
abbrev pub find_error : List (ℕ × Option Errno) → ℕ → Option Errno
find_error [] code = some eio
find_error ((k, e) ∷ rest) code = if k == code then e else find_error rest code

unfoldable pub to_error : Err → Option Errno
to_error err = find_error errors (error_code err)

-- `-S_ToError(error)`.
unfoldable pub minus_error : Err → Reply
unfolding to_error
minus_error err = elim (to_error err) [ none ↦ success 0 | some e ↦ failure e ]
