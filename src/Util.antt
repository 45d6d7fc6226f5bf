-- ===== src/Util.antt =====
-- `AppleWorksFileName` (source/util.cxx).
pub mod Names
pub mod Logger
pub mod Dump
use prodosfs.Base.{
  ℕ, zero, suc, ◌+◌, ◌-◌, ◌*◌, ◌/◌, ◌^◌, List, [], ◌∷◌, bit_and, bit_or, ◌==◌, if◌then◌else◌,
}
use prodosfs.Base.Text.{to_lower, c_str}

-- A character, by its bit.
unfoldable pub appleworks_char : ℕ → ℕ → ℕ
appleworks_char bit c = if bit == 0 then c else if c == b'.' then b' ' else to_lower c

-- The loop from character `i` on, with its bit in `mask`. The shift `1 << (15 - i)` is by at least
-- 0: a file name has at most 15 characters, and so they fit in `buffer`.
unfoldable pub appleworks_loop : ℕ → ℕ → List ℕ → List ℕ
appleworks_loop mask i [] = []
appleworks_loop mask i (c ∷ cs) =
    appleworks_char (bit_and mask (2 ^ (15 - i))) c ∷ appleworks_loop mask (i + 1) cs

-- The bytes of `aux_type` swapped.
abbrev pub appleworks_mask : ℕ → ℕ
appleworks_mask aux_type =
    bit_or (bit_and aux_type 0x00ff * 2 ^ 8) (bit_and aux_type 0xff00 / 2 ^ 8)

-- The buffer is read as a C string.
unfoldable pub appleworks_file_name : List ℕ → ℕ → List ℕ
appleworks_file_name filename aux_type =
    c_str (appleworks_loop (appleworks_mask aux_type) 0 filename)
