-- ===== src/FileType/Texts.antt =====
-- The texts of the file types (source/filetype.cxx), over the whole table.
use prodosfs.Base.{
  arith, ℕ, ◌+◌, ◌-◌, ◌*◌, ◌<◌, Bool, true, false, ◌||◌, not, List, [], ◌∷◌, ◌≡◌, refl, ap, Option,
  some, none, ltb, ◌==◌, bytes_eq, if◌then◌else◌,
}
use prodosfs.Base.Text.{codes, hexadecimal}
use prodosfs.Base.Bits.{every, every-at}
use prodosfs.FileType.{get_file_type_info, is_appleworks_file}
use prodosfs.FileType.Info.{add_file_type}

-- The number that a byte of text stands for as a hexadecimal digit.
abbrev pub digit_value : ℕ → ℕ
digit_value c = if ltb c b'A' then c - b'0' else 10 + c - b'A'

-- The number written as "$" and two hexadecimal digits.
abbrev pub hex_value : List ℕ → Option ℕ
hex_value (dollar ∷ high ∷ low ∷ []) =
    if dollar == b'$' then some (digit_value high * 16 + digit_value low) else none
hex_value text = none

abbrev is_value : Option ℕ → ℕ → Bool
is_value (some n) code = n == code
is_value none code = false

value_table : every (λ c. is_value (hex_value (get_file_type_info c).type) c) 256 ≡ true
unfolding every get_file_type_info add_file_type hexadecimal
value_table = refl

is_value_sound : (r : Option ℕ) (c : ℕ) → is_value r c ≡ true → r ≡ some c
is_value_sound (some n) c e = ap some (ground (arith, e))
is_value_sound none c e = absurd (ground (arith, e))

-- Every code of a byte has an entry whose type text is "$" and the code as two hexadecimal digits,
-- so that the code can be read back from the text.
pub get_file_type_info-hex_value :
    (code : ℕ) → code < 256 → hex_value (get_file_type_info code).type ≡ some code
get_file_type_info-hex_value code lt =
    is_value_sound (hex_value (get_file_type_info code).type) code
      (every-at (λ c. is_value (hex_value (get_file_type_info c).type) c) 256 code lt value_table)

-- A name of one of the three kinds of AppleWorks files.
abbrev pub is_appleworks_name : List ℕ → Bool
is_appleworks_name name =
    bytes_eq name (codes "ADB") || bytes_eq name (codes "AWP") || bytes_eq name (codes "ASP")

abbrev same : Bool → Bool → Bool
same p q = if p then q else not q

same_sound : (p q : Bool) → same p q ≡ true → p ≡ q
same_sound true true e = refl
same_sound true false e = absurd (ground (arith, e))
same_sound false true e = absurd (ground (arith, e))
same_sound false false e = refl

appleworks_table :
    every (λ c. same (is_appleworks_file c) (is_appleworks_name (get_file_type_info c).name)) 256
    ≡ true
unfolding every get_file_type_info add_file_type hexadecimal is_appleworks_file
appleworks_table = refl

-- The test for AppleWorks files agrees with the table for every code of a byte: it holds of exactly
-- the codes with the name "ADB", "AWP" or "ASP".
is_appleworks_file-name :
    (code : ℕ)
    → code < 256
    → is_appleworks_file code ≡ is_appleworks_name (get_file_type_info code).name
is_appleworks_file-name code lt =
    same_sound (is_appleworks_file code) (is_appleworks_name (get_file_type_info code).name) (
      every-at (λ c. same (is_appleworks_file c) (is_appleworks_name (get_file_type_info c).name))
        256 code lt appleworks_table)
