-- ===== src/Base/Text.antt =====
-- The C library's functions on the bytes of a text, in the "C" locale, and printf's numbers.
pub mod Lengths
use Prim.Native.Nat.{ℕ, zero, suc, ◌+◌, ◌-◌, ◌/◌, ◌%◌}
use Prim.Native.Char.{code}
use Prim.Native.String.{String}
use mathlib.Core.Bool.{Bool, ◌&&◌, ◌||◌}
use mathlib.Core.List.{List, [], ◌∷◌, ◌++◌}
use prodosfs.Base.Tests.{ltb, leb, if◌then◌else◌}
use prodosfs.Base.Integer.{ℤ, pos, negsuc}
use prodosfs.Base.Lists.{length, replicate}

-- The bytes of an ASCII text.
abbrev pub codes : String → List ℕ
codes String.[] = []
codes (String.◌∷◌ c s) = code c ∷ codes s

abbrev pub is_upper : ℕ → Bool
is_upper c = leb b'A' c && leb c b'Z'

abbrev pub is_lower : ℕ → Bool
is_lower c = leb b'a' c && leb c b'z'

abbrev pub is_alpha : ℕ → Bool
is_alpha c = is_upper c || is_lower c

abbrev pub is_alnum : ℕ → Bool
is_alnum c = is_alpha c || (leb b'0' c && leb c b'9')

unfoldable pub to_lower : ℕ → ℕ
to_lower c = if is_upper c then c + 32 else c

unfoldable pub to_upper : ℕ → ℕ
to_upper c = if is_lower c then c - 32 else c

-- What a function reads of a text that it takes as `const char *`.
abbrev pub c_str : List ℕ → List ℕ
c_str [] = []
c_str (zero ∷ cs) = []
c_str (suc c ∷ cs) = suc c ∷ c_str cs

-- The digits of a number in a base, before those in `acc`; the fuel is the number plus one.
unfoldable pub digits_loop : ℕ → (ℕ → ℕ) → ℕ → ℕ → List ℕ → List ℕ
digits_loop base digit zero n acc = acc
digits_loop base digit (suc fuel) n acc =
    let rest = digits_loop base digit fuel (n / base) (digit (n % base) ∷ acc) in
    if ltb n base then digit n ∷ acc else rest

abbrev pub decimal_digit : ℕ → ℕ
decimal_digit n = b'0' + n

abbrev pub hex_digit : ℕ → ℕ
hex_digit n = if ltb n 10 then b'0' + n else b'A' + n - 10

-- `%d` of a number that is not negative, and `%X`.
unfoldable pub decimal : ℕ → List ℕ
unfolding digits_loop
decimal n = digits_loop 10 decimal_digit (suc n) n []

unfoldable pub hexadecimal : ℕ → List ℕ
unfolding digits_loop
hexadecimal n = digits_loop 16 hex_digit (suc n) n []

-- `%d` and `std::to_string` of an `int`.
unfoldable pub signed_decimal : ℤ → List ℕ
unfolding decimal
signed_decimal (pos n) = decimal n
signed_decimal (negsuc n) = b'-' ∷ decimal (suc n)

-- Filled up to `width` on the left, as by `%02d` and `%4d`, or on the right, as by `%-15s`.
abbrev pub pad_left : ℕ → ℕ → List ℕ → List ℕ
pad_left fill width cs = replicate (width - length cs) fill ++ cs

abbrev pub pad_right : ℕ → ℕ → List ℕ → List ℕ
pad_right fill width cs = cs ++ replicate (width - length cs) fill
