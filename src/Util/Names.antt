-- ===== src/Util/Names.antt =====
-- The names that `AppleWorksFileName` (source/util.cxx) makes.
use prodosfs.Base.Bits.{every, every_pair-at, digit_at, bit_and-power_zero}
use prodosfs.Base.{
  true, zero, suc, ◌++◌, ==_iff, ◌<◌, ◌*◌, ◌/◌, ◌%◌, ℕ, ◌+◌, ◌-◌, ◌≤◌, ◌^◌, ◌≡◌, refl, ap, ◌∙◌,
  List, [], ◌∷◌, map, arith, length, All, bit_and, ◌==◌, if◌then◌else◌, ◌≢◌,
}
use mathlib.Core.Path.{ap₂}
use prodosfs.Base.Text.{to_lower, to_upper, c_str}
use prodosfs.Util.{appleworks_loop, appleworks_mask, appleworks_char, appleworks_file_name}

-- A character as ProDOS has it: no lower case, and a dot for a space.
unfoldable pub prodos_char : ℕ → ℕ
prodos_char c = if c == b' ' then b'.' else to_upper c

-- Capital letters, digits and dots, which is what ProDOS stores.
abbrev pub IsProdosChar : ℕ → Type 0
IsProdosChar c = (to_upper c ≡ c) × (c ≢ 0) × (c ≢ b' ')

prodos_char-appleworks_char : (bit c : ℕ) → IsProdosChar c → prodos_char (appleworks_char bit c) ≡ c
unfolding prodos_char appleworks_char to_lower to_upper
prodos_char-appleworks_char bit c p = ground arith

appleworks_char-ne-zero : (bit c : ℕ) → IsProdosChar c → appleworks_char bit c ≢ 0
unfolding appleworks_char to_lower
appleworks_char-ne-zero bit c p = ground arith

c_str-cons : (c : ℕ) (cs : List ℕ) → c ≢ 0 → c_str (c ∷ cs) ≡ c ∷ c_str cs
c_str-cons zero cs ne = absurd (ne refl)
c_str-cons (suc c) cs ne = refl

loop_back :
    (mask i : ℕ) (cs : List ℕ)
    → All IsProdosChar cs
    → map prodos_char (c_str (appleworks_loop mask i cs)) ≡ cs
unfolding appleworks_loop
loop_back mask i [] p = refl
loop_back mask i (c ∷ cs) p =
    let bit = bit_and mask (2 ^ (15 - i)) in
    ap (map prodos_char) (c_str-cons _ _ (appleworks_char-ne-zero bit c p.0))
    ∙ ap₂ ◌∷◌ (prodos_char-appleworks_char bit c p.0) (loop_back mask (i + 1) cs p.1)

-- The bits of a byte, from the top down.
abbrev pub byte_bits : ℕ → List ℕ
byte_bits b =
    b / 128 % 2
    ∷ b / 64 % 2
    ∷ b / 32 % 2
    ∷ b / 16 % 2
    ∷ b / 8 % 2
    ∷ b / 4 % 2
    ∷ b / 2 % 2
    ∷ b % 2
    ∷ []

-- A name where the bits say which characters are in lower case, with a space for a dot.
abbrev pub spelled : List ℕ → List ℕ → List ℕ
spelled bits [] = []
spelled [] (c ∷ cs) = c ∷ cs
spelled (bit ∷ bits) (c ∷ cs) =
    (if bit == 0 then c else if c == b'.' then b' ' else to_lower c) ∷ spelled bits cs

-- The low `n` digits of the mask, from the top down.
abbrev digits_down : ℕ → ℕ → List ℕ
digits_down zero mask = []
digits_down (suc k) mask = digit_at k mask ∷ digits_down k mask

appleworks_loop-spelled :
    (mask n i : ℕ) (cs : List ℕ)
    → i + n ≡ 16
    → length cs ≤ n
    → All IsProdosChar cs
    → c_str (appleworks_loop mask i cs) ≡ spelled (digits_down n mask) cs
unfolding appleworks_loop
appleworks_loop-spelled mask n i [] e short p = refl
appleworks_loop-spelled mask zero i (c ∷ cs) e short p = absurd (omega arith)
appleworks_loop-spelled mask (suc k) i (c ∷ cs) e short p =
    let place : 15 - i ≡ k = omega arith in
    c_str-cons _ _ (appleworks_char-ne-zero (bit_and mask (2 ^ (15 - i))) c p.0)
    ∙ ap₂ ◌∷◌ (unfold appleworks_char in rw (place, bit_and-power_zero k mask) refl)
        (appleworks_loop-spelled mask k (i + 1) cs (omega arith) (omega arith) p.1)

swapped_table :
    every (λ high. every (λ low. appleworks_mask (high * 256 + low) == low * 256 + high) 256) 256
    ≡ true
unfolding every
swapped_table = refl

appleworks_mask-bytes :
    (high low : ℕ) → high < 256 → low < 256 → appleworks_mask (high * 256 + low) ≡ low * 256 + high
appleworks_mask-bytes high low h l =
    (==_iff (appleworks_mask (high * 256 + low)) (low * 256 + high)).0 (
      every_pair-at (λ a b. appleworks_mask (a * 256 + b) == b * 256 + a) high low h l
        swapped_table)

digits_down-bytes :
    (high low : ℕ)
    → high < 256
    → low < 256
    → digits_down 16 (low * 256 + high) ≡ byte_bits low ++ byte_bits high
digits_down-bytes high low h l = ground arith

-- An AppleWorks name is a spelling of the ProDOS name, for a name of the characters that ProDOS stores, at
-- most 15 of them: the first eight characters are shown in lower case, and a space for a dot, where the
-- bit of the low byte of the auxiliary type is set, from the top bit down, and the others by the bits of
-- the high byte; and with the capital letters and the dots put back, it is the name that was given.
pub appleworks_file_name_lem :
    (name : List ℕ) (aux_type : ℕ)
    → length name ≤ 15
    → All IsProdosChar name
    → aux_type < 65536
    → (appleworks_file_name name aux_type
        ≡ spelled (byte_bits (aux_type % 256) ++ byte_bits (aux_type / 256)) name)
      × (map prodos_char (appleworks_file_name name aux_type) ≡ name)
unfolding appleworks_file_name
appleworks_file_name_lem name aux_type short p word =
    let low : ℕ = aux_type % 256 in
    let high : ℕ = aux_type / 256 in
    let whole : aux_type ≡ high * 256 + low = omega arith in
    let swapped : appleworks_mask aux_type ≡ low * 256 + high =
      ap appleworks_mask whole ∙ appleworks_mask-bytes high low (omega arith) (omega arith) in
    (
      appleworks_loop-spelled (appleworks_mask aux_type) 16 0 name refl (omega arith) p
          ∙ ap (λ bits. spelled bits name)
              (ap (digits_down 16) swapped
                ∙ digits_down-bytes high low (omega arith) (omega arith)),
      loop_back (appleworks_mask aux_type) 0 name p,
    )
