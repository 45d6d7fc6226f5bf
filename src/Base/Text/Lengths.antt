-- ===== src/Base/Text/Lengths.antt =====
-- How long the texts are that printf writes.
use Prim.Native.Nat.{ℕ, zero, suc, ◌+◌, ◌-◌, ◌*◌, ◌/◌, ◌%◌, ◌≤◌, ◌<◌}
use mathlib.Core.Path.{◌≡◌, refl}
use mathlib.Core.Logic.{inl, inr}
use mathlib.Core.List.{List, [], ◌∷◌, ◌++◌}
use native.Mathlib.Omega.{arith}
use prodosfs.Base.Tests.{ltb, lt→ltb, Bool-cases}
use prodosfs.Base.Integer.{ℤ, pos, negsuc, pos_part, neg_part}
use prodosfs.Base.Lists.{length, length-append, replicate}
use prodosfs.Base.Text.{
  c_str, digits_loop, decimal_digit, hex_digit, decimal, hexadecimal, signed_decimal, pad_left,
  pad_right,
}

pub length-c_str : (text : List ℕ) → length (c_str text) ≤ length text
length-c_str [] = omega arith
length-c_str (zero ∷ cs) = omega arith
length-c_str (suc c ∷ cs) = omega (arith, length-c_str cs)

length-replicate : (n fill : ℕ) → length (replicate n fill) ≡ n
length-replicate zero fill = refl
length-replicate (suc n) fill = omega (arith, length-replicate n fill)

-- A text of at most `n` bytes, put together from parts.
pub record Within (n : ℕ) (text : List ℕ) : Type 0 where
  pub bound : length text ≤ n

infixl 65 ◌⊞◌
pub ◌⊞◌ : {a b : ℕ} {xs ys : List ℕ} → Within a xs → Within b ys → Within (a + b) (xs ++ ys)
◌⊞◌ {a} {b} {xs} {ys} w w' = record {
  bound = omega (arith, length-append xs ys, w.bound, w'.bound);
}

-- A text that is filled up takes the width, or as much as it has.
pub length-pad_left :
    (fill width k : ℕ) (cs : List ℕ)
    → width ≤ k
    → length cs ≤ k
    → length (pad_left fill width cs) ≤ k
length-pad_left fill width k cs wide long = omega (
  arith,
  length-append (replicate (width - length cs) fill) cs,
  length-replicate (width - length cs) fill,
)

pub length-pad_right :
    (fill width k : ℕ) (cs : List ℕ)
    → width ≤ k
    → length cs ≤ k
    → length (pad_right fill width cs) ≤ k
length-pad_right fill width k cs wide long = omega (
  arith,
  length-append cs (replicate (width - length cs) fill),
  length-replicate (width - length cs) fill,
)

-- `10 ^ k` and `16 ^ k`.
abbrev pub power_of_ten : ℕ → ℕ
power_of_ten zero = 1
power_of_ten (suc k) = power_of_ten k * 10

abbrev pub power_of_sixteen : ℕ → ℕ
power_of_sixteen zero = 1
power_of_sixteen (suc k) = power_of_sixteen k * 16

-- A digit is taken off a number with each round.
module _ (base : ℕ) (digit power : ℕ → ℕ) (single : power 1 ≡ base)
    (fewer : (k n : ℕ) → n < power (suc k) → n / base < power k) where
  length-digits_loop :
      (fuel k n : ℕ) (acc : List ℕ)
      → n < power (suc k)
      → length (digits_loop base digit fuel n acc) ≤ suc k + length acc
  unfolding digits_loop
  length-digits_loop zero k n acc lt = omega arith
  length-digits_loop (suc fuel) zero n acc lt = rw (lt→ltb n base (omega arith)) (omega arith)
  length-digits_loop (suc fuel) (suc k) n acc lt = elim (Bool-cases (ltb n base)) [
    | inl last ↦ rw last (omega arith)
    | inr more ↦ rw more (
        omega (
          arith,
          length-digits_loop fuel k (n / base) (digit (n % base) ∷ acc) (fewer (suc k) n lt),
        ))
  ]

-- A number below `10 ^ k` has at most `k` digits.
pub length-decimal : (k n : ℕ) → n < power_of_ten (suc k) → length (decimal n) ≤ suc k
unfolding decimal
length-decimal k n lt = omega (
  arith,
  length-digits_loop 10 decimal_digit power_of_ten refl (λ k n lt. omega arith) (suc n) k n [] lt,
)

-- One below `16 ^ k` has at most `k` hexadecimal digits.
pub length-hexadecimal : (k n : ℕ) → n < power_of_sixteen (suc k) → length (hexadecimal n) ≤ suc k
unfolding hexadecimal
length-hexadecimal k n lt = omega (
  arith,
  length-digits_loop 16 hex_digit power_of_sixteen refl (λ k n lt. omega arith) (suc n) k n [] lt,
)

pub length-signed_decimal :
    (k : ℕ) (i : ℤ)
    → pos_part i < power_of_ten (suc k)
    → neg_part i < power_of_ten (suc k)
    → length (signed_decimal i) ≤ suc (suc k)
unfolding signed_decimal
length-signed_decimal k (pos n) lt small = omega (arith, length-decimal k n lt)
length-signed_decimal k (negsuc n) lt small = omega (arith, length-decimal k (suc n) small)
