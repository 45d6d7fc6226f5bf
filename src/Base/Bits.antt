-- ===== src/Base/Bits.antt =====
-- Facts about bit operations: by their digits, and of bytes by evaluation of all values.
use Prim.Native.Nat.{
  ℕ, zero, suc, ◌+◌, ◌*◌, ◌/◌, ◌%◌, ◌≤◌, ◌<◌, ◌^◌, min, max, bit_and, bit_or, bit_xor, digits,
  bit_and-bitwise, bit_or-bitwise,
}
use mathlib.Core.Path.{◌≡◌, refl, ap, ◌∙◌}
use mathlib.Core.Bool.{Bool, true, false}
use native.Mathlib.Omega.{arith}
use native.Mathlib.Numerals.{unary_clauses}
use mathlib.Core.Logic.{inl, inr}
use prodosfs.Base.Tests.{ltb, ltb→lt, ◌==◌, ==_iff, Bool-cases, if◌then◌else◌}

-- The test holds of all numbers below the limit.
unfoldable pub every : (ℕ → Bool) → ℕ → Bool
every test zero = true
every test (suc limit) = if test limit then every test limit else false

pub every-at : (test : ℕ → Bool) (limit n : ℕ) → n < limit → every test limit ≡ true → test n ≡ true
unfolding every
every-at test (suc limit) n inside all =
    ground (arith, Bool-cases (test limit), every-at test limit n)
every-at test zero n inside all = absurd (omega arith)

nibble_table : every (λ x. bit_and x 0x0f == x % 16) 256 ≡ true
unfolding every
nibble_table = refl

pub bit_and-nibble : (x : ℕ) → x < 256 → bit_and x 0x0f ≡ x % 16
bit_and-nibble x h =
    (==_iff (bit_and x 0x0f) (x % 16)).0
      (every-at (λ y. bit_and y 0x0f == y % 16) 256 x h nibble_table)

-- A test of two bytes that holds of all pairs.
pub every_pair-at :
    (test : ℕ → ℕ → Bool) (x y : ℕ)
    → x < 256
    → y < 256
    → every (λ a. every (test a) 256) 256 ≡ true
    → test x y ≡ true
every_pair-at test x y hx hy all =
    every-at (test x) 256 y hy (every-at (λ a. every (test a) 256) 256 x hx all)

-- The digits of `x` with those of zero, for at least `x` rounds.
or-zero : (rounds x : ℕ) → x ≤ rounds → digits (λ b. b) max rounds x 0 ≡ x
or-zero zero x le = omega arith
or-zero (suc rounds) zero le = refl
or-zero (suc rounds) (suc x) le = omega (arith, or-zero rounds (suc x / 2) (omega arith))

-- `2 ^ k`, by doubling.
abbrev doubled : ℕ → ℕ
doubled zero = 1
doubled (suc k) = doubled k * 2

-- The digits of a multiple of `2 ^ k` with those of a number below: they do not overlap.
or-doubled :
    (k rounds x a l : ℕ)
    → x ≡ a * doubled k
    → x ≤ rounds
    → l < doubled k
    → digits (λ b. b) max rounds x l ≡ x + l
or-doubled zero rounds x a l multiple le below =
    let nothing : l ≡ 0 = omega arith in rw nothing (or-zero rounds x le ∙ omega arith)
or-doubled (suc k) zero x a l multiple le below = omega arith
or-doubled (suc k) (suc rounds) zero a l multiple le below = omega arith
or-doubled (suc k) (suc rounds) (suc x) a l multiple le below =
    let twice : suc x ≡ a * doubled k * 2 = multiple ∙ grind arith in
    let half : suc x / 2 ≡ a * doubled k = omega arith in
    let rest = or-doubled k rounds (suc x / 2) a (l / 2) half (omega arith) (omega arith) in
    omega (arith, rest)

bit_or-doubled : (k a l : ℕ) → l < doubled k → bit_or (a * doubled k) l ≡ a * doubled k + l
bit_or-doubled k a l below =
    bit_or-bitwise (a * doubled k) l
    ∙ or-doubled k (a * doubled k) (a * doubled k) a l refl (omega arith) below

-- Two bytes do not overlap.
pub bit_or-bytes : (h l : ℕ) → h < 256 → l < 256 → bit_or (h * 256) l ≡ h * 256 + l
bit_or-bytes h l hh hl = bit_or-doubled 8 h l hl

-- Nor do three.
pub bit_or-three_bytes :
    (x y z : ℕ)
    → y < 256
    → z < 256
    → bit_or (bit_or (x * 65536) (y * 256)) z ≡ x * 65536 + y * 256 + z
bit_or-three_bytes x y z hy hz =
    let upper : bit_or (x * 65536) (y * 256) ≡ x * 65536 + y * 256 =
      bit_or-doubled 16 x (y * 256) (omega arith) in
    let shifted : x * 65536 + y * 256 ≡ (x * 256 + y) * 256 = omega arith in
    rw (upper, shifted) (bit_or-doubled 8 (x * 256 + y) z hz)

-- No digits of `x` are in zero.
and-zero : (rounds x : ℕ) → digits (λ b. zero) min rounds x 0 ≡ 0
and-zero zero x = refl
and-zero (suc rounds) zero = refl
and-zero (suc rounds) (suc x) = omega (arith, and-zero rounds (suc x / 2))

-- The digit of `x` at place `k`.
abbrev pub digit_at : ℕ → ℕ → ℕ
digit_at zero x = x % 2
digit_at (suc k) x = digit_at k (x / 2)

digit_at-zero : (k : ℕ) → digit_at k 0 ≡ 0
digit_at-zero zero = refl
digit_at-zero (suc k) = digit_at-zero k

and-doubled :
    (k rounds x : ℕ)
    → x ≤ rounds
    → digits (λ b. zero) min rounds x (doubled k) ≡ digit_at k x * doubled k
and-doubled zero zero x le = omega arith
and-doubled zero (suc rounds) zero le = refl
and-doubled zero (suc rounds) (suc x) le = omega (arith, and-zero rounds (suc x / 2))
and-doubled (suc k) zero x le =
    let nothing : x ≡ 0 = omega arith in rw (nothing, digit_at-zero k) (omega arith)
and-doubled (suc k) (suc rounds) zero le = rw (digit_at-zero k) (omega arith)
and-doubled (suc k) (suc rounds) (suc x) le =
    let half : doubled k * 2 / 2 ≡ doubled k = omega arith in
    let even : doubled k * 2 % 2 ≡ 0 = omega arith in
    let rest = and-doubled k rounds (suc x / 2) (omega arith) in rw (half, even, rest) (grind arith)

power-doubled : (k : ℕ) → 2 ^ k ≡ doubled k
power-doubled zero = refl
power-doubled (suc k) = simp unary_clauses (ap (λ n. n * 2) (power-doubled k))

-- A test of one bit, which is the digit at its place.
pub bit_and-power : (k x : ℕ) → bit_and x (2 ^ k) ≡ digit_at k x * 2 ^ k
bit_and-power k x =
    rw (power-doubled k) (bit_and-bitwise x (doubled k) ∙ and-doubled k x x (omega arith))

doubled-positive : (k : ℕ) → 0 < doubled k
doubled-positive zero = omega arith
doubled-positive (suc k) = omega (arith, doubled-positive k)

product-positive : (a b : ℕ) → 0 < a → 0 < b → 0 < a * b
product-positive zero b p q = absurd (omega arith)
product-positive (suc a) b p q = grind arith

-- It is zero where the digit is.
pub bit_and-power_zero : (k x : ℕ) → ((bit_and x (2 ^ k) == 0) ≡ (digit_at k x == 0))
bit_and-power_zero k x =
    let place : bit_and x (2 ^ k) ≡ digit_at k x * doubled k =
      bit_and-power k x ∙ ap (λ n. digit_at k x * n) (power-doubled k) in
    rw place (elim (Bool-cases (digit_at k x == 0)) [
      | inl none_there ↦
          rw none_there (let z : digit_at k x ≡ 0 = ground arith in rw z (ground arith))
      | inr one_there ↦ rw one_there (
          let positive : 0 < digit_at k x = ground arith in
          let more = product-positive (digit_at k x) (doubled k) positive (doubled-positive k) in
          ground arith)
    ])

xor_table : every (λ x. every (λ k. bit_xor (bit_xor x k) k == x) 256) 256 ≡ true
unfolding every
xor_table = refl

-- A byte that is enciphered twice is itself.
pub bit_xor-bit_xor : (x k : ℕ) → x < 256 → k < 256 → bit_xor (bit_xor x k) k ≡ x
bit_xor-bit_xor x k hx hk =
    (==_iff (bit_xor (bit_xor x k) k) x).0
      (every_pair-at (λ a b. bit_xor (bit_xor a b) b == a) x k hx hk xor_table)

xor_mask_table : every (λ x. ltb (bit_xor x 0x7f) 256) 256 ≡ true
unfolding every
xor_mask_table = refl

pub bit_xor-IsByte : (x : ℕ) → x < 256 → bit_xor x 0x7f < 256
bit_xor-IsByte x h =
    ltb→lt (bit_xor x 0x7f) 256 (every-at (λ y. ltb (bit_xor y 0x7f) 256) 256 x h xor_mask_table)

xor_bytes_table : every (λ x. every (λ k. ltb (bit_xor x k) 256) 256) 256 ≡ true
unfolding every
xor_bytes_table = refl

pub bit_xor-byte : (x k : ℕ) → x < 256 → k < 256 → bit_xor x k < 256
bit_xor-byte x k hx hk =
    ltb→lt (bit_xor x k) 256
      (every_pair-at (λ a b. ltb (bit_xor a b) 256) x k hx hk xor_bytes_table)
