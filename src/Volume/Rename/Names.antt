-- ===== src/Volume/Rename/Names.antt =====
-- The bytes of a valid name in upper case, and the byte of type and length of a header, for `Rename`
-- (source/volume.cxx).
use prodosfs.Base.{
  ℕ, zero, suc, ◌/◌, ◌%◌, ◌^◌, ◌≤◌, ◌<◌, ◌≡◌, refl, ap, Bool, true, false, List, [], ◌∷◌, map,
  length, get_or, ltb, ◌==◌, if◌then◌else◌, bit_and, bit_or, arith,
}
use prodosfs.Base.Bits.{every, every_pair-at}
use prodosfs.Base.Text.{to_upper}
use prodosfs.Entry.{is_valid_name, valid_tail}

-- The low half of the first byte of a header is replaced by a length.
abbrev half_replaced : ℕ → ℕ → Bool
half_replaced x n =
    let byte = bit_or (bit_and x 0b1111_0000 % 256) n % 256 in
    if ltb n 16 then (if byte / 2 ^ 4 == x / 2 ^ 4 then bit_and byte 0x0f == n else false) else true

half_table : every (λ x. every (half_replaced x) 256) 256 ≡ true
unfolding every
half_table = refl

pub half-replaced :
    (x n : ℕ)
    → x < 256
    → n < 16
    → (bit_or (bit_and x 0b1111_0000 % 256) n % 256 / 2 ^ 4 ≡ x / 2 ^ 4)
      × (bit_and (bit_or (bit_and x 0b1111_0000 % 256) n % 256) 0x0f ≡ n)
half-replaced x n hx hn =
    let e = every_pair-at half_replaced x n hx (omega arith) half_table in ground (arith, e)

upper_byte : (c : ℕ) → c < 128 → to_upper c < 256
unfolding to_upper
upper_byte c h = ground arith

valid_tail_bytes : (s : List ℕ) (j : ℕ) → valid_tail s ≡ true → get_or (map to_upper s) j 0 < 256
unfolding valid_tail
valid_tail_bytes [] j valid = omega arith
valid_tail_bytes (c ∷ s) zero valid = upper_byte c (ground (arith, valid))
valid_tail_bytes (c ∷ s) (suc j) valid = valid_tail_bytes s j (ground (arith, valid))

pub valid_name_bytes :
    (s : List ℕ) (j : ℕ) → is_valid_name s ≡ true → get_or (map to_upper s) j 0 < 256
unfolding is_valid_name
valid_name_bytes [] j valid = omega arith
valid_name_bytes (c ∷ s) zero valid = upper_byte c (ground (arith, valid))
valid_name_bytes (c ∷ s) (suc j) valid = valid_tail_bytes s j (ground (arith, valid))

pub valid_name_length : (s : List ℕ) → is_valid_name s ≡ true → length s ≤ 15
unfolding is_valid_name
valid_name_length s valid = ground (arith, valid)

pub length-map : (f : ℕ → ℕ) (s : List ℕ) → length (map f s) ≡ length s
length-map f [] = refl
length-map f (c ∷ s) = ap suc (length-map f s)
