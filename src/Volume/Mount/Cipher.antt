-- ===== src/Volume/Mount/Cipher.antt =====
-- `S_Deobfuscate` (source/volume.cxx): the loop over the bytes of a block, and the cipher.
use prodosfs.Base.{
  ℕ, zero, suc, ◌+◌, ◌-◌, ◌%◌, ◌<◌, ◌≡◌, ap, ◌∙◌, sym, some, List, [], ◌∷◌, arith, ◌==◌,
  if◌then◌else◌, bit_xor, ltb, leb, ◌&&◌, length, All, Bool-cases, inl, inr, none, get_or, take,
  refl, ◌≤◌,
}
use native.Mathlib.Nat.{mod-eq_of_lt, add-zero, add-mod_left}
use prodosfs.Base.Bits.{bit_xor-IsByte}
use prodosfs.Volume.Mount.{decipher_loop, deobfuscate, usable, passwd_at, advance, store}

-- The password byte that the loop uses, from one place on, for the byte `j` rounds later.
key_from : List ℕ → ℕ → ℕ → ℕ
key_from passwd ptr zero = passwd_at passwd ptr
key_from passwd ptr (suc j) = key_from passwd (advance passwd ptr) j

abbrev mask : ℕ → ℕ
mask k = bit_xor k 0x7f

key_from-here :
    (passwd : List ℕ) (ptr i a : ℕ) → a ≡ i → key_from passwd ptr (a - i) ≡ passwd_at passwd ptr
unfolding key_from
key_from-here passwd ptr i a e = let z : a - i ≡ 0 = omega arith in rw z

key_from-later :
    (passwd : List ℕ) (ptr i a : ℕ)
    → i < a
    → key_from passwd ptr (a - i) ≡ key_from passwd (advance passwd ptr) (a - (i + 1))
unfolding key_from
key_from-later passwd ptr i a lt = let z : a - i ≡ suc (a - (i + 1)) = omega arith in rw z

decipher_loop_lem :
    (passwd : List ℕ) (cipher : ℕ → ℕ) (n i ptr : ℕ) (plain : ℕ → ℕ) (a : ℕ)
    → decipher_loop passwd cipher n i ptr plain a ≡ (
        if leb i a && ltb a (i + n)
        then bit_xor (cipher a) (mask (key_from passwd ptr (a - i)))
        else plain a)
unfolding decipher_loop
decipher_loop_lem passwd cipher zero i ptr plain a = ground arith
decipher_loop_lem passwd cipher (suc n) i ptr plain a = ground (
  arith,
  decipher_loop_lem passwd cipher n (i + 1) (advance passwd ptr)
      (store plain i (bit_xor (cipher i) (mask (passwd_at passwd ptr)))) a,
  key_from-here passwd ptr i a,
  key_from-later passwd ptr i a,
)

abbrev pub IsByte : ℕ → Type 0
IsByte c = c < 256

passwd_at-IsByte : (passwd : List ℕ) (i : ℕ) → All IsByte passwd → passwd_at passwd i < 256
passwd_at-IsByte [] i h = omega arith
passwd_at-IsByte (c ∷ cs) zero h = h.0
passwd_at-IsByte (c ∷ cs) (suc i) h = passwd_at-IsByte cs i h.1

pub deobfuscate-usable :
    (bytes passwd : List ℕ) (src dst : ℕ → ℕ)
    → usable bytes ≡ some passwd
    → deobfuscate (some bytes) src dst ≡ decipher_loop passwd src 512 0 0 dst
unfolding deobfuscate
deobfuscate-usable bytes passwd src dst e = rw (e, deobfuscate)

abbrev pub IsNonzero : ℕ → Type 0
IsNonzero c = 0 < c

passwd_at-nonzero :
    (passwd : List ℕ) (i : ℕ)
    → All IsNonzero passwd
    → ((passwd_at passwd i == 0) ≡ leb (length passwd) i)
passwd_at-nonzero [] i h = ground arith
passwd_at-nonzero (c ∷ cs) zero h = ground (arith, h.0)
passwd_at-nonzero (c ∷ cs) (suc i) h = ground (arith, passwd_at-nonzero cs i h.1)

key_from_cycle :
    (passwd : List ℕ) (ptr j m : ℕ)
    → All IsNonzero passwd
    → length passwd ≡ suc m
    → ptr < m
    → key_from passwd ptr j ≡ passwd_at passwd ((ptr + j) % m)
unfolding key_from
key_from_cycle passwd ptr zero m nonzero len lt =
    ap (passwd_at passwd) (rw add-zero (sym (mod-eq_of_lt lt)))
key_from_cycle passwd ptr (suc j) m nonzero len lt = elim (Bool-cases (leb m (ptr + 1))) [
  | inl last ↦
      let wraps : advance passwd ptr ≡ 0 =
        ground (arith, passwd_at-nonzero passwd (ptr + 1 + 1) nonzero) in
      let same : (0 + j) % m ≡ (ptr + suc j) % m =
        let whole : ptr + suc j ≡ m + (0 + j) = ground arith in
        rw whole (sym (add-mod_left m (0 + j))) in
      rw wraps (key_from_cycle passwd 0 j m nonzero len (ground arith) ∙ ap (passwd_at passwd) same)
  | inr before ↦
      let steps : advance passwd ptr ≡ ptr + 1 =
        ground (arith, passwd_at-nonzero passwd (ptr + 1 + 1) nonzero) in
      let same : ptr + 1 + j ≡ ptr + suc j = omega arith in
      rw steps (
        key_from_cycle passwd (ptr + 1) j m nonzero len (ground arith)
        ∙ ap (λ t. passwd_at passwd (t % m)) same)
]

length-take_all : (n : ℕ) (xs : List ℕ) → n ≤ length xs → length (take n xs) ≡ n
length-take_all zero xs le = refl
length-take_all (suc n) [] le = absurd (omega arith)
length-take_all (suc n) (x ∷ xs) le = let rest = length-take_all n xs (omega arith) in omega arith

long_enough :
    (xs passwd : List ℕ) (n : ℕ)
    → n ≤ length xs
    → (if length xs == 0 then none else if ltb n 2 then none else some (take n xs)) ≡ some passwd
    → 1 < length passwd
long_enough xs passwd n le e = elim (Bool-cases (length xs == 0)) [
  | inl empty ↦ cc (rw empty at e)
  | inr filled ↦ elim (Bool-cases (ltb n 2)) [
    | inl short ↦ cc (rw (filled, short) at e)
    | inr long ↦
        let equal : some (take n xs) ≡ some passwd = rw (filled, long) at e in
        let same : take n xs ≡ passwd = cc in rw (sym same, length-take_all n xs le) (ground arith)
  ]
]

usable_long : (bytes passwd : List ℕ) → usable bytes ≡ some passwd → 1 < length passwd
unfolding usable
usable_long bytes passwd e =
    long_enough (take 31 bytes) passwd
      (let n = length (take 31 bytes) in
        if get_or (take 31 bytes) (n - 1) 0 == b'\n' then n - 1 else n)
      (ground arith) e

-- The byte of a password that a byte of the block is combined with: all bytes but the last are used in turn.
abbrev pub key_byte : List ℕ → ℕ → ℕ
key_byte passwd j = get_or passwd (j % (length passwd - 1)) 0

-- A block as the cipher leaves it.
abbrev pub obscured : List ℕ → (ℕ → ℕ) → ℕ → ℕ
obscured passwd block j = bit_xor (block j) (bit_xor (key_byte passwd j) 0x7f)

pub key_byte-IsByte :
    (passwd : List ℕ) (j : ℕ) → All IsByte passwd → bit_xor (key_byte passwd j) 0x7f < 256
key_byte-IsByte passwd j h =
    bit_xor-IsByte (key_byte passwd j) (passwd_at-IsByte passwd (j % (length passwd - 1)) h)

-- With a usable password without zero bytes, `S_Deobfuscate` is the cipher.
pub deobfuscate-obscured :
    (bytes passwd : List ℕ) (src dst : ℕ → ℕ) (a : ℕ)
    → usable bytes ≡ some passwd
    → All IsNonzero passwd
    → a < 512
    → deobfuscate (some bytes) src dst a ≡ obscured passwd src a
deobfuscate-obscured bytes passwd src dst a usable_password nonzero inside =
    let z : 0 + (a - 0) ≡ a = omega arith in
    let long : 1 < length passwd = usable_long bytes passwd usable_password in
    let m : ℕ = length passwd - 1 in
    rw (deobfuscate-usable bytes passwd src dst usable_password) (
      decipher_loop_lem passwd src 512 0 0 dst a
      ∙ ground (
        arith,
        key_from_cycle passwd 0 (a - 0) m nonzero (omega arith) (omega arith),
        ap (λ t. t % m) z,
      ))
