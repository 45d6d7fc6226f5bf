-- ===== src/Util/Dump/Buffer.antt =====
-- The buffer that `DumpBlock` (source/util.cxx) prints a line into.
use prodosfs.Base.{
  ℕ, zero, suc, ◌+◌, ◌≤◌, ◌<◌, ◌≡◌, refl, sym, ◌∙◌, List, [], ◌∷◌, ◌++◌, ◌==◌, length, All, arith,
  false,
}
use mathlib.Core.Path.{subst, ap₂}
use mathlib.Core.List.{append-nil}
use prodosfs.Util.Dump.{Output, set_byte, sprintf, print, c_text}

-- The memory holds a text from a place on.
abbrev pub Holds : (ℕ → ℕ) → ℕ → List ℕ → Type 0
Holds memory i [] = Unit
Holds memory i (c ∷ cs) = (memory i ≡ c) × Holds memory (i + 1) cs

sprintf_before :
    (memory : ℕ → ℕ) (i : ℕ) (text : List ℕ) (a : ℕ) → a < i → sprintf memory i text a ≡ memory a
unfolding sprintf
sprintf_before memory i [] a lt = ground arith
sprintf_before memory i (c ∷ cs) a lt =
    ground (arith, sprintf_before (set_byte memory i c) (i + 1) cs a)

sprintf-Holds : (memory : ℕ → ℕ) (i : ℕ) (text : List ℕ) → Holds (sprintf memory i text) i text
unfolding sprintf
sprintf-Holds memory i [] = tt
sprintf-Holds memory i (c ∷ cs) = (
  sprintf_before (set_byte memory i c) (i + 1) cs i (omega arith) ∙ ground arith,
  sprintf-Holds (set_byte memory i c) (i + 1) cs,
)

sprintf_after :
    (memory : ℕ → ℕ) (i : ℕ) (text : List ℕ) → sprintf memory i text (i + length text) ≡ 0
unfolding sprintf
sprintf_after memory i [] = ground arith
sprintf_after memory i (c ∷ cs) =
    let e : i + suc (length cs) ≡ i + 1 + length cs = omega arith in
    rw e (sprintf_after (set_byte memory i c) (i + 1) cs)

Holds-append :
    (memory : ℕ → ℕ) (i : ℕ) (xs ys : List ℕ)
    → Holds memory i xs
    → Holds memory (i + length xs) ys
    → Holds memory i (xs ++ ys)
Holds-append memory i [] ys h k = let e : i + 0 ≡ i = omega arith in rw e at k
Holds-append memory i (x ∷ xs) ys h k =
    let e : i + suc (length xs) ≡ i + 1 + length xs = omega arith in
    (h.0, Holds-append memory (i + 1) xs ys h.1 (rw e at k))

Holds-sprintf :
    (memory : ℕ → ℕ) (i : ℕ) (xs : List ℕ) (b : ℕ) (text : List ℕ)
    → i + length xs ≤ b
    → Holds memory i xs
    → Holds (sprintf memory b text) i xs
Holds-sprintf memory i [] b text le h = tt
Holds-sprintf memory i (x ∷ xs) b text le h = (
  sprintf_before memory b text i (omega arith) ∙ h.0,
  Holds-sprintf memory (i + 1) xs b text (omega arith) h.1,
)

Holds-prefix :
    (memory : ℕ → ℕ) (i : ℕ) (xs ys : List ℕ) → Holds memory i (xs ++ ys) → Holds memory i xs
Holds-prefix memory i [] ys h = tt
Holds-prefix memory i (x ∷ xs) ys h = (h.0, Holds-prefix memory (i + 1) xs ys h.1)

-- The output so far is a text, and `pos` is at its end.
abbrev pub Shows : Output → List ℕ → Type 0
Shows o t = Holds o.buffer 0 t × (o.at ≡ length t)

length-append : (xs ys : List ℕ) → length (xs ++ ys) ≡ length xs + length ys
length-append [] ys = omega arith
length-append (x ∷ xs) ys = omega (arith, length-append xs ys)

-- Of what is printed, the part that `pos` goes over stays.
print-Shows :
    (o : Output) (t shown rest : List ℕ)
    → Shows o t
    → Shows (print o (shown ++ rest) (length shown)) (t ++ shown)
print-Shows o t shown rest (holds, at) = (
  Holds-append (sprintf o.buffer o.at (shown ++ rest)) 0 t shown
      (Holds-sprintf o.buffer 0 t o.at (shown ++ rest) (omega arith) holds)
      (Holds-prefix (sprintf o.buffer o.at (shown ++ rest)) (0 + length t) shown rest (
        subst (λ (k : ℕ). Holds (sprintf o.buffer o.at (shown ++ rest)) k (shown ++ rest))
          (omega arith) (sprintf-Holds o.buffer o.at (shown ++ rest)))),
  omega (arith, length-append t shown),
)

pub print_text-Shows :
    (o : Output) (t shown rest text : List ℕ) (n : ℕ)
    → text ≡ shown ++ rest
    → n ≡ length shown
    → Shows o t
    → Shows (print o text n) (t ++ shown)
print_text-Shows o t shown rest text n e e' h = rw (e, e') (print-Shows o t shown rest h)

-- The output so far is a text, with a zero byte behind it.
abbrev pub Ends : Output → List ℕ → Type 0
Ends o t = Shows o t × (o.buffer o.at ≡ 0)

pub print-Ends :
    (o : Output) (t text : List ℕ) (n : ℕ)
    → n ≡ length text
    → Shows o t
    → Ends (print o text n) (t ++ text)
print-Ends o t text n e h = (
  print_text-Shows o t text [] text n (sym (append-nil text)) e h,
  rw e (sprintf_after o.buffer o.at text),
)

abbrev pub IsNonzero : ℕ → Type 0
IsNonzero c = 0 < c

All-append : (P : ℕ → Type 0) (xs ys : List ℕ) → All P xs → All P ys → All P (xs ++ ys)
All-append P [] ys h k = k
All-append P (x ∷ xs) ys h k = (h.0, All-append P xs ys h.1 k)

-- A text with no zero byte, of at most `n` bytes.
abbrev pub IsShort : ℕ → List ℕ → Type 0
IsShort n t = All IsNonzero t × (length t ≤ n)

pub append-IsShort :
    (m n : ℕ) (xs ys : List ℕ) → IsShort m xs → IsShort n ys → IsShort (m + n) (xs ++ ys)
append-IsShort m n xs ys h k =
    (All-append IsNonzero xs ys h.0 k.0, omega (arith, length-append xs ys, h.1, k.1))

pub c_text_lem :
    (n : ℕ) (memory : ℕ → ℕ) (i : ℕ) (t : List ℕ)
    → Holds memory i t
    → memory (i + length t) ≡ 0
    → All IsNonzero t
    → length t < n
    → c_text n memory i ≡ t
unfolding c_text
c_text_lem zero memory i t h z nonzero lt = absurd (omega arith)
c_text_lem (suc n) memory i [] h z nonzero lt =
    let e : i + 0 ≡ i = omega arith in let z' : memory i ≡ 0 = rw e at z in rw z' refl
c_text_lem (suc n) memory i (x ∷ xs) h z nonzero lt =
    let e : i + suc (length xs) ≡ i + 1 + length xs = omega arith in
    let rest = c_text_lem n memory (i + 1) xs h.1 (rw e at z) nonzero.1 (omega arith) in
    let unequal : (memory i == 0) ≡ false = ground (arith, h.0, nonzero.0) in
    rw unequal (ap₂ (λ c cs. c ∷ cs) h.0 rest)
