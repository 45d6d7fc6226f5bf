-- ===== src/Util/Dump/Shown.antt =====
-- What `DumpBlock` (source/util.cxx) shows of a block.
use prodosfs.Base.{
  ℕ, zero, suc, ◌+◌, ◌*◌, ◌/◌, ◌%◌, ◌≡◌, ◌&&◌, refl, sym, ap, ◌∙◌, List, [], ◌∷◌, ◌++◌, ltb, ◌==◌,
  if◌then◌else◌, length, arith, Bool, true, false, Bool-cases, inl, inr,
}
use mathlib.Core.Path.{subst, ap₂}
use mathlib.Core.List.{append_assoc, append-nil}
use prodosfs.Base.Text.{codes}
use prodosfs.Util.Dump.{
  Output, print, lower_digit, hex_text, hex_loop, printable, char_loop, dump_line, c_text,
  offset_text, dump_loop, dump_block,
}
use prodosfs.Util.Dump.Buffer.{
  Shows, Ends, IsShort, print_text-Shows, print-Ends, append-IsShort, c_text_lem,
}

abbrev space : Bool → List ℕ
space b = if b then codes " " else []

space-Shows :
    (b : Bool) (o : Output) (t : List ℕ)
    → Shows o t
    → Shows (if b then print o (codes " ") 1 else o) (t ++ space b)
space-Shows true o t h = print_text-Shows o t (codes " ") [] (codes " ") 1 refl refl h
space-Shows false o t h = subst (Shows o) (sym (append-nil t)) h

-- What is shown of a byte: its two digits below 128, and "ff" from there on.
abbrev pub hex_shown : ℕ → List ℕ
hex_shown c = if ltb c 128 then lower_digit (c / 16) ∷ lower_digit (c % 16) ∷ [] else codes "ff"

hex_text_shown :
    (c : ℕ) → (rest : List ℕ) × (hex_text c ≡ hex_shown c ++ rest) × (length (hex_shown c) ≡ 2)
unfolding hex_text
hex_text_shown c = elim (Bool-cases (ltb c 128)) [
  | inl low ↦ ([], rw low refl, rw low refl)
  | inr high ↦ (
    codes "ffff" ++ (lower_digit (c / 16) ∷ lower_digit (c % 16) ∷ []),
    rw high refl,
    rw high refl,
  )
]

-- The digits of a line, from byte `j` on.
pub hex_line : (ℕ → ℕ) → ℕ → ℕ → List ℕ
hex_line bytes zero j = []
hex_line bytes (suc n) j =
    space (ltb 0 j && j % 2 == 0) ++ (hex_shown (bytes j) ++ hex_line bytes n (j + 1))

hex_loop-Shows :
    (bytes : ℕ → ℕ) (n j : ℕ) (o : Output) (t : List ℕ)
    → Shows o t
    → Shows (hex_loop bytes n j o) (t ++ hex_line bytes n j)
unfolding hex_loop hex_line
hex_loop-Shows bytes zero j o t h = subst (Shows o) (sym (append-nil t)) h
hex_loop-Shows bytes (suc n) j o t h =
    let b : Bool = ltb 0 j && j % 2 == 0 in
    let (rest, split, two) = hex_text_shown (bytes j) in
    let spaced = space-Shows b o t h in
    subst (Shows _)
      (append_assoc (t ++ space b) (hex_shown (bytes j)) (hex_line bytes n (j + 1))
        ∙ append_assoc t (space b) (hex_shown (bytes j) ++ hex_line bytes n (j + 1)))
      (hex_loop-Shows bytes n (j + 1) _ ((t ++ space b) ++ hex_shown (bytes j)) (
        print_text-Shows (if b then print o (codes " ") 1 else o) (t ++ space b)
          (hex_shown (bytes j)) rest (hex_text (bytes j)) 2 split (sym two) spaced))

-- The characters of a line, from byte `j` on.
pub char_line : (ℕ → ℕ) → ℕ → ℕ → List ℕ
char_line bytes zero j = []
char_line bytes (suc n) j =
    space (ltb 0 j && j % 8 == 0) ++ (printable (bytes j) ∷ char_line bytes n (j + 1))

char_loop-Ends :
    (bytes : ℕ → ℕ) (n j : ℕ) (o : Output) (t : List ℕ)
    → Ends o t
    → Ends (char_loop bytes n j o) (t ++ char_line bytes n j)
unfolding char_loop char_line
char_loop-Ends bytes zero j o t h = subst (Ends o) (sym (append-nil t)) h
char_loop-Ends bytes (suc n) j o t h =
    let b : Bool = ltb 0 j && j % 8 == 0 in
    subst (Ends _)
      (append_assoc (t ++ space b) (printable (bytes j) ∷ []) (char_line bytes n (j + 1))
        ∙ append_assoc t (space b) (printable (bytes j) ∷ char_line bytes n (j + 1)))
      (char_loop-Ends bytes n (j + 1) _ ((t ++ space b) ++ printable (bytes j) ∷ []) (
        print-Ends (if b then print o (codes " ") 1 else o) (t ++ space b)
          (printable (bytes j) ∷ []) 1 refl (space-Shows b o t h.0)))

-- A line, as it is shown.
abbrev pub shown_line : (ℕ → ℕ) → List ℕ
shown_line bytes = (hex_line bytes 16 0 ++ codes "  ") ++ char_line bytes 16 0

dump_line-Ends : (bytes memory : ℕ → ℕ) → Ends (dump_line bytes memory) (shown_line bytes)
unfolding dump_line
dump_line-Ends bytes memory = char_loop-Ends bytes 16 0 _ (hex_line bytes 16 0 ++ codes "  ") (
    print-Ends (hex_loop bytes 16 0 (record { buffer = memory; at = 0 })) (hex_line bytes 16 0)
      (codes "  ") 2 refl
      (hex_loop-Shows bytes 16 0 (record { buffer = memory; at = 0 }) [] (tt, refl)))

space-IsShort : (b : Bool) → IsShort 1 (space b)
space-IsShort true = (omega arith, omega arith)
space-IsShort false = (tt, omega arith)

hex_shown-IsShort : (c : ℕ) → IsShort 2 (hex_shown c)
hex_shown-IsShort c = elim (Bool-cases (ltb c 128)) [
  | inl low ↦ rw low (ground arith)
  | inr high ↦ rw high (omega arith)
]

hex_line-IsShort : (bytes : ℕ → ℕ) (n j : ℕ) → IsShort (n * 3) (hex_line bytes n j)
unfolding hex_line
hex_line-IsShort bytes zero j = (tt, omega arith)
hex_line-IsShort bytes (suc n) j =
    let e : 1 + (2 + n * 3) ≡ suc n * 3 = omega arith in
    rw (← e) (
      append-IsShort 1 (2 + n * 3) (space (ltb 0 j && j % 2 == 0)) _ (space-IsShort _) (
        append-IsShort 2 (n * 3) (hex_shown (bytes j)) (hex_line bytes n (j + 1))
          (hex_shown-IsShort (bytes j)) (hex_line-IsShort bytes n (j + 1))))

char_line-IsShort : (bytes : ℕ → ℕ) (n j : ℕ) → IsShort (n * 2) (char_line bytes n j)
unfolding char_line
char_line-IsShort bytes zero j = (tt, omega arith)
char_line-IsShort bytes (suc n) j =
    let e : 1 + (1 + n * 2) ≡ suc n * 2 = omega arith in
    rw (← e) (
      append-IsShort 1 (1 + n * 2) (space (ltb 0 j && j % 8 == 0)) _ (space-IsShort _) (
        append-IsShort 1 (n * 2) (printable (bytes j) ∷ []) (char_line bytes n (j + 1))
          (ground arith) (char_line-IsShort bytes n (j + 1))))

shown_line-IsShort : (bytes : ℕ → ℕ) → IsShort 82 (shown_line bytes)
shown_line-IsShort bytes =
    append-IsShort 50 32 (hex_line bytes 16 0 ++ codes "  ") (char_line bytes 16 0)
      (append-IsShort 48 2 (hex_line bytes 16 0) (codes "  ") (hex_line-IsShort bytes 16 0)
        (omega arith))
      (char_line-IsShort bytes 16 0)

-- The lines, as they are shown.
pub shown_lines : (ℕ → List ℕ) → (ℕ → ℕ) → ℕ → ℕ → List ℕ
shown_lines pointer bytes zero i = []
shown_lines pointer bytes (suc n) i =
    pointer i
    ++ (codes " | "
        ++ (offset_text i
            ++ (codes ":  "
                ++ (shown_line (λ j. bytes (i + j))
                    ++ (10 ∷ shown_lines pointer bytes n (i + 16))))))

dump_loop_lem :
    (pointer : ℕ → List ℕ) (bytes : ℕ → ℕ) (n i : ℕ) (memory : ℕ → ℕ)
    → dump_loop pointer bytes n i memory ≡ shown_lines pointer bytes n i
unfolding dump_loop shown_lines
dump_loop_lem pointer bytes zero i memory = refl
dump_loop_lem pointer bytes (suc n) i memory =
    let line = λ (j : ℕ). bytes (i + j) in
    let ((holds, at), ended) = dump_line-Ends line memory in
    let (nonzero, short) = shown_line-IsShort line in
    let read : c_text 128 (dump_line line memory).buffer 0 ≡ shown_line line =
      c_text_lem 128 (dump_line line memory).buffer 0 (shown_line line) holds
        (subst (λ k. (dump_line line memory).buffer k ≡ 0) (at ∙ omega arith) ended) nonzero
        (omega arith) in
    ap₂
      (λ t rest.
        pointer i ++ (codes " | " ++ (offset_text i ++ (codes ":  " ++ (t ++ (10 ∷ rest))))))
      read (dump_loop_lem pointer bytes n (i + 16) (dump_line line memory).buffer)

-- `DumpBlock` shows a block as 32 lines, each with the address and the offset, the digits of 16 bytes in
-- groups of two, and their characters in groups of eight, a full stop for all but the visible ones of
-- ASCII. The digits of a byte below 128 are its two; every byte from 128 on is shown as "ff", whatever
-- it is.
pub dump_block-shown_lines :
    (pointer : ℕ → List ℕ) (bytes : ℕ → ℕ)
    → dump_block pointer bytes ≡ shown_lines pointer bytes 32 0 ++ 10 ∷ []
unfolding dump_block
dump_block-shown_lines pointer bytes =
    ap (λ t. t ++ 10 ∷ []) (dump_loop_lem pointer bytes 32 0 (λ a. 0))
