-- ===== src/Util/Dump/Bounds.antt =====
-- `DumpBlock` (source/util.cxx) stays inside its buffer.
use prodosfs.Base.{
  ℕ, zero, suc, ◌+◌, ◌*◌, ◌%◌, ◌≤◌, ◌<◌, ◌≡◌, ◌&&◌, refl, ◌∙◌, List, [], ◌∷◌, ltb, ◌==◌,
  if◌then◌else◌, length, arith, Bool, true, false, Bool-cases, inl, inr,
}
use prodosfs.Base.Text.{codes}
use prodosfs.Util.Dump.{
  Output, set_byte, sprintf, print, hex_text, hex_loop, printable, char_loop, dump_line,
}

sprintf_beyond :
    (memory : ℕ → ℕ) (i : ℕ) (text : List ℕ) (a : ℕ)
    → i + length text < a
    → sprintf memory i text a ≡ memory a
unfolding sprintf
sprintf_beyond memory i [] a lt = ground arith
sprintf_beyond memory i (c ∷ cs) a lt =
    ground (arith, sprintf_beyond (set_byte memory i c) (i + 1) cs a)

-- From one output to the next, this byte is not written, and `pos` moves by at most `n`.
abbrev Spares : ℕ → Output → ℕ → Output → Type 0
Spares a o n o' = (o'.buffer a ≡ o.buffer a) × (o'.at ≤ o.at + n)

print-Spares :
    (a : ℕ) (o : Output) (text : List ℕ) (n : ℕ)
    → o.at + length text < a
    → Spares a o n (print o text n)
print-Spares a o text n lt = (sprintf_beyond o.buffer o.at text a lt, omega arith)

space-Spares :
    (a : ℕ) (b : Bool) (o : Output)
    → o.at + 1 < a
    → Spares a o 1 (if b then print o (codes " ") 1 else o)
space-Spares a true o lt = print-Spares a o (codes " ") 1 lt
space-Spares a false o lt = (refl, omega arith)

length-hex_text : (c : ℕ) → length (hex_text c) ≤ 8
unfolding hex_text
length-hex_text c = elim (Bool-cases (ltb c 128)) [
  | inl low ↦ rw low (omega arith)
  | inr high ↦ rw high (omega arith)
]

hex_loop-Spares :
    (a : ℕ) (bytes : ℕ → ℕ) (n j : ℕ) (o : Output)
    → o.at + n * 3 + 6 < a
    → Spares a o (n * 3) (hex_loop bytes n j o)
unfolding hex_loop
hex_loop-Spares a bytes zero j o lt = (refl, omega arith)
hex_loop-Spares a bytes (suc n) j o lt =
    let b : Bool = ltb 0 j && j % 2 == 0 in
    let o1 : Output = if b then print o (codes " ") 1 else o in
    let (kept, moved) = space-Spares a b o (omega arith) in
    let (kept1, moved1) =
      print-Spares a o1 (hex_text (bytes j)) 2 (omega (arith, length-hex_text (bytes j), moved)) in
    let (kept2, moved2) =
      hex_loop-Spares a bytes n (j + 1) (print o1 (hex_text (bytes j)) 2) (omega (arith, moved)) in
    (kept2 ∙ kept1 ∙ kept, omega (arith, moved, moved2))

char_loop-Spares :
    (a : ℕ) (bytes : ℕ → ℕ) (n j : ℕ) (o : Output)
    → o.at + n * 2 + 1 < a
    → Spares a o (n * 2) (char_loop bytes n j o)
unfolding char_loop
char_loop-Spares a bytes zero j o lt = (refl, omega arith)
char_loop-Spares a bytes (suc n) j o lt =
    let b : Bool = ltb 0 j && j % 8 == 0 in
    let o1 : Output = if b then print o (codes " ") 1 else o in
    let (kept, moved) = space-Spares a b o (omega arith) in
    let (kept1, moved1) = print-Spares a o1 (printable (bytes j) ∷ []) 1 (omega (arith, moved)) in
    let (kept2, moved2) =
      char_loop-Spares a bytes n (j + 1) (print o1 (printable (bytes j) ∷ []) 1)
        (omega (arith, moved)) in
    (kept2 ∙ kept1 ∙ kept, omega (arith, moved, moved2))

-- No line is printed beyond the 128 bytes of the buffer, whatever the bytes are that it shows, although
-- those from 128 on are printed with eight digits: memory from byte 128 on stays as it is, and `pos` ends
-- inside.
pub dump_line_bounds :
    (bytes memory : ℕ → ℕ) (a : ℕ)
    → 128 ≤ a
    → ((dump_line bytes memory).buffer a ≡ memory a) × ((dump_line bytes memory).at < 128)
unfolding dump_line
dump_line_bounds bytes memory a le =
    let o : Output = record { buffer = memory; at = 0 } in
    let (kept, moved) = hex_loop-Spares a bytes 16 0 o (omega arith) in
    let (kept1, moved1) =
      print-Spares a (hex_loop bytes 16 0 o) (codes "  ") 2 (omega (arith, moved)) in
    let (kept2, moved2) =
      char_loop-Spares a bytes 16 0 (print (hex_loop bytes 16 0 o) (codes "  ") 2)
        (omega (arith, moved)) in
    (kept2 ∙ kept1 ∙ kept, omega (arith, moved, moved2))
