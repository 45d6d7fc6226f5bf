-- ===== src/Util/Dump.antt =====
-- `DumpBlock` (source/util.cxx), where `char` is signed and `int` has 32 bits.
pub mod Buffer
pub mod Shown
pub mod Bounds
use prodosfs.Base.{
  ℕ, zero, suc, ◌+◌, ◌-◌, ◌*◌, ◌/◌, ◌%◌, ◌&&◌, ◌||◌, List, [], ◌∷◌, ◌++◌, ltb, ◌==◌, if◌then◌else◌,
  length,
}
use prodosfs.Base.Text.{codes}

-- The local array `buffer`, and what `pos` points to in it.
pub record Output : Type 0 where
  pub buffer : ℕ → ℕ
  pub at : ℕ

abbrev pub set_byte : (ℕ → ℕ) → ℕ → ℕ → ℕ → ℕ
set_byte memory i byte a = if a == i then byte else memory a

-- `sprintf`, of the characters that it formats, and the zero byte behind them.
unfoldable pub sprintf : (ℕ → ℕ) → ℕ → List ℕ → ℕ → ℕ
sprintf memory i [] = set_byte memory i 0
sprintf memory i (c ∷ cs) = sprintf (set_byte memory i c) (i + 1) cs

-- `sprintf` at `pos`, which is then moved on by `n`.
abbrev pub print : Output → List ℕ → ℕ → Output
print o text n = record { buffer = sprintf o.buffer o.at text; at = o.at + n }

abbrev pub lower_digit : ℕ → ℕ
lower_digit n = if ltb n 10 then b'0' + n else b'a' + (n - 10)

-- `%02x` of a `char`: below 0 it is an `int` of eight digits.
unfoldable pub hex_text : ℕ → List ℕ
hex_text c =
    let digits = lower_digit (c / 16) ∷ lower_digit (c % 16) ∷ [] in
    if ltb c 128 then digits else codes "ffffff" ++ digits

-- The first loop over `j`, with `n` rounds left.
unfoldable pub hex_loop : (ℕ → ℕ) → ℕ → ℕ → Output → Output
unfolding hex_text
hex_loop bytes zero j o = o
hex_loop bytes (suc n) j o =
    let o' = if ltb 0 j && j % 2 == 0 then print o (codes " ") 1 else o in
    hex_loop bytes n (j + 1) (print o' (hex_text (bytes j)) 2)

-- A byte as a character; as a `char` it is below 33 from 128 on.
abbrev pub printable : ℕ → ℕ
printable c = if ltb c 33 || ltb 126 c then b'.' else c

-- The second loop over `j`.
unfoldable pub char_loop : (ℕ → ℕ) → ℕ → ℕ → Output → Output
char_loop bytes zero j o = o
char_loop bytes (suc n) j o =
    let o' = if ltb 0 j && j % 8 == 0 then print o (codes " ") 1 else o in
    char_loop bytes n (j + 1) (print o' (printable (bytes j) ∷ []) 1)

-- One line in the buffer, which still holds what the line before left in it.
unfoldable pub dump_line : (ℕ → ℕ) → (ℕ → ℕ) → Output
unfolding hex_loop char_loop
dump_line bytes memory =
    char_loop bytes 16 0
      (print (hex_loop bytes 16 0 (record { buffer = memory; at = 0 })) (codes "  ") 2)

-- `%s` of the buffer: the bytes up to the first zero byte, of which there is one among the 128.
unfoldable pub c_text : ℕ → (ℕ → ℕ) → ℕ → List ℕ
c_text zero memory i = []
c_text (suc n) memory i = if memory i == 0 then [] else memory i ∷ c_text n memory (i + 1)

-- `%03x` of an offset in the block.
abbrev pub offset_text : ℕ → List ℕ
offset_text i = lower_digit (i / 256) ∷ lower_digit (i / 16 % 16) ∷ lower_digit (i % 16) ∷ []

-- The loop over the lines, with `n` lines left. `pointer` is the text of the address at an offset.
unfoldable pub dump_loop : (ℕ → List ℕ) → (ℕ → ℕ) → ℕ → ℕ → (ℕ → ℕ) → List ℕ
unfolding dump_line
dump_loop pointer bytes zero i memory = []
dump_loop pointer bytes (suc n) i memory =
    let o = dump_line (λ j. bytes (i + j)) memory in
    pointer i
    ++ (codes " | "
        ++ (offset_text i
            ++ (codes ":  "
                ++ (c_text 128 o.buffer 0 ++ (10 ∷ dump_loop pointer bytes n (i + 16) o.buffer)))))

-- What is written to stderr for a block.
unfoldable pub dump_block : (ℕ → List ℕ) → (ℕ → ℕ) → List ℕ
unfolding dump_loop
dump_block pointer bytes = dump_loop pointer bytes 32 0 (λ a. 0) ++ 10 ∷ []
