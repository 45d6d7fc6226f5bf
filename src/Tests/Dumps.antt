-- ===== src/Tests/Dumps.antt =====
-- `DumpBlock` at the root directory of the sample, whose fifth byte is 0xf4.
use prodosfs.Base.{ℕ, ◌+◌, ◌≡◌, refl, List, [], ◌∷◌, ◌++◌}
use prodosfs.Base.Text.{codes}
use prodosfs.Disk.{image, load}
use prodosfs.Util.Dump.{dump_block, dump_line, hex_loop, hex_text, char_loop, sprintf, c_text}
use prodosfs.Util.Dump.Shown.{shown_lines, dump_block-shown_lines}
use prodosfs.Tests.Sample.{sample}

abbrev root_block : ℕ → ℕ
root_block j = load sample (image (1024 + j))

abbrev address : ℕ → List ℕ
address i = codes "0x1000"

dump_block-shown_lines_example :
    dump_block address root_block ≡ shown_lines address root_block 32 0 ++ 10 ∷ []
dump_block-shown_lines_example = dump_block-shown_lines address root_block

first_line :
    c_text 128 (dump_line root_block (λ a. 0)).buffer 0
    ≡ codes "0000 0300 ff44 4953 4b00 0000 0000 0000  .....DIS K......."
unfolding dump_line hex_loop hex_text char_loop sprintf c_text load
first_line = refl
