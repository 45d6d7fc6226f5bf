-- ===== src/FileType/Low.antt =====
-- `file_type_table` (source/filetype.cxx), the entries from 0x00 to 0x7F.
use prodosfs.Base.{List, [], ◌∷◌, some, none}
use prodosfs.FileType.Info.{FileTypeInfo, add_file_type}
use prodosfs.Base.{ℕ}

unfoldable pub low_file_types : List (ℕ × FileTypeInfo)
low_file_types =
    add_file_type 0x00 (some "---") (some "Typeless file")
    ∷ add_file_type 0x01 (some "BAD") (some "Bad block file")
    ∷ add_file_type 0x02 none none
    ∷ add_file_type 0x03 none none
    ∷ add_file_type 0x04 (some "TXT") (some "Text file")
    ∷ add_file_type 0x05 none none
    ∷ add_file_type 0x06 (some "BIN") (some "Binary file")
    ∷ add_file_type 0x07 none none
    ∷ add_file_type 0x08 none none
    ∷ add_file_type 0x09 none none
    ∷ add_file_type 0x0a none none
    ∷ add_file_type 0x0b (some "WPF") (some "Word processor file")
    ∷ add_file_type 0x0c none none
    ∷ add_file_type 0x0d none none
    ∷ add_file_type 0x0e none none
    ∷ add_file_type 0x0f (some "DIR") (some "Directory file")
    ∷ add_file_type 0x10 none none
    ∷ add_file_type 0x11 none none
    ∷ add_file_type 0x12 none none
    ∷ add_file_type 0x13 none none
    ∷ add_file_type 0x14 none none
    ∷ add_file_type 0x15 none none
    ∷ add_file_type 0x16 none none
    ∷ add_file_type 0x17 none none
    ∷ add_file_type 0x18 none none
    ∷ add_file_type 0x19 (some "ADB") (some "AppleWorks database file")
    ∷ add_file_type 0x1a (some "AWP") (some "AppleWorks word processor file")
    ∷ add_file_type 0x1b (some "ASP") (some "AppleWorks spreadsheet file")
    ∷ add_file_type 0x1c none none
    ∷ add_file_type 0x1d none none
    ∷ add_file_type 0x1e none none
    ∷ add_file_type 0x1f none none
    ∷ add_file_type 0x20 none none
    ∷ add_file_type 0x21 none none
    ∷ add_file_type 0x22 none none
    ∷ add_file_type 0x23 none none
    ∷ add_file_type 0x24 none none
    ∷ add_file_type 0x25 none none
    ∷ add_file_type 0x26 none none
    ∷ add_file_type 0x27 none none
    ∷ add_file_type 0x28 none none
    ∷ add_file_type 0x29 none none
    ∷ add_file_type 0x2a none none
    ∷ add_file_type 0x2b none none
    ∷ add_file_type 0x2c none none
    ∷ add_file_type 0x2d none none
    ∷ add_file_type 0x2e none none
    ∷ add_file_type 0x2f none none
    ∷ add_file_type 0x30 none none
    ∷ add_file_type 0x31 none none
    ∷ add_file_type 0x32 none none
    ∷ add_file_type 0x33 none none
    ∷ add_file_type 0x34 none none
    ∷ add_file_type 0x35 none none
    ∷ add_file_type 0x36 none none
    ∷ add_file_type 0x37 none none
    ∷ add_file_type 0x38 none none
    ∷ add_file_type 0x39 none none
    ∷ add_file_type 0x3a none none
    ∷ add_file_type 0x3b none none
    ∷ add_file_type 0x3c none none
    ∷ add_file_type 0x3d none none
    ∷ add_file_type 0x3e none none
    ∷ add_file_type 0x3f none none
    ∷ add_file_type 0x40 none none
    ∷ add_file_type 0x41 none none
    ∷ add_file_type 0x42 none none
    ∷ add_file_type 0x43 none none
    ∷ add_file_type 0x44 none none
    ∷ add_file_type 0x45 none none
    ∷ add_file_type 0x46 none none
    ∷ add_file_type 0x47 none none
    ∷ add_file_type 0x48 none none
    ∷ add_file_type 0x49 none none
    ∷ add_file_type 0x4a none none
    ∷ add_file_type 0x4b none none
    ∷ add_file_type 0x4c none none
    ∷ add_file_type 0x4d none none
    ∷ add_file_type 0x4e none none
    ∷ add_file_type 0x4f none none
    ∷ add_file_type 0x50 none none
    ∷ add_file_type 0x51 none none
    ∷ add_file_type 0x52 none none
    ∷ add_file_type 0x53 none none
    ∷ add_file_type 0x54 none none
    ∷ add_file_type 0x55 none none
    ∷ add_file_type 0x56 none none
    ∷ add_file_type 0x57 none none
    ∷ add_file_type 0x58 none none
    ∷ add_file_type 0x59 none none
    ∷ add_file_type 0x5a none none
    ∷ add_file_type 0x5b none none
    ∷ add_file_type 0x5c none none
    ∷ add_file_type 0x5d none none
    ∷ add_file_type 0x5e none none
    ∷ add_file_type 0x5f none none
    ∷ add_file_type 0x60 none none
    ∷ add_file_type 0x61 none none
    ∷ add_file_type 0x62 none none
    ∷ add_file_type 0x63 none none
    ∷ add_file_type 0x64 none none
    ∷ add_file_type 0x65 none none
    ∷ add_file_type 0x66 none none
    ∷ add_file_type 0x67 none none
    ∷ add_file_type 0x68 none none
    ∷ add_file_type 0x69 none none
    ∷ add_file_type 0x6a none none
    ∷ add_file_type 0x6b none none
    ∷ add_file_type 0x6c none none
    ∷ add_file_type 0x6d none none
    ∷ add_file_type 0x6e none none
    ∷ add_file_type 0x6f none none
    ∷ add_file_type 0x70 none none
    ∷ add_file_type 0x71 none none
    ∷ add_file_type 0x72 none none
    ∷ add_file_type 0x73 none none
    ∷ add_file_type 0x74 none none
    ∷ add_file_type 0x75 none none
    ∷ add_file_type 0x76 none none
    ∷ add_file_type 0x77 none none
    ∷ add_file_type 0x78 none none
    ∷ add_file_type 0x79 none none
    ∷ add_file_type 0x7a none none
    ∷ add_file_type 0x7b none none
    ∷ add_file_type 0x7c none none
    ∷ add_file_type 0x7d none none
    ∷ add_file_type 0x7e none none
    ∷ add_file_type 0x7f none none
    ∷ []
