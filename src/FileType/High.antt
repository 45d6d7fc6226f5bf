-- ===== src/FileType/High.antt =====
-- `file_type_table` (source/filetype.cxx), the entries from 0x80 to 0xFF.
use prodosfs.Base.{List, [], ◌∷◌, some, none}
use prodosfs.FileType.Info.{FileTypeInfo, add_file_type}
use prodosfs.Base.{ℕ}

unfoldable pub high_file_types : List (ℕ × FileTypeInfo)
high_file_types =
    add_file_type 0x80 none none
    ∷ add_file_type 0x81 none none
    ∷ add_file_type 0x82 none none
    ∷ add_file_type 0x83 none none
    ∷ add_file_type 0x84 none none
    ∷ add_file_type 0x85 none none
    ∷ add_file_type 0x86 none none
    ∷ add_file_type 0x87 none none
    ∷ add_file_type 0x88 none none
    ∷ add_file_type 0x89 none none
    ∷ add_file_type 0x8a none none
    ∷ add_file_type 0x8b none none
    ∷ add_file_type 0x8c none none
    ∷ add_file_type 0x8d none none
    ∷ add_file_type 0x8e none none
    ∷ add_file_type 0x8f none none
    ∷ add_file_type 0x90 none none
    ∷ add_file_type 0x91 none none
    ∷ add_file_type 0x92 none none
    ∷ add_file_type 0x93 none none
    ∷ add_file_type 0x94 none none
    ∷ add_file_type 0x95 none none
    ∷ add_file_type 0x96 none none
    ∷ add_file_type 0x97 none none
    ∷ add_file_type 0x98 none none
    ∷ add_file_type 0x99 none none
    ∷ add_file_type 0x9a none none
    ∷ add_file_type 0x9b none none
    ∷ add_file_type 0x9c none none
    ∷ add_file_type 0x9d none none
    ∷ add_file_type 0x9e none none
    ∷ add_file_type 0x9f none none
    ∷ add_file_type 0xa0 none none
    ∷ add_file_type 0xa1 none none
    ∷ add_file_type 0xa2 none none
    ∷ add_file_type 0xa3 none none
    ∷ add_file_type 0xa4 none none
    ∷ add_file_type 0xa5 none none
    ∷ add_file_type 0xa6 none none
    ∷ add_file_type 0xa7 none none
    ∷ add_file_type 0xa8 none none
    ∷ add_file_type 0xa9 none none
    ∷ add_file_type 0xaa none none
    ∷ add_file_type 0xab none none
    ∷ add_file_type 0xac none none
    ∷ add_file_type 0xad none none
    ∷ add_file_type 0xae none none
    ∷ add_file_type 0xaf none none
    ∷ add_file_type 0xb0 none none
    ∷ add_file_type 0xb1 none none
    ∷ add_file_type 0xb2 none none
    ∷ add_file_type 0xb3 none none
    ∷ add_file_type 0xb4 none none
    ∷ add_file_type 0xb5 none none
    ∷ add_file_type 0xb6 none none
    ∷ add_file_type 0xb7 none none
    ∷ add_file_type 0xb8 none none
    ∷ add_file_type 0xb9 none none
    ∷ add_file_type 0xba none none
    ∷ add_file_type 0xbb none none
    ∷ add_file_type 0xbc none none
    ∷ add_file_type 0xbd none none
    ∷ add_file_type 0xbe none none
    ∷ add_file_type 0xbf none none
    ∷ add_file_type 0xc0 none none
    ∷ add_file_type 0xc1 none none
    ∷ add_file_type 0xc2 none none
    ∷ add_file_type 0xc3 none none
    ∷ add_file_type 0xc4 none none
    ∷ add_file_type 0xc5 none none
    ∷ add_file_type 0xc6 none none
    ∷ add_file_type 0xc7 none none
    ∷ add_file_type 0xc8 none none
    ∷ add_file_type 0xc9 none none
    ∷ add_file_type 0xca none none
    ∷ add_file_type 0xcb none none
    ∷ add_file_type 0xcc none none
    ∷ add_file_type 0xcd none none
    ∷ add_file_type 0xce none none
    ∷ add_file_type 0xcf none none
    ∷ add_file_type 0xd0 none none
    ∷ add_file_type 0xd1 none none
    ∷ add_file_type 0xd2 none none
    ∷ add_file_type 0xd3 none none
    ∷ add_file_type 0xd4 none none
    ∷ add_file_type 0xd5 none none
    ∷ add_file_type 0xd6 none none
    ∷ add_file_type 0xd7 none none
    ∷ add_file_type 0xd8 none none
    ∷ add_file_type 0xd9 none none
    ∷ add_file_type 0xda none none
    ∷ add_file_type 0xdb none none
    ∷ add_file_type 0xdc none none
    ∷ add_file_type 0xdd none none
    ∷ add_file_type 0xde none none
    ∷ add_file_type 0xdf none none
    ∷ add_file_type 0xe0 none none
    ∷ add_file_type 0xe1 none none
    ∷ add_file_type 0xe2 none none
    ∷ add_file_type 0xe3 none none
    ∷ add_file_type 0xe4 none none
    ∷ add_file_type 0xe5 none none
    ∷ add_file_type 0xe6 none none
    ∷ add_file_type 0xe7 none none
    ∷ add_file_type 0xe8 none none
    ∷ add_file_type 0xe9 none none
    ∷ add_file_type 0xea none none
    ∷ add_file_type 0xeb none none
    ∷ add_file_type 0xec none none
    ∷ add_file_type 0xed none none
    ∷ add_file_type 0xee none none
    ∷ add_file_type 0xef (some "PAS") (some "Pascal file")
    ∷ add_file_type 0xf0 (some "CMD") (some "Command file")
    ∷ add_file_type 0xf1 (some "UD1") (some "User defined type 1 file")
    ∷ add_file_type 0xf2 (some "UD2") (some "User defined type 2 file")
    ∷ add_file_type 0xf3 (some "UD3") (some "User defined type 3 file")
    ∷ add_file_type 0xf4 (some "UD4") (some "User defined type 4 file")
    ∷ add_file_type 0xf5 (some "UD5") (some "User defined type 5 file")
    ∷ add_file_type 0xf6 (some "UD6") (some "User defined type 6 file")
    ∷ add_file_type 0xf7 (some "UD7") (some "User defined type 7 file")
    ∷ add_file_type 0xf8 (some "UD8") (some "User defined type 8 file")
    ∷ add_file_type 0xf9 none none
    ∷ add_file_type 0xfa (some "INT") (some "Integer BASIC file")
    ∷ add_file_type 0xfb (some "IVR") (some "Integer BASIC variables file")
    ∷ add_file_type 0xfc (some "BAS") (some "Applesoft BASIC file")
    ∷ add_file_type 0xfd (some "VAR") (some "Applesoft BASIC variables file")
    ∷ add_file_type 0xfe (some "REL") (some "Relocatable code file")
    ∷ add_file_type 0xff (some "SYS") (some "System file")
    ∷ []
