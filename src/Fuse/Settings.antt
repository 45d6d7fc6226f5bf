-- ===== src/Fuse/Settings.antt =====
-- The global variables of main.cxx that the options set, and what is not the program's own: the
-- functions of the C library and the order of an `unordered_map`.
use prodosfs.Base.{ℕ, Bool, true, false, List, ℤ}

pub data TextMode : Type 0 where
  text_mode_prodos text_mode_unix : TextMode

pub data ExtensionMode : Type 0 where
  extension_mode_off extension_mode_on : ExtensionMode

pub data VirtualFileMode : Type 0 where
  virtual_file_mode_none virtual_file_mode_hidden virtual_file_mode_visible : VirtualFileMode

pub record Settings : Type 0 where
  pub disk_image : List ℕ
  pub foreground : Bool
  pub use_name : Bool
  pub log_level : ℤ
  pub debug : Bool
  pub text_mode : TextMode
  pub extension_mode : ExtensionMode
  pub virtual_file_mode : VirtualFileMode

abbrev pub extensions_on : ExtensionMode → Bool
extensions_on extension_mode_on = true
extensions_on extension_mode_off = false

abbrev pub virtual_files_on : VirtualFileMode → Bool
virtual_files_on virtual_file_mode_none = false
virtual_files_on virtual_file_mode_hidden = true
virtual_files_on virtual_file_mode_visible = true

abbrev pub unix_text : TextMode → Bool
unix_text text_mode_unix = true
unix_text text_mode_prodos = false

-- `struct tm`, as far as it is set; the other fields are 0.
pub record Tm : Type 0 where
  pub tm_min : ℕ
  pub tm_hour : ℕ
  pub tm_mday : ℕ
  pub tm_mon : ℤ
  pub tm_year : ℕ
