-- ===== src/Util/Logger.antt =====
-- The logger of source/util.cxx: a function that messages go to, which the program sets.
use prodosfs.Base.{ℕ, List, []}

-- The levels of `log_level_t` (include/prodos/util.hxx) that are used here.
abbrev pub log_error : ℕ
log_error = 1

abbrev pub log_warning : ℕ
log_warning = 2

abbrev pub log_info : ℕ
log_info = 3

abbrev pub log_debug1 : ℕ
log_debug1 = 5

-- What a logger writes for a message at a level, whose format is filled in.
abbrev pub Logger : Type 0
Logger = ℕ → List ℕ → List ℕ

pub log_nothing : Logger
log_nothing level text = []

-- `LOG`, before and after `SetLogger`.
abbrev pub initial_log : Logger
initial_log = log_nothing

abbrev pub set_logger : Logger → Logger → Logger
set_logger log func = func

-- A message, before a logger gets it.
pub record Message : Type 0 where
  pub level : ℕ
  pub text : List ℕ
