-- ===== src/Entry/Access.antt =====
-- The `ACCESS_` tests of an access byte (include/prodos/entry.hxx).
use prodosfs.Base.{ℕ, Bool, not, bit_and, ◌==◌}

pub read : ℕ → Bool
read a = not (bit_and a 0b0000_0001 == 0)

pub write : ℕ → Bool
write a = not (bit_and a 0b0000_0010 == 0)

pub backup : ℕ → Bool
backup a = not (bit_and a 0b0010_0000 == 0)

pub rename : ℕ → Bool
rename a = not (bit_and a 0b0100_0000 == 0)

pub destroy : ℕ → Bool
destroy a = not (bit_and a 0b1000_0000 == 0)
