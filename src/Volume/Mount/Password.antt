-- ===== src/Volume/Mount/Password.antt =====
-- How `S_Deobfuscate` (source/volume.cxx) comes by its password, with the messages that it logs.
use prodosfs.Base.{
  ℕ, ◌-◌, Bool, true, ◌≡◌, refl, inl, inr, List, [], ◌∷◌, ◌++◌, Option, none, some, take, length,
  get_or, ltb, ◌==◌, if◌then◌else◌, arith, Bool-cases,
}
use prodosfs.Base.Text.{codes}
use prodosfs.Util.Logger.{Message, log_error, log_warning, log_debug1}
use prodosfs.Volume.Mount.Cipher.{deobfuscate-usable}
use prodosfs.Volume.Mount.{usable, decipher_loop, deobfuscate}

-- What `getenv`, `open`, `fstat` and `read` find of the password file: the last with whether others than
-- the owner may use the file, and its first 31 bytes, or `none` where they cannot be read.
pub data PasswordFile : Type 0 where
  not_set cannot_open cannot_stat not_regular : PasswordFile
  opened : Bool → Option (List ℕ) → PasswordFile

abbrev message : ℕ → List ℕ → List Message
message level text = record { level = level; text = text } ∷ []

-- The warning about the permissions.
abbrev pub warning : PasswordFile → List Message
warning (opened true bytes) =
    message log_warning (codes "password file should only be readable/writable and only by owner")
warning f = []

-- The password, if there is one, and the messages.
unfoldable pub read_password : PasswordFile → Option (List ℕ) × List Message
read_password not_set = (none, message log_debug1 (codes "PRODOSFS_PASSWORD_FILE env var not set"))
read_password cannot_open = (none, message log_error (codes "unable to open password file"))
read_password cannot_stat = (none, message log_error (codes "unable to stat password file"))
read_password not_regular = (none, message log_error (codes "password file is not a regular file"))
read_password (opened shared none) = (
  none,
  warning (opened shared none) ++ message log_error (codes "unable to read from password file"),
)
read_password (opened shared (some bytes)) =
    let passwd = take 31 bytes in
    let n = length passwd in
    let n' = if get_or passwd (n - 1) 0 == b'\n' then n - 1 else n in
    let warned = warning (opened shared (some bytes)) in
    if n == 0
    then (none, warned ++ message log_error (codes "password file is empty"))
    else if ltb n' 2
    then (none, warned ++ message log_error (codes "password is too short"))
    else (some (take n' passwd), warned)

-- What the other parts of the model take of the file.
abbrev pub password_of : PasswordFile → Option (List ℕ)
password_of (opened shared bytes) = bytes
password_of f = none

-- How a call of `S_Deobfuscate` ends: with the block deciphered, and no message but a warning; or with the
-- destination as it was, and one message more, which says why.
pub data Ended (f : PasswordFile) (src dst : ℕ → ℕ) : Type 0 where
  deciphered :
      (passwd : List ℕ)
      → read_password f ≡ (some passwd, warning f)
      → deobfuscate (password_of f) src dst ≡ decipher_loop passwd src 512 0 0 dst
      → Ended f src dst
  untouched :
      (reason : Message)
      → read_password f ≡ (none, warning f ++ reason ∷ [])
      → deobfuscate (password_of f) src dst ≡ dst
      → Ended f src dst

deobfuscate-none :
    (bytes : List ℕ) (src dst : ℕ → ℕ)
    → usable bytes ≡ none
    → deobfuscate (some bytes) src dst ≡ dst
unfolding deobfuscate
deobfuscate-none bytes src dst e = ground (arith, e)

-- `S_Deobfuscate` does not fail in silence, and does not complain when it succeeds: whatever it finds of the
-- password file, either there is a password, the whole block is deciphered with it, and at most the warning
-- about the permissions of the file is logged; or there is none, the destination is left as it was, and one
-- message more is logged.
pub deobfuscate-Ended : (f : PasswordFile) (src dst : ℕ → ℕ) → Ended f src dst
unfolding read_password usable
deobfuscate-Ended not_set src dst = untouched _ refl (unfold deobfuscate in refl)
deobfuscate-Ended cannot_open src dst = untouched _ refl (unfold deobfuscate in refl)
deobfuscate-Ended cannot_stat src dst = untouched _ refl (unfold deobfuscate in refl)
deobfuscate-Ended not_regular src dst = untouched _ refl (unfold deobfuscate in refl)
deobfuscate-Ended (opened shared none) src dst = untouched _ refl (unfold deobfuscate in refl)
deobfuscate-Ended (opened shared (some bytes)) src dst =
    let n : ℕ = length (take 31 bytes) in
    let n' : ℕ = if get_or (take 31 bytes) (n - 1) 0 == b'\n' then n - 1 else n in
    elim (Bool-cases (n == 0)) [
      | inl empty ↦
          untouched (record { level = log_error; text = codes "password file is empty" })
            (rw empty refl) (deobfuscate-none bytes src dst (rw empty refl))
      | inr some_bytes ↦ elim (Bool-cases (ltb n' 2)) [
        | inl short ↦
            untouched (record { level = log_error; text = codes "password is too short" })
              (rw (some_bytes, short) refl)
              (deobfuscate-none bytes src dst (rw (some_bytes, short) refl))
        | inr enough ↦ deciphered (take n' (take 31 bytes)) (rw (some_bytes, enough) refl) (
            deobfuscate-usable bytes (take n' (take 31 bytes)) src dst
              (rw (some_bytes, enough) refl))
      ]
    ]
