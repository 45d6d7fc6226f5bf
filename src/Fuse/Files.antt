-- ===== src/Fuse/Files.antt =====
-- The operations on open files: `prodosfs_open`, `prodosfs_read` and `prodosfs_close` (main.cxx).
pub mod Reading
pub mod Sessions
pub mod Paths
pub mod Listings
use prodosfs.Base.{
  ℕ, zero, suc, ◌-◌, Bool, true, false, List, [], ◌∷◌, ◌++◌, map, Option, none, some, length, take,
  drop, min, ltb, ◌==◌, not, ◌&&◌, if◌then◌else◌, bit_and, ℤ, pos, negsuc, Result, ok, thrown,
  out_of_range, wild_pointer, ◌>>=◌, Err,
}
use prodosfs.Disk.{Disk}
use prodosfs.Directory.{Handle}
use prodosfs.File.{FileHandle, seek, seek_set, at_eof}
use prodosfs.File
use prodosfs.Volume.Paths.{Volume, open_file}
use prodosfs.Volume.Catalog.{catalog}
use prodosfs.Fuse.Settings.{Settings, unix_text}
use prodosfs.Fuse.Errors.{Reply, success, minus_error}
use prodosfs.Fuse.Names.{prodos_filename}
use prodosfs.Fuse.Status.{is_virtual}

-- What `fi->fh` points to: an object of one of three types, or the null pointer that `Catalog` may
-- give.
pub data OpenFile : Type 0 where
  file : FileHandle → OpenFile
  listing : List ℕ → OpenFile
  directory : Handle → OpenFile
  nothing : OpenFile

-- The answer, `fi->fh` if it is set, and the thread's error.
unfoldable pub prodosfs_open :
    ℕ → Settings → Volume → Err → List ℕ → Result (Reply × Option OpenFile × Err)
prodosfs_open fuel s v err path =
    let virtual = (do
      (data', err') ← catalog fuel v err (prodos_filename s path)
      ok (success 0, some (elim data' [ none ↦ nothing | some text ↦ listing text ]), err')) in
    let real = (do
      (fh, err') ← open_file fuel v err (prodos_filename s path)
      elim fh [
        | none ↦ ok (minus_error err', none, err')
        | some h ↦ ok (success 0, some (file h), err')
      ]) in
    if is_virtual s (prodos_filename s path) then virtual else real

abbrev pub file_type_text : ℕ
file_type_text = 0x04

-- A character of an Apple II text: the high bit is not used, and lines end in a carriage return.
unfoldable pub unix_char : ℕ → ℕ
unix_char c = if bit_and c 0x7f == 13 then 10 else bit_and c 0x7f

-- The bytes read, as they are left in the buffer.
unfoldable pub converted : Settings → ℕ → List ℕ → List ℕ
converted s type bytes =
    if unix_text s.text_mode && type == file_type_text then map unix_char bytes else bytes

-- From the position of an open file. The size is far below the range of `int`.
unfoldable pub read_here :
    Settings → Disk → Err → FileHandle → ℕ → Result (Reply × List ℕ × FileHandle × Err)
read_here s d err h bufsiz = do
  (bytes, h', err') ← File.read d err h bufsiz
  (if length bytes == 0 && not (at_eof d h')
      then ok (minus_error err', bytes, h', err')
      else ok (success (length bytes), converted s (File.type d h') bytes, h', err'))

-- From an open file.
unfoldable pub read_file :
    Settings → Disk → Err → FileHandle → ℕ → ℤ → Result (Reply × List ℕ × FileHandle × Err)
unfolding read_here
read_file s d err h bufsiz off = seek d err h off seek_set >>= λ (at, h', err'). elim at [
  | pos n ↦ read_here s d err' h' bufsiz
  | negsuc n ↦ ok (minus_error err', [], h', err')
]

-- `std::string::copy`.
unfoldable pub read_text : List ℕ → ℕ → ℤ → Result (Reply × List ℕ)
read_text text bufsiz (negsuc n) = thrown out_of_range
read_text text bufsiz (pos off) =
    if ltb (length text) off
    then thrown out_of_range
    else ok (success (min bufsiz (length text - off)), take bufsiz (drop off text))

-- The answer, the bytes in the buffer, the file, and the thread's error. A handle that is not of the
-- type that the path calls for is taken for one.
unfoldable pub prodosfs_read :
    Settings → Volume → Err → List ℕ → OpenFile → ℕ → ℤ → Result (Reply × List ℕ × OpenFile × Err)
prodosfs_read s v err path (file h) bufsiz off =
    if is_virtual s path then thrown wild_pointer else (do
      (reply, bytes, h', err') ← read_file s v.disk err h bufsiz off
      ok (reply, bytes, file h', err'))
prodosfs_read s v err path (listing text) bufsiz off =
    if is_virtual s path
    then (do (reply, bytes) ← read_text text bufsiz off; ok (reply, bytes, listing text, err))
    else thrown wild_pointer
prodosfs_read s v err path (directory h) bufsiz off = thrown wild_pointer
prodosfs_read s v err path nothing bufsiz off = thrown wild_pointer

-- The object is closed and deleted; a null pointer may be deleted too.
unfoldable pub prodosfs_close : Settings → List ℕ → OpenFile → Result Reply
prodosfs_close s path (file h) = if is_virtual s path then thrown wild_pointer else ok (success 0)
prodosfs_close s path (listing text) =
    if is_virtual s path then ok (success 0) else thrown wild_pointer
prodosfs_close s path (directory h) = thrown wild_pointer
prodosfs_close s path nothing = if is_virtual s path then ok (success 0) else thrown wild_pointer
