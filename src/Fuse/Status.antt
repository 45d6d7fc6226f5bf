-- ===== src/Fuse/Status.antt =====
-- `prodosfs_getattr` (main.cxx): what `stat` says of a path.
pub mod Attributes
use prodosfs.Base.{
  ℕ, ◌+◌, ◌*◌, ◌||◌, List, [], ◌∷◌, ◌++◌, none, some, ltb, if◌then◌else◌, ℤ, sub_ℕ, Result, ok,
  thrown, unexpected_storage_type, ◌>>=◌, Err, ◌&&◌, Bool, true, false,
}
use prodosfs.Disk.{Disk, Ptr}
use prodosfs.Entry
use prodosfs.Entry.{Timestamp}
use prodosfs.Volume.Paths.{Volume, get_entry}
use prodosfs.Volume.Usage.{count_root_directory_blocks}
use prodosfs.Fuse.Settings.{Settings, Tm, virtual_files_on}
use prodosfs.Fuse.Errors.{Reply, success, minus_error}
use prodosfs.Fuse.Names.{
  VirtualFileId, virtual_file_id_none, virtual_file_id_catalog, virtual_file_id, prodos_filename,
}

-- The bits of `st_mode`.
pub data ModeFlag : Type 0 where
  s_ifreg s_ifdir s_irusr s_irgrp s_ixusr s_ixgrp : ModeFlag

-- `struct stat`, as far as it is set; `st_mode` is the bits that are set in it.
pub record Stat : Type 0 where
  pub st_mode : List ModeFlag
  pub st_nlink : ℕ
  pub st_size : ℕ
  pub st_blksize : ℕ
  pub st_blocks : ℕ
  pub st_ctim : ℤ
  pub st_mtim : ℤ

abbrev pub file_size_max : ℕ
file_size_max = 0xffffff

-- A year before 70 is of this century.
unfoldable pub broken_down : Timestamp → Tm
broken_down t = record {
  tm_min = t.minute;
  tm_hour = t.hour;
  tm_mday = t.day;
  tm_mon = sub_ℕ t.month 1;
  tm_year = if ltb t.year 70 then t.year + 100 else t.year;
}

abbrev pub names_virtual_file : VirtualFileId → Bool
names_virtual_file virtual_file_id_none = false
names_virtual_file virtual_file_id_catalog = true

-- Whether an operation takes the path for that of a virtual file.
unfoldable pub is_virtual : Settings → List ℕ → Bool
is_virtual s path =
    virtual_files_on s.virtual_file_mode && names_virtual_file (virtual_file_id path)

abbrev pub directory_bits : List ModeFlag
directory_bits = s_ifdir ∷ s_ixusr ∷ s_ixgrp ∷ []

abbrev pub readable_bits : List ModeFlag
readable_bits = s_irusr ∷ s_irgrp ∷ []

-- `mktime` is the C library's.
module _ (mktime : Tm → ℤ) where
  unfoldable pub to_unix_time : Timestamp → ℤ
  unfolding broken_down
  to_unix_time t = mktime (broken_down t)

  -- The fields for an entry, after those that are the same for all.
  unfoldable pub entry_stat : ℕ → Volume → Ptr → Stat → Result Stat
  unfolding to_unix_time
  entry_stat fuel v e st =
      let created = to_unix_time (Entry.creation_timestamp v.disk e) in
      let root = (do
        blocks ← count_root_directory_blocks fuel v
        ok (record st {
          st_blocks = blocks;
          st_size = blocks * st.st_blksize;
          st_mode = st.st_mode ++ directory_bits;
          st_mtim = created;
        })) in
      let file = record st {
        st_blocks = Entry.blocks_used v.disk e;
        st_size = Entry.eof v.disk e;
        st_mode = st.st_mode ++ (if Entry.is_file v.disk e then s_ifreg ∷ [] else directory_bits);
        st_mtim = to_unix_time (Entry.last_mod_timestamp v.disk e);
      } in
      if Entry.is_root v.disk e
      then root
      else if Entry.is_file v.disk e || Entry.is_directory v.disk e
      then ok file
      else thrown unexpected_storage_type

  -- The answer, the status, and the thread's error.
  unfoldable pub prodosfs_getattr :
      ℕ → Settings → Volume → Err → List ℕ → Stat → Result (Reply × Stat × Err)
  unfolding is_virtual
  prodosfs_getattr fuel s v err path st =
      let found = (do
        (entry, err') ← get_entry fuel v err (prodos_filename s path)
        elim entry [
          | none ↦ ok (minus_error err', st, err')
          | some e ↦ (do
            st' ← entry_stat fuel v e (record st {
              st_nlink = 1;
              st_blksize = 512;
              st_mode = readable_bits;
              st_ctim = to_unix_time (Entry.creation_timestamp v.disk e);
            })
            ok (success 0, st', err'))
        ]) in
      if is_virtual s path
      then ok
          (success 0, record st { st_mode = s_ifreg ∷ readable_bits; st_size = file_size_max }, err)
      else found
