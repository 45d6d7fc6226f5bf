-- ===== src/Lib.antt =====
-- prodosfs: a read-only file system over Apple II ProDOS 8 disk images.
--
-- The program maps a disk image into memory (source/disk.cxx), finds the volume directory in it and
-- so mounts a volume (source/volume.cxx), and then serves lookups of paths, listings of directories
-- (source/directory.cxx) and reads of files (source/file.cxx) from the blocks of the image. Every
-- part reads the fields of directory entries and headers through source/entry.cxx, which takes them
-- from the packed structs of include/prodos/block.hxx.
--
-- Files and the code they model:
-- - Base: names shared by all files. Base/Outcome has what a function may do: return a value (ok),
--   throw one of the exceptions of the sources (thrown), or need more fuel (out_of_fuel); it also
--   has err_t of include/prodos/volume.hxx. Base/Integer has signed integers over the native ℕ.
-- - Disk: disk_t and the reads of include/prodos/util.hxx. Disk/Blocks is about ReadBlock and
--   WriteBlock, Disk/Convert about Convert, and Disk/Save is disk_t::Save.
-- - Block: volume_t::GetBlock, the block behind a block pointer, which is the static block of zeros
--   for the pointer 0 (a sparse block).
-- - Entry: entry_t, directory_entry_t, directory_header_t and volume_header_t, with the offsets of
--   their fields in Entry/Offset, the storage types, the access bits, IsValidName and the dates.
--   Entry/Layout has the structs of include/prodos/block.hxx, member by member.
-- - Directory: directory_handle_t (_Open, _Next, NextEntry, Close). Directory/Layout says what a
--   directory is by the disk format, Directory/Cursor, Directory/Next and Directory/Cycles are about
--   NextEntry.
-- - Volume: Volume/Paths has S_SplitPath, GetEntry, OpenFile and OpenDirectory; Volume/SplitLaws,
--   Volume/Resolve, Volume/GetEntry, Volume/Open and Volume/Folders are about them. Volume/Mount has
--   S_IsVolumeDirectoryBlock, S_Deobfuscate, _GetVolumeDirectoryBlock and the constructor of
--   volume_t, with the messages about the password file in Volume/Mount/Password, Volume/Usage has
--   CountBlocksUsed and CountRootDirectoryBlocks, Volume/Catalog has Catalog, Volume/Header the
--   fields of the volume's header, and Volume/Rename has Rename.
-- - File: index_block_t and file_handle_t (the constructor, Seek, Read, Eof, Close). File/Content
--   says which block holds a byte of a file by the disk format; File/Seek, File/Read, File/End and
--   File/Stays are about Seek and Read.
-- - FileType: the table of source/filetype.cxx. Util: AppleWorksFileName of source/util.cxx. Util/Dump
--   has DumpBlock, with the buffer that it prints each line into, and Util/Logger has LOG and
--   SetLogger.
-- - Fuse: main.cxx. Fuse/Settings has the global variables, Fuse/Errors S_ToError, Fuse/Names
--   S_ExportedFilename, S_ProdosFilename and S_VirtualFileId, Fuse/Attributes S_GetAttributes and the
--   operations on extended attributes, Fuse/Status getattr, Fuse/Files the operations on open files,
--   Fuse/Directories those on open directories, Fuse/MountPoint S_UpdateMountDirectory, and
--   Fuse/Program the options and main, and Fuse/Lifetime init, destroy and the messages. Their children
--   are about the parts they are named for. Fuse/Requests has sessions of requests over the table
--   operations, Fuse/Threads reads on several threads, and Fuse/Refusals is about paths that lead
--   nowhere.
-- - Diskutil: util/diskutil.cxx.
-- - Tests: small disk images, and the theorems applied to them.
--
-- The model. The memory of the image is a function from the offset to a byte, with the size and the
-- number of blocks beside it; what lies from the size on is memory outside the image, so that reads
-- behind the end are visible. A load is taken modulo 256. A pointer is the null pointer, an offset
-- in the image, or an offset in the block of zeros. An entry is a pointer to its 39 bytes, as in the
-- sources. The thread's error number is a value that goes in and out of the functions that read or
-- set it. Exceptions and error results are values. What the disk image does not determine is a
-- parameter: the bytes of the password file, of the stack and of new memory (Surroundings), the bytes
-- behind a string that Rename copies, and what fstat and mmap give to the constructor of disk_t.
--
-- Fuel. The loops over directory entries are not bounded by the code when the blocks form a cycle,
-- so they take fuel: a number of slots for one call of NextEntry, a number of entries for GetEntry,
-- a number of blocks for CountRootDirectoryBlocks. The slots of the chain of blocks are enough for
-- NextEntry, and the length of the chain for CountRootDirectoryBlocks. The loop of Read needs the
-- size that was asked for and no more, and that of S_SplitPath the length of the path: both are
-- given by the definitions. Numbers of file positions and block counts are far below the width of
-- their types in the sources (off_t, int), so they are not reduced; a file is at most 2 ^ 24 - 1
-- bytes long, and the image at most 65535 blocks once it is mounted.
--
-- What main.cxx and diskutil.cxx take from outside is a parameter too: mktime, the order of an
-- unordered_map, FUSE's filler, stat, mkdir, realpath, atoi and the options that getopt finds, the
-- opening of an image file, and whether the file system does what it is asked. An object behind fi->fh
-- is a value; taking it for one of another type, or following a null pointer, is the exception
-- wild_pointer of the model. The loops over the entries of a directory in readdir and Catalog take one
-- more unit of fuel than there are entries, and the loop of diskutil rename one for each question.
-- The functions of std::filesystem are taken on paths without repeated slashes. The calls of Save on
-- the file system are a record of functions on its states (FileSystem), and what is documented of them
-- is a record of laws (IsPosix).
--
-- Sessions. FUSE keeps the open files and gives each request the path of its opening; a session is any
-- sequence of requests that return, on any of the open files, in any order. The requests of a session
-- follow one another; Fuse/Threads takes prodosfs_read apart into its seek and its read, which may mix.
--
-- Not modelled: mmap and munmap, which are input and output; the messages that the operations log, but
-- for those about the password file and those of init and destroy; what fork, dup2 and rmdir do, and
-- the loop of FUSE, which are calls of libraries. new and delete are not modelled: a handle is a value.
mod Base
pub mod Disk
pub mod Block
pub mod Entry
pub mod Directory
pub mod Volume
pub mod File
pub mod FileType
pub mod Fuse
pub mod Util
pub mod Diskutil
pub mod Tests
