-- ===== src/Lib.antt =====
-- A model of the in-memory file system fuse-cpp-ramfs (src/*.cpp, src/*.hpp), with theorems on what
-- its FUSE operations do.
--
-- The program serves the low-level FUSE interface from memory. `FuseRamFs` keeps a table of inodes,
-- a queue of deleted numbers and the counters of `statvfs`; a file keeps its bytes in a buffer of
-- whole blocks, a directory keeps an ordered map from names to numbers, and every class of inode
-- shares the attributes and the extended attributes of `Inode`. A handler finds its inode in the
-- table, tests it, calls methods of it, and replies.
--
-- Base, with Base/Tests, Base/Words, Base/Lists, Base/Maps and Base/Strings: tests, 64-bit words with
--   their wrap-around, lists, byte strings and their parts, and `std::map<std::string, V>` as the
--   list of its entries.
-- State: `Inode` and its classes (src/inode.hpp, src/file.hpp, src/directory.hpp, src/symlink.hpp,
--   src/special_inode.hpp), the static members of src/fuse_cpp_ramfs.hpp as the record `Fs`, the
--   replies, and the monad of the steps. A step that fails an assertion, follows a null pointer or
--   leaves a buffer is a fault, `none`.
-- Table, Space: the accesses to the table and to the counters in src/fuse_cpp_ramfs.hpp, with
--   `get_nblocks` and `round_up` of src/util.hpp. Memory: copies into a buffer.
-- Attr, Xattr: the methods of src/inode.cpp. File: src/file.cpp. Directory: src/directory.cpp, where
--   Directory/View is the abstract view of a directory, a finite map with three operations, and
--   Directory/Readdir the table of the directories that are being read.
-- Register: `RegisterInode`, `do_create_node`, the constructor and `FuseInit` of
--   src/fuse_cpp_ramfs.cpp, with `Initialize` and the constructors of the classes.
-- Handlers: one definition for each `FuseRamFs::Fuse*` of src/fuse_cpp_ramfs.cpp, with the lemmas on
--   the reading of directories in Handlers/Readdir and those on names in Handlers/Names.
-- Server: the table `FuseOps`, `FuseDestroy`, and runs of the file system from its start.
-- Options: src/util.cpp. Options/Number has `SizeStr2Number`, Options/Parse `ramfs_parse_options`,
--   Options/Args `erase_arg` and the `copy_args` of src/main.cpp, and Options/Cmdline
--   `ramfs_parse_cmdline` and the start of `main`. A call there comes to a value, a fault, an
--   access to memory that has been given back, a loop that has not ended after the rounds that are
--   looked at, or the end of the process (`Result`). A `char *` is null, a string, or a pointer to
--   memory that has been given back.
-- Keeps: the rule that carries an invariant through the handlers. An invariant that bears a change
--   of an inode with its blocks counted and the deletion of an inode (`Frame`), and the making and
--   unmaking of one (`Maker`), is kept by every operation.
-- Tests: the theorems at inputs that meet their hypotheses.
--
-- Code of other libraries is a parameter: `realloc`, `new`, `malloc`, the clock, the values of
-- `rand`, the bytes that `fuse_add_direntry` writes for an entry, and the user and group of a
-- call stand in `Env`, one for each call, and the sizes of the C++ types in `Abi`. For the
-- command line the answers of `getopt` are a list of functions on the arguments, and `basename`,
-- `fuse_opt_add_arg`, `OPTION_MAX` and the memory of `new` stand in `Libraries`. Where a theorem
-- needs it, `realloc` is taken to give a block of the size that was asked for with the bytes
-- that it had (`Reallocs`).
--
-- Bounds: the theorems on a file ask that a read or a write ends below 2^62 and that the file
-- has fewer than 2^54 blocks, those on a directory that its size stays below 2^62. Offsets and
-- sizes in this range are exact in 64-bit words, signed or not. The removal of the links of a
-- directory has as many rounds as there are links, and the search for a cookie as many as `rand`
-- gives values. The string of `strtok_r` is split once. The loop of `ramfs_parse_options` takes
-- a number of rounds (`parse_rounds`); `parse_options` gives it two more than the string has
-- characters, which is more than it has tokens, and a round on a token without a key leads to
-- the same token again. The loop over the answers of `getopt` ends with the list of them.
--
-- Not modelled: the locks (each call runs alone), what is printed, the heap base, the mounting and
-- the session in `main` of src/main.cpp (calls of libfuse), the memory that `delete_args` gives back,
-- the debug log of src/common.h, and the fractions of times and timeouts.
pub mod Base
pub mod State
pub mod Table
pub mod Space
pub mod Memory
pub mod Options
pub mod Attr
pub mod Xattr
pub mod File
pub mod Directory
pub mod Register
pub mod Handlers
pub mod Keeps
pub mod Server
pub mod Tests
