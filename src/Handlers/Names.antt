-- ===== src/Handlers/Names.antt =====
-- What the handlers of src/fuse_cpp_ramfs.cpp do to the names of a directory.
pub mod Unlink
pub mod Mknod
pub mod Lookup
pub mod Made
pub mod Rename
pub mod Forget
pub mod Link
pub mod Replace
