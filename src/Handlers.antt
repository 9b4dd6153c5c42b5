-- ===== src/Handlers.antt =====
-- The FUSE operations of src/fuse_cpp_ramfs.cpp, one definition for each `FuseRamFs::Fuse*`. The
-- user and group of `fuse_req_ctx` come with the environment; the file handle `fi` is only tested.
pub mod Guards
pub mod Replies
pub mod Loops
pub mod Setattr
pub mod Names
pub mod Enter
pub mod Attributes
pub mod Create
pub mod Remove
pub mod Rename
pub mod Data
pub mod Readdir
