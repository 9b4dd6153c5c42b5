-- ===== src/Handlers/Data.antt =====
-- `FuseWrite`, `FuseRead`, `FuseFlush`, `FuseGetLock` and the extended attributes of
-- src/fuse_cpp_ramfs.cpp, with the virtual calls that they make.
use fuse_cpp_ramfs.Base.{ℕ, Option, none, some, List, [], ◌∷◌, Name}
use fuse_cpp_ramfs.State.{
  enoent, einval, eisdir, success, Kind, file, directory, symlink, special, Handler, reply, error,
  reply_err, Env,
}
use fuse_cpp_ramfs.Table.{change_inode}
use fuse_cpp_ramfs.Xattr.{set_xattr, get_xattr, list_xattr, remove_xattr}
use fuse_cpp_ramfs.File.{file_write, file_read}
use fuse_cpp_ramfs.Directory.{directory_write, directory_read}
use fuse_cpp_ramfs.Handlers.Guards.{with_live, call}

-- `WriteAndReply` of the class of the inode: src/file.cpp, src/directory.cpp, src/symlink.cpp and
-- src/special_inode.cpp.
unfoldable pub write_and_reply : Env → ℕ → Kind → List ℕ → ℕ → Handler
unfolding file_write
write_and_reply env ino (file buf) bytes off = file_write env ino bytes off
write_and_reply env ino (directory ch) bytes off = directory_write
write_and_reply env ino (symlink link) bytes off = error eisdir
write_and_reply env ino (special type) bytes off = error enoent

-- `ReadAndReply` of the class of the inode.
unfoldable pub read_and_reply : Env → ℕ → Kind → ℕ → ℕ → Handler
unfolding file_read
read_and_reply env ino (file buf) count off = file_read env ino count off
read_and_reply env ino (directory ch) count off = directory_read
read_and_reply env ino (symlink link) count off = error eisdir
read_and_reply env ino (special type) count off = error enoent

-- `none` for the bytes is a null buffer.
unfoldable pub fuse_write : Env → ℕ → Option (List ℕ) → ℕ → Handler
unfolding with_live write_and_reply
fuse_write env ino none off = error einval
fuse_write env ino (some bytes) off = with_live ino λ i. write_and_reply env ino i.kind bytes off

unfoldable pub fuse_read : Env → ℕ → ℕ → ℕ → Handler
unfolding with_live read_and_reply
fuse_read env ino count off = with_live ino λ i. read_and_reply env ino i.kind count off

unfoldable pub fuse_flush : ℕ → Handler
fuse_flush ino = reply (reply_err success)

-- No reply is sent.
unfoldable pub fuse_getlk : ℕ → Handler
fuse_getlk ino fs = some ([], fs)

unfoldable pub fuse_setxattr : Env → ℕ → Name → List ℕ → ℕ → Handler
unfolding with_live set_xattr change_inode
fuse_setxattr env ino name value flags = with_live ino λ i fs.
    elim (set_xattr env name value flags 0 i) [
      | none ↦ none
      | some (i', r) ↦ some (r ∷ [], change_inode ino (λ _. i') fs)
    ]

unfoldable pub fuse_getxattr : ℕ → Name → ℕ → Handler
unfolding with_live get_xattr
fuse_getxattr ino name size = with_live ino λ i. reply (get_xattr name size 0 i)

unfoldable pub fuse_listxattr : Env → ℕ → ℕ → Handler
unfolding with_live list_xattr
fuse_listxattr env ino size = with_live ino λ i. reply (list_xattr env size i)

unfoldable pub fuse_removexattr : ℕ → Name → Handler
unfolding with_live call remove_xattr
fuse_removexattr ino name = with_live ino λ i. call ino (remove_xattr name)
