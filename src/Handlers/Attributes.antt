-- ===== src/Handlers/Attributes.antt =====
-- `FuseLookup`, `FuseGetAttr`, `FuseSetAttr`, the opening, closing and synchronising of files and
-- directories, `FuseReadLink`, `FuseStatfs` and `FuseAccess` of src/fuse_cpp_ramfs.cpp.
use fuse_cpp_ramfs.Base.{
  ℕ, ◌-◌, ◌*◌, ◌/◌, ◌%◌, Bool, ◌&&◌, Option, none, some, ◌==◌, if◌then◌else◌, Name,
}
use fuse_cpp_ramfs.State.{
  enoent, enotdir, eisdir, einval, Code, success, Kind, symlink, Stat, ◌>>=◌, Handler, reply, error,
  reply_err, reply_open, reply_readlink, reply_statfs, Env,
}
use fuse_cpp_ramfs.Table.{get_inode}
use fuse_cpp_ramfs.Space.{fs_stat}
use fuse_cpp_ramfs.Attr.{
  has_bit, s_isdir, get_mode, reply_entry_of, reply_attr_of, reply_set_attr, reply_access,
}
use fuse_cpp_ramfs.File.{file_truncate}
use fuse_cpp_ramfs.Directory.{child_inode_number, ino_notfound}
use fuse_cpp_ramfs.Handlers.Guards.{with_live, with_children, is_file, is_directory, call}

unfoldable pub fuse_lookup : ℕ → Name → Handler
unfolding with_live with_children child_inode_number call reply_entry_of
fuse_lookup parent name = with_live parent λ p. with_children p λ ch.
    let ino = child_inode_number name ch in
    if ino == ino_notfound then error enoent else with_live ino (λ i. call ino reply_entry_of)

unfoldable pub fuse_getattr : ℕ → Handler
unfolding with_live reply_attr_of
fuse_getattr ino = with_live ino λ i. reply (reply_attr_of i)

-- The reply to the result of `FileTruncate`.
unfoldable pub answer_truncate : ℕ → Code → Handler
unfolding get_inode reply_attr_of
answer_truncate ino success fs = elim (get_inode ino fs) [
  | none ↦ none
  | some i ↦ reply (reply_attr_of i) fs
]
answer_truncate ino code fs = reply (reply_err code) fs

-- `to_set & ~FUSE_SET_ATTR_SIZE`
abbrev pub without_size : ℕ → ℕ
without_size to_set = to_set - 8 * ((to_set / 8) % 2)

-- `fi` is whether the call has a file handle, `FUSE_SET_ATTR_SIZE` is bit 3.
unfoldable pub fuse_setattr : Env → ℕ → Stat → ℕ → Bool → Handler
unfolding with_live file_truncate answer_truncate call reply_set_attr
fuse_setattr env ino attr to_set fi = with_live ino λ i.
    if fi && has_bit to_set 3
    then if is_file i.kind
      then (do ret ← file_truncate env ino attr.st_size; answer_truncate ino ret)
      else if s_isdir (get_mode i)
      then error eisdir
      else error einval
    else call ino (reply_set_attr env.now attr (without_size to_set))

unfoldable pub fuse_opendir : ℕ → Handler
unfolding with_live
fuse_opendir ino = with_live ino λ i. if is_file i.kind then error enotdir else reply reply_open

unfoldable pub fuse_releasedir : ℕ → Handler
unfolding with_live
fuse_releasedir ino =
    with_live ino λ i. if is_file i.kind then error enotdir else reply (reply_err success)

unfoldable pub fuse_open : ℕ → Handler
unfolding with_live
fuse_open ino = with_live ino λ i. if is_directory i.kind then error eisdir else reply reply_open

unfoldable pub fuse_release : ℕ → Handler
unfolding with_live
fuse_release ino =
    with_live ino λ i. if is_directory i.kind then error eisdir else reply (reply_err success)

-- The number of links is not tested here.
unfoldable pub fuse_fsync : ℕ → Handler
unfolding get_inode
fuse_fsync ino fs = elim (get_inode ino fs) [
  | none ↦ error enoent fs
  | some i ↦ reply (reply_err success) fs
]

unfoldable pub fuse_fsyncdir : ℕ → Handler
unfolding with_live
fuse_fsyncdir ino =
    with_live ino λ i. if is_directory i.kind then reply (reply_err success) else error enotdir

-- `dynamic_cast<SymLink *>`, with the target.
abbrev pub link_of : Kind → Option Name
link_of (symlink link) = some link
link_of _ = none

unfoldable pub fuse_readlink : ℕ → Handler
unfolding with_live
fuse_readlink ino =
    with_live ino
      λ i. elim (link_of i.kind) [ none ↦ error einval | some link ↦ reply (reply_readlink link) ]

unfoldable pub fuse_statfs : ℕ → Handler
fuse_statfs ino fs = reply (reply_statfs (fs_stat fs)) fs

unfoldable pub fuse_access : Env → ℕ → ℕ → Handler
unfolding with_live reply_access
fuse_access env ino mask = with_live ino λ i. reply (reply_access mask env.gid env.uid i)
