-- ===== src/Handlers/Create.antt =====
-- `FuseMknod`, `FuseMkdir`, `FuseSymlink` and `FuseCreate` of src/fuse_cpp_ramfs.cpp.
use Prim.Native.Nat.{bit_or}
use fuse_cpp_ramfs.Base.{
  ℕ, not, none, some, List, [], ◌∷◌, ◌++◌, length, ◌==◌, ltb, if◌then◌else◌, Name, min,
}
use fuse_cpp_ramfs.State.{
  enospc, eexist, negate, success, Inode, Fs, ◌>>=◌, Handler, Reply, reply, error, pure, reply_err,
  Env, Abi, plus,
}
use fuse_cpp_ramfs.Space.{get_free_inodes, check_has_space_for}
use fuse_cpp_ramfs.Attr.{reply_entry_of, reply_create_of}
use fuse_cpp_ramfs.Directory.{child_inode_number, ino_notfound}
use fuse_cpp_ramfs.Register.{Created, node, failed, do_create_node}
use fuse_cpp_ramfs.Handlers.Guards.{with_live, with_children, call}

-- The reply to the result of `do_create_node`, a `long`: a number above zero is the new inode. The
-- table has far fewer than 2^63 slots, so no number is read as a negative one.
unfoldable pub answer_created : (Inode → Inode × Reply) → Created → Handler
unfolding call
answer_created method (node ino) = if ltb 0 ino then call ino method else reply (reply_err success)
answer_created method (failed code) = reply (reply_err (negate code))

-- The part that `FuseMknod` and `FuseMkdir` share, with the mode of the new node.
unfoldable pub make_node : Abi → Env → ℕ → Name → ℕ → ℕ → Handler
unfolding with_live with_children child_inode_number do_create_node answer_created reply_entry_of
make_node abi env parent name mode rdev = with_live parent λ p. with_children p λ ch fs.
    if get_free_inodes fs == 0
    then error enospc fs
    else if not (child_inode_number name ch == ino_notfound)
    then error eexist fs
    else (do
      ino ← do_create_node abi env parent name mode rdev none
      answer_created reply_entry_of ino)
        fs

unfoldable pub fuse_mknod : Abi → Env → ℕ → Name → ℕ → ℕ → Handler
unfolding make_node
fuse_mknod abi env parent name mode rdev = make_node abi env parent name mode rdev

-- `S_IFDIR`, `S_IFREG` and `0777 | S_IFLNK` of sys/stat.h
abbrev pub s_ifdir : ℕ
s_ifdir = 0o40000

abbrev pub s_ifreg : ℕ
s_ifreg = 0o100000

abbrev pub link_mode : ℕ
link_mode = 0o120777

unfoldable pub fuse_mkdir : Abi → Env → ℕ → Name → ℕ → Handler
unfolding make_node
fuse_mkdir abi env parent name mode = make_node abi env parent name (bit_or mode s_ifdir) 0

unfoldable pub fuse_create : Abi → Env → ℕ → Name → ℕ → Handler
unfolding with_live with_children do_create_node answer_created reply_create_of
fuse_create abi env parent name mode = with_live parent λ p. with_children p λ ch. do
  ino ← do_create_node abi env parent name (bit_or mode s_ifreg) 0 none
  answer_created reply_create_of ino

-- The errors that `FuseSymlink` sends before it goes on: neither of the tests returns.
unfoldable pub space_errors : Name → Fs → List Reply
unfolding check_has_space_for
space_errors name fs =
    (if check_has_space_for none (min (length name) 4096) fs
      then reply_err (plus enospc) ∷ []
      else [])
    ++ (if get_free_inodes fs == 0 then reply_err (plus enospc) ∷ [] else [])

-- Replies that were sent before those of a handler.
abbrev pub after : List Reply → Handler → Handler
after sent h = do replies ← h; pure (sent ++ replies)

unfoldable pub fuse_symlink : Abi → Env → Name → ℕ → Name → Handler
unfolding with_live with_children child_inode_number do_create_node answer_created reply_entry_of
    space_errors
fuse_symlink abi env link parent name = with_live parent λ p. with_children p λ ch fs.
    after (space_errors name fs)
      (if not (child_inode_number name ch == ino_notfound) then error eexist else (do
        ino ← do_create_node abi env parent name link_mode 0 (some link)
        answer_created reply_entry_of ino))
      fs
