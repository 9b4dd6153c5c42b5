-- ===== src/Server/Replies.antt =====
-- How many replies the operations of src/fuse_cpp_ramfs.cpp send.
use fuse_cpp_ramfs.Base.{ℕ, ◌≡◌, refl, Bool, true, false}
use Prim.Native.Nat.{bit_or}
use fuse_cpp_ramfs.State.{Inode, Reply, reply, Env, Abi, Fs}
use fuse_cpp_ramfs.Handlers.Guards.{with_live, is_file, is_directory}
use fuse_cpp_ramfs.Attr.{reply_attr_of, reply_access}
use fuse_cpp_ramfs.Handlers.Attributes.{
  fuse_getattr, fuse_opendir, fuse_releasedir, fuse_open, fuse_release, fuse_fsyncdir, fuse_statfs,
  fuse_access,
}
use fuse_cpp_ramfs.Handlers.Create.{s_ifdir, fuse_mknod, fuse_mkdir}
use fuse_cpp_ramfs.Handlers.Data.{fuse_flush, fuse_getxattr, fuse_listxattr, fuse_removexattr}
use fuse_cpp_ramfs.Xattr.{remove_xattr, get_xattr, list_xattr}
use fuse_cpp_ramfs.Handlers.Replies.{
  OneReply, Answers, Answers-if, Answers-with_live, Answers-call, fuse_lookup-Answers,
  fuse_setattr-Answers, fuse_fsync-Answers, fuse_readlink-Answers,
}
use fuse_cpp_ramfs.Handlers.Replies.Changes.{
  fuse_unlink-Answers, fuse_rmdir-Answers, fuse_rename-Answers, fuse_link-Answers,
}
use fuse_cpp_ramfs.Handlers.Replies.Data.{
  make_node-Answers, fuse_create-Answers, fuse_write-Answers, fuse_read-Answers,
  fuse_setxattr-Answers,
}
use fuse_cpp_ramfs.Handlers.Replies.Readdir.{fuse_readdir-Answers}
use fuse_cpp_ramfs.Server.{
  Request, lookup, forget, getattr, setattr, readlink, mknod, mkdir, unlink, rmdir, symlink, rename,
  link, open_file, read, write, flush, release, fsync, opendir, readdir, releasedir, fsyncdir,
  statfs, setxattr, getxattr, listxattr, removexattr, access, create, getlk, handle,
}

-- All requests but the making of a symbolic link, a forgetting and a test of a lock, and a reading
-- of a directory where `malloc` fails.
abbrev pub answered : Env → Request → Bool
answered env (forget ino nlookup) = false
answered env (symlink target parent name) = false
answered env (getlk ino) = false
answered env (readdir ino size off) = env.malloc_ok
answered env _ = true

method-Answers :
    (ino : ℕ) (method : Inode → Reply) → Answers (with_live ino (λ i. reply (method i)))
method-Answers ino method = Answers-with_live ino (λ i. reply (method i)) λ i fs. refl

-- An operation other than the making of a symbolic link, a forgetting, a test of a lock, or a
-- reading of a directory for which `malloc` fails, sends exactly one reply, unless it faults.
pub handle-OneReply :
    (abi : Abi) (env : Env) (r : Request) (fs : Fs)
    → answered env r ≡ true
    → OneReply (handle abi env r fs)
unfolding handle fuse_getattr fuse_opendir fuse_releasedir fuse_open fuse_release fuse_fsyncdir
    fuse_statfs fuse_access fuse_flush fuse_getxattr fuse_listxattr fuse_removexattr fuse_mknod
    fuse_mkdir
handle-OneReply abi env (lookup parent name) fs h = fuse_lookup-Answers parent name fs
handle-OneReply abi env (forget ino nlookup) fs h = cc
handle-OneReply abi env (getattr ino) fs h = method-Answers ino reply_attr_of fs
handle-OneReply abi env (setattr ino attr to_set fi) fs h =
    fuse_setattr-Answers env ino attr to_set fi fs
handle-OneReply abi env (readlink ino) fs h = fuse_readlink-Answers ino fs
handle-OneReply abi env (mknod parent name mode rdev) fs h =
    make_node-Answers abi env parent name mode rdev fs
handle-OneReply abi env (mkdir parent name mode) fs h =
    make_node-Answers abi env parent name (bit_or mode s_ifdir) 0 fs
handle-OneReply abi env (unlink parent name) fs h = fuse_unlink-Answers abi parent name fs
handle-OneReply abi env (rmdir parent name) fs h = fuse_rmdir-Answers abi parent name fs
handle-OneReply abi env (symlink target parent name) fs h = cc
handle-OneReply abi env (rename parent name newparent newname) fs h =
    fuse_rename-Answers abi parent name newparent newname fs
handle-OneReply abi env (link ino newparent newname) fs h =
    fuse_link-Answers abi ino newparent newname fs
handle-OneReply abi env (open_file ino) fs h =
    Answers-with_live ino _ (λ i. Answers-if (is_directory i.kind) _ _ (λ fs'. refl) (λ fs'. refl))
      fs
handle-OneReply abi env (read ino count off) fs h = fuse_read-Answers env ino count off fs
handle-OneReply abi env (write ino bytes off) fs h = fuse_write-Answers env ino bytes off fs
handle-OneReply abi env (flush ino) fs h = refl
handle-OneReply abi env (release ino) fs h =
    Answers-with_live ino _ (λ i. Answers-if (is_directory i.kind) _ _ (λ fs'. refl) (λ fs'. refl))
      fs
handle-OneReply abi env (fsync ino) fs h = fuse_fsync-Answers ino fs
handle-OneReply abi env (opendir ino) fs h =
    Answers-with_live ino _ (λ i. Answers-if (is_file i.kind) _ _ (λ fs'. refl) (λ fs'. refl)) fs
handle-OneReply abi env (readdir ino size off) fs h = fuse_readdir-Answers env ino size off h fs
handle-OneReply abi env (releasedir ino) fs h =
    Answers-with_live ino _ (λ i. Answers-if (is_file i.kind) _ _ (λ fs'. refl) (λ fs'. refl)) fs
handle-OneReply abi env (fsyncdir ino) fs h =
    Answers-with_live ino _ (λ i. Answers-if (is_directory i.kind) _ _ (λ fs'. refl) (λ fs'. refl))
      fs
handle-OneReply abi env (statfs ino) fs h = refl
handle-OneReply abi env (setxattr ino name value flags) fs h =
    fuse_setxattr-Answers env ino name value flags fs
handle-OneReply abi env (getxattr ino name size) fs h =
    method-Answers ino (get_xattr name size 0) fs
handle-OneReply abi env (listxattr ino size) fs h = method-Answers ino (list_xattr env size) fs
handle-OneReply abi env (removexattr ino name) fs h =
    Answers-with_live ino _ (λ i. Answers-call ino (remove_xattr name)) fs
handle-OneReply abi env (access ino mask) fs h =
    method-Answers ino (reply_access mask env.gid env.uid) fs
handle-OneReply abi env (create parent name mode) fs h =
    fuse_create-Answers abi env parent name mode fs
handle-OneReply abi env (getlk ino) fs h = cc
