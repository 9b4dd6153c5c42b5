-- ===== src/Server.antt =====
-- The operations as the kernel calls them: the table `FuseOps` that the constructor `FuseRamFs` in
-- src/fuse_cpp_ramfs.cpp fills, and the runs of the file system from its start.
pub mod Keeps
pub mod Start
pub mod Table
pub mod Cookies
pub mod Listing
pub mod Blocks
pub mod Replies
pub mod Registered
use fuse_cpp_ramfs.Base.{ℕ, Bool, Option, none, some, List, [], ◌∷◌, Name}
use fuse_cpp_ramfs.State.{Stat, Fs, M, Handler, Reply, Env, Abi, ◌>>=◌, ◌>>◌, pure}
use fuse_cpp_ramfs.Table.{Slots}
use fuse_cpp_ramfs.Register.{new_fs, fuse_init}
use fuse_cpp_ramfs.Handlers.Attributes.{
  fuse_lookup, fuse_getattr, fuse_setattr, fuse_opendir, fuse_releasedir, fuse_open, fuse_release,
  fuse_fsync, fuse_fsyncdir, fuse_readlink, fuse_statfs, fuse_access,
}
use fuse_cpp_ramfs.Handlers.Create.{fuse_mknod, fuse_mkdir, fuse_create, fuse_symlink}
use fuse_cpp_ramfs.Handlers.Remove.{fuse_unlink, fuse_rmdir, fuse_forget}
use fuse_cpp_ramfs.Handlers.Rename.{fuse_rename, fuse_link}
use fuse_cpp_ramfs.Handlers.Readdir.{fuse_readdir}
use fuse_cpp_ramfs.Handlers.Data.{
  fuse_write, fuse_read, fuse_flush, fuse_getlk, fuse_setxattr, fuse_getxattr, fuse_listxattr,
  fuse_removexattr,
}

pub data Request : Type 0 where
  lookup : ℕ → Name → Request
  forget : ℕ → ℕ → Request
  getattr : ℕ → Request
  setattr : ℕ → Stat → ℕ → Bool → Request
  readlink : ℕ → Request
  mknod : ℕ → Name → ℕ → ℕ → Request
  mkdir : ℕ → Name → ℕ → Request
  unlink : ℕ → Name → Request
  rmdir : ℕ → Name → Request
  symlink : Name → ℕ → Name → Request
  rename : ℕ → Name → ℕ → Name → Request
  link : ℕ → ℕ → Name → Request
  open_file : ℕ → Request
  read : ℕ → ℕ → ℕ → Request
  write : ℕ → Option (List ℕ) → ℕ → Request
  flush : ℕ → Request
  release : ℕ → Request
  fsync : ℕ → Request
  opendir : ℕ → Request
  readdir : ℕ → ℕ → ℕ → Request
  releasedir : ℕ → Request
  fsyncdir : ℕ → Request
  statfs : ℕ → Request
  setxattr : ℕ → Name → List ℕ → ℕ → Request
  getxattr : ℕ → Name → ℕ → Request
  listxattr : ℕ → ℕ → Request
  removexattr : ℕ → Name → Request
  access : ℕ → ℕ → Request
  create : ℕ → Name → ℕ → Request
  getlk : ℕ → Request

unfoldable pub handle : Abi → Env → Request → Handler
handle abi env (lookup parent name) = fuse_lookup parent name
handle abi env (forget ino nlookup) = fuse_forget ino nlookup
handle abi env (getattr ino) = fuse_getattr ino
handle abi env (setattr ino attr to_set fi) = fuse_setattr env ino attr to_set fi
handle abi env (readlink ino) = fuse_readlink ino
handle abi env (mknod parent name mode rdev) = fuse_mknod abi env parent name mode rdev
handle abi env (mkdir parent name mode) = fuse_mkdir abi env parent name mode
handle abi env (unlink parent name) = fuse_unlink abi parent name
handle abi env (rmdir parent name) = fuse_rmdir abi parent name
handle abi env (symlink target parent name) = fuse_symlink abi env target parent name
handle abi env (rename parent name newparent newname) =
    fuse_rename abi parent name newparent newname
handle abi env (link ino newparent newname) = fuse_link abi ino newparent newname
handle abi env (open_file ino) = fuse_open ino
handle abi env (read ino count off) = fuse_read env ino count off
handle abi env (write ino bytes off) = fuse_write env ino bytes off
handle abi env (flush ino) = fuse_flush ino
handle abi env (release ino) = fuse_release ino
handle abi env (fsync ino) = fuse_fsync ino
handle abi env (opendir ino) = fuse_opendir ino
handle abi env (readdir ino size off) = fuse_readdir env ino size off
handle abi env (releasedir ino) = fuse_releasedir ino
handle abi env (fsyncdir ino) = fuse_fsyncdir ino
handle abi env (statfs ino) = fuse_statfs ino
handle abi env (setxattr ino name value flags) = fuse_setxattr env ino name value flags
handle abi env (getxattr ino name size) = fuse_getxattr ino name size
handle abi env (listxattr ino size) = fuse_listxattr env ino size
handle abi env (removexattr ino name) = fuse_removexattr ino name
handle abi env (access ino mask) = fuse_access env ino mask
handle abi env (create parent name mode) = fuse_create abi env parent name mode
handle abi env (getlk ino) = fuse_getlk ino

-- `FuseDestroy`: every object is given back. The code leaves the pointers in the table as they are,
-- which is the end of its use; a null slot stands for a pointer to what has been given back.
unfoldable pub fuse_destroy : M (Unit {0})
fuse_destroy fs = some (tt, record fs { inodes = destroyed fs.inodes })
  where
    destroyed : Slots → Slots
    destroyed [] = []
    destroyed (x ∷ xs) = none ∷ destroyed xs

-- The calls of the kernel in their order, each with what the environment gives to it.
unfoldable pub serve : Abi → List (Env × Request) → M (List (List Reply))
unfolding handle
serve abi [] = pure []
serve abi ((env, r) ∷ rs) = do sent ← handle abi env r; rest ← serve abi rs; pure (sent ∷ rest)

-- A mounted file system: the constructor, `FuseInit`, and then the calls.
unfoldable pub mounted : Abi → Env → ℕ → ℕ → List (Env × Request) → Option (List (List Reply) × Fs)
unfolding new_fs fuse_init serve
mounted abi env blocks inodes rs = (do fuse_init abi env; serve abi rs) (new_fs blocks inodes)
