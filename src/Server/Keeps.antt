-- ===== src/Server/Keeps.antt =====
-- Every operation keeps an invariant that bears the changes, the making and the deletion of inodes.
use fuse_cpp_ramfs.Base.{ℕ, ◌≡◌, refl, Bool, true, false, List, [], ◌∷◌, inl, inr, Option-cases}
use fuse_cpp_ramfs.State.{Fs, Env, Abi}
use fuse_cpp_ramfs.Table.{get_inode}
use fuse_cpp_ramfs.Handlers.Guards.{is_file, is_directory}
use fuse_cpp_ramfs.Handlers.Attributes.{
  fuse_getattr, fuse_opendir, fuse_releasedir, fuse_open, fuse_release, fuse_fsync, fuse_fsyncdir,
  fuse_readlink, fuse_statfs, fuse_access, link_of,
}
use fuse_cpp_ramfs.Handlers.Data.{fuse_flush, fuse_getlk, fuse_getxattr, fuse_listxattr}
use fuse_cpp_ramfs.Keeps.{Keeps, Frame, Keeps->>=, Keeps-if, Keeps-with_live}
use fuse_cpp_ramfs.Keeps.Handlers.{
  fuse_lookup-Keeps, fuse_setattr-Keeps, fuse_unlink-Keeps, fuse_rmdir-Keeps, fuse_forget-Keeps,
  fuse_write-Keeps, fuse_read-Keeps, fuse_setxattr-Keeps, fuse_removexattr-Keeps,
}
use fuse_cpp_ramfs.Keeps.Readdir.{fuse_readdir-Keeps}
use fuse_cpp_ramfs.Keeps.Rename.{fuse_rename-Keeps, fuse_link-Keeps}
use fuse_cpp_ramfs.Keeps.Create.{
  Maker, fuse_mknod-Keeps, fuse_mkdir-Keeps, fuse_create-Keeps, fuse_symlink-Keeps,
}
use fuse_cpp_ramfs.Server.{
  Request, lookup, forget, getattr, setattr, readlink, mknod, mkdir, unlink, rmdir, symlink, rename,
  link, open_file, read, write, flush, release, fsync, opendir, readdir, releasedir, fsyncdir,
  statfs, setxattr, getxattr, listxattr, removexattr, access, create, getlk, handle, serve,
}

module _ (P : Fs → Type 0) where
  fuse_fsync-Keeps : (ino : ℕ) → Keeps P (fuse_fsync ino)
  unfolding fuse_fsync
  fuse_fsync-Keeps ino fs p = elim (Option-cases (get_inode ino fs)) [
    | inl e ↦ rw (e, fuse_fsync) p
    | inr (i, e) ↦ rw (e, fuse_fsync) p
  ]

  fuse_readlink-Keeps : (ino : ℕ) → Keeps P (fuse_readlink ino)
  unfolding fuse_readlink
  fuse_readlink-Keeps ino =
      Keeps-with_live P ino _
        λ i fs p. elim (Option-cases (link_of i.kind)) [ inl e ↦ rw e p | inr (target, e) ↦ rw e p ]

-- The operations that make an inode.
abbrev pub makes : Request → Bool
makes (mknod parent name mode rdev) = true
makes (mkdir parent name mode) = true
makes (symlink target parent name) = true
makes (create parent name mode) = true
makes _ = false

module _ (P : Fs → Type 0) (frame : Frame P) where
  pub handle-Keeps_old :
      (abi : Abi) (env : Env) (r : Request) → makes r ≡ false → Keeps P (handle abi env r)
  unfolding handle fuse_getattr fuse_opendir fuse_releasedir fuse_open fuse_release fuse_fsyncdir
      fuse_statfs fuse_access fuse_flush fuse_getlk fuse_getxattr fuse_listxattr
  handle-Keeps_old abi env (lookup parent name) h = fuse_lookup-Keeps P frame parent name
  handle-Keeps_old abi env (forget ino nlookup) h = fuse_forget-Keeps P frame ino nlookup
  handle-Keeps_old abi env (getattr ino) h = Keeps-with_live P ino _ λ i fs p. p
  handle-Keeps_old abi env (setattr ino attr to_set fi) h =
      fuse_setattr-Keeps P frame env ino attr to_set fi
  handle-Keeps_old abi env (readlink ino) h = fuse_readlink-Keeps P ino
  handle-Keeps_old abi env (mknod parent name mode rdev) h = cc
  handle-Keeps_old abi env (mkdir parent name mode) h = cc
  handle-Keeps_old abi env (unlink parent name) h = fuse_unlink-Keeps P frame abi parent name
  handle-Keeps_old abi env (rmdir parent name) h = fuse_rmdir-Keeps P frame abi parent name
  handle-Keeps_old abi env (symlink target parent name) h = cc
  handle-Keeps_old abi env (rename parent name newparent newname) h =
      fuse_rename-Keeps P frame abi parent name newparent newname
  handle-Keeps_old abi env (link ino newparent newname) h =
      fuse_link-Keeps P frame abi ino newparent newname
  handle-Keeps_old abi env (open_file ino) h =
      Keeps-with_live P ino _ λ i. Keeps-if P (is_directory i.kind) _ _ (λ fs p. p) λ fs p. p
  handle-Keeps_old abi env (read ino count off) h = fuse_read-Keeps P frame env ino count off
  handle-Keeps_old abi env (write ino bytes off) h = fuse_write-Keeps P frame env ino bytes off
  handle-Keeps_old abi env (flush ino) h = λ fs p. p
  handle-Keeps_old abi env (release ino) h =
      Keeps-with_live P ino _ λ i. Keeps-if P (is_directory i.kind) _ _ (λ fs p. p) λ fs p. p
  handle-Keeps_old abi env (fsync ino) h = fuse_fsync-Keeps P ino
  handle-Keeps_old abi env (opendir ino) h =
      Keeps-with_live P ino _ λ i. Keeps-if P (is_file i.kind) _ _ (λ fs p. p) λ fs p. p
  handle-Keeps_old abi env (readdir ino size off) h = fuse_readdir-Keeps P frame env ino size off
  handle-Keeps_old abi env (releasedir ino) h =
      Keeps-with_live P ino _ λ i. Keeps-if P (is_file i.kind) _ _ (λ fs p. p) λ fs p. p
  handle-Keeps_old abi env (fsyncdir ino) h =
      Keeps-with_live P ino _ λ i. Keeps-if P (is_directory i.kind) _ _ (λ fs p. p) λ fs p. p
  handle-Keeps_old abi env (statfs ino) h = λ fs p. p
  handle-Keeps_old abi env (setxattr ino name value flags) h =
      fuse_setxattr-Keeps P frame env ino name value flags
  handle-Keeps_old abi env (getxattr ino name size) h = Keeps-with_live P ino _ λ i fs p. p
  handle-Keeps_old abi env (listxattr ino size) h = Keeps-with_live P ino _ λ i fs p. p
  handle-Keeps_old abi env (removexattr ino name) h = fuse_removexattr-Keeps P frame ino name
  handle-Keeps_old abi env (access ino mask) h = Keeps-with_live P ino _ λ i fs p. p
  handle-Keeps_old abi env (create parent name mode) h = cc
  handle-Keeps_old abi env (getlk ino) h = λ fs p. p

module _ (P : Fs → Type 0) (frame : Frame P) (maker : Maker P) where
  pub handle-Keeps : (abi : Abi) (env : Env) (r : Request) → Keeps P (handle abi env r)
  unfolding handle
  handle-Keeps abi env (mknod parent name mode rdev) =
      fuse_mknod-Keeps P frame maker abi env parent name mode rdev
  handle-Keeps abi env (mkdir parent name mode) =
      fuse_mkdir-Keeps P frame maker abi env parent name mode
  handle-Keeps abi env (symlink target parent name) =
      fuse_symlink-Keeps P frame maker abi env target parent name
  handle-Keeps abi env (create parent name mode) =
      fuse_create-Keeps P frame maker abi env parent name mode
  handle-Keeps abi env r = handle-Keeps_old P frame abi env r refl

  pub serve-Keeps : (abi : Abi) (rs : List (Env × Request)) → Keeps P (serve abi rs)
  unfolding serve
  serve-Keeps abi [] = λ fs p. p
  serve-Keeps abi ((env, r) ∷ rs) =
      Keeps->>= P (handle abi env r) _ (handle-Keeps abi env r)
        λ sent. Keeps->>= P (serve abi rs) _ (serve-Keeps abi rs) λ rest fs p. p
