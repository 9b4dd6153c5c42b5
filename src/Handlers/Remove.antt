-- ===== src/Handlers/Remove.antt =====
-- `FuseUnlink`, `FuseRmdir` and `FuseForget` of src/fuse_cpp_ramfs.cpp.
use fuse_cpp_ramfs.Base.{ℕ, zero, suc, not, none, some, [], ◌∷◌, ◌==◌, if◌then◌else◌, Name, sub64}
use fuse_cpp_ramfs.State.{
  enoent, einval, enotempty, success, Inode, Fs, M, ◌>>◌, modify, Handler, reply, error, reply_err,
  Abi,
}
use fuse_cpp_ramfs.Table.{get_inode, change_inode, delete_inode}
use fuse_cpp_ramfs.Space.{used_blocks, update_used_blocks, update_used_inodes}
use fuse_cpp_ramfs.Attr.{remove_hard_link, has_no_links, forget, forgotten}
use fuse_cpp_ramfs.Directory.{child_inode_number, ino_notfound, remove_child, is_empty}
use fuse_cpp_ramfs.Handlers.Guards.{with_live, with_children}

-- `assert(inode_p); inode_p->RemoveHardLink();`
unfoldable pub drop_link : ℕ → M (Unit {0})
unfolding get_inode change_inode remove_hard_link
drop_link ino fs = elim (get_inode ino fs) [
  | none ↦ none
  | some i ↦ some (tt, change_inode ino remove_hard_link fs)
]

unfoldable pub fuse_unlink : Abi → ℕ → Name → Handler
unfolding with_live with_children child_inode_number remove_child drop_link
fuse_unlink abi parent name = with_live parent λ p. with_children p λ ch.
    let ino = child_inode_number name ch in
    if ino == ino_notfound
    then error enoent
    else (do remove_child abi parent name; drop_link ino; reply (reply_err success))

-- `while (!HasNoLinks()) RemoveHardLink();`, with the number of links as the bound on the rounds.
unfoldable pub drop_links : ℕ → Inode → Inode
unfolding remove_hard_link
drop_links zero i = i
drop_links (suc n) i =
    let rest = drop_links n (remove_hard_link i) in if has_no_links i then i else rest

abbrev pub drop_all_links : Inode → Inode
drop_all_links i = drop_links i.entry_param.attr.st_nlink i

unfoldable pub fuse_rmdir : Abi → ℕ → Name → Handler
unfolding with_live with_children child_inode_number is_empty remove_child change_inode
    remove_hard_link drop_links
fuse_rmdir abi parent name = with_live parent λ p. with_children p λ ch.
    let ino = child_inode_number name ch in
    if ino == ino_notfound
    then error enoent
    else if ino == parent
    then error einval
    else with_live ino λ i. with_children i λ entries fs.
      if not (is_empty entries fs)
      then error enotempty fs
      else (do
        remove_child abi parent name
        modify (change_inode parent remove_hard_link)
        modify (change_inode ino drop_all_links)
        reply (reply_err success))
          fs

-- The end of `FuseForget`, for the inode as `Forget` leaves it.
unfoldable pub reclaim : ℕ → Inode → Fs → Fs
unfolding delete_inode update_used_inodes update_used_blocks sub64
reclaim ino i fs =
    if forgotten i
    then if has_no_links i
      then update_used_blocks (sub64 0 (used_blocks i))
          (update_used_inodes (sub64 0 1) (delete_inode ino fs))
      else fs
    else fs

unfoldable pub fuse_forget : ℕ → ℕ → Handler
unfolding get_inode forget change_inode reclaim
fuse_forget ino nlookup fs = elim (get_inode ino fs) [
  | none ↦ some ([], fs)
  | some i ↦ some (
    (forget nlookup i).1 ∷ [],
    reclaim ino (forget nlookup i).0 (change_inode ino (λ j. (forget nlookup j).0) fs),
  )
]
