-- ===== src/Handlers/Rename.antt =====
-- `FuseRename` and `FuseLink` of src/fuse_cpp_ramfs.cpp. The two directories of a rename may be one
-- inode: each step reads the table as the step before has left it.
use fuse_cpp_ramfs.Base.{
  ℕ, Bool, true, false, not, ◌&&◌, none, some, ◌==◌, if◌then◌else◌, Name, Map,
}
use fuse_cpp_ramfs.State.{
  enotdir, eisdir, enotempty, eexist, Code, success, plus, minus, Inode, Fs, M, pure, ◌>>=◌, ◌>>◌,
  modify, Handler, reply, error, reply_err, Abi,
}
use fuse_cpp_ramfs.Table.{get_inode, change_inode}
use fuse_cpp_ramfs.Attr.{
  add_hard_link, remove_hard_link, has_no_links, get_mode, s_isdir, reply_entry_of,
}
use fuse_cpp_ramfs.Directory.{
  children_of, child_inode_number, ino_notfound, add_child, update_child, remove_child, is_empty,
}
use fuse_cpp_ramfs.Handlers.Guards.{with_live, with_children, call}

-- A change of links, where the test holds.
abbrev pub when : Bool → (Fs → Fs) → M (Unit {0})
when true f = modify f
when false f = pure tt

-- The replacement of the live inode `existing` at the new name by `src`.
unfoldable pub replace_entry : Abi → ℕ → Name → ℕ → Name → ℕ → ℕ → Bool → Handler
unfolding update_child remove_child change_inode remove_hard_link
replace_entry abi parent name newparent newname src existing is_dir = do
  update_child newparent newname src
  remove_child abi parent name
  modify (change_inode existing remove_hard_link)
  when is_dir (change_inode existing remove_hard_link)
  when is_dir (change_inode parent remove_hard_link)
  reply (reply_err success)

-- The move to a new name that names no live inode. The result of the addition is not looked at.
unfoldable pub move_entry : Abi → ℕ → Name → ℕ → Name → ℕ → Bool → Handler
unfolding add_child remove_child change_inode remove_hard_link add_hard_link
move_entry abi parent name newparent newname src is_dir = do
  add_child abi newparent newname src
  remove_child abi parent name
  when is_dir (change_inode parent remove_hard_link)
  when is_dir (change_inode newparent add_hard_link)
  reply (reply_err success)

-- The tests on the live inode `e` at the new name. The assertion: what has the mode of a directory
-- is one.
unfoldable pub may_replace : Bool → Inode → Handler → Handler
unfolding is_empty
may_replace src_dir e k fs =
    if src_dir && not (s_isdir (get_mode e))
    then error enotdir fs
    else if s_isdir (get_mode e)
    then (elim (children_of e.kind) [
      | none ↦ none
      | some entries ↦
          if not (is_empty entries fs)
          then error enotempty fs
          else if src_dir
          then k fs
          else error eisdir fs
    ])
    else k fs

-- The part of `FuseRename` after the locks, for the source `s` of number `src`.
unfoldable pub rename_to : Abi → ℕ → Name → ℕ → Name → ℕ → Inode → Map ℕ → Handler
unfolding child_inode_number may_replace replace_entry move_entry get_inode
rename_to abi parent name newparent newname src s ch' fs =
    let existing = child_inode_number newname ch' in
    let src_dir = s_isdir (get_mode s) in
    elim (get_inode existing fs) [
      | none ↦ move_entry abi parent name newparent newname src src_dir fs
      | some e ↦
          if has_no_links e
          then move_entry abi parent name newparent newname src src_dir fs
          else may_replace src_dir e
              (replace_entry abi parent name newparent newname src existing (s_isdir (get_mode e)))
              fs
    ]

unfoldable pub fuse_rename : Abi → ℕ → Name → ℕ → Name → Handler
unfolding with_live with_children child_inode_number rename_to
fuse_rename abi parent name newparent newname = with_live parent λ p. with_live newparent λ q.
    with_children p λ ch. with_children q λ ch'.
      let src = child_inode_number name ch in
      with_live src λ s. rename_to abi parent name newparent newname src s ch'

-- The end of `FuseLink`, on the result of the addition.
unfoldable pub finish_link : ℕ → ℕ → Code → Handler
unfolding change_inode add_hard_link call reply_entry_of
finish_link ino newparent (minus e) = reply (reply_err (plus e))
finish_link ino newparent code = do
  modify (change_inode ino add_hard_link)
  call newparent reply_entry_of

unfoldable pub fuse_link : Abi → ℕ → ℕ → Name → Handler
unfolding with_live with_children child_inode_number add_child finish_link
fuse_link abi ino newparent newname = with_live ino λ s. with_live newparent λ p.
    with_children p λ ch.
      if not (child_inode_number newname ch == ino_notfound)
      then error eexist
      else (do ret ← add_child abi newparent newname ino; finish_link ino newparent ret)
