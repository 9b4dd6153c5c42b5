-- ===== src/Handlers/Guards.antt =====
-- The tests that the handlers of src/fuse_cpp_ramfs.cpp begin with.
use fuse_cpp_ramfs.Base.{ℕ, none, some, Bool, true, false, if◌then◌else◌, Map}
use fuse_cpp_ramfs.State.{Kind, Inode, Handler, error, enoent, enotdir, file, directory, Reply}
use fuse_cpp_ramfs.Base.{[], ◌∷◌}
use fuse_cpp_ramfs.Table.{get_inode, change_inode}
use fuse_cpp_ramfs.Attr.{has_no_links}
use fuse_cpp_ramfs.Directory.{children_of}

-- `inode == nullptr || inode->HasNoLinks()` is answered with `ENOENT`.
unfoldable pub with_live : ℕ → (Inode → Handler) → Handler
unfolding get_inode
with_live ino k fs = elim (get_inode ino fs) [
  | none ↦ error enoent fs
  | some i ↦ if has_no_links i then error enoent fs else k i fs
]

-- What is no directory is answered with `ENOTDIR`.
unfoldable pub with_children : Inode → (Map ℕ → Handler) → Handler
with_children i k fs = elim (children_of i.kind) [ none ↦ error enotdir fs | some ch ↦ k ch fs ]

abbrev pub is_file : Kind → Bool
is_file (file buf) = true
is_file _ = false

abbrev pub is_directory : Kind → Bool
is_directory (directory ch) = true
is_directory _ = false

-- A method of the inode at a number, with what it sends.
unfoldable pub call : ℕ → (Inode → Inode × Reply) → Handler
unfolding get_inode change_inode
call ino method fs = elim (get_inode ino fs) [
  | none ↦ none
  | some i ↦ some ((method i).1 ∷ [], change_inode ino (λ j. (method j).0) fs)
]
