-- ===== src/Directory.antt =====
-- Directories: src/directory.hpp and src/directory.cpp but for the reading of a directory, which is
-- in Directory/Readdir. `this` is the number of the directory's inode; the children are kept in its kind.
-- The methods that take the lock of the children and those that do not are one definition.
pub mod Size
pub mod Entries
pub mod Update
pub mod View
pub mod Readdir
use fuse_cpp_ramfs.Base.{
  ℕ, ◌+◌, ◌%◌, Bool, true, false, not, ◌&&◌, ◌||◌, Option, none, some, List, [], ◌∷◌, length, ◌==◌,
  if◌then◌else◌, add64, sub64, signed_lt, word_mod, Name, Map, name_eq, lookup, insert, erase,
}
use fuse_cpp_ramfs.State.{
  enospc, eexist, enoent, eisdir, Code, success, minus, Kind, Inode, directory, Fs, M, pure, fault,
  ◌>>=◌, ◌>>◌, modify, Handler, error, Abi, Stat,
}
use fuse_cpp_ramfs.Table.{get_inode, change_inode}
use fuse_cpp_ramfs.Space.{
  buf_block_size, get_nblocks, used_blocks, size, update_used_blocks, check_has_space_for,
}
use fuse_cpp_ramfs.Attr.{with_attr, with_kind, has_no_links}

-- `dynamic_cast<Directory *>`, with the children.
abbrev pub children_of : Kind → Option (Map ℕ)
children_of (directory ch) = some ch
children_of _ = none

abbrev pub with_size : ℕ → ℕ → Stat → Stat
with_size bytes blocks a = record a { st_size = bytes; st_blocks = blocks }

-- `UpdateSize` past its assertion, for the inode `i` that `this` points to.
unfoldable pub resize : ℕ → Inode → ℕ → Fs → Fs
resize this i delta fs =
    let new_size = add64 (size i) delta in
    let new_blocks = get_nblocks new_size buf_block_size in
    let fs' = change_inode this (with_attr (with_size new_size new_blocks)) fs in
    if new_blocks == used_blocks i
    then fs'
    else update_used_blocks (sub64 new_blocks (used_blocks i)) fs'

-- `Directory::UpdateSize`. The assertion: a negative change takes no more than the size.
unfoldable pub update_size : ℕ → ℕ → M (Unit {0})
update_size this delta fs = elim (get_inode this fs) [
  | none ↦ none
  | some i ↦
      if signed_lt delta 0 && signed_lt (size i) (sub64 0 delta)
      then none
      else some (tt, resize this i delta fs)
]

-- A call of a method of `Directory` on `this`.
abbrev pub on_directory : {A : Type 0} → ℕ → (Inode → Map ℕ → M A) → M A
on_directory this k fs = elim (get_inode this fs) [
  | none ↦ none
  | some i ↦ elim (children_of i.kind) [ none ↦ none | some ch ↦ k i ch fs ]
]

-- `INO_NOTFOUND` is 0.
abbrev pub ino_notfound : ℕ
ino_notfound = 0

-- `ChildInodeNumberWithName`
unfoldable pub child_inode_number : Name → Map ℕ → ℕ
unfolding lookup
child_inode_number name ch = elim (lookup name ch) [ none ↦ ino_notfound | some ino ↦ ino ]

-- The bytes that an entry of this name adds to the size of a directory.
unfoldable pub elem_size : Abi → Name → ℕ
elem_size abi name =
    (abi.sizeof_tree_node + abi.sizeof_ino + abi.sizeof_string + length name) % word_mod

abbrev pub set_children : ℕ → Map ℕ → M (Unit {0})
set_children this ch = modify (change_inode this (with_kind (directory ch)))

-- `AddChild`, for the directory `i` with the children `ch`. The insertion finds no entry of the
-- name, so its failure, `ENOMEM`, does not arise.
unfoldable pub add_entry : Abi → ℕ → Name → ℕ → Inode → Map ℕ → M Code
add_entry abi this name ino i ch fs = elim (lookup name ch) [
  | some old ↦ pure (minus eexist) fs
  | none ↦
      if not (check_has_space_for (some i) (elem_size abi name) fs)
      then pure (minus enospc) fs
      else (do
        set_children this (insert name ino ch)
        update_size this (elem_size abi name)
        pure success)
          fs
]

unfoldable pub add_child : Abi → ℕ → Name → ℕ → M Code
add_child abi this name ino = on_directory this (add_entry abi this name ino)

-- `UpdateChild`
unfoldable pub update_child : ℕ → Name → ℕ → M Code
update_child this name ino = on_directory this λ i ch fs. elim (lookup name ch) [
  | none ↦ pure (minus enoent) fs
  | some old ↦ (do set_children this (insert name ino ch); pure success) fs
]

-- `RemoveChild`
unfoldable pub remove_child : Abi → ℕ → Name → M Code
remove_child abi this name = on_directory this λ i ch fs. elim (lookup name ch) [
  | none ↦ pure (minus enoent) fs
  | some old ↦
      (do
        set_children this (erase name ch)
        update_size this (sub64 0 (elem_size abi name))
        pure success)
        fs
]

-- "." and ".."
abbrev pub dot : Name
dot = b'.' ∷ []

abbrev pub dot_dot : Name
dot_dot = b'.' ∷ b'.' ∷ []

abbrev pub is_live : Option Inode → Bool
is_live none = false
is_live (some i) = not (has_no_links i)

-- `IsEmpty`: every entry but "." and ".." names an inode that is deleted.
unfoldable pub is_empty : Map ℕ → Fs → Bool
unfolding name_eq get_inode
is_empty [] fs = true
is_empty ((name, ino) ∷ ch) fs =
    let rest = is_empty ch fs in
    if name_eq name dot || name_eq name dot_dot
    then rest
    else if is_live (get_inode ino fs)
    then false
    else rest

-- `WriteAndReply` and `ReadAndReply` of a directory.
abbrev pub directory_write : Handler
directory_write = error eisdir

abbrev pub directory_read : Handler
directory_read = error eisdir
