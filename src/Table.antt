-- ===== src/Table.antt =====
-- The inode table and the queue of deleted numbers: `Inodes` and `DeletedInodes` of
-- src/fuse_cpp_ramfs.hpp, with the members that access them.
pub mod Laws
pub mod Invariant
pub mod Placed
use fuse_cpp_ramfs.Base.{ℕ, zero, suc, ◌+◌, Option, none, some, List, [], ◌∷◌, ◌++◌, length, set}
use fuse_cpp_ramfs.State.{Inode, Fs}

-- A slot of the table: `none` is a null pointer.
abbrev pub Slots : Type 0
Slots = List (Option Inode)

unfoldable pub slot : Slots → ℕ → Option Inode
slot [] ino = none
slot (x ∷ xs) zero = x
slot (x ∷ xs) (suc ino) = slot xs ino

abbrev pub map_slot : (Inode → Inode) → Option Inode → Option Inode
map_slot f none = none
map_slot f (some i) = some (f i)

-- A change of the object that a slot points to.
unfoldable pub change : Slots → ℕ → (Inode → Inode) → Slots
change [] ino f = []
change (x ∷ xs) zero f = map_slot f x ∷ xs
change (x ∷ xs) (suc ino) f = x ∷ change xs ino f

-- `GetInode`: null outside of the table.
unfoldable pub get_inode : ℕ → Fs → Option Inode
get_inode ino fs = slot fs.inodes ino

unfoldable pub change_inode : ℕ → (Inode → Inode) → Fs → Fs
change_inode ino f fs = record fs { inodes = change fs.inodes ino f }

-- `AddInode`
unfoldable pub add_inode : Inode → Fs → ℕ × Fs
add_inode i fs = (length fs.inodes, record fs { inodes = fs.inodes ++ some i ∷ [] })

-- `UpdateInode`
unfoldable pub update_inode : ℕ → Inode → Fs → Fs
update_inode ino i fs = record fs { inodes = set fs.inodes ino (some i) }

-- `DeleteInode`
unfoldable pub delete_inode : ℕ → Fs → Fs
delete_inode ino fs = record fs {
  inodes = set fs.inodes ino none;
  deleted = fs.deleted ++ ino ∷ [];
}

-- The first part of `RegisterInode`: a number for the new inode, a deleted one if there is one.
unfoldable pub place_inode : Inode → Fs → ℕ × Fs
unfolding add_inode update_inode
place_inode i fs = elim fs.deleted [
  | [] ↦ add_inode i fs
  | ino ∷ rest ↦ (ino, update_inode ino i (record fs { deleted = rest }))
]
