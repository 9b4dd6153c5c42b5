-- ===== src/Server/Table.antt =====
-- The inode table is well formed after every run: src/fuse_cpp_ramfs.cpp and the accesses to
-- `Inodes`, `DeletedInodes` and `f_ffree` in src/fuse_cpp_ramfs.hpp.
use fuse_cpp_ramfs.Base.{ℕ, ◌≡◌, refl, some, List, [], ◌∷◌, inl, inr, Option-cases, arith, sub64}
use fuse_cpp_ramfs.State.{Inode, Fs, ◌>>◌, pure, Kind, directory, Env, Abi, Code}
use fuse_cpp_ramfs.Table.{get_inode, change_inode, delete_inode, place_inode}
use fuse_cpp_ramfs.Table.Invariant.{
  IsTable, change-TableOk, append-TableOk, reuse-TableOk, delete-TableOk,
}
use fuse_cpp_ramfs.Space.{used_blocks, update_used_blocks, update_used_inodes}
use fuse_cpp_ramfs.Attr.{initialize, with_attr}
use fuse_cpp_ramfs.Register.{
  register_inode, initialize_more, count_blocks, unregister, size_of_link, new_fs, reset_counters,
}
use fuse_cpp_ramfs.Keeps.{Post, Keeps, Frame, Keeps->>=}
use fuse_cpp_ramfs.Keeps.Directory.{update_size-Keeps}
use fuse_cpp_ramfs.Keeps.Create.{Maker}
use fuse_cpp_ramfs.Server.{Request, mounted}
use fuse_cpp_ramfs.Server.Start.{mounted-Keeps}
use fuse_cpp_ramfs.Table.Laws.{total}

change_inode-IsTable :
    (ino : ℕ) (f : Inode → Inode) (fs : Fs) → IsTable fs → IsTable (change_inode ino f fs)
unfolding change_inode
change_inode-IsTable ino f fs t = change-TableOk fs.inodes fs.deleted _ _ ino f t

update_used_blocks-IsTable : (n : ℕ) (fs : Fs) → IsTable fs → IsTable (update_used_blocks n fs)
unfolding update_used_blocks
update_used_blocks-IsTable n fs t = t

delete-IsTable :
    (ino : ℕ) (fs : Fs) (i : Inode)
    → get_inode ino fs ≡ some i
    → IsTable fs
    → IsTable (update_used_inodes (sub64 0 1) (delete_inode ino fs))
unfolding get_inode delete_inode update_used_inodes
delete-IsTable ino fs i e t = delete-TableOk fs.inodes fs.deleted _ _ ino i e t

pub IsTable-Frame : Frame IsTable
IsTable-Frame = record {
  keep_attr = λ ino f fs _ t. change_inode-IsTable ino f fs t;
  keep_blocks = λ ino f fs i _ t. change_inode-IsTable ino f _ (update_used_blocks-IsTable _ fs t);
  keep_contexts = λ m fs _ t. t;
  keep_delete = λ ino fs i e t. update_used_blocks-IsTable _ _ (delete-IsTable ino fs i e t);
}

-- A number is given out, and one free inode is taken.
place_inode-IsTable :
    (i : Inode) (fs : Fs) (ds : List ℕ)
    → fs.deleted ≡ ds
    → IsTable fs
    → IsTable (update_used_inodes 1 (place_inode i fs).1)
unfolding place_inode update_used_inodes
place_inode-IsTable i fs [] e t =
    rw (e, place_inode) (append-TableOk fs.inodes fs.deleted fs.stbuf.f_ffree fs.stbuf.f_files i t)
place_inode-IsTable i fs (d ∷ ds) e t =
    rw (e, place_inode)
      (reuse-TableOk fs.inodes d ds fs.stbuf.f_ffree fs.stbuf.f_files i (rw e at t))

initialize_more-IsTable :
    (abi : Abi) (ino : ℕ) (k : Kind) → Keeps IsTable (initialize_more abi ino k)
unfolding initialize_more
initialize_more-IsTable abi ino (directory ch) fs t =
    update_size-Keeps IsTable IsTable-Frame ino abi.sizeof_children fs t
initialize_more-IsTable abi ino k fs t = change_inode-IsTable ino (with_attr (size_of_link k)) fs t

count_blocks-IsTable : (ino : ℕ) → Keeps IsTable (count_blocks ino)
unfolding count_blocks
count_blocks-IsTable ino fs t = elim (Option-cases (get_inode ino fs)) [
  | inl e ↦ rw (e, count_blocks) tt
  | inr (i, e) ↦ rw (e, count_blocks) (update_used_blocks-IsTable (used_blocks i) fs t)
]

register_inode-IsTable :
    (abi : Abi) (now : ℕ) (inode : Inode) (mode nlink gid uid : ℕ)
    → Keeps IsTable (register_inode abi now inode mode nlink gid uid)
unfolding register_inode
register_inode-IsTable abi now inode mode nlink gid uid fs t =
    let ino = (place_inode inode fs).0 in
    Keeps->>= IsTable (initialize_more abi ino inode.kind) (λ _. count_blocks ino >> pure ino)
      (initialize_more-IsTable abi ino inode.kind)
      (λ _.
        Keeps->>= IsTable (count_blocks ino) (λ _. pure ino) (count_blocks-IsTable ino)
          λ _ fs' h. h)
      (change_inode ino (initialize now ino mode nlink gid uid)
        (update_used_inodes 1 (place_inode inode fs).1))
      (change_inode-IsTable ino (initialize now ino mode nlink gid uid)
        (update_used_inodes 1 (place_inode inode fs).1)
        (place_inode-IsTable inode fs fs.deleted refl t))

unregister-IsTable : (ino : ℕ) (code : Code) → Keeps IsTable (unregister ino code)
unfolding unregister update_used_blocks update_used_inodes delete_inode
unregister-IsTable ino code fs t = elim (Option-cases (get_inode ino fs)) [
  | inl e ↦ rw (e, unregister) tt
  | inr (i, e) ↦ rw (e, unregister) (delete-IsTable ino fs i e t)
]

pub IsTable-Maker : Maker IsTable
IsTable-Maker = record {
  keep_register = register_inode-IsTable;
  keep_unregister = unregister-IsTable;
}

new_fs-IsTable : (blocks inodes : ℕ) → IsTable (reset_counters (new_fs blocks inodes))
unfolding new_fs total
new_fs-IsTable blocks inodes = record { vacant = tt; counted = omega arith; balanced = omega arith }

-- After the start and any sequence of calls that does not fault, the deleted numbers are distinct
-- and name null pointers, every slot of the table holds an inode or its number is queued, and the
-- free inodes and those that exist add up to `f_files` modulo 2^64.
pub mounted-IsTable :
    (abi : Abi) (env : Env) (blocks inodes : ℕ) (rs : List (Env × Request))
    → Post IsTable (mounted abi env blocks inodes rs)
mounted-IsTable abi env blocks inodes rs =
    mounted-Keeps IsTable IsTable-Frame IsTable-Maker abi env blocks inodes rs
      (new_fs-IsTable blocks inodes)
