-- ===== src/Server/Blocks.antt =====
-- The account of the blocks: the free blocks of `m_stbuf` and those that the inodes use, in
-- src/fuse_cpp_ramfs.hpp and the operations of src/fuse_cpp_ramfs.cpp.
use fuse_cpp_ramfs.Base.{
  set, ℕ, ◌+◌, ◌%◌, ◌≡◌, refl, false, none, some, inl, inr, Option-cases, arith, sub64, sub64-add,
  word_mod,
}
use fuse_cpp_ramfs.State.{Inode, Fs, Env, Abi}
use fuse_cpp_ramfs.Table.{Slots, slot, change, get_inode, change_inode, delete_inode}
use fuse_cpp_ramfs.Table.Laws.{total, total-change, total-set, slot-length}
use fuse_cpp_ramfs.Space.{used_blocks, update_used_blocks, update_used_inodes}
use fuse_cpp_ramfs.Directory.Readdir.{Contexts, set_contexts}
use fuse_cpp_ramfs.Keeps.{Post, Frame}
use fuse_cpp_ramfs.Server.{Request, handle}
use fuse_cpp_ramfs.Server.Keeps.{makes, handle-Keeps_old}

-- The free blocks with the blocks of every inode, modulo 2^64.
unfoldable pub accounted : Fs → ℕ
unfolding total
accounted fs = (fs.stbuf.f_bfree + total used_blocks fs.inodes) % word_mod

abbrev Accounts : ℕ → Fs → Type 0
Accounts n fs = accounted fs ≡ n

-- The sum of the blocks, where one inode goes from `old` blocks to `new` ones.
total-change_blocks :
    (xs : Slots) (ino : ℕ) (f : Inode → Inode) (i : Inode)
    → slot xs ino ≡ some i
    → total used_blocks (change xs ino f) + used_blocks i ≡ total used_blocks xs + used_blocks (f i)
total-change_blocks xs ino f i e = rw e at (total-change used_blocks xs ino f)

keep_attr-Accounts :
    (n ino : ℕ) (f : Inode → Inode) (fs : Fs)
    → ((i : Inode) → get_inode ino fs ≡ some i → used_blocks (f i) ≡ used_blocks i)
    → Accounts n fs
    → Accounts n (change_inode ino f fs)
unfolding accounted get_inode change_inode
keep_attr-Accounts n ino f fs h p = elim (Option-cases (slot fs.inodes ino)) [
  | inl e ↦ omega (arith, p, none_changes e)
  | inr (i, e) ↦ omega (arith, p, h i e, total-change_blocks fs.inodes ino f i e)
]
  where
    none_changes :
        slot fs.inodes ino ≡ none
        → total used_blocks (change fs.inodes ino f) + 0 ≡ total used_blocks fs.inodes + 0
    none_changes e = rw e at (total-change used_blocks fs.inodes ino f)

keep_blocks-Accounts :
    (n ino : ℕ) (f : Inode → Inode) (fs : Fs) (i : Inode)
    → get_inode ino fs ≡ some i
    → Accounts n fs
    → Accounts n
        (change_inode ino f (update_used_blocks (sub64 (used_blocks (f i)) (used_blocks i)) fs))
unfolding accounted get_inode change_inode update_used_blocks
keep_blocks-Accounts n ino f fs i e p = omega (
  arith,
  p,
  total-change_blocks fs.inodes ino f i e,
  sub64-add (used_blocks (f i)) (used_blocks i),
  sub64-add fs.stbuf.f_bfree (sub64 (used_blocks (f i)) (used_blocks i)),
)

keep_delete-Accounts :
    (n ino : ℕ) (fs : Fs) (i : Inode)
    → get_inode ino fs ≡ some i
    → Accounts n fs
    → Accounts n (
        update_used_blocks
          (sub64 0 (used_blocks i))
          (update_used_inodes (sub64 0 1) (delete_inode ino fs)))
unfolding accounted get_inode delete_inode update_used_blocks update_used_inodes
keep_delete-Accounts n ino fs i e p = omega (
  arith,
  p,
  removed,
  sub64-add 0 (used_blocks i),
  sub64-add fs.stbuf.f_bfree (sub64 0 (used_blocks i)),
)
  where
    removed :
        total used_blocks (set fs.inodes ino none) + used_blocks i ≡ total used_blocks fs.inodes + 0
    removed = rw e at (total-set used_blocks fs.inodes ino none (slot-length fs.inodes ino e))

keep_contexts-Accounts :
    (n : ℕ) (m : Contexts) (fs : Fs) → Accounts n fs → Accounts n (set_contexts m fs)
unfolding accounted
keep_contexts-Accounts n m fs p = p

pub Accounts-Frame : (n : ℕ) → Frame (Accounts n)
Accounts-Frame n = record {
  keep_attr = keep_attr-Accounts n;
  keep_blocks = keep_blocks-Accounts n;
  keep_delete = keep_delete-Accounts n;
  keep_contexts = λ m fs _ p. keep_contexts-Accounts n m fs p;
}

-- An operation that makes no inode leaves the free blocks and the used blocks with the same sum
-- modulo 2^64, unless it faults.
pub handle-accounted :
    (abi : Abi) (env : Env) (r : Request) (fs : Fs)
    → makes r ≡ false
    → Post (λ fs'. accounted fs' ≡ accounted fs) (handle abi env r fs)
handle-accounted abi env r fs h =
    handle-Keeps_old (Accounts (accounted fs)) (Accounts-Frame (accounted fs)) abi env r h fs refl
