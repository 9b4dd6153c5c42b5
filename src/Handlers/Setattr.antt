-- ===== src/Handlers/Setattr.antt =====
-- `FuseSetAttr` of src/fuse_cpp_ramfs.cpp for a call with no open file, such as truncate(2).
use fuse_cpp_ramfs.Base.{ℕ, ◌≡◌, refl, false, some, [], ◌∷◌, arith}
use fuse_cpp_ramfs.State.{Inode, Fs, Env, Stat, reply_attr}
use fuse_cpp_ramfs.Table.{get_inode, change_inode}
use fuse_cpp_ramfs.Table.Laws.{get-change_self}
use fuse_cpp_ramfs.Space.{size}
use fuse_cpp_ramfs.Attr.{has_no_links, has_bit, with_attr, set_attr, reply_set_attr, get_attr}
use fuse_cpp_ramfs.Handlers.Guards.{call}
use fuse_cpp_ramfs.Handlers.Enter.{with_live-found}
use fuse_cpp_ramfs.Handlers.Attributes.{fuse_setattr, without_size}

no_size_bit : (to_set : ℕ) → has_bit (without_size to_set) 3 ≡ false
no_size_bit to_set = ground arith

-- On an inode with links, a call with no open file sends one reply with the attributes of the inode
-- as it leaves it, in which the size is what it was, also where the mask asks for a new one.
pub fuse_setattr-size :
    (env : Env) (ino : ℕ) (attr : Stat) (to_set : ℕ) (fs : Fs) (i : Inode)
    → get_inode ino fs ≡ some i
    → has_no_links i ≡ false
    → (fs' : Fs) × (i' : Inode) × (fuse_setattr env ino attr to_set false fs
        ≡ some (reply_attr (get_attr i') ∷ [], fs'))
      × (get_inode ino fs' ≡ some i')
      × (size i' ≡ size i)
      × (i'.kind ≡ i.kind)
unfolding fuse_setattr call reply_set_attr set_attr
fuse_setattr-size env ino attr to_set fs i e l = rw (with_live-found ino _ fs i e l) (
    rw (e, call)
      (
        change_inode ino (λ j. (reply_set_attr env.now attr (without_size to_set) j).0) fs,
        with_attr (set_attr env.now attr (without_size to_set)) i,
        refl,
        get-change_self ino _ fs e,
        rw (no_size_bit to_set),
        refl,
      ))
