-- ===== src/Server/Registered.antt =====
-- The blocks that `RegisterInode` of src/fuse_cpp_ramfs.cpp takes for a new inode.
use fuse_cpp_ramfs.Base.{ℕ, ◌+◌, ◌%◌, ◌<◌, ◌≡◌, ◌∙◌, refl, some, [], arith, sub64-add, word_mod}
use fuse_cpp_ramfs.Base.{◌/◌, ◌^◌, List, ◌∷◌, length, set, add64_exact}
use fuse_cpp_ramfs.Table.{slot}
use fuse_cpp_ramfs.Table.Laws.{
  slot-append, slot-set, total, total-append, total-set, get-change_self,
}
use fuse_cpp_ramfs.Table.Invariant.{IsTable, Vacant}
use fuse_cpp_ramfs.Space.{update_used_inodes}
use fuse_cpp_ramfs.Directory.Size.{get_nblocks_exact}
use fuse_cpp_ramfs.Base.{ap, sym}
use fuse_cpp_ramfs.State.{Inode, Fs, Abi, directory, ◌>>◌, pure, >>=-some}
use fuse_cpp_ramfs.Table.{get_inode, change_inode, place_inode}
use fuse_cpp_ramfs.Space.{used_blocks, size, update_used_blocks}
use fuse_cpp_ramfs.Attr.{new_inode, initialize}
use fuse_cpp_ramfs.Directory.{resize, update_size}
use fuse_cpp_ramfs.Directory.Size.{update_size_grows, get-resize, resized}
use fuse_cpp_ramfs.Register.{register_inode, initialize_more, count_blocks}
use fuse_cpp_ramfs.Server.Blocks.{accounted, Accounts-Frame}
use fuse_cpp_ramfs.Keeps.{Post}
use fuse_cpp_ramfs.Keeps.Directory.{update_size-Keeps}

-- The blocks of an inode counted once more.
count_blocks-accounted :
    (ino : ℕ) (fs : Fs) (i : Inode)
    → get_inode ino fs ≡ some i
    → Post (λ fs'. (accounted fs' + used_blocks i) % word_mod ≡ accounted fs) (count_blocks ino fs)
unfolding count_blocks update_used_blocks accounted
count_blocks-accounted ino fs i e =
    rw (e, count_blocks) (omega (arith, sub64-add fs.stbuf.f_bfree (used_blocks i)))

-- A new inode with no blocks has its place, and the account stays.
place_inode-accounted :
    (i : Inode) (fs : Fs) (ds : List ℕ)
    → fs.deleted ≡ ds
    → IsTable fs
    → used_blocks i ≡ 0
    → (get_inode (place_inode i fs).0 (place_inode i fs).1 ≡ some i)
      × (accounted (update_used_inodes 1 (place_inode i fs).1) ≡ accounted fs)
unfolding place_inode get_inode accounted update_used_inodes
place_inode-accounted i fs [] e t z =
    rw (e, place_inode)
      (
        ground (arith, slot-append fs.inodes (some i) (length fs.inodes)),
        omega (arith, z, total-append used_blocks fs.inodes (some i)),
      )
place_inode-accounted i fs (d ∷ ds) e t z = rw (e, place_inode) (placed (rw e at t.vacant))
  where
    placed :
        Vacant fs.inodes (d ∷ ds)
        → (slot (set fs.inodes d (some i)) d ≡ some i)
          × ((fs.stbuf.f_bfree + total used_blocks (set fs.inodes d (some i))) % word_mod
              ≡ (fs.stbuf.f_bfree + total used_blocks fs.inodes) % word_mod)
    placed v = (
      ground (arith, slot-set fs.inodes d (some i) d v.0),
      omega (arith, z, rw v.1 at (total-set used_blocks fs.inodes d (some i) v.0)),
    )

one_inode : (i j : Inode) → some i ≡ some j → i ≡ j
one_inode i j e = cc

get-update_used_inodes :
    (n : ℕ) (fs : Fs) (j : ℕ) → get_inode j (update_used_inodes n fs) ≡ get_inode j fs
unfolding get_inode update_used_inodes
get-update_used_inodes n fs j = refl

-- The rest of the registration of a directory, from an inode with no blocks and no size.
module _ (abi : Abi) (ino : ℕ) (fs : Fs) (i : Inode) (small : abi.sizeof_children < 2 ^ 62)
    (found : get_inode ino fs ≡ some i) (no_size : size i ≡ 0) where
  abbrev blocks : ℕ
  blocks = (abi.sizeof_children + 511) / 512

  abbrev sized : Fs
  sized = resize ino i abi.sizeof_children fs

  abbrev after_size : Inode
  after_size = resized abi.sizeof_children i

  blocks_of : used_blocks after_size ≡ blocks
  blocks_of =
      rw (no_size, add64_exact 0 abi.sizeof_children (omega arith))
        (get_nblocks_exact (0 + abi.sizeof_children) (omega arith) ∙ omega arith)

  found_sized : get_inode ino sized ≡ some after_size
  found_sized = get-resize ino i abi.sizeof_children fs ino found ∙ ground arith

  updated : update_size ino abi.sizeof_children fs ≡ some (tt, sized)
  updated = update_size_grows ino abi.sizeof_children fs i found small

  kept : accounted sized ≡ accounted fs
  kept = rw updated at (
      update_size-Keeps (λ fs'. accounted fs' ≡ accounted fs) (Accounts-Frame (accounted fs)) ino
        abi.sizeof_children fs refl)

  counted : count_blocks ino sized ≡ some (tt, update_used_blocks (used_blocks after_size) sized)
  unfolding count_blocks
  counted = rw (found_sized, count_blocks)

  abbrev pub registered : Fs
  registered = update_used_blocks (used_blocks after_size) sized

  pub rest_runs :
      (initialize_more abi ino (directory []) >> (count_blocks ino >> pure ino)) fs
      ≡ some (ino, registered)
  unfolding initialize_more
  rest_runs =
      >>=-some (update_size ino abi.sizeof_children) (λ _. count_blocks ino >> pure ino) fs updated
      ∙ >>=-some (count_blocks ino) (λ _. pure ino) sized counted

  pub registered-accounted : (accounted registered + blocks) % word_mod ≡ accounted fs
  registered-accounted = omega (arith, taken, kept, blocks_of)
    where
      taken : (accounted registered + used_blocks after_size) % word_mod ≡ accounted sized
      taken = rw counted at (count_blocks-accounted ino sized after_size found_sized)

-- The registration of a new directory in a well-formed table does not fault. The free blocks with
-- those that the inodes use fall short of what they were, modulo 2^64, by the blocks of the empty
-- map, for a map smaller than 2^62.
pub register_inode-accounted :
    (abi : Abi) (now mode nlink gid uid : ℕ) (fs : Fs)
    → IsTable fs
    → abi.sizeof_children < 2 ^ 62
    → (ino : ℕ) × (fs' : Fs) × (register_inode abi now
          (new_inode (directory []))
          mode
          nlink
          gid
          uid
          fs
        ≡ some (ino, fs'))
      × ((accounted fs' + (abi.sizeof_children + 511) / 512) % word_mod ≡ accounted fs)
unfolding register_inode
register_inode-accounted abi now mode nlink gid uid fs t small = (
  ino,
  registered abi ino fs1 i1 small found no_size,
  rest_runs abi ino fs1 i1 small found no_size,
  registered-accounted abi ino fs1 i1 small found no_size ∙ same,
)
  where
    inode : Inode
    inode = new_inode (directory [])

    ino : ℕ
    ino = (place_inode inode fs).0

    start : Inode → Inode
    start = initialize now ino mode nlink gid uid

    placed : Fs
    placed = update_used_inodes 1 (place_inode inode fs).1

    i1 : Inode
    i1 = start inode

    fs1 : Fs
    fs1 = change_inode ino start placed

    there : get_inode ino placed ≡ some inode
    there =
        get-update_used_inodes 1 (place_inode inode fs).1 ino
        ∙ (place_inode-accounted inode fs fs.deleted refl t refl).0

    found : get_inode ino fs1 ≡ some i1
    found = get-change_self ino start placed there

    no_size : size i1 ≡ 0
    no_size = refl

    same : accounted fs1 ≡ accounted fs
    same =
        (Accounts-Frame (accounted fs)).keep_attr ino start placed
          (λ j e. ap used_blocks (one_inode inode j (sym there ∙ e)))
          (place_inode-accounted inode fs fs.deleted refl t refl).1
