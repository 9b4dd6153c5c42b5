-- ===== src/Table/Placed.antt =====
-- The number that `RegisterInode` of src/fuse_cpp_ramfs.cpp gives to a new inode.
use fuse_cpp_ramfs.Base.{ℕ, ◌≡◌, ◌≢◌, refl, none, some, List, [], ◌∷◌, arith, length, set}
use fuse_cpp_ramfs.State.{Inode, Fs}
use fuse_cpp_ramfs.Table.{Slots, slot, get_inode, place_inode}
use fuse_cpp_ramfs.Table.Laws.{slot-append, slot-set}
use fuse_cpp_ramfs.Table.Invariant.{IsTable, Vacant}

slot_past : (xs : Slots) → slot xs (length xs) ≡ none
unfolding slot
slot_past [] = refl
slot_past (x ∷ xs) = slot_past xs

-- The new inode stands at a number that no inode had, and no other number has changed.
abbrev pub Placed : Inode → Fs → ℕ × Fs → Type 0
Placed i fs r =
    (get_inode r.0 fs ≡ none)
    × (get_inode r.0 r.1 ≡ some i)
    × ((j : ℕ) → r.0 ≢ j → get_inode j r.1 ≡ get_inode j fs)
    × (r.1.stbuf ≡ fs.stbuf)

pub place_inode-Placed :
    (i : Inode) (fs : Fs) (ds : List ℕ)
    → fs.deleted ≡ ds
    → IsTable fs
    → Placed i fs (place_inode i fs)
unfolding place_inode get_inode
place_inode-Placed i fs [] e t =
    rw (e, place_inode)
      (
        slot_past fs.inodes,
        ground (arith, slot-append fs.inodes (some i) (length fs.inodes)),
        λ j ne. ground (arith, ne, slot-append fs.inodes (some i) j),
        refl,
      )
place_inode-Placed i fs (d ∷ ds) e t = rw (e, place_inode) (reused (rw e at t.vacant))
  where
    reused :
        Vacant fs.inodes (d ∷ ds)
        → (slot fs.inodes d ≡ none)
          × (slot (set fs.inodes d (some i)) d ≡ some i)
          × ((j : ℕ) → d ≢ j → slot (set fs.inodes d (some i)) j ≡ slot fs.inodes j)
          × (fs.stbuf ≡ fs.stbuf)
    reused v = (
      v.1,
      ground (arith, slot-set fs.inodes d (some i) d v.0),
      λ j ne. ground (arith, ne, slot-set fs.inodes d (some i) j v.0),
      refl,
    )
