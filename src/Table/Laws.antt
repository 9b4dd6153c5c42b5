-- ===== src/Table/Laws.antt =====
-- What the accesses to the inode table do to the slots, and to a sum over the inodes in them.
use fuse_cpp_ramfs.Base.{
  ℕ, zero, suc, ◌+◌, ◌<◌, ◌≡◌, refl, ap, Option, none, some, [], ◌∷◌, ◌++◌, arith, length, set,
  ◌==◌, if◌then◌else◌,
}
use fuse_cpp_ramfs.State.{Inode, Fs}
use fuse_cpp_ramfs.Space.{update_used_blocks}
use fuse_cpp_ramfs.Table.{Slots, slot, map_slot, change, get_inode, change_inode}

pub slot-change :
    (xs : Slots) (ino : ℕ) (f : Inode → Inode) (j : ℕ)
    → slot (change xs ino f) j ≡ (if ino == j then map_slot f (slot xs j) else slot xs j)
unfolding slot change
slot-change [] ino f j = ground arith
slot-change (x ∷ xs) zero f zero = refl
slot-change (x ∷ xs) zero f (suc j) = ground arith
slot-change (x ∷ xs) (suc ino) f zero = ground arith
slot-change (x ∷ xs) (suc ino) f (suc j) = ground (arith, slot-change xs ino f j)

pub slot-set :
    (xs : Slots) (ino : ℕ) (v : Option Inode) (j : ℕ)
    → ino < length xs
    → slot (set xs ino v) j ≡ (if ino == j then v else slot xs j)
unfolding slot
slot-set [] ino v j h = elim h [ ]
slot-set (x ∷ xs) zero v zero h = refl
slot-set (x ∷ xs) zero v (suc j) h = ground arith
slot-set (x ∷ xs) (suc ino) v zero h = ground arith
slot-set (x ∷ xs) (suc ino) v (suc j) h = ground (arith, slot-set xs ino v j)

pub slot-append :
    (xs : Slots) (v : Option Inode) (j : ℕ)
    → slot (xs ++ v ∷ []) j ≡ (if length xs == j then v else slot xs j)
unfolding slot
slot-append [] v zero = refl
slot-append [] v (suc j) = ground arith
slot-append (x ∷ xs) v zero = ground arith
slot-append (x ∷ xs) v (suc j) = ground (arith, slot-append xs v j)

pub slot-length : (xs : Slots) (ino : ℕ) {i : Inode} → slot xs ino ≡ some i → ino < length xs
unfolding slot
slot-length [] ino h = cc
slot-length (x ∷ xs) zero h = omega arith
slot-length (x ∷ xs) (suc ino) h = omega (arith, slot-length xs ino h)

pub length-change :
    (xs : Slots) (ino : ℕ) (f : Inode → Inode) → length (change xs ino f) ≡ length xs
unfolding change
length-change [] ino f = refl
length-change (x ∷ xs) zero f = refl
length-change (x ∷ xs) (suc ino) f = ap suc (length-change xs ino f)

abbrev pub weight : (Inode → ℕ) → Option Inode → ℕ
weight w none = 0
weight w (some i) = w i

-- The sum of a number over the inodes that exist.
unfoldable pub total : (Inode → ℕ) → Slots → ℕ
total w [] = 0
total w (x ∷ xs) = weight w x + total w xs

pub total-change :
    (w : Inode → ℕ) (xs : Slots) (ino : ℕ) (f : Inode → Inode)
    → total w (change xs ino f) + weight w (slot xs ino)
      ≡ total w xs + weight w (map_slot f (slot xs ino))
unfolding total change slot
total-change w [] ino f = omega arith
total-change w (x ∷ xs) zero f = omega arith
total-change w (x ∷ xs) (suc ino) f = omega (arith, total-change w xs ino f)

pub total-set :
    (w : Inode → ℕ) (xs : Slots) (ino : ℕ) (v : Option Inode)
    → ino < length xs
    → total w (set xs ino v) + weight w (slot xs ino) ≡ total w xs + weight w v
unfolding total slot
total-set w [] ino v h = elim h [ ]
total-set w (x ∷ xs) zero v h = omega arith
total-set w (x ∷ xs) (suc ino) v h = omega (arith, total-set w xs ino v (omega arith))

pub total-append :
    (w : Inode → ℕ) (xs : Slots) (v : Option Inode)
    → total w (xs ++ v ∷ []) ≡ total w xs + weight w v
unfolding total
total-append w [] v = omega arith
total-append w (x ∷ xs) v = omega (arith, total-append w xs v)

-- A change that keeps the number of every inode keeps the sum.
pub total-change_same :
    (w : Inode → ℕ) (xs : Slots) (ino : ℕ) (f : Inode → Inode)
    → ((i : Inode) → w (f i) ≡ w i)
    → total w (change xs ino f) ≡ total w xs
unfolding total change
total-change_same w [] ino f h = refl
total-change_same w (none ∷ xs) zero f h = refl
total-change_same w (some i ∷ xs) zero f h = omega (arith, h i)
total-change_same w (x ∷ xs) (suc ino) f h = omega (arith, total-change_same w xs ino f h)

-- The object at a number after a change of one.
pub get-change :
    (ino : ℕ) (f : Inode → Inode) (fs : Fs) (j : ℕ)
    → get_inode j (change_inode ino f fs)
      ≡ (if ino == j then map_slot f (get_inode j fs) else get_inode j fs)
unfolding get_inode change_inode
get-change ino f fs j = slot-change fs.inodes ino f j

pub get-change_self :
    (ino : ℕ) (f : Inode → Inode) (fs : Fs) {i : Inode}
    → get_inode ino fs ≡ some i
    → get_inode ino (change_inode ino f fs) ≡ some (f i)
get-change_self ino f fs e = ground (arith, get-change ino f fs ino)

pub get-update_used_blocks :
    (n : ℕ) (fs : Fs) (j : ℕ) → get_inode j (update_used_blocks n fs) ≡ get_inode j fs
unfolding get_inode update_used_blocks
get-update_used_blocks n fs j = refl
