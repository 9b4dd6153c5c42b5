-- ===== src/Table/Invariant.antt =====
-- The invariant of the inode table, of the queue of deleted numbers and of the counter of free
-- inodes, and how the accesses to them keep it.
use fuse_cpp_ramfs.Base.{
  ℕ, ◌+◌, ◌%◌, ◌<◌, ◌≡◌, ◌≢◌, refl, ap, Option, none, some, List, [], ◌∷◌, ◌++◌, arith, length, set,
  word_mod, sub64, length-append, length-set,
}
use fuse_cpp_ramfs.State.{Inode, Fs}
use fuse_cpp_ramfs.Table.{Slots, slot, change}
use fuse_cpp_ramfs.Table.Laws.{
  slot-change, slot-set, slot-append, slot-length, length-change, total, total-change_same,
  total-set, total-append,
}

abbrev pub NotIn : ℕ → List ℕ → Type 0
NotIn d [] = Unit
NotIn d (e ∷ ds) = (d ≢ e) × NotIn d ds

-- The numbers are distinct, and each is that of a null pointer of the table.
abbrev pub Vacant : Slots → List ℕ → Type 0
Vacant xs [] = Unit
Vacant xs (d ∷ ds) = (d < length xs) × (slot xs d ≡ none) × NotIn d ds × Vacant xs ds

abbrev pub one : Inode → ℕ
one i = 1

-- The number of inodes that exist.
abbrev pub live : Slots → ℕ
live xs = total one xs

pub record TableOk (xs : Slots) (ds : List ℕ) (free files : ℕ) : Type 0 where
  pub vacant : Vacant xs ds
  pub counted : length xs ≡ live xs + length ds
  pub balanced : (free + live xs) % word_mod ≡ files % word_mod

-- The deleted numbers are distinct and name null pointers, every slot holds an inode or is in the
-- queue, and the free inodes and those that exist make up `f_files`.
abbrev pub IsTable : Fs → Type 0
IsTable fs = TableOk fs.inodes fs.deleted fs.stbuf.f_ffree fs.stbuf.f_files

Vacant-mono :
    (xs ys : Slots) (ds : List ℕ)
    → ((d : ℕ) → d < length xs → slot xs d ≡ none → (d < length ys) × (slot ys d ≡ none))
    → Vacant xs ds
    → Vacant ys ds
Vacant-mono xs ys [] h v = tt
Vacant-mono xs ys (d ∷ ds) h v = ((h d v.0 v.1).0, (h d v.0 v.1).1, v.2, Vacant-mono xs ys ds h v.3)

change-vacant :
    (xs : Slots) (ino : ℕ) (f : Inode → Inode) (d : ℕ)
    → d < length xs
    → slot xs d ≡ none
    → (d < length (change xs ino f)) × (slot (change xs ino f) d ≡ none)
change-vacant xs ino f d h e =
    (omega (arith, length-change xs ino f), ground (arith, slot-change xs ino f d))

-- A change of an inode that exists keeps the table.
pub change-TableOk :
    (xs : Slots) (ds : List ℕ) (free files ino : ℕ) (f : Inode → Inode)
    → TableOk xs ds free files
    → TableOk (change xs ino f) ds free files
change-TableOk xs ds free files ino f t = record {
  vacant = Vacant-mono xs (change xs ino f) ds (change-vacant xs ino f) t.vacant;
  counted = rw (length-change xs ino f, total-change_same one xs ino f (λ i. refl)) (t.counted);
  balanced = rw (total-change_same one xs ino f (λ i. refl)) (t.balanced);
}

append-vacant :
    (xs : Slots) (v : Option Inode) (d : ℕ)
    → d < length xs
    → slot xs d ≡ none
    → (d < length (xs ++ v ∷ [])) × (slot (xs ++ v ∷ []) d ≡ none)
append-vacant xs v d h e =
    (omega (arith, length-append xs (v ∷ [])), ground (arith, slot-append xs v d))

-- A new inode behind the others.
pub append-TableOk :
    (xs : Slots) (ds : List ℕ) (free files : ℕ) (i : Inode)
    → TableOk xs ds free files
    → TableOk (xs ++ some i ∷ []) ds (sub64 free 1) files
unfolding sub64
append-TableOk xs ds free files i t = record {
  vacant = Vacant-mono xs (xs ++ some i ∷ []) ds (append-vacant xs (some i)) t.vacant;
  counted = omega (arith, t.counted, length-append xs (some i ∷ []), total-append one xs (some i));
  balanced = omega (arith, t.balanced, total-append one xs (some i));
}

Vacant-set :
    (xs : Slots) (d : ℕ) (v : Option Inode) (ds : List ℕ)
    → d < length xs
    → NotIn d ds
    → Vacant xs ds
    → Vacant (set xs d v) ds
Vacant-set xs d v [] h n t = tt
Vacant-set xs d v (e ∷ ds) h n t = (
  omega (arith, t.0, length-set xs d v),
  ground (arith, n.0, t.1, slot-set xs d v e),
  t.2,
  Vacant-set xs d v ds h n.1 t.3,
)

-- A new inode at the deleted number that was queued first.
pub reuse-TableOk :
    (xs : Slots) (d : ℕ) (ds : List ℕ) (free files : ℕ) (i : Inode)
    → TableOk xs (d ∷ ds) free files
    → TableOk (set xs d (some i)) ds (sub64 free 1) files
unfolding sub64
reuse-TableOk xs d ds free files i t = record {
  vacant = Vacant-set xs d (some i) ds t.vacant.0 t.vacant.2 t.vacant.3;
  counted = omega (arith, t.counted, length-set xs d (some i), grown);
  balanced = omega (arith, t.balanced, grown);
}
  where
    grown : live (set xs d (some i)) ≡ live xs + 1
    grown = ground (arith, total-set one xs d (some i) t.vacant.0, t.vacant.1)

Vacant-NotIn :
    (xs : Slots) (ino : ℕ) (i : Inode) (ds : List ℕ)
    → slot xs ino ≡ some i
    → Vacant xs ds
    → NotIn ino ds
Vacant-NotIn xs ino i [] e v = tt
Vacant-NotIn xs ino i (d ∷ ds) e v =
    ((λ p. ground (arith, ap (slot xs) p, v.1)), Vacant-NotIn xs ino i ds e v.3)

NotIn-append : (d e : ℕ) (ds : List ℕ) → NotIn d ds → d ≢ e → NotIn d (ds ++ e ∷ [])
NotIn-append d e [] n h = (h, tt)
NotIn-append d e (x ∷ ds) n h = (n.0, NotIn-append d e ds n.1 h)

Vacant-append :
    (xs : Slots) (ino : ℕ) (ds : List ℕ)
    → ino < length xs
    → slot xs ino ≡ none
    → NotIn ino ds
    → Vacant xs ds
    → Vacant xs (ds ++ ino ∷ [])
Vacant-append xs ino [] h e n v = (h, e, tt, tt)
Vacant-append xs ino (d ∷ ds) h e n v = (
  v.0,
  v.1,
  NotIn-append d ino ds v.2 (λ p. n.0 (ground arith)),
  Vacant-append xs ino ds h e n.1 v.3,
)

-- The deletion of an inode that exists.
pub delete-TableOk :
    (xs : Slots) (ds : List ℕ) (free files ino : ℕ) (i : Inode)
    → slot xs ino ≡ some i
    → TableOk xs ds free files
    → TableOk (set xs ino none) (ds ++ ino ∷ []) (sub64 free (sub64 0 1)) files
unfolding sub64
delete-TableOk xs ds free files ino i e t = record {
  vacant =
      Vacant-append (set xs ino none) ino ds (omega (arith, inside, length-set xs ino none))
        (ground (arith, inside, slot-set xs ino none ino)) fresh
        (Vacant-set xs ino none ds inside fresh t.vacant);
  counted = omega (arith, t.counted, shrunk, length-set xs ino none, length-append ds (ino ∷ []));
  balanced = omega (arith, t.balanced, shrunk);
}
  where
    inside : ino < length xs
    inside = slot-length xs ino e

    fresh : NotIn ino ds
    fresh = Vacant-NotIn xs ino i ds e t.vacant

    shrunk : live (set xs ino none) + 1 ≡ live xs
    shrunk = ground (arith, total-set one xs ino none inside, e)
