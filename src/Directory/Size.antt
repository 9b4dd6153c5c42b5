-- ===== src/Directory/Size.antt =====
-- The size and the blocks of a directory against its entries, and the methods of src/directory.cpp
-- that keep them.
use fuse_cpp_ramfs.Base.{
  sub64-sub64, add64_exact, ℕ, ◌+◌, ◌-◌, ◌/◌, ◌^◌, ◌≤◌, ◌<◌, ◌≡◌, refl, ap, true, false, ◌&&◌, none,
  some, [], ◌∷◌, ◌==◌, if◌then◌else◌, inl, inr, Bool-cases, arith, Name, Map, IsMap, lookup, insert,
  erase, name_eq, name_eq_iff, word_mod, add64, sub64, signed_lt,
}
use fuse_cpp_ramfs.State.{Inode, Fs, Abi, directory}
use fuse_cpp_ramfs.Table.{get_inode, change_inode}
use fuse_cpp_ramfs.Table.Laws.{get-change, get-update_used_blocks}
use fuse_cpp_ramfs.Space.{
  buf_block_size, get_nblocks, used_blocks, size, update_used_blocks, check_has_space_for,
}
use fuse_cpp_ramfs.Attr.{with_attr}
use fuse_cpp_ramfs.Directory.{with_size, resize, update_size, elem_size}

-- The bytes of the entries.
unfoldable pub entries_size : Abi → Map ℕ → ℕ
entries_size abi [] = 0
entries_size abi ((name, ino) ∷ ch) = elem_size abi name + entries_size abi ch

-- The entries are a map, the size is that of the empty map and of the entries, and the blocks are
-- those that the size takes. The size is far from an overflow.
pub record IsDirectory (abi : Abi) (i : Inode) (ch : Map ℕ) : Type 0 where
  pub is_map : IsMap ch
  pub sized : size i ≡ abi.sizeof_children + entries_size abi ch
  pub blocked : used_blocks i ≡ (size i + 511) / 512
  pub small : size i < 2 ^ 62

-- A well-formed directory with the entries `ch` stands at a number.
pub record DirectoryAt (abi : Abi) (fs : Fs) (this : ℕ) (i : Inode) (ch : Map ℕ) : Type 0 where
  pub found : get_inode this fs ≡ some i
  pub is_directory : i.kind ≡ directory ch
  pub layout : IsDirectory abi i ch

pub entries_size-insert :
    (abi : Abi) (name : Name) (ino : ℕ) (ch : Map ℕ)
    → lookup name ch ≡ none
    → entries_size abi (insert name ino ch) ≡ elem_size abi name + entries_size abi ch
unfolding entries_size lookup insert
entries_size-insert abi name ino [] h = refl
entries_size-insert abi name ino ((k, v) ∷ ch) h =
    ground (arith, name_eq_iff name k, entries_size-insert abi name ino ch)

pub entries_size-erase :
    (abi : Abi) (name : Name) (old : ℕ) (ch : Map ℕ)
    → lookup name ch ≡ some old
    → elem_size abi name + entries_size abi (erase name ch) ≡ entries_size abi ch
unfolding entries_size lookup erase
entries_size-erase abi name old [] h = cc
entries_size-erase abi name old ((k, v) ∷ ch) h = elim (Bool-cases (name_eq name k)) [
  | inl e ↦ rw e (ap (λ n. elem_size abi n + entries_size abi ch) ((name_eq_iff name k).0 e))
  | inr e ↦ rw e (omega (arith, entries_size-erase abi name old ch (rw e at h)))
]

pub get_nblocks_exact : (n : ℕ) → n < 2 ^ 63 → get_nblocks n buf_block_size ≡ (n + 511) / 512
unfolding get_nblocks add64 sub64
get_nblocks_exact n h = omega arith

-- The directory that `UpdateSize` leaves.
abbrev pub resized : ℕ → Inode → Inode
resized delta i =
    let bytes = add64 (size i) delta in
    with_attr (with_size bytes (get_nblocks bytes buf_block_size)) i

-- The object at a number after the size of a directory has changed.
pub get-resize :
    (this : ℕ) (i : Inode) (delta : ℕ) (fs : Fs) (j : ℕ)
    → get_inode this fs ≡ some i
    → get_inode j (resize this i delta fs)
      ≡ (if this == j then some (resized delta i) else get_inode j fs)
unfolding resize
get-resize this i delta fs j e =
    let bytes = add64 (size i) delta in
    let blocks = get_nblocks bytes buf_block_size in
    let fs' = change_inode this (with_attr (with_size bytes blocks)) fs in
    ground (
      arith,
      e,
      get-update_used_blocks (sub64 blocks (used_blocks i)) fs' j,
      get-change this (with_attr (with_size bytes blocks)) fs j,
    )

-- What the test for space has made sure of: the new blocks are free.
pub space_sound :
    (i : Inode) (delta : ℕ) (fs : Fs)
    → size i + delta < 2 ^ 62
    → used_blocks i ≡ (size i + 511) / 512
    → check_has_space_for (some i) delta fs ≡ true
    → (size i + delta + 511) / 512 - used_blocks i ≤ fs.stbuf.f_bfree
unfolding check_has_space_for
space_sound i delta fs h b c = ground (
  arith,
  c,
  b,
  add64_exact (size i) delta (omega arith),
  get_nblocks_exact (size i + delta) (omega arith),
)

-- The free blocks after the size has grown.
pub free-resize :
    (this : ℕ) (i : Inode) (delta : ℕ) (fs : Fs)
    → size i + delta < 2 ^ 62
    → used_blocks i ≡ (size i + 511) / 512
    → (size i + delta + 511) / 512 - used_blocks i ≤ fs.stbuf.f_bfree
    → fs.stbuf.f_bfree < word_mod
    → (resize this i delta fs).stbuf.f_bfree + (size i + delta + 511) / 512
      ≡ fs.stbuf.f_bfree + used_blocks i
unfolding resize change_inode update_used_blocks sub64
free-resize this i delta fs h b c w = ground (
  arith,
  b,
  add64_exact (size i) delta (omega arith),
  get_nblocks_exact (size i + delta) (omega arith),
)

pub update_size_grows :
    (this delta : ℕ) (fs : Fs) (i : Inode)
    → get_inode this fs ≡ some i
    → delta < 2 ^ 62
    → update_size this delta fs ≡ some (tt, resize this i delta fs)
unfolding update_size
update_size_grows this delta fs i e h = rw (e, update_size) (rw (positive delta h))
  where
    positive : (d : ℕ) → d < 2 ^ 62 → signed_lt d 0 ≡ false
    positive d k = ground arith

pub update_size_shrinks :
    (this delta : ℕ) (fs : Fs) (i : Inode)
    → get_inode this fs ≡ some i
    → delta ≤ size i
    → size i < 2 ^ 62
    → update_size this (sub64 0 delta) fs ≡ some (tt, resize this i (sub64 0 delta) fs)
unfolding update_size
update_size_shrinks this delta fs i e h k = rw (e, update_size) (rw (enough delta (size i) h k))
  where
    enough :
        (d n : ℕ)
        → d ≤ n
        → n < 2 ^ 62
        → (signed_lt (sub64 0 d) 0 && signed_lt n (sub64 0 (sub64 0 d))) ≡ false
    enough d n h' k' = ground (arith, sub64-sub64 d (omega arith))
