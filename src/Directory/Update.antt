-- ===== src/Directory/Update.antt =====
-- `UpdateChild` of src/directory.cpp on a well-formed directory.
use fuse_cpp_ramfs.Base.{
  ℕ, ◌+◌, ◌≡◌, ◌≢◌, ◌⊎◌, refl, ap, false, none, some, inl, inr, Bool-cases, Option-cases, arith,
  Name, Map, lookup, insert, IsMap, insert-IsMap, name_lt, Above-trans, lookup-Above, name_eq,
  name_eq_iff, Option, [], ◌∷◌,
}
use fuse_cpp_ramfs.State.{Inode, Fs, Abi, directory, Code, success, minus, enoent}
use fuse_cpp_ramfs.Table.{get_inode, change_inode}
use fuse_cpp_ramfs.Table.Laws.{get-change, get-change_self}
use fuse_cpp_ramfs.Attr.{with_kind}
use fuse_cpp_ramfs.Directory.{children_of, on_directory, elem_size, update_child}
use fuse_cpp_ramfs.Directory.Entries.{links}
use fuse_cpp_ramfs.Directory.Size.{entries_size, DirectoryAt}

-- A new number for a name that is there takes no space.
pub entries_size-update :
    (abi : Abi) (name : Name) (ino old : ℕ) (ch : Map ℕ)
    → lookup name ch ≡ some old
    → IsMap ch
    → entries_size abi (insert name ino ch) ≡ entries_size abi ch
unfolding entries_size lookup insert
entries_size-update abi name ino old [] h m = cc
entries_size-update abi name ino old ((k, v) ∷ ch) h m = elim (Bool-cases (name_eq name k)) [
  | inl e ↦ rw e (ap (λ n. elem_size abi n + entries_size abi ch) ((name_eq_iff name k).0 e))
  | inr e ↦ rw e (elim (Bool-cases (name_lt name k)) [
    | inl l ↦ cc (lookup-Above name ch (Above-trans name k ch l m.0), there e)
    | inr l ↦ rw l (omega (arith, entries_size-update abi name ino old ch (there e) m.1))
  ])
]
  where
    there : name_eq name k ≡ false → lookup name ch ≡ some old
    there e = rw e at h

module _ (abi : Abi) (fs : Fs) (this : ℕ) (i : Inode) (ch : Map ℕ)
    (at : DirectoryAt abi fs this i ch) where
  -- The entry has the new number: the directory is well formed with the size that it had, and no
  -- other inode has changed.
  abbrev pub Updated : Name → ℕ → Option (Code × Fs) → Type 0
  Updated name ino r =
      (fs' : Fs) × (i' : Inode) × (r ≡ some (success, fs'))
      × DirectoryAt abi fs' this i' (insert name ino ch)
      × ((j : ℕ) → this ≢ j → get_inode j fs' ≡ get_inode j fs)
      × (links i' ≡ links i)

  updated :
      (name : Name) (ino old : ℕ)
      → lookup name ch ≡ some old
      → Updated name ino
          (some (success, change_inode this (with_kind (directory (insert name ino ch))) fs))
  updated name ino old e =
      let f = with_kind (directory (insert name ino ch)) in
      (
        change_inode this f fs,
        f i,
        refl,
        record {
          found = get-change_self this f fs at.found;
          is_directory = refl;
          layout = record {
            is_map = insert-IsMap name ino ch at.layout.is_map;
            sized = omega (
              arith,
              at.layout.sized,
              entries_size-update abi name ino old ch e at.layout.is_map,
            );
            blocked = at.layout.blocked;
            small = at.layout.small;
          };
        },
        λ j ne. ground (arith, ne, get-change this f fs j),
        refl,
      )

  -- On a well-formed directory a name that is not there is refused with `ENOENT` and no change; any
  -- other gets the new number.
  pub update_child-Updated :
      (name : Name) (ino : ℕ)
      → let r = update_child this name ino fs in
        ((lookup name ch ≡ none) × (r ≡ some (minus enoent, fs)))
        ⊎ ((lookup name ch ≢ none) × Updated name ino r)
  unfolding update_child
  update_child-Updated name ino =
      rw (at.found, on_directory)
        (rw (ap children_of at.is_directory) (elim (Option-cases (lookup name ch)) [
          | inl e ↦ rw e (inl (refl, refl))
          | inr (old, e) ↦ rw e (inr ((λ z. ground arith), updated name ino old e))
        ]))
