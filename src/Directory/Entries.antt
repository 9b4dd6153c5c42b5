-- ===== src/Directory/Entries.antt =====
-- `AddChild` and `RemoveChild` of src/directory.cpp on a well-formed directory.
use fuse_cpp_ramfs.Base.{
  add64-sub64, ◌-◌, IsMap, ℕ, ◌+◌, ◌/◌, ◌^◌, ◌<◌, ◌≡◌, ◌∙◌, ◌⊎◌, ◌≢◌, refl, ap, true, false, Option,
  none, some, ◌==◌, if◌then◌else◌, inl, inr, Bool-cases, Option-cases, arith, Name, Map, lookup,
  insert, erase, insert-IsMap, erase-IsMap, word_mod, add64, sub64, add64_exact,
}
use fuse_cpp_ramfs.State.{
  >>=-some, Inode, Fs, Abi, directory, Code, success, minus, eexist, enospc, enoent, M, pure, ◌>>◌,
}
use fuse_cpp_ramfs.Table.{get_inode, change_inode}
use fuse_cpp_ramfs.Table.Laws.{get-change, get-change_self}
use fuse_cpp_ramfs.Space.{used_blocks, size, check_has_space_for}
use fuse_cpp_ramfs.Attr.{with_kind}
use fuse_cpp_ramfs.Directory.{
  children_of, resize, update_size, on_directory, elem_size, add_entry, add_child, remove_child,
}
use fuse_cpp_ramfs.Directory.Size.{
  entries_size, DirectoryAt, entries_size-insert, entries_size-erase, get_nblocks_exact, resized,
  get-resize, space_sound, free-resize, update_size_grows, update_size_shrinks,
}

abbrev pub links : Inode → ℕ
links i = i.entry_param.attr.st_nlink

module _ (abi : Abi) (fs : Fs) (this : ℕ) (i : Inode) (ch : Map ℕ)
    (at : DirectoryAt abi fs this i ch) where
  on_directory-DirectoryAt :
      {A : Type 0} (k : Inode → Map ℕ → M A) → on_directory this k fs ≡ k i ch fs
  on_directory-DirectoryAt k = rw (at.found, on_directory) (rw (ap children_of at.is_directory))

  -- The directory after its entries and its size have changed.
  abbrev changed : Map ℕ → ℕ → Inode
  changed ch' delta = resized delta (with_kind (directory ch') i)

  abbrev changed_fs : Map ℕ → ℕ → Fs
  changed_fs ch' delta =
      resize this (with_kind (directory ch') i) delta
        (change_inode this (with_kind (directory ch')) fs)

  get-changed_fs :
      (ch' : Map ℕ) (delta j : ℕ)
      → get_inode j (changed_fs ch' delta)
        ≡ (if this == j then some (changed ch' delta) else get_inode j fs)
  get-changed_fs ch' delta j = ground (
    arith,
    get-resize this (with_kind (directory ch') i) delta
        (change_inode this (with_kind (directory ch')) fs) j
        (get-change_self this (with_kind (directory ch')) fs at.found),
    get-change this (with_kind (directory ch')) fs j,
  )

  -- A well-formed directory, where the size has become that of the new entries.
  changed-DirectoryAt :
      (ch' : Map ℕ) (delta n : ℕ)
      → add64 (size i) delta ≡ n
      → n ≡ abi.sizeof_children + entries_size abi ch'
      → n < 2 ^ 62
      → IsMap ch'
      → DirectoryAt abi (changed_fs ch' delta) this (changed ch' delta) ch'
  changed-DirectoryAt ch' delta n e s h m = record {
    found = get-changed_fs ch' delta this ∙ ground arith;
    is_directory = refl;
    layout = record {
      is_map = m;
      sized = e ∙ s;
      blocked = rw e (get_nblocks_exact n (omega arith));
      small = rw e h;
    };
  }

  -- The entry is added: the directory is well formed with the links that it had, its new blocks are
  -- taken from the free ones, and no other inode has changed.
  abbrev pub Added : Name → ℕ → Option (Code × Fs) → Type 0
  Added name ino r =
      (fs' : Fs) × (i' : Inode) × (r ≡ some (success, fs'))
      × DirectoryAt abi fs' this i' (insert name ino ch)
      × (fs'.stbuf.f_bfree + used_blocks i' ≡ fs.stbuf.f_bfree + used_blocks i)
      × ((j : ℕ) → this ≢ j → get_inode j fs' ≡ get_inode j fs)
      × (links i' ≡ links i)

  -- A change of the entries and then of the size, where the assertion holds.
  recount :
      (ch' : Map ℕ) (delta : ℕ)
      → update_size this delta (change_inode this (with_kind (directory ch')) fs)
        ≡ some (tt, changed_fs ch' delta)
      → (update_size this delta >> pure success) (change_inode this (with_kind (directory ch')) fs)
        ≡ some (success, changed_fs ch' delta)
  recount ch' delta e =
      >>=-some (update_size this delta) (λ _. pure success)
        (change_inode this (with_kind (directory ch')) fs) e

  others-changed_fs :
      (ch' : Map ℕ) (delta j : ℕ) → this ≢ j → get_inode j (changed_fs ch' delta) ≡ get_inode j fs
  others-changed_fs ch' delta j ne = ground (arith, ne, get-changed_fs ch' delta j)

  free-changed_fs :
      (ch' : Map ℕ) (delta : ℕ)
      → size i + delta < 2 ^ 62
      → fs.stbuf.f_bfree < word_mod
      → check_has_space_for (some i) delta fs ≡ true
      → (changed_fs ch' delta).stbuf.f_bfree + (size i + delta + 511) / 512
        ≡ fs.stbuf.f_bfree + used_blocks i
  unfolding change_inode
  free-changed_fs ch' delta h w space =
      free-resize this (with_kind (directory ch') i) delta
        (change_inode this (with_kind (directory ch')) fs) h at.layout.blocked
        (space_sound i delta fs h at.layout.blocked space) w

  added :
      (name : Name) (ino : ℕ)
      → size i + elem_size abi name < 2 ^ 62
      → fs.stbuf.f_bfree < word_mod
      → lookup name ch ≡ none
      → check_has_space_for (some i) (elem_size abi name) fs ≡ true
      → Added name ino (
          (update_size this (elem_size abi name) >> pure success)
            (change_inode this (with_kind (directory (insert name ino ch))) fs))
  added name ino h w e space =
      let ch' = insert name ino ch in
      let delta = elem_size abi name in
      (
        changed_fs ch' delta,
        changed ch' delta,
        recount ch' delta (
            update_size_grows this delta (change_inode this (with_kind (directory ch')) fs)
              (with_kind (directory ch') i)
              (get-change_self this (with_kind (directory ch')) fs at.found) (omega arith)),
        changed-DirectoryAt ch' delta (size i + delta) (add64_exact (size i) delta (omega arith))
            (omega (arith, at.layout.sized, entries_size-insert abi name ino ch e)) h
            (insert-IsMap name ino ch at.layout.is_map),
        rw
            (
              add64_exact (size i) delta (omega arith),
              get_nblocks_exact (size i + delta) (omega arith),
            )
            (free-changed_fs ch' delta h w space),
        others-changed_fs ch' delta,
        refl,
      )

  -- On a well-formed directory whose size with the new entry is below 2^62, where the free blocks
  -- fit a word, a name that is there is refused with `EEXIST`, one for which there is no space with
  -- `ENOSPC`, both with no change; any other is added. The assertion of `UpdateSize` does not fail.
  pub add_child-Added :
      (name : Name) (ino : ℕ)
      → size i + elem_size abi name < 2 ^ 62
      → fs.stbuf.f_bfree < word_mod
      → let r = add_child abi this name ino fs in
        ((lookup name ch ≢ none) × (r ≡ some (minus eexist, fs)))
        ⊎ ((lookup name ch ≡ none)
            × (check_has_space_for (some i) (elem_size abi name) fs ≡ false)
            × (r ≡ some (minus enospc, fs)))
        ⊎ ((lookup name ch ≡ none)
            × (check_has_space_for (some i) (elem_size abi name) fs ≡ true)
            × Added name ino r)
  unfolding add_child add_entry
  add_child-Added name ino h w =
      rw (on_directory-DirectoryAt (add_entry abi this name ino))
        (elim (Option-cases (lookup name ch)) [
          | inl e ↦
              rw (e, add_entry)
                (elim (Bool-cases (check_has_space_for (some i) (elem_size abi name) fs)) [
                  | inl space ↦ rw space (inr (inr (refl, refl, added name ino h w e space)))
                  | inr full ↦ rw full (inr (inl (refl, refl, refl)))
                ])
          | inr (old, e) ↦ rw (e, add_entry) (inl ((λ z. ground arith), refl))
        ])

  -- The entry is gone: the directory is well formed with the links that it had, and no other inode
  -- has changed.
  abbrev pub Removed : Name → Option (Code × Fs) → Type 0
  Removed name r =
      (fs' : Fs) × (i' : Inode) × (r ≡ some (success, fs'))
      × DirectoryAt abi fs' this i' (erase name ch)
      × ((j : ℕ) → this ≢ j → get_inode j fs' ≡ get_inode j fs)
      × (links i' ≡ links i)

  removed :
      (name : Name) (old : ℕ)
      → lookup name ch ≡ some old
      → Removed name (
          (update_size this (sub64 0 (elem_size abi name)) >> pure success)
            (change_inode this (with_kind (directory (erase name ch))) fs))
  removed name old e =
      let ch' = erase name ch in
      let delta = sub64 0 (elem_size abi name) in
      let n = size i - elem_size abi name in
      (
        changed_fs ch' delta,
        changed ch' delta,
        recount ch' delta (
            update_size_shrinks this (elem_size abi name)
              (change_inode this (with_kind (directory ch')) fs) (with_kind (directory ch') i)
              (get-change_self this (with_kind (directory ch')) fs at.found)
              (omega (arith, at.layout.sized, entries_size-erase abi name old ch e))
              at.layout.small),
        changed-DirectoryAt ch' delta n
            (add64-sub64 (size i) (elem_size abi name)
              (omega (arith, at.layout.sized, entries_size-erase abi name old ch e))
              (omega (arith, at.layout.small)))
            (omega (arith, at.layout.sized, entries_size-erase abi name old ch e))
            (omega (arith, at.layout.small)) (erase-IsMap name ch at.layout.is_map),
        others-changed_fs ch' delta,
        refl,
      )

  -- On a well-formed directory a name that is not there is refused with `ENOENT` and no change; any
  -- other is removed. The assertion of `UpdateSize` does not fail.
  pub remove_child-Removed :
      (name : Name)
      → let r = remove_child abi this name fs in
        ((lookup name ch ≡ none) × (r ≡ some (minus enoent, fs)))
        ⊎ ((lookup name ch ≢ none) × Removed name r)
  unfolding remove_child
  remove_child-Removed name =
      rw (at.found, on_directory)
        (rw (ap children_of at.is_directory) (elim (Option-cases (lookup name ch)) [
          | inl e ↦ rw e (inl (refl, refl))
          | inr (old, e) ↦ rw e (inr ((λ z. ground arith), removed name old e))
        ]))
