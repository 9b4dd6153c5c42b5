-- ===== src/Keeps/Directory.antt =====
-- The methods of a directory keep every invariant that bears the changes of inodes.
use fuse_cpp_ramfs.Base.{
  arith, ℕ, ◌≡◌, refl, ◌&&◌, none, some, ◌==◌, inl, inr, Option-cases, Bool-cases, not, Name, Map,
  lookup, insert, erase, sub64, add64, signed_lt,
}
use fuse_cpp_ramfs.State.{Inode, Fs, M, ◌>>◌, pure, Abi, directory, success}
use fuse_cpp_ramfs.Table.{get_inode, change_inode}
use fuse_cpp_ramfs.Space.{
  used_blocks, size, update_used_blocks, get_nblocks, buf_block_size, check_has_space_for,
}
use fuse_cpp_ramfs.Attr.{with_attr, with_kind}
use fuse_cpp_ramfs.Directory.{
  with_size, resize, update_size, set_children, on_directory, children_of, add_entry, add_child,
  update_child, remove_child, elem_size,
}
use fuse_cpp_ramfs.Keeps.{Keeps, Frame, Keeps->>=, Post-if}

module _ (P : Fs → Type 0) (frame : Frame P) where
  resize-Keeps :
      (this : ℕ) (i : Inode) (delta : ℕ) (fs : Fs)
      → get_inode this fs ≡ some i
      → P fs
      → P (resize this i delta fs)
  unfolding resize change_inode update_used_blocks
  resize-Keeps this i delta fs e p = elim (Bool-cases (blocks == used_blocks i)) [
    | inl same ↦
        rw same
          (frame.keep_attr this (with_attr (with_size bytes blocks)) fs (λ j f. ground arith) p)
    | inr changed ↦
        rw changed (frame.keep_blocks this (with_attr (with_size bytes blocks)) fs i e p)
  ]
    where
      bytes : ℕ
      bytes = add64 (size i) delta

      blocks : ℕ
      blocks = get_nblocks bytes buf_block_size

  pub update_size-Keeps : (this delta : ℕ) → Keeps P (update_size this delta)
  unfolding update_size
  update_size-Keeps this delta fs p = elim (Option-cases (get_inode this fs)) [
    | inl e ↦ rw (e, update_size) tt
    | inr (i, e) ↦
        rw (e, update_size)
          (Post-if P (signed_lt delta 0 && signed_lt (size i) (sub64 0 delta)) none _ tt
            (resize-Keeps this i delta fs e p))
  ]

  pub set_children-Keeps : (this : ℕ) (ch : Map ℕ) → Keeps P (set_children this ch)
  set_children-Keeps this ch fs p =
      frame.keep_attr this (with_kind (directory ch)) fs (λ i _. refl) p

  pub on_directory-Keeps :
      {A : Type 0} (this : ℕ) (k : Inode → Map ℕ → M A)
      → ((i : Inode) (ch : Map ℕ) → Keeps P (k i ch))
      → Keeps P (on_directory this k)
  on_directory-Keeps this k h fs p = elim (Option-cases (get_inode this fs)) [
    | inl e ↦ rw (e, on_directory) tt
    | inr (i, e) ↦
        rw (e, on_directory)
          (elim (Option-cases (children_of i.kind)) [
            | inl c ↦ rw c tt
            | inr (ch, c) ↦ rw c (h i ch fs p)
          ])
  ]

  -- The change of the children, with that of the size.
  recount-Keeps :
      (this : ℕ) (ch : Map ℕ) (delta : ℕ)
      → Keeps P (do set_children this ch; update_size this delta; pure success)
  recount-Keeps this ch delta =
      Keeps->>= P (set_children this ch) (λ _. update_size this delta >> pure success)
        (set_children-Keeps this ch)
        λ _.
          Keeps->>= P (update_size this delta) (λ _. pure success) (update_size-Keeps this delta)
            λ _ fs p. p

  pub add_child-Keeps :
      (abi : Abi) (this : ℕ) (name : Name) (ino : ℕ) → Keeps P (add_child abi this name ino)
  unfolding add_child add_entry
  add_child-Keeps abi this name ino = on_directory-Keeps this _ λ i ch fs p.
      elim (Option-cases (lookup name ch)) [
        | inl e ↦
            rw (e, add_entry)
              (Post-if P (not (check_has_space_for (some i) (elem_size abi name) fs)) _ _ p
                (recount-Keeps this (insert name ino ch) (elem_size abi name) fs p))
        | inr (old, e) ↦ rw (e, add_entry) p
      ]

  pub update_child-Keeps : (this : ℕ) (name : Name) (ino : ℕ) → Keeps P (update_child this name ino)
  unfolding update_child
  update_child-Keeps this name ino = on_directory-Keeps this _ λ i ch fs p.
      elim (Option-cases (lookup name ch)) [
        | inl e ↦ rw e p
        | inr (old, e) ↦ rw e (set_children-Keeps this (insert name ino ch) fs p)
      ]

  pub remove_child-Keeps :
      (abi : Abi) (this : ℕ) (name : Name) → Keeps P (remove_child abi this name)
  unfolding remove_child
  remove_child-Keeps abi this name = on_directory-Keeps this _ λ i ch fs p.
      elim (Option-cases (lookup name ch)) [
        | inl e ↦ rw e p
        | inr (old, e) ↦
            rw e (recount-Keeps this (erase name ch) (sub64 0 (elem_size abi name)) fs p)
      ]
